-- ===== src/Connection/Outbound.antt =====
-- The outbound stream in connection.go: connect with its relays, and checkOutboundStream. What the
-- network answers is an argument.
use lachain_communication_hu.Base.{
  ℕ, ◌+◌, Bool, true, false, not, Option, none, some, List, [], ◌∷◌, ◌++◌, if◌then◌else◌, ◌==◌,
  nat_eq, text_keys,
}
use lachain_communication_hu.Connection.State.{
  not_connected, just_connected, handshake_complete, cas, Event, Connection, reset_inbound_stream,
  reset_outbound_stream,
}

abbrev pub max_try_to_connect : ℕ
max_try_to_connect = 3

-- The loop over the shuffled relays: `answers` says of each, in that order, whether the target is
-- reached through it, and `err_count` counts the failures.
unfoldable pub connect_through : ℕ → List Bool → Bool
connect_through err_count [] = false
connect_through err_count (reached ∷ answers) =
    let rest = connect_through (err_count + 1) answers in
    if reached then true else if err_count + 1 == max_try_to_connect then false else rest

-- What the network answers in one check of the outbound stream.
pub record Network : Type 0 where
  pub connected : Bool
  pub direct : Bool
  pub relays : List Bool
  pub new_stream : Option ℕ

-- connect: a known address is dialled, an unknown one is reached through the relays.
unfoldable pub connect : Option (List ℕ) → Network → Bool
unfolding connect_through
connect none net = connect_through 0 net.relays
connect (some address) net = net.direct

-- The second half of checkOutboundStream: a stream is opened if there is none.
unfoldable pub open_stream : Network → Connection → Bool × Connection
open_stream net c = elim c.outbound_stream [
  | some s ↦ (true, c)
  | none ↦ elim net.new_stream [
    | none ↦ (false, c)
    | some s ↦ (
      true,
      record c {
        outbound_stream = some s;
        signature_sent = false;
        status = cas handshake_complete just_connected (cas not_connected just_connected c.status);
      },
    )
  ]
]

abbrev with_events : List Event → Bool × Connection → Bool × Connection × List Event
with_events events (b, c) = (b, c, events)

-- checkOutboundStream: true stands for no error.
unfoldable pub check_outbound_stream : Network → Connection → Bool × Connection × List Event
unfolding reset_inbound_stream reset_outbound_stream connect open_stream
check_outbound_stream net c =
    if net.connected
    then with_events [] (open_stream net c)
    else let (c1, events1) = reset_inbound_stream c in
      let (c2, events2) = reset_outbound_stream c1 in
      if not (connect c2.peer_address net)
      then (false, c2, events1 ++ events2)
      else with_events (events1 ++ events2) (open_stream net (record c2 { signature_sent = false }))
