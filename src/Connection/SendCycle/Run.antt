-- ===== src/Connection/SendCycle/Run.antt =====
-- The send cycle interleaved with the other goroutines of a connection, as a step relation.
use lachain_communication_hu.Base.{
  ℕ, ◌-◌, ◌<◌, ◌≡◌, refl, ◌⊎◌, inl, inr, Bool, Option, none, some, List, [], ◌∷◌, ◌++◌, arith,
  Outcome, ok, err, panic, Bool-cases, nat_eq, text_keys,
}
use lachain_communication_hu.Communication.Frame.{MessageFrame, ReadError, kind_of_byte}
use lachain_communication_hu.Utils.Platform.{Platform}
use lachain_communication_hu.Utils.Queue.{MessageEnvelop}
use lachain_communication_hu.Connection.Spam.{admit}
use lachain_communication_hu.Connection.State.{
  Connection, Event, send, add_to_queue, ban_peer, remove_from_ban_list, set_inbound_stream,
  reset_inbound_stream,
}
use lachain_communication_hu.Connection.Outbound.{Network}
use lachain_communication_hu.Connection.Delivery.{dispatch-Delivers}
use lachain_communication_hu.Connection.Receive.{receive_round, receive_frame, dispatch, measured}
use lachain_communication_hu.Connection.SendCycle.{
  Sender, disconnect_threshold, prepare, fetch, fetched, deliver,
}
use lachain_communication_hu.Connection.SendCycle.Retention.{
  InQueue, InQueue-append, Pending, Confirmed, deliver-AtHand, deliver-queued,
}
use lachain_communication_hu.Connection.SendCycle.Fetching.{prepare-Pending, fetch-Pending}

-- One step of the send cycle, of the receive cycle, or of a caller. A delivery is in time if it ends
-- less than two minutes after the last success; a later one that fails drops the whole queue.
pub data Step (lib : Platform) (chain_id : ℕ) (c : Connection) (s : Sender)
    : Connection → Sender → Type 0 where
  prepares : (net : Network) → Step lib chain_id c s (prepare net c s).1 (prepare net c s).2
  fetches :
      {c' : Connection} {s' : Sender} (now : ℕ)
      → fetch now c s ≡ fetched c' s'
      → Step lib chain_id c s c' s'
  delivers :
      (now : ℕ) (written : Bool) (d : List ℕ)
      → s.msg_to_send ≡ some d
      → now - s.last_success < disconnect_threshold
      → Step lib chain_id c s (deliver now written d c s).0 (deliver now written d c s).1
  receives :
      {c' : Connection} (o : Outcome ReadError MessageFrame) (events : List Event)
      → receive_round lib chain_id o c ≡ some (c', events)
      → Step lib chain_id c s c' s
  sends : (msg : MessageEnvelop) → Step lib chain_id c s (send msg c) s
  bans : Step lib chain_id c s (ban_peer c) s
  unbans : Step lib chain_id c s (remove_from_ban_list c) s
  reconnects : (stream : ℕ) → Step lib chain_id c s (set_inbound_stream stream c).0 s

pub data Run (lib : Platform) (chain_id : ℕ) (c : Connection) (s : Sender)
    : Connection → Sender → Type 0 where
  here : Run lib chain_id c s c s
  next :
      {c1 c2 : Connection} {s1 s2 : Sender}
      → Run lib chain_id c s c1 s1
      → Step lib chain_id c1 s1 c2 s2
      → Run lib chain_id c s c2 s2

-- A result of the receive cycle whose queue still holds what was in it.
abbrev Holds : MessageEnvelop → Option (Connection × List Event) → Type 0
Holds e none = Unit {0}
Holds e (some (c, events)) = InQueue e c.message_queue

send-queue :
    (msg : MessageEnvelop) (c : Connection)
    → ((send msg c).message_queue ≡ c.message_queue)
      ⊎ ((send msg c).message_queue ≡ c.message_queue ++ msg ∷ [])
unfolding send add_to_queue
send-queue msg c = ground arith

reset-queue : (c : Connection) → (reset_inbound_stream c).0.message_queue ≡ c.message_queue
unfolding reset_inbound_stream
reset-queue c = ground arith

send-queued :
    (e msg : MessageEnvelop) (c : Connection)
    → InQueue e c.message_queue
    → InQueue e (send msg c).message_queue
send-queued e msg c h = elim (send-queue msg c) [
  | inl same ↦ rw same h
  | inr more ↦ rw more (InQueue-append e c.message_queue _ h)
]

set_inbound-queue :
    (stream : ℕ) (c : Connection) → (set_inbound_stream stream c).0.message_queue ≡ c.message_queue
unfolding set_inbound_stream
set_inbound-queue stream c = ground arith

module _ (lib : Platform) (chain_id : ℕ) where
  dispatch-Holds :
      (e : MessageEnvelop) (f : MessageFrame) (c : Connection)
      → InQueue e c.message_queue
      → (r : Option (Connection × List Event)) → dispatch lib chain_id (kind_of_byte f.kind) f c ≡ r
      → Holds e r
  dispatch-Holds e f c h none eq = tt
  dispatch-Holds e f c h (some (c', events)) eq =
      rw ((rw eq at (dispatch-Delivers lib chain_id (kind_of_byte f.kind) f c)).1)
        (InQueue-append e c.message_queue _ h)

  measured-Holds :
      (e : MessageEnvelop) (f : MessageFrame) (r : Option (Connection × List Event))
      → Holds e r
      → Holds e (measured f r)
  measured-Holds e f none h = tt
  measured-Holds e f (some x) h = h

  receive_round-Holds :
      (e : MessageEnvelop) (o : Outcome ReadError MessageFrame) (c : Connection)
      → InQueue e c.message_queue
      → Holds e (receive_round lib chain_id o c)
  unfolding receive_round receive_frame
  receive_round-Holds e panic c h = tt
  receive_round-Holds e (err x) c h = rw (reset-queue c) h
  receive_round-Holds e (ok f) c h =
      measured-Holds e f _ (elim (Bool-cases (admit f.msg_id c.filter).0) [
        | inl new ↦
            rw new (dispatch-Holds e f (record c { filter = (admit f.msg_id c.filter).1 }) h _ refl)
        | inr old ↦ rw old h
      ])

  -- No step loses a consensus message that is at hand or queued, unless its confirmation is there.
  pub Step-Pending :
      (d : List ℕ) (id : ℕ) {c : Connection} {s : Sender} {c' : Connection} {s' : Sender}
      → Step lib chain_id c s c' s'
      → Pending d id c s
      → Pending d id c' s' ⊎ Confirmed id c
  unfolding ban_peer remove_from_ban_list
  Step-Pending d id {c} {s} (prepares net) p = inl (prepare-Pending net d id c s p)
  Step-Pending d id {c} {s} {c'} {s'} (fetches now e) p = inl (fetch-Pending now d id c c' s s' p e)
  Step-Pending d id {c} {s} (delivers now written b e early) (inl h) =
      let same : b ≡ d = ground (arith, e, h.payload) in
      rw same (deliver-AtHand now written d c s early id h)
  Step-Pending d id {c} {s} (delivers now written b e early) (inr h) =
      inl (inr (deliver-queued now written b c s early _ h))
  Step-Pending d id (receives o events e) (inl h) = inl (inl h)
  Step-Pending d id {c} (receives o events e) (inr h) =
      inl (inr (rw e at (receive_round-Holds _ o c h)))
  Step-Pending d id (sends msg) (inl h) = inl (inl h)
  Step-Pending d id {c} (sends msg) (inr h) = inl (inr (send-queued _ msg c h))
  Step-Pending d id bans p = inl p
  Step-Pending d id unbans p = inl p
  Step-Pending d id (reconnects stream) (inl h) = inl (inl h)
  Step-Pending d id {c} (reconnects stream) (inr h) = inl (inr (rw (set_inbound-queue stream c) h))

  -- From a point where a consensus message is at hand or queued, any interleaving of the send cycle
  -- with the receive cycle, Send, bans and new inbound streams, in which every delivery is in time,
  -- leaves the message at hand or queued, unless at some point of it the message's confirmation was
  -- recorded.
  pub Run-Pending :
      (d : List ℕ) (id : ℕ) {c : Connection} {s : Sender} {c' : Connection} {s' : Sender}
      → Run lib chain_id c s c' s'
      → Pending d id c s
      → Pending d id c' s'
        ⊎ ((m : Connection) × (t : Sender) × Run lib chain_id c s m t × Confirmed id m)
  Run-Pending d id here p = inl p
  Run-Pending d id (next {c1} {s1 = s1} run st) p = elim (Run-Pending d id run p) [
    | inl q ↦ elim (Step-Pending d id st q) [
      | inl after ↦ inl after
      | inr known ↦ inr (c1, s1, run, known)
    ]
    | inr earlier ↦ inr earlier
  ]
