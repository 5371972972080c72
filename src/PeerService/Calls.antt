-- ===== src/PeerService/Calls.antt =====
-- The methods of the service as steps, and the numbers of the peers along any sequence of them.
use mathlib.Core.Path.{subst}
use lachain_communication_hu.PeerService.State.{
  is_banned_key, PeerService, Emitted, find_by_public_key, stored, get_next_peer_id, send_to,
  store_for, store_message, postpone,
}
use lachain_communication_hu.Base.{
  ℕ, ◌+◌, ◌^◌, ◌<◌, ◌≡◌, refl, sym, ap, ◌∙◌, inl, inr, Bool, not, Option, none, some, List, [], ◌∷◌,
  arith, All, if◌then◌else◌, Bool-cases, Text, lookup, nat_eq, text_keys,
}
use lachain_communication_hu.Utils.Queue.{MessageEnvelop}
use lachain_communication_hu.Utils.Platform.{Platform}
use lachain_communication_hu.Connection.State.{
  Connection, Event, reset, on_public_key_recovered, on_peer_list_update, send, add_to_queue,
  new_at, from_stream, init, set_signature, set_inbound_stream, set_peer_address,
  reset_inbound_stream,
}
use lachain_communication_hu.Connection.Metadata.{Metadata}
use lachain_communication_hu.Connection.Handshake.{try_set_peer_public_key}
use lachain_communication_hu.PeerService.Broadcast.{broadcast_to, lookup-broadcast}
use lachain_communication_hu.PeerService.Numbers.{
  Distinct, Numbered, with_connection-Numbered, register-Numbered, find-lookup,
}
use lachain_communication_hu.PeerService.Operations.{
  add_connection, known_peer, onto_stream, set_address_of, send_all, recovered, recover_for,
  flag_found, broadcast, broadcast_message, passed_over, sign_all, emitted_first,
}
use lachain_communication_hu.Connection.State

-- No operation on a connection changes its number.
send-uniq : (m : MessageEnvelop) (c : Connection) → (send m c).uniq_id ≡ c.uniq_id
unfolding send add_to_queue
send-uniq m c = ground arith

send_all-uniq : (ms : List MessageEnvelop) (c : Connection) → (send_all ms c).uniq_id ≡ c.uniq_id
unfolding send_all
send_all-uniq [] c = refl
send_all-uniq (m ∷ ms) c = send_all-uniq ms (send m c) ∙ send-uniq m c

set_inbound-uniq : (s : ℕ) (c : Connection) → (set_inbound_stream s c).0.uniq_id ≡ c.uniq_id
unfolding set_inbound_stream
set_inbound-uniq s c = ground arith

set_signature-uniq : (sig : List ℕ) (c : Connection) → (set_signature sig c).0.uniq_id ≡ c.uniq_id
unfolding set_signature
set_signature-uniq sig c = ground arith

new_at-uniq :
    (id protocol : Text) (mine address : List ℕ) (sig : Option (List ℕ)) (u : ℕ)
    → (new_at id protocol mine address sig u).0.uniq_id ≡ u
unfolding new_at
new_at-uniq id protocol mine address sig u = ground arith

-- What holds of the service when a method does not panic.
abbrev pub Holds : (PeerService → Type 0) → Option (PeerService × Emitted) → Type 0
Holds P none = Unit {0}
Holds P (some (ps, emitted)) = P ps

emitted_first-Holds :
    (P : PeerService → Type 0) (emitted : Emitted) (o : Option (PeerService × Emitted))
    → Holds P o
    → Holds P (emitted_first emitted o)
emitted_first-Holds P emitted none h = tt
emitted_first-Holds P emitted (some (ps, more)) h = h

-- One step and then others.
pub after-Holds :
    (P Q : PeerService → Type 0) (o : Option (PeerService × Emitted))
    (k : PeerService → Option (PeerService × Emitted))
    → Holds P o
    → ((ps : PeerService) → P ps → Holds Q (k ps))
    → Holds Q (elim o [ none ↦ none | some (ps, emitted) ↦ emitted_first emitted (k ps) ])
after-Holds P Q none k h step = tt
after-Holds P Q (some (ps, emitted)) k h step = emitted_first-Holds Q emitted (k ps) (step ps h)

from_stream-uniq :
    (id : Text) (stream : ℕ) (remote mine : List ℕ) (sig : Option (List ℕ)) (protocol : Text)
    (u : ℕ)
    → (from_stream id stream remote mine sig protocol u).0.uniq_id ≡ u
unfolding from_stream
from_stream-uniq id stream remote mine sig protocol u = ground arith

pub try_set-uniq :
    (lib : Platform) (chain_id : ℕ) (key : Text) (c : Connection)
    → (try_set_peer_public_key lib chain_id key c).1.uniq_id ≡ c.uniq_id
unfolding try_set_peer_public_key reset_inbound_stream
try_set-uniq lib chain_id key c = ground arith

-- The events of setting a key.
abbrev pub KeyEvent : Event → Type 0
KeyEvent (on_peer_list_update peers) = ⊥
KeyEvent _ = Unit {0}

reset-KeyEvent : (c : Connection) → All KeyEvent (reset_inbound_stream c).1
unfolding reset_inbound_stream
reset-KeyEvent c = ground arith

pub try_set-KeyEvent :
    (lib : Platform) (chain_id : ℕ) (key : Text) (c : Connection)
    → All KeyEvent (try_set_peer_public_key lib chain_id key c).2
unfolding try_set_peer_public_key reset_inbound_stream
try_set-KeyEvent lib chain_id key c = ground arith

-- The numbers depend on three fields of the service.
pub other_fields :
    (ps ps' : PeerService)
    → Numbered ps
    → ps'.connections ≡ ps.connections
    → ps'.peer_ids ≡ ps.peer_ids
    → ps'.total_peers ≡ ps.total_peers
    → Numbered ps'
other_fields ps ps' n a b c = record {
  leads = λ u lt. rw (a, b) (n.leads u (omega arith));
  distinct = rw a n.distinct;
}

-- Connections that are all kept, each under its key and with its number.
pub mapped-Numbered :
    (ps : PeerService) (conns : List (Text × Connection))
    → Numbered ps
    → Distinct conns
    → ((id : Text) (c : Connection)
        → lookup id ps.connections ≡ some c
        → (c' : Connection) × (lookup id conns ≡ some c') × (c'.uniq_id ≡ c.uniq_id))
    → Numbered (record ps { connections = conns })
mapped-Numbered ps conns n d kept = record {
  leads = λ u lt.
      let l = n.leads u lt in
      let (c', found, same) = kept l.id l.connection l.place in
      record { id = l.id; connection = c'; peer = l.peer; place = found; number = same ∙ l.number };
  distinct = d;
}

broadcast-Distinct :
    (msg : MessageEnvelop) (conns : List (Text × Connection))
    → Distinct conns
    → Distinct (broadcast msg conns)
unfolding broadcast
broadcast-Distinct msg [] d = tt
broadcast-Distinct msg ((id, c) ∷ conns) d =
    (lookup-broadcast msg id conns ∙ ap (broadcast_to msg) d.0, broadcast-Distinct msg conns d.1)

-- What the loop of SetSignature makes of the connection under a key.
abbrev pub signed : List ℕ → Option Connection → Option Connection
signed sig none = none
signed sig (some c) = some (set_signature sig c).0

lookup-sign_all :
    (sig : List ℕ) (id : Text) (conns : List (Text × Connection))
    → lookup id (sign_all sig conns).0 ≡ signed sig (lookup id conns)
unfolding sign_all lookup
lookup-sign_all sig id [] = refl
lookup-sign_all sig id ((j, c) ∷ conns) = ground (arith, lookup-sign_all sig id conns)

sign_all-Distinct :
    (sig : List ℕ) (conns : List (Text × Connection))
    → Distinct conns
    → Distinct (sign_all sig conns).0
unfolding sign_all
sign_all-Distinct sig [] d = tt
sign_all-Distinct sig ((id, c) ∷ conns) d =
    (lookup-sign_all sig id conns ∙ ap (signed sig) d.0, sign_all-Distinct sig conns d.1)

module _ (ps : PeerService) (n : Numbered ps) where
  pub add_connection-Numbered :
      (key id : Text) (address sig : Option (List ℕ))
      → ps.total_peers + 1 < 2 ^ 32
      → lookup key ps.connections ≡ none
      → Holds Numbered (add_connection key id address sig ps)
  unfolding add_connection get_next_peer_id
  add_connection-Numbered key id none sig small fresh = tt
  add_connection-Numbered key id (some address) sig small fresh =
      register-Numbered ps n key
        (new_at id ps.protocol ps.my_external_address address sig ps.total_peers) small fresh
        (new_at-uniq id ps.protocol ps.my_external_address address sig ps.total_peers)

  pub onto_stream-Numbered :
      (o : Option Connection) (key : Text) (stream : ℕ) (address : List ℕ) (id : Text)
      → ps.total_peers + 1 < 2 ^ 32
      → lookup key ps.connections ≡ o
      → Numbered (onto_stream o key stream address id ps).0
  unfolding get_next_peer_id
  onto_stream-Numbered (some c) key stream address id small found =
      with_connection-Numbered ps n key c _ found (set_inbound-uniq stream c)
  onto_stream-Numbered none key stream address id small fresh =
      register-Numbered ps n key
        (from_stream id stream address ps.my_external_address ps.signature ps.protocol
          ps.total_peers)
        small fresh
        (from_stream-uniq id stream address ps.my_external_address ps.signature ps.protocol
          ps.total_peers)

  pub known_peer-Numbered :
      (o : Option Connection) (key : Text) (peer : Metadata)
      → ps.total_peers + 1 < 2 ^ 32
      → lookup key ps.connections ≡ o
      → Holds Numbered (known_peer o key peer ps)
  known_peer-Numbered (some c) key peer small found =
      with_connection-Numbered ps n key c (set_address_of peer.addr c) found (ground arith)
  known_peer-Numbered none key peer small fresh =
      add_connection-Numbered key peer.id peer.addr ps.signature small fresh

  pub recover_for-Numbered :
      (o : Option Connection) (id key : Text)
      → lookup id ps.connections ≡ o
      → Numbered (recover_for o id key ps)
  unfolding recover_for State.ban_peer
  recover_for-Numbered none id key e = other_fields ps _ n refl refl refl
  recover_for-Numbered (some c) id key e =
      other_fields _ _
        (with_connection-Numbered ps n id c
          (if is_banned_key key ps
            then State.ban_peer (send_all (stored key ps) c)
            else send_all (stored key ps) c)
          e (ground (arith, send_all-uniq (stored key ps) c)))
        refl refl refl

  pub recovered-Numbered : (id key : Text) → Numbered (recovered id key ps)
  unfolding recovered
  recovered-Numbered id key = elim (Bool-cases ps.running) [
    | inl up ↦
        subst
          (λ (b : Bool).
            Numbered (if not b then ps else recover_for (lookup id ps.connections) id key ps))
          (sym up) (recover_for-Numbered _ id key refl)
    | inr down ↦
        subst
          (λ (b : Bool).
            Numbered (if not b then ps else recover_for (lookup id ps.connections) id key ps))
          (sym down) n
  ]

  pub found-Numbered :
      (o : Option (Text × Connection)) (key : Text) (f : Connection → Connection)
      → find_by_public_key key ps.connections ≡ o
      → ((c : Connection) → (f c).uniq_id ≡ c.uniq_id)
      → Numbered (flag_found o f ps).1
  found-Numbered none key f e same = n
  found-Numbered (some (id, c)) key f e same =
      with_connection-Numbered ps n id c (f c) (find-lookup key id c ps.connections n.distinct e)
        (same c)

  pub broadcast-Numbered : (msg : MessageEnvelop) → Numbered (broadcast_message msg ps)
  unfolding broadcast_message
  broadcast-Numbered msg =
      mapped-Numbered ps (broadcast msg ps.connections) n
        (broadcast-Distinct msg ps.connections n.distinct)
        λ id c found. (
          if passed_over c then c else send msg c,
          lookup-broadcast msg id ps.connections ∙ ap (broadcast_to msg) found,
          ground (arith, send-uniq msg c),
        )

  pub sign_all-Numbered :
      (sig : List ℕ) → Numbered (record ps { connections = (sign_all sig ps.connections).0 })
  sign_all-Numbered sig =
      mapped-Numbered ps (sign_all sig ps.connections).0 n
        (sign_all-Distinct sig ps.connections n.distinct)
        λ id c found. (
          (set_signature sig c).0,
          lookup-sign_all sig id ps.connections ∙ ap (signed sig) found,
          set_signature-uniq sig c,
        )

  pub store_for-Numbered :
      (o : Option (Text × Connection)) (key : Text) (msg : MessageEnvelop)
      → find_by_public_key key ps.connections ≡ o
      → Numbered (store_for o key msg ps)
  unfolding postpone
  store_for-Numbered none key msg e = elim (Bool-cases (is_banned_key key ps)) [
    | inl banned ↦ rw banned n
    | inr free ↦ rw free (other_fields ps _ n refl refl refl)
  ]
  store_for-Numbered (some (id, c)) key msg e =
      with_connection-Numbered ps n id c (send msg c)
        (find-lookup key id c ps.connections n.distinct e) (send-uniq msg c)

  pub send_to-Numbered :
      (o : Option (Text × Connection)) (key : Text) (msg : MessageEnvelop)
      → find_by_public_key key ps.connections ≡ o
      → Numbered (send_to o key msg ps).1
  unfolding store_message
  send_to-Numbered none key msg e = store_for-Numbered _ key msg refl
  send_to-Numbered (some (id, c)) key msg e =
      with_connection-Numbered ps n id c (send msg c)
        (find-lookup key id c ps.connections n.distinct e) (send-uniq msg c)
