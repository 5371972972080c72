-- ===== src/PeerService/Found.antt =====
-- The connection that is found by its peer's public key, when it changes.
use lachain_communication_hu.Base.{
  ◌≡◌, refl, ap, ◌∙◌, inl, inr, true, false, none, some, List, [], ◌∷◌, ◌++◌, arith, All,
  Bool-cases, Text, text_eq, text_eq_iff, lookup, insert, nat_eq, text_keys,
}
use lachain_communication_hu.Utils.Queue.{MessageEnvelop}
use lachain_communication_hu.Connection.State.{Connection, send, add_to_queue}
use lachain_communication_hu.PeerService.State.{
  PeerService, find_by_public_key, stored, is_banned_key,
}
use lachain_communication_hu.PeerService.Operations.{send_all, recovered, recover_for}
use lachain_communication_hu.PeerService.Stored.{
  HasData, send_all-queue, send_all-ban, recovered-running,
}

pub find-key :
    (key id : Text) (c : Connection) (conns : List (Text × Connection))
    → find_by_public_key key conns ≡ some (id, c)
    → text_eq c.peer_public_key key ≡ true
unfolding find_by_public_key
find-key key id c [] h = cc
find-key key id c ((i, d) ∷ conns) h = elim (Bool-cases (text_eq d.peer_public_key key)) [
  | inl e ↦ cc
  | inr e ↦ find-key key id c conns (rw e at h)
]

-- The connection that is found is still found when it has changed.
pub find-insert :
    (key id : Text) (c c' : Connection) (conns : List (Text × Connection))
    → text_eq c'.peer_public_key key ≡ true
    → find_by_public_key key conns ≡ some (id, c)
    → find_by_public_key key (insert id c' conns) ≡ some (id, c')
unfolding find_by_public_key insert
find-insert key id c c' [] same h = rw same
find-insert key id c c' ((i, d) ∷ conns) same h =
    ground (arith, text_eq_iff i id, find-insert key id c c' conns)

-- A connection that gets a key that no connection has is found by it.
pub find-insert_new :
    (key id : Text) (c : Connection) (conns : List (Text × Connection))
    → text_eq c.peer_public_key key ≡ true
    → find_by_public_key key conns ≡ none
    → find_by_public_key key (insert id c conns) ≡ some (id, c)
unfolding find_by_public_key insert
find-insert_new key id c [] same h = rw same
find-insert_new key id c ((i, d) ∷ conns) same h =
    ground (arith, text_eq_iff i id, find-insert_new key id c conns)

send-key : (m : MessageEnvelop) (c : Connection) → (send m c).peer_public_key ≡ c.peer_public_key
unfolding send add_to_queue
send-key m c = ground arith

send_all-key :
    (ms : List MessageEnvelop) (c : Connection)
    → (send_all ms c).peer_public_key ≡ c.peer_public_key
unfolding send_all
send_all-key [] c = refl
send_all-key (m ∷ ms) c = send_all-key ms (send m c) ∙ send-key m c

-- A running service that recovers the key of the connection that is found by it: this is found by it
-- still, with the messages kept under the key at the end of its queue.
pub recovered-found :
    (id key : Text) (c : Connection) (ps : PeerService)
    → ps.running ≡ true
    → lookup id ps.connections ≡ some c
    → find_by_public_key key ps.connections ≡ some (id, c)
    → c.is_banned ≡ false
    → is_banned_key key ps ≡ false
    → All HasData (stored key ps)
    → (c' : Connection) × (find_by_public_key key (recovered id key ps).connections ≡ some (id, c'))
      × (c'.message_queue ≡ c.message_queue ++ stored key ps)
      × (c'.is_banned ≡ false)
unfolding recover_for
recovered-found id key c ps up there found free allowed given =
    rw (recovered-running id key c ps up there, allowed)
      (
        send_all (stored key ps) c,
        find-insert key id c (send_all (stored key ps) c) ps.connections
            (ap (λ (k : Text). text_eq k key) (send_all-key (stored key ps) c)
              ∙ find-key key id c ps.connections found)
            found,
        send_all-queue (stored key ps) c given free,
        send_all-ban (stored key ps) c ∙ free,
      )
