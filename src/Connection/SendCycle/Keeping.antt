-- ===== src/Connection/SendCycle/Keeping.antt =====
-- The send cycle keeps what Lifecycle.Kept says of a connection.
use lachain_communication_hu.Base.{
  ℕ, ◌+◌, ◌≡◌, refl, sym, ap, ◌∙◌, Bool, true, false, Option, none, some, List, [], ◌∷◌, arith,
  nat_eq, text_keys,
}
use lachain_communication_hu.Utils.Queue.{MessageEnvelop, MessageQueue, dequeue_or_wait}
use lachain_communication_hu.Connection.State.{
  Connection, Event, add_to_queue, reset_outbound_stream,
}
use lachain_communication_hu.Connection.Outbound.{Network, check_outbound_stream}
use lachain_communication_hu.Connection.SendCycle.{
  Sender, prepare, fetch, fetched, fetch_for, take_payload, take_value, deliver, attempt, choose,
  Choice, confirmed, write, transmit, sent, not_sent, after_check, sign_on,
}
use lachain_communication_hu.Connection.Lifecycle.Kept.{
  Kept, Kept-trans, same_fields, check_outbound_stream-Kept,
}

sign_on-same :
    (r : Bool × Connection × Sender × List Event)
    → ((sign_on r).1.status ≡ r.1.status) × ((sign_on r).1.peer_public_key ≡ r.1.peer_public_key)
sign_on-same (go_on, c, s, events) = ground arith

after_check-same :
    (r : Bool × Connection × List Event) (s : Sender)
    → ((after_check r s).1.status ≡ r.1.status)
      × ((after_check r s).1.peer_public_key ≡ r.1.peer_public_key)
after_check-same (true, c, events) s = (refl, refl)
after_check-same (false, c, events) s = (refl, refl)

pub prepare-Kept : (net : Network) (c : Connection) (s : Sender) → Kept c (prepare net c s).1
unfolding prepare
prepare-Kept net c s =
    let checked = check_outbound_stream net c in
    let a = after_check-same checked s in
    let b = sign_on-same (after_check checked s) in
    Kept-trans c checked.1 (prepare net c s).1 (check_outbound_stream-Kept net c)
      (same_fields checked.1 (prepare net c s).1 (b.0 ∙ a.0) (b.1 ∙ a.1))

-- The part of a connection that no step of a fetch or of a delivery touches.
abbrev Same : Connection → Connection → Type 0
Same c c' = (c'.status ≡ c.status) × (c'.peer_public_key ≡ c.peer_public_key)

take_payload-Same :
    (o : Option (List ℕ)) (now : ℕ) (v : MessageEnvelop) (q : MessageQueue) (c c' : Connection)
    (s s' : Sender)
    → take_payload o now v q c s ≡ fetched c' s'
    → Same c c'
take_payload-Same none now v q c c' s s' e = cc
take_payload-Same (some d) now v q c c' s s' e = ground arith

fetch_for-Same :
    (o : Option (List ℕ)) (q : MessageQueue) (now : ℕ) (c c' : Connection) (s s' : Sender)
    → c.message_queue ≡ q
    → fetch_for o now c s ≡ fetched c' s'
    → Same c c'
unfolding dequeue_or_wait
fetch_for-Same (some d) q now c c' s s' eq e = ground arith
fetch_for-Same none [] now c c' s s' eq e = cc
fetch_for-Same none (v ∷ q) now c c' s s' eq e =
    take_payload-Same v.payload now v q c c' s s'
      (sym (ap (λ (l : MessageQueue). take_value now c s (dequeue_or_wait l)) eq) ∙ e)

pub fetch-Kept :
    (now : ℕ) (c c' : Connection) (s s' : Sender) → fetch now c s ≡ fetched c' s' → Kept c c'
unfolding fetch
fetch-Kept now c c' s s' e =
    let same = fetch_for-Same s.msg_to_send c.message_queue now c c' s s' refl e in
    same_fields c c' same.0 same.1

transmit-Same :
    (now : ℕ) (written : Bool) (d : List ℕ) (ch : Choice) (c : Connection) (s : Sender)
    → Same c (transmit now written d ch c s).0
unfolding sent not_sent add_to_queue reset_outbound_stream
transmit-Same now written d confirmed c s = (refl, refl)
transmit-Same now written d (write f true) c s = ground arith
transmit-Same now written d (write f false) c s = ground arith

attempt-Same :
    (o : Option ℕ) (now : ℕ) (written : Bool) (d : List ℕ) (c : Connection) (s : Sender)
    → Same c (attempt o now written d c s).0
unfolding not_sent
attempt-Same none now written d c s = ground arith
attempt-Same (some stream) now written d c s = transmit-Same now written d (choose d s c) c s

pub deliver-Kept :
    (now : ℕ) (written : Bool) (d : List ℕ) (c : Connection) (s : Sender)
    → Kept c (deliver now written d c s).0
unfolding deliver
deliver-Kept now written d c s =
    let same =
      attempt-Same c.outbound_stream now written d c (record s { attempts = s.attempts + 1 }) in
    same_fields c (deliver now written d c s).0 same.0 same.1
