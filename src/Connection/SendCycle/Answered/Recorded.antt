-- ===== src/Connection/SendCycle/Answered/Recorded.antt =====
-- What the steps of a connection do to its record of confirmations.
use lachain_communication_hu.Base.{
  ==_iff, ℕ, ◌+◌, ◌≡◌, sym, ap, ◌∙◌, ◌⊎◌, Bool, true, false, Option, none, some, List, [], ◌∷◌,
  arith, lookup, nat_eq, text_keys, lookup-insert, lookup-delete,
}
use lachain_communication_hu.Utils.Queue.{MessageEnvelop, MessageQueue, dequeue_or_wait}
use lachain_communication_hu.Connection.Confirm.{
  Confirmations, confirmation_received, add_msg_id_to_confirm, remove_msg_id_from_confirm,
}
use lachain_communication_hu.Connection.State.{
  Connection, Event, send, add_to_queue, set_inbound_stream, reset_inbound_stream,
  reset_outbound_stream,
}
use lachain_communication_hu.Connection.Outbound.{Network, check_outbound_stream}
use lachain_communication_hu.Connection.SendCycle.{
  Sender, prepare, fetched, fetch_for, take_payload, take_value, deliver, attempt, choose, Choice,
  confirmed, write, transmit, sent, not_sent, enter_id,
}
use lachain_communication_hu.Connection.SendCycle.Retention.{Confirmed}

-- A result of the receive cycle with these confirmations; a panic has none.
abbrev pub Knows : Confirmations → Option (Connection × List Event) → Type 0
Knows m none = Unit {0}
Knows m (some (c, events)) = c.confirm_received ≡ m

pub reset_inbound-confirm :
    (c : Connection) → (reset_inbound_stream c).0.confirm_received ≡ c.confirm_received
unfolding reset_inbound_stream
reset_inbound-confirm c = ground arith

pub send-confirm :
    (msg : MessageEnvelop) (c : Connection) → (send msg c).confirm_received ≡ c.confirm_received
unfolding send add_to_queue
send-confirm msg c = ground arith

pub set_inbound-confirm :
    (stream : ℕ) (c : Connection)
    → (set_inbound_stream stream c).0.confirm_received ≡ c.confirm_received
unfolding set_inbound_stream
set_inbound-confirm stream c = ground arith

pub prepare-confirm :
    (net : Network) (c : Connection) (s : Sender)
    → (prepare net c s).1.confirm_received ≡ c.confirm_received
unfolding prepare check_outbound_stream
prepare-confirm net c s = ground arith

fetched-confirm :
    (c c' : Connection) (s s' : Sender)
    → fetched c s ≡ fetched c' s'
    → c'.confirm_received ≡ c.confirm_received
fetched-confirm c c' s s' e = ground arith

take_payload-confirm :
    (o : Option (List ℕ)) (now : ℕ) (v : MessageEnvelop) (q : MessageQueue) (c c' : Connection)
    (s s' : Sender)
    → take_payload o now v q c s ≡ fetched c' s'
    → c'.confirm_received ≡ c.confirm_received
take_payload-confirm none now v q c c' s s' e = cc
take_payload-confirm (some d) now v q c c' s s' e = fetched-confirm _ c' _ s' e

pub fetch_for-confirm :
    (o : Option (List ℕ)) (q : MessageQueue) (now : ℕ) (c c' : Connection) (s s' : Sender)
    → c.message_queue ≡ q
    → fetch_for o now c s ≡ fetched c' s'
    → c'.confirm_received ≡ c.confirm_received
unfolding dequeue_or_wait
fetch_for-confirm (some d) q now c c' s s' eq e = fetched-confirm c c' s s' e
fetch_for-confirm none [] now c c' s s' eq e = cc
fetch_for-confirm none (v ∷ q) now c c' s s' eq e =
    take_payload-confirm v.payload now v q c c' s s'
      (sym (ap (λ (l : MessageQueue). take_value now c s (dequeue_or_wait l)) eq) ∙ e)

-- Entering or removing an id confirms none.
enter_id-Confirmed :
    (enter : Bool) (id j : ℕ) (c : Connection) → Confirmed id (enter_id enter j c) → Confirmed id c
unfolding add_msg_id_to_confirm
enter_id-Confirmed false id j c h = h
enter_id-Confirmed true id j c h = ground (arith, lookup-insert j id false c.confirm_received)

removed-Confirmed :
    (id j : ℕ) (m : Confirmations)
    → lookup id (remove_msg_id_from_confirm j m) ≡ some true
    → lookup id m ≡ some true
unfolding remove_msg_id_from_confirm
removed-Confirmed id j m h = ground (arith, lookup-delete j id m)

pub confirm_received-Confirmed :
    (id j : ℕ) (m : Confirmations)
    → lookup id (confirmation_received j m) ≡ some true
    → (lookup id m ≡ some true) ⊎ (j ≡ id)
unfolding confirmation_received
confirm_received-Confirmed id j m h = ground (arith, lookup-insert j id true m, ==_iff j id)

transmit-Confirmed :
    (now : ℕ) (written : Bool) (d : List ℕ) (ch : Choice) (c : Connection) (s : Sender) (id : ℕ)
    → Confirmed id (transmit now written d ch c s).0
    → Confirmed id c
unfolding sent not_sent add_to_queue reset_outbound_stream
transmit-Confirmed now written d confirmed c s id h =
    removed-Confirmed id s.msg_id c.confirm_received h
transmit-Confirmed now written d (write f enter) c s id h =
    enter_id-Confirmed enter id s.msg_id c (ground arith)

attempt-Confirmed :
    (o : Option ℕ) (now : ℕ) (written : Bool) (d : List ℕ) (c : Connection) (s : Sender) (id : ℕ)
    → Confirmed id (attempt o now written d c s).0
    → Confirmed id c
unfolding not_sent
attempt-Confirmed none now written d c s id h = ground arith
attempt-Confirmed (some stream) now written d c s id h =
    transmit-Confirmed now written d (choose d s c) c s id h

pub deliver-Confirmed :
    (now : ℕ) (written : Bool) (d : List ℕ) (c : Connection) (s : Sender) (id : ℕ)
    → Confirmed id (deliver now written d c s).0
    → Confirmed id c
unfolding deliver
deliver-Confirmed now written d c s id h =
    attempt-Confirmed c.outbound_stream now written d c (record s { attempts = s.attempts + 1 }) id
      h
