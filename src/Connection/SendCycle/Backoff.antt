-- ===== src/Connection/SendCycle/Backoff.antt =====
-- The waits of the send cycle.
use lachain_communication_hu.Base.{
  ℕ, ◌+◌, ◌*◌, ◌≤◌, ◌<◌, ◌≡◌, refl, sym, ap, ◌∙◌, Bool, true, false, Option, none, some, List, [],
  ◌∷◌, arith, nat_eq, text_keys,
}
use lachain_communication_hu.Utils.Platform.{Platform}
use lachain_communication_hu.Utils.Queue.{MessageEnvelop, MessageQueue, dequeue_or_wait}
use lachain_communication_hu.Connection.State.{Connection}
use lachain_communication_hu.Connection.Outbound.{Network}
use lachain_communication_hu.Connection.SendCycle.{
  Sender, millisecond, second, minute, new_sender, prepare, fetch, fetched, fetch_for, take_payload,
  take_value, deliver, attempt, choose, Choice, confirmed, write, transmit, sent, not_sent,
  succeeded,
}
use lachain_communication_hu.Connection.SendCycle.Run.{
  Step, prepares, fetches, delivers, receives, sends, bans, unbans, reconnects, Run, here, next,
}

-- A failed delivery waits from one millisecond to less than two seconds, and a failed check of the
-- outbound stream from one second to less than two minutes.
pub record Waits (s : Sender) : Type 0 where
  pub least_send : millisecond ≤ s.send_backoff
  pub most_send : s.send_backoff < 2 * second
  pub least_open : second ≤ s.open_stream_backoff
  pub most_open : s.open_stream_backoff < 2 * minute

new_sender-Waits : (now : ℕ) → Waits (new_sender now)
unfolding new_sender
new_sender-Waits now = omega arith

prepare-Waits : (net : Network) (c : Connection) (s : Sender) → Waits s → Waits (prepare net c s).2
unfolding prepare
prepare-Waits net c s w = ground arith

succeeded-Waits : (now : ℕ) (s : Sender) → Waits s → Waits (succeeded now s)
succeeded-Waits now s w = omega arith

not_sent-Waits : (now : ℕ) (c : Connection) (s : Sender) → Waits s → Waits (not_sent now c s).1
unfolding not_sent
not_sent-Waits now c s w = ground arith

transmit-Waits :
    (now : ℕ) (written : Bool) (d : List ℕ) (ch : Choice) (c : Connection) (s : Sender)
    → Waits s
    → Waits (transmit now written d ch c s).1
unfolding sent
transmit-Waits now written d confirmed c s w = succeeded-Waits now s w
transmit-Waits now true d (write f b) c s w = succeeded-Waits now s w
transmit-Waits now false d (write f b) c s w = not_sent-Waits now _ s w

attempt-Waits :
    (o : Option ℕ) (now : ℕ) (written : Bool) (d : List ℕ) (c : Connection) (s : Sender)
    → Waits s
    → Waits (attempt o now written d c s).1
attempt-Waits none now written d c s w = not_sent-Waits now c s w
attempt-Waits (some stream) now written d c s w = transmit-Waits now written d (choose d s c) c s w

deliver-Waits :
    (now : ℕ) (written : Bool) (d : List ℕ) (c : Connection) (s : Sender)
    → Waits s
    → Waits (deliver now written d c s).1
unfolding deliver
deliver-Waits now written d c s w =
    attempt-Waits c.outbound_stream now written d c (record s { attempts = s.attempts + 1 })
      (omega arith)

fetched-Waits :
    (c c' : Connection) (s s' : Sender) → Waits s → fetched c s ≡ fetched c' s' → Waits s'
fetched-Waits c c' s s' w e = ground arith

take_payload-Waits :
    (o : Option (List ℕ)) (now : ℕ) (v : MessageEnvelop) (q : MessageQueue) (c c' : Connection)
    (s s' : Sender)
    → Waits s
    → take_payload o now v q c s ≡ fetched c' s'
    → Waits s'
take_payload-Waits none now v q c c' s s' w e = cc
take_payload-Waits (some d) now v q c c' s s' w e = fetched-Waits _ c' _ s' (omega arith) e

fetch_for-Waits :
    (o : Option (List ℕ)) (q : MessageQueue) (now : ℕ) (c c' : Connection) (s s' : Sender)
    → c.message_queue ≡ q
    → Waits s
    → fetch_for o now c s ≡ fetched c' s'
    → Waits s'
unfolding dequeue_or_wait
fetch_for-Waits (some d) q now c c' s s' eq w e = fetched-Waits c c' s s' w e
fetch_for-Waits none [] now c c' s s' eq w e = cc
fetch_for-Waits none (v ∷ q) now c c' s s' eq w e =
    take_payload-Waits v.payload now v q c c' s s' w
      (sym (ap (λ (l : MessageQueue). take_value now c s (dequeue_or_wait l)) eq) ∙ e)

Step-Waits :
    {lib : Platform} {chain_id : ℕ} {c : Connection} {s : Sender} {c' : Connection} {s' : Sender}
    → Step lib chain_id c s c' s'
    → Waits s
    → Waits s'
unfolding fetch
Step-Waits {c = c} {s} (prepares net) w = prepare-Waits net c s w
Step-Waits {c = c} {s} {c'} {s'} (fetches now e) w =
    fetch_for-Waits s.msg_to_send c.message_queue now c c' s s' refl w e
Step-Waits {c = c} {s} (delivers now written d e early) w = deliver-Waits now written d c s w
Step-Waits (receives o events e) w = w
Step-Waits (sends msg) w = w
Step-Waits bans w = w
Step-Waits unbans w = w
Step-Waits (reconnects stream) w = w

from_start :
    {lib : Platform} {chain_id : ℕ} {c : Connection} {s : Sender} {c' : Connection} {s' : Sender}
    → Run lib chain_id c s c' s'
    → Waits s
    → Waits s'
from_start here w = w
from_start (next run st) w = Step-Waits st (from_start run w)

-- From the start of a send cycle on, in any interleaving of its steps with the receive cycle, Send,
-- bans and new inbound streams in which every delivery comes less than two minutes after the last
-- success: its wait after a failed delivery is at least a millisecond and less than two seconds, and
-- its wait after a failed check of the outbound stream is at least a second and less than two minutes.
pub Run-Waits :
    {lib : Platform} {chain_id : ℕ} (now : ℕ) {c : Connection} {c' : Connection} {s' : Sender}
    → Run lib chain_id c (new_sender now) c' s'
    → Waits s'
Run-Waits now run = from_start run (new_sender-Waits now)
