-- ===== src/Connection/SendCycle.antt =====
-- sendMessageCycle of connection.go, in the steps between which other goroutines may run. Times are
-- nanoseconds.
pub mod Round
pub mod Confirming
pub mod Retention
pub mod Fetching
pub mod Run
pub mod Backoff
pub mod Answered
pub mod Keeping
use lachain_communication_hu.Base.{
  ℕ, ◌+◌, ◌-◌, ◌*◌, Bool, true, false, not, ◌&&◌, Option, none, some, List, [], ◌∷◌, ◌++◌, arith,
  length, if◌then◌else◌, ltb, nat_eq, text_keys,
}
use lachain_communication_hu.Communication.Frame
use lachain_communication_hu.Communication.Frame.{MessageFrame, new_frame_with_id}
use lachain_communication_hu.Utils.Queue.{
  MessageEnvelop, MessageQueue, MessageKind, message, consensus, confirm_reply, other,
  new_envelop_with_id, dequeue_or_wait, QueueError,
}
use lachain_communication_hu.Connection.Confirm.{
  check_confirmation, add_msg_id_to_confirm, remove_msg_id_from_confirm,
}
use lachain_communication_hu.Connection.State.{
  Status, terminated, status_eq, Event, started, send_signature, outbound_measured, Connection,
  add_to_queue, reset_outbound_stream,
}
use lachain_communication_hu.Connection.Outbound.{Network, check_outbound_stream}

abbrev pub millisecond : ℕ
millisecond = 1_000_000

abbrev pub second : ℕ
second = 1000 * millisecond

abbrev pub minute : ℕ
minute = 60 * second

abbrev pub disconnect_threshold : ℕ
disconnect_threshold = 2 * minute

-- The local variables of the cycle.
pub record Sender : Type 0 where
  pub msg_to_send : Option (List ℕ)
  pub msg_kind : MessageKind
  pub msg_id : ℕ
  pub attempts : ℕ
  pub send_backoff : ℕ
  pub open_stream_backoff : ℕ
  pub last_success : ℕ

-- Their first values.
unfoldable pub new_sender : ℕ → Sender
new_sender now = record {
  msg_to_send = none;
  msg_kind = message;
  msg_id = 0;
  attempts = 0;
  send_backoff = millisecond;
  open_stream_backoff = second;
  last_success = now;
}

-- The start of the cycle, up to its loop.
abbrev start_send_cycle : ℕ → Connection → Connection × Sender
start_send_cycle now c = (record c { signature_sent = false }, new_sender now)

-- The message is done with: it was sent, confirmed or dropped.
abbrev pub no_message : Sender → Sender
no_message s = record s { msg_to_send = none; msg_kind = message; msg_id = 0 }

abbrev pub succeeded : ℕ → Sender → Sender
succeeded now s = record (no_message s) {
  attempts = 0;
  send_backoff = millisecond;
  last_success = now;
}

-- The first step of a round, up to the signature: false stands for `continue`.
abbrev after_check :
    Bool × Connection × List Event → Sender → Bool × Connection × Sender × List Event
after_check (false, c, events) s = (
  false,
  c,
  record s {
    open_stream_backoff =
        if ltb s.open_stream_backoff minute
        then s.open_stream_backoff * 2
        else s.open_stream_backoff;
  },
  events,
)
after_check (true, c, events) s = (true, c, record s { open_stream_backoff = second }, events)

abbrev nonempty : Option (List ℕ) → Bool
nonempty none = false
nonempty (some []) = false
nonempty (some (b ∷ bs)) = true

abbrev sign_on : Bool × Connection × Sender × List Event → Bool × Connection × Sender × List Event
sign_on (go_on, c, s, events) =
    if go_on && (nonempty c.signature && not c.signature_sent)
    then (true, record c { signature_sent = true }, s, events ++ started send_signature ∷ [])
    else (go_on, c, s, events)

unfoldable pub prepare : Network → Connection → Sender → Bool × Connection × Sender × List Event
unfolding check_outbound_stream
prepare net c s = sign_on (after_check (check_outbound_stream net c) s)

pub data Fetched : Type 0 where
  waiting : Fetched
  finished : Connection → Fetched
  fetched : Connection → Sender → Fetched

-- What becomes of an envelope with this payload.
abbrev pub take_payload :
    Option (List ℕ) → ℕ → MessageEnvelop → MessageQueue → Connection → Sender → Fetched
take_payload none now v q c s = finished (record c { message_queue = q })
take_payload (some d) now v q c s =
    fetched (record c { message_queue = q })
      (record s { msg_to_send = some d; msg_kind = v.kind; msg_id = v.msg_id; last_success = now })

abbrev pub take_value :
    ℕ → Connection → Sender → Option (MessageEnvelop × Option QueueError × MessageQueue) → Fetched
take_value now c s none = waiting
take_value now c s (some (v, e, q)) = take_payload v.payload now v q c s

abbrev pub fetch_for : Option (List ℕ) → ℕ → Connection → Sender → Fetched
fetch_for (some d) now c s = fetched c s
fetch_for none now c s = take_value now c s (dequeue_or_wait c.message_queue)

-- The second step: a message is taken from the queue if none is at hand. `waiting` blocks, and the
-- step is taken again once something is queued; a nil message ends the cycle.
unfoldable pub fetch : ℕ → Connection → Sender → Fetched
fetch now c s = fetch_for s.msg_to_send now c s

-- The frame for the message at hand; `none` is `continue` on a confirmed message.
pub data Choice : Type 0 where
  confirmed : Choice
  write : MessageFrame → Bool → Choice

abbrev choose_consensus : List ℕ → ℕ → Bool × Bool → Choice
choose_consensus d id (confirm, known) =
    if known && confirm then confirmed else write (new_frame_with_id 3 d id) (not known)

-- The switch on the kind; the flag says whether the id is to be entered in confirmReceived. An
-- unknown kind leaves the zero frame.
abbrev pub choose_kind : MessageKind → List ℕ → ℕ → Bool × Bool → Choice
choose_kind message d id known = write (new_frame_with_id 0 d id) false
choose_kind confirm_reply d id known = write (new_frame_with_id 4 d id) false
choose_kind consensus d id known = choose_consensus d id known
choose_kind (other k) d id known = write (new_frame_with_id 0 [] 0) false

unfoldable pub choose : List ℕ → Sender → Connection → Choice
choose d s c = choose_kind s.msg_kind d s.msg_id (check_confirmation s.msg_id c.confirm_received)

abbrev is_consensus : MessageKind → Bool
is_consensus consensus = true
is_consensus _ = false

abbrev enter_id : Bool → ℕ → Connection → Connection
enter_id true id c = record c { confirm_received = add_msg_id_to_confirm id c.confirm_received }
enter_id false id c = c

-- A successful write: a consensus message goes back to the end of the queue.
unfoldable pub sent :
    ℕ → List ℕ → MessageFrame → Connection → Sender → Connection × Sender × List Event
sent now d frame c s = (
  if is_consensus s.msg_kind
      then add_to_queue (new_envelop_with_id (some d) s.msg_kind s.msg_id) c
      else c,
  succeeded now s,
  outbound_measured (length frame.payload) ∷ [],
)

-- The end of a round that has not sent: back off, or give up on everything that is queued.
unfoldable pub not_sent : ℕ → Connection → Sender → Connection × Sender
not_sent now c s =
    if ltb (now - s.last_success) disconnect_threshold
    then (
      c,
      record s {
        send_backoff = if ltb s.send_backoff second then s.send_backoff * 2 else s.send_backoff;
      },
    )
    else (record c { message_queue = [] }, no_message s)

abbrev failed : ℕ → Sender → Connection × List Event → Connection × Sender × List Event
failed now s (c, events) = let (c', s') = not_sent now c s in (c', s', events)

abbrev transmit :
    ℕ → Bool → List ℕ → Choice → Connection → Sender → Connection × Sender × List Event
transmit now written d confirmed c s = (
  record c { confirm_received = remove_msg_id_from_confirm s.msg_id c.confirm_received },
  succeeded now s,
  [],
)
transmit now written d (write frame enter) c s =
    if written
    then sent now d frame (enter_id enter s.msg_id c) s
    else failed now s (reset_outbound_stream (enter_id enter s.msg_id c))

abbrev pub attempt :
    Option ℕ → ℕ → Bool → List ℕ → Connection → Sender → Connection × Sender × List Event
attempt none now written d c s = failed now s (c, [])
attempt (some stream) now written d c s = transmit now written d (choose d s c) c s

-- The third step, with the message `d` at hand: it is written, or not. `now` is the time at its
-- end, and `written` whether Write succeeds.
unfoldable pub deliver : ℕ → Bool → List ℕ → Connection → Sender → Connection × Sender × List Event
deliver now written d c s =
    attempt c.outbound_stream now written d c (record s { attempts = s.attempts + 1 })
