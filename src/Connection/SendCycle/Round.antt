-- ===== src/Connection/SendCycle/Round.antt =====
-- A whole round of sendMessageCycle, with no other goroutine in between, and what it writes.
use lachain_communication_hu.Base.{
  ℕ, ◌≡◌, refl, inl, inr, Bool, true, false, not, ◌&&◌, Option, none, some, List, [], ◌∷◌, ◌++◌,
  if◌then◌else◌, Bool-cases, nat_eq, text_keys,
}
use lachain_communication_hu.Communication.Frame.{MessageFrame, new_frame_with_id}
use lachain_communication_hu.Utils.Queue.{
  MessageQueue, message, new_envelop_with_id, dequeue_or_wait,
}
use lachain_communication_hu.Connection.State.{Connection, Event, terminated, status_eq}
use lachain_communication_hu.Connection.Outbound.{Network, open_stream, check_outbound_stream}
use lachain_communication_hu.Connection.SendCycle.{
  Sender, nonempty, prepare, Fetched, waiting, finished, fetched, fetch, Choice, confirmed, choose,
  sent, deliver,
}

-- What the network answers, the times of the fetch and of the end of the round, and whether Write
-- succeeds.
pub record Turn : Type 0 where
  pub net : Network
  pub fetched_at : ℕ
  pub sent_at : ℕ
  pub written : Bool

-- The frame that is written, if any.
abbrev pub written_frames : Option ℕ → Bool → Choice → List MessageFrame
written_frames none written choice = []
written_frames (some stream) written confirmed = []
written_frames (some stream) written (Choice.write frame enter) = if written then frame ∷ [] else []

abbrev pub Rounds : Type 0
Rounds = Option (List MessageFrame × Connection × Sender)

abbrev pub deliver_at_hand : Option (List ℕ) → Turn → Connection → Sender → Rounds
deliver_at_hand none turn c s = none
deliver_at_hand (some d) turn c s =
    let (c', s', events) = deliver turn.sent_at turn.written d c s in
    some (written_frames c.outbound_stream turn.written (choose d s c), c', s')

abbrev pub deliver_fetched : Turn → Fetched → Rounds
deliver_fetched turn waiting = none
deliver_fetched turn (finished c) = none
deliver_fetched turn (fetched c s) = deliver_at_hand s.msg_to_send turn c s

-- A round; `none` stands for the wait on an empty queue, and for the end of the cycle.
unfoldable pub send_round : Turn → Connection → Sender → Rounds
send_round turn c s =
    let (go_on, c1, s1, events) = prepare turn.net c s in
    if status_eq c.status terminated
    then none
    else if go_on
    then deliver_fetched turn (fetch turn.fetched_at c1 s1)
    else some ([], c1, s1)

abbrev pub frames_before : List MessageFrame → Rounds → Rounds
frames_before fs none = none
frames_before fs (some (rest, c, s)) = some (fs ++ rest, c, s)

-- Rounds one after the other, and all that they write.
unfoldable pub send_rounds : List Turn → Connection → Sender → Rounds
send_rounds [] c s = some ([], c, s)
send_rounds (turn ∷ turns) c s = elim (send_round turn c s) [
  | none ↦ none
  | some (fs, c', s') ↦ frames_before fs (send_rounds turns c' s')
]

-- A live connection with a stream, at the start of a round without a message at hand.
pub record IsIdle (stream : ℕ) (q : MessageQueue) (c : Connection) (s : Sender) : Type 0 where
  pub open_stream : c.outbound_stream ≡ some stream
  pub queue : c.message_queue ≡ q
  pub nothing : s.msg_to_send ≡ none
  pub live : status_eq c.status terminated ≡ false

-- The peer is connected, and the write succeeds.
pub record Succeeds (turn : Turn) : Type 0 where
  pub connected : turn.net.connected ≡ true
  pub done : turn.written ≡ true

check_outbound_stream_connected :
    (net : Network) (stream : ℕ) (c : Connection)
    → net.connected ≡ true
    → c.outbound_stream ≡ some stream
    → check_outbound_stream net c ≡ (true, c, [])
unfolding check_outbound_stream open_stream
check_outbound_stream_connected net stream c live here = rw (live, here) refl

pub prepare-IsIdle :
    (net : Network) (stream : ℕ) (q : MessageQueue) (c : Connection) (s : Sender)
    → net.connected ≡ true
    → IsIdle stream q c s
    → (c' : Connection) × (s' : Sender) × (events : List Event) × (prepare net c s
        ≡ (true, c', s', events))
      × IsIdle stream q c' s'
      × (c'.confirm_received ≡ c.confirm_received)
      × (c'.filter ≡ c.filter)
unfolding prepare
prepare-IsIdle net stream q c s live h =
    elim (Bool-cases (nonempty c.signature && not c.signature_sent)) [
      | inl signing ↦
          rw (check_outbound_stream_connected net stream c live h.open_stream, signing)
            (
              _,
              _,
              _,
              refl,
              record {
                open_stream = h.open_stream;
                queue = h.queue;
                nothing = h.nothing;
                live = h.live;
              },
              refl,
              refl,
            )
      | inr silent ↦
          rw (check_outbound_stream_connected net stream c live h.open_stream, silent)
            (
              _,
              _,
              _,
              refl,
              record {
                open_stream = h.open_stream;
                queue = h.queue;
                nothing = h.nothing;
                live = h.live;
              },
              refl,
              refl,
            )
    ]

deliver_fetched-message :
    (turn : Turn) (stream : ℕ) (d : List ℕ) (id : ℕ) (q : MessageQueue) (c : Connection)
    (s : Sender)
    → turn.written ≡ true
    → IsIdle stream (new_envelop_with_id (some d) message id ∷ q) c s
    → (c' : Connection) × (s' : Sender) × (deliver_fetched turn (fetch turn.fetched_at c s)
        ≡ some (new_frame_with_id 0 d id ∷ [], c', s'))
      × IsIdle stream q c' s'
unfolding fetch dequeue_or_wait deliver choose sent
deliver_fetched-message turn stream d id q c s done h =
    rw (h.nothing, h.queue) rw (h.open_stream, done)
      (_, _, refl, record { open_stream = refl; queue = refl; nothing = refl; live = h.live })

-- A plain message that waits is written, as a frame with its data and id.
pub send_round-message :
    (turn : Turn) (stream : ℕ) (d : List ℕ) (id : ℕ) (q : MessageQueue) (c : Connection)
    (s : Sender)
    → Succeeds turn
    → IsIdle stream (new_envelop_with_id (some d) message id ∷ q) c s
    → (c' : Connection) × (s' : Sender) × (send_round turn c s
        ≡ some (new_frame_with_id 0 d id ∷ [], c', s'))
      × IsIdle stream q c' s'
unfolding send_round
send_round-message turn stream d id q c s done h =
    let p = prepare-IsIdle turn.net stream _ c s done.connected h in
    rw (h.live, p.3) (deliver_fetched-message turn stream d id q p.0 p.1 done.done p.4)
