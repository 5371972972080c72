-- ===== src/Utils/Queue.antt =====
-- utils/message_queue.go. Each method holds the queue's lock from its first
-- line to its last, so it is one step; a queue is the list of its elements, the oldest first.
use lachain_communication_hu.Base.{
  ◌==◌, Bool, length, ℕ, Option, none, some, List, [], ◌∷◌, ◌++◌, Outcome, ok, err,
}

pub data MessageKind : Type 0 where
  message consensus confirm_reply : MessageKind
  other : ℕ → MessageKind

-- `payload` is `none` for a nil slice, which ends the send cycle.
pub record MessageEnvelop : Type 0 where
  pub kind : MessageKind
  pub msg_id : ℕ
  pub payload : Option (List ℕ)

abbrev pub new_envelop_with_id : Option (List ℕ) → MessageKind → ℕ → MessageEnvelop
new_envelop_with_id payload kind msg_id = record { kind = kind; msg_id = msg_id; payload = payload }

abbrev pub MessageQueue : Type 0
MessageQueue = List MessageEnvelop

pub data QueueError : Type 0 where
  queue_empty datatype_incorrect : QueueError

abbrev pub enqueue : MessageEnvelop → MessageQueue → MessageQueue
enqueue value q = q ++ value ∷ []

-- MessageQueue.Dequeue removes the first element, and returns its error on every path.
unfoldable pub dequeue : MessageQueue → QueueError × MessageQueue
dequeue [] = (queue_empty, [])
dequeue (_ ∷ q) = (queue_empty, q)

-- MessageQueue.Front, with the id that the random source gives.
unfoldable pub front : ℕ → MessageQueue → Outcome QueueError MessageEnvelop
front random_id [] = err queue_empty
front random_id (v ∷ q) = ok v

abbrev queue_status : MessageEnvelop → Option QueueError
queue_status v = elim v.payload [ none ↦ some datatype_incorrect | some d ↦ none ]

-- MessageQueue.DequeueOrWait: `none` means that the caller waits for an Enqueue.
unfoldable pub dequeue_or_wait :
    MessageQueue → Option (MessageEnvelop × Option QueueError × MessageQueue)
dequeue_or_wait [] = none
dequeue_or_wait (v ∷ q) = some (v, queue_status v, q)

-- NewMessageQueue, and MessageQueue's GetLen, Empty and Clear.
abbrev pub new_message_queue : MessageQueue
new_message_queue = []

abbrev pub get_len : MessageQueue → ℕ
get_len q = length q

abbrev pub empty : MessageQueue → Bool
empty q = length q == 0

abbrev pub clear : MessageQueue → MessageQueue
clear q = []
