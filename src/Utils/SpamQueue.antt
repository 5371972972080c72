-- ===== src/Utils/SpamQueue.antt =====
-- utils/spam_queue.go: the queue of message ids behind the spam filter, the oldest first. Each method
-- holds the queue's lock from its first line to its last.
use lachain_communication_hu.Base.{
  ℕ, Bool, List, [], ◌∷◌, ◌++◌, length, Outcome, ok, err, ◌==◌, nat_eq, text_keys,
}
use lachain_communication_hu.Utils.Queue.{QueueError, queue_empty}

abbrev pub SpamQueue : Type 0
SpamQueue = List ℕ

-- NewSpamQueue
abbrev pub new_spam_queue : SpamQueue
new_spam_queue = []

abbrev pub enqueue : ℕ → SpamQueue → SpamQueue
enqueue value q = q ++ value ∷ []

unfoldable pub dequeue : SpamQueue → Outcome QueueError ℕ × SpamQueue
dequeue [] = (err queue_empty, [])
dequeue (v ∷ q) = (ok v, q)

unfoldable pub front : SpamQueue → Outcome QueueError ℕ
front [] = err queue_empty
front (v ∷ q) = ok v

abbrev pub get_len : SpamQueue → ℕ
get_len q = length q

abbrev pub empty : SpamQueue → Bool
empty q = length q == 0

abbrev pub clear : SpamQueue → SpamQueue
clear q = []
