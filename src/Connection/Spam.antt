-- ===== src/Connection/Spam.antt =====
-- The filter on message ids in connection.go: the queue receivedMsgId and the map msgSpamCount.
use lachain_communication_hu.Base.{
  nat_eq, ℕ, ◌+◌, ◌%◌, ◌^◌, Bool, true, false, Option, none, some, List, [], Outcome, ok, err,
  panic, if◌then◌else◌, leb, ◌==◌, lookup, insert, delete,
}
use lachain_communication_hu.Utils.Queue.{QueueError}
use lachain_communication_hu.Utils.SpamQueue
use lachain_communication_hu.Utils.SpamQueue.{SpamQueue, enqueue}

abbrev pub spam_store_threshold : ℕ
spam_store_threshold = 10000

pub record SpamFilter : Type 0 where
  pub received_msg_id : SpamQueue
  pub msg_spam_count : List (ℕ × ℕ)

abbrev pub new_filter : SpamFilter
new_filter = record { received_msg_id = []; msg_spam_count = [] }

-- Go's zero value for a key that is not there.
abbrev count_or_zero : Option ℕ → ℕ
count_or_zero none = 0
count_or_zero (some n) = n

-- spamCount
unfoldable pub spam_count : ℕ → SpamFilter → ℕ
spam_count id s = count_or_zero (lookup id s.msg_spam_count)

-- removeMsgSpamCount
unfoldable pub remove_msg_spam_count : ℕ → SpamFilter → SpamFilter
remove_msg_spam_count id s = record s { msg_spam_count = delete id s.msg_spam_count }

-- increamentMsgSpamCount: the counts are uint32.
unfoldable pub increament_msg_spam_count : ℕ → SpamFilter → ℕ × SpamFilter
unfolding spam_count
increament_msg_spam_count id s =
    let count = (spam_count id s + 1) % 2 ^ 32 in
    (count, record s { msg_spam_count = insert id count s.msg_spam_count })

-- The branch of checkSpamQueueCapacity behind its Dequeue.
abbrev forget : Outcome QueueError ℕ × SpamQueue → SpamFilter → SpamFilter
forget (ok id, q) s = record { received_msg_id = q; msg_spam_count = delete id s.msg_spam_count }
forget (err e, q) s = record s { received_msg_id = q }
forget (panic, q) s = record s { received_msg_id = q }

-- checkSpamQueueCapacity
unfoldable pub check_spam_queue_capacity : SpamFilter → SpamFilter
unfolding SpamQueue.dequeue
check_spam_queue_capacity s =
    if leb spam_store_threshold (SpamQueue.get_len s.received_msg_id)
    then forget (SpamQueue.dequeue s.received_msg_id) s
    else s

-- The start of receiveMessageCycle's round: is the frame with this id taken further?
unfoldable pub admit : ℕ → SpamFilter → Bool × SpamFilter
unfolding increament_msg_spam_count check_spam_queue_capacity
admit id s =
    let (count, counted) = increament_msg_spam_count id s in
    if count == 1
    then (
      true,
      check_spam_queue_capacity
          (record counted { received_msg_id = enqueue id counted.received_msg_id }),
    )
    else (false, counted)
