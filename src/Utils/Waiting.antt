-- ===== src/Utils/Waiting.antt =====
-- The goroutines that call Enqueue and DequeueOrWait of one MessageQueue. The lock makes each turn
-- between two waits one step; Wait of the condition variable gives the lock up and sleeps.
use lachain_communication_hu.Base.{
  ℕ, ◌+◌, ◌-◌, ◌<◌, ◌≡◌, refl, sym, ap, ◌∙◌, ◌≢◌, Option, none, some, List, [], ◌∷◌, ◌++◌,
  append_assoc, arith, nat_eq, text_keys,
}
use lachain_communication_hu.Utils.Queue.{
  MessageEnvelop, MessageQueue, QueueError, enqueue, dequeue_or_wait,
}

-- The queue, how many callers of DequeueOrWait are about to test it and how many sleep, and the
-- messages that were put in and taken out so far.
pub record Monitor : Type 0 where
  pub queue : MessageQueue
  pub ready : ℕ
  pub sleeping : ℕ
  pub put : List MessageEnvelop
  pub got : List MessageEnvelop

abbrev pub new_monitor : Monitor
new_monitor = record { queue = []; ready = 0; sleeping = 0; put = []; got = [] }

-- Broadcast wakes all that sleep. A caller that finds the queue empty sleeps.
abbrev pub after_enqueue : MessageEnvelop → Monitor → Monitor
after_enqueue v m = record {
  queue = enqueue v m.queue;
  ready = m.ready + m.sleeping;
  sleeping = 0;
  put = m.put ++ v ∷ [];
  got = m.got;
}

abbrev pub after_take : MessageEnvelop → MessageQueue → Monitor → Monitor
after_take v q m = record m { queue = q; ready = m.ready - 1; got = m.got ++ v ∷ [] }

pub data Step (m : Monitor) : Monitor → Type 0 where
  calls : Step m (record m { ready = m.ready + 1 })
  enqueues : (v : MessageEnvelop) → Step m (after_enqueue v m)
  sleeps :
      0 < m.ready
      → dequeue_or_wait m.queue ≡ none
      → Step m (record m { ready = m.ready - 1; sleeping = m.sleeping + 1 })
  takes :
      {v : MessageEnvelop} {e : Option QueueError} {q : MessageQueue}
      → 0 < m.ready
      → dequeue_or_wait m.queue ≡ some (v, e, q)
      → Step m (after_take v q m)

pub data Reach : Monitor → Type 0 where
  start : Reach new_monitor
  later : {m n : Monitor} → Reach m → Step m n → Reach n

-- What was put in is what was taken out, then what waits; and nobody sleeps while something waits.
pub record IsSound (m : Monitor) : Type 0 where
  pub order : m.put ≡ m.got ++ m.queue
  pub awake : m.queue ≢ [] → m.sleeping ≡ 0

enqueue-append : (v : MessageEnvelop) (q : MessageQueue) → enqueue v q ≡ q ++ v ∷ []
enqueue-append v [] = refl
enqueue-append v (x ∷ q) = ap (◌∷◌ x) (enqueue-append v q)

empty_queue : (q : MessageQueue) → dequeue_or_wait q ≡ none → q ≡ []
unfolding dequeue_or_wait
empty_queue [] e = refl
empty_queue (v ∷ q) e = cc

taken_queue :
    (q : MessageQueue) (v : MessageEnvelop) (e : Option QueueError) (rest : MessageQueue)
    → dequeue_or_wait q ≡ some (v, e, rest)
    → q ≡ v ∷ rest
unfolding dequeue_or_wait
taken_queue [] v e rest h = cc
taken_queue (x ∷ q) v e rest h = ground arith

Step-IsSound : {m n : Monitor} → Step m n → IsSound m → IsSound n
Step-IsSound calls s = record { order = s.order; awake = s.awake }
Step-IsSound {m} (enqueues v) s = record {
  order =
      ap (λ (l : List MessageEnvelop). l ++ v ∷ []) s.order
      ∙ append_assoc m.got m.queue (v ∷ [])
      ∙ ap (◌++◌ m.got) (sym (enqueue-append v m.queue));
  awake = λ h. refl;
}
Step-IsSound {m} (sleeps some_ready e) s = record {
  order = s.order;
  awake = λ h. absurd (h (empty_queue m.queue e));
}
Step-IsSound {m} (takes {v} {e} {q} some_ready h) s =
    let split : m.queue ≡ v ∷ q = taken_queue m.queue v e q h in
    record {
      order = s.order ∙ ap (◌++◌ m.got) split ∙ sym (append_assoc m.got (v ∷ []) q);
      awake = λ _. s.awake (λ z. cc);
    }

Reach-IsSound : {m : Monitor} → Reach m → IsSound m
Reach-IsSound start = record { order = refl; awake = λ h. refl }
Reach-IsSound (later r st) = Step-IsSound st (Reach-IsSound r)

-- In every state that Enqueue and DequeueOrWait lead to, in any interleaving: the messages that were
-- put in are those that were taken out, in the same order, and then those that wait.
pub messages_in_order : {m : Monitor} → Reach m → m.put ≡ m.got ++ m.queue
messages_in_order r = (Reach-IsSound r).order

-- No wake-up is lost: in every such state, if a message waits and anybody is in DequeueOrWait, then
-- somebody can take the oldest message at once.
pub take_possible :
    {m : Monitor} (v : MessageEnvelop) (q : MessageQueue)
    → Reach m
    → m.queue ≡ v ∷ q
    → 0 < m.ready + m.sleeping
    → Step m (after_take v q m)
unfolding dequeue_or_wait
take_possible {m} v q r e someone =
    let awake : m.sleeping ≡ 0 = (Reach-IsSound r).awake (λ z. cc) in
    takes (omega arith) (ap dequeue_or_wait e)
