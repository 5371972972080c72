-- ===== src/Utils/Examples.antt =====
-- Goroutines at an empty queue, on concrete messages.
use lachain_communication_hu.Base.{◌++◌, none, ◌≡◌, refl, [], ◌∷◌, arith, nat_eq, text_keys}
use lachain_communication_hu.Utils.Queue.{
  MessageEnvelop, MessageKind, new_envelop_with_id, dequeue_or_wait,
}
use lachain_communication_hu.Utils.Waiting.{
  Monitor, new_monitor, after_enqueue, after_take, Step, calls, enqueues, sleeps, Reach, start,
  later, messages_in_order, take_possible,
}

-- A caller comes to an empty queue and sleeps; then two messages are put in.
abbrev early : MessageEnvelop
early = new_envelop_with_id none MessageKind.message 1

abbrev late : MessageEnvelop
late = new_envelop_with_id none MessageKind.consensus 2

abbrev asleep : Monitor
asleep = record new_monitor { ready = 0; sleeping = 1 }

abbrev woken : Monitor
woken = after_enqueue late (after_enqueue early asleep)

woken-Reach : Reach woken
unfolding dequeue_or_wait
woken-Reach =
    later (later (later (later start calls) (sleeps (omega arith) refl)) (enqueues early))
      (enqueues late)

messages_in_order_example : woken.put ≡ woken.got ++ woken.queue
messages_in_order_example = messages_in_order woken-Reach

take_possible_example : Step woken (after_take early (late ∷ []) woken)
take_possible_example = take_possible early (late ∷ []) woken-Reach refl (omega arith)
