-- ===== src/Connection/Lifecycle/Termination.antt =====
-- What Terminate does to a connection and to the send cycle, up to its waits.
use lachain_communication_hu.Base.{
  ℕ, ◌≡◌, sym, ap, ◌∙◌, ◌≢◌, Option, none, some, List, [], ◌∷◌, ◌++◌, arith, nat_eq, text_keys,
}
use lachain_communication_hu.Utils.Queue.{
  MessageEnvelop, MessageQueue, dequeue_or_wait, new_envelop_with_id, MessageKind,
}
use lachain_communication_hu.Connection.State.{
  Connection, Event, reset, terminated, terminate, add_to_queue, reset_inbound_stream,
  reset_outbound_stream,
}
use lachain_communication_hu.Connection.SendCycle.{
  Sender, fetch, fetch_for, waiting, take_value, take_payload,
}

-- The reset of a stream that was there.
abbrev pub reset_of : Option ℕ → List Event
reset_of none = []
reset_of (some stream) = reset stream ∷ []

pub record Terminated (random_id : ℕ) (c : Connection) (r : Connection × List Event) : Type 0 where
  pub status : r.0.status ≡ terminated
  pub inbound : r.0.inbound_stream ≡ none
  pub outbound : r.0.outbound_stream ≡ none
  pub events : r.1 ≡ reset_of c.inbound_stream ++ reset_of c.outbound_stream
  pub queue :
      r.0.message_queue
      ≡ c.message_queue ++ new_envelop_with_id none MessageKind.message random_id ∷ []
  pub wakes : (now : ℕ) (s : Sender) → fetch now r.0 s ≢ waiting

terminate-queue :
    (random_id : ℕ) (c : Connection)
    → (terminate random_id c).0.message_queue
      ≡ c.message_queue ++ new_envelop_with_id none MessageKind.message random_id ∷ []
unfolding terminate add_to_queue reset_inbound_stream reset_outbound_stream
terminate-queue random_id c = ground arith

take_payload-ne :
    (o : Option (List ℕ)) (now : ℕ) (v : MessageEnvelop) (q : MessageQueue) (c : Connection)
    (s : Sender)
    → take_payload o now v q c s ≢ waiting
take_payload-ne none now v q c s = λ e. cc
take_payload-ne (some d) now v q c s = λ e. cc

-- A queue with something at its end does not keep its reader waiting.
fetch_for-ne :
    (o : Option (List ℕ)) (now : ℕ) (q : MessageQueue) (v : MessageEnvelop) (c : Connection)
    (s : Sender)
    → c.message_queue ≡ q ++ v ∷ []
    → fetch_for o now c s ≢ waiting
unfolding dequeue_or_wait
fetch_for-ne (some d) now q v c s e = λ z. cc
fetch_for-ne none now [] v c s e = λ z.
    take_payload-ne v.payload now v [] c s
      (sym (ap (λ (l : MessageQueue). take_value now c s (dequeue_or_wait l)) e) ∙ z)
fetch_for-ne none now (x ∷ q) v c s e = λ z.
    take_payload-ne x.payload now x (q ++ v ∷ []) c s
      (sym (ap (λ (l : MessageQueue). take_value now c s (dequeue_or_wait l)) e) ∙ z)

-- Terminate marks the connection, resets the streams that it has and forgets them, and puts a nil
-- message behind the queue: a send cycle that waits for a message waits no longer.
pub terminate_lem :
    (random_id : ℕ) (c : Connection) → Terminated random_id c (terminate random_id c)
unfolding terminate add_to_queue reset_inbound_stream reset_outbound_stream fetch
terminate_lem random_id c = record {
  status = ground arith;
  inbound = ground arith;
  outbound = ground arith;
  events = ground arith;
  queue = terminate-queue random_id c;
  wakes =
      λ now s. fetch_for-ne s.msg_to_send now c.message_queue _ _ s (terminate-queue random_id c);
}
