-- ===== src/Connection/SendCycle/Retention.antt =====
-- Consensus messages in the send cycle: what keeps one until the peer confirms it.
use lachain_communication_hu.Connection.SendCycle.{
  attempt, Sender, disconnect_threshold, choose, Choice, confirmed, write, transmit, is_consensus,
  deliver, sent, not_sent, enter_id, failed,
}
use lachain_communication_hu.Base.{
  ℕ, ◌+◌, ◌-◌, ◌<◌, ◌≡◌, refl, sym, ap, ◌⊎◌, inl, inr, Bool, true, false, Option, none, some, List,
  [], ◌∷◌, ◌++◌, append-nil, arith, if◌then◌else◌, Option-cases, lookup, nat_eq, text_keys,
}
use lachain_communication_hu.Communication.Frame.{MessageFrame, new_frame_with_id}
use lachain_communication_hu.Utils.Queue.{
  MessageEnvelop, MessageQueue, consensus, new_envelop_with_id,
}
use lachain_communication_hu.Connection.Confirm.{check_confirmation}
use lachain_communication_hu.Connection.State.{
  Connection, Event, add_to_queue, reset_outbound_stream,
}

abbrev pub InQueue : MessageEnvelop → MessageQueue → Type 0
InQueue e [] = ⊥
InQueue e (x ∷ q) = (x ≡ e) ⊎ InQueue e q

pub InQueue-append : (e : MessageEnvelop) (q r : MessageQueue) → InQueue e q → InQueue e (q ++ r)
InQueue-append e (x ∷ q) r (inl h) = inl h
InQueue-append e (x ∷ q) r (inr h) = inr (InQueue-append e q r h)
InQueue-append e [] r h = absurd h

InQueue-last : (e : MessageEnvelop) (q : MessageQueue) → InQueue e (q ++ e ∷ [])
InQueue-last e [] = inl refl
InQueue-last e (x ∷ q) = inr (InQueue-last e q)

-- The consensus message with this data and id.
abbrev pub envelop : List ℕ → ℕ → MessageEnvelop
envelop d id = new_envelop_with_id (some d) consensus id

-- It is at hand.
pub record AtHand (d : List ℕ) (id : ℕ) (s : Sender) : Type 0 where
  pub payload : s.msg_to_send ≡ some d
  pub kind : s.msg_kind ≡ consensus
  pub number : s.msg_id ≡ id

-- It is at hand or queued, so that it will be sent again.
abbrev pub Pending : List ℕ → ℕ → Connection → Sender → Type 0
Pending d id c s = AtHand d id s ⊎ InQueue (envelop d id) c.message_queue

abbrev pub Confirmed : ℕ → Connection → Type 0
Confirmed id c = lookup id c.confirm_received ≡ some true

-- What a delivery adds to the queue.
abbrev requeued : Bool → List ℕ → Choice → Sender → MessageQueue
requeued written d confirmed s = []
requeued written d (write f b) s =
    if written
    then (if is_consensus s.msg_kind
        then new_envelop_with_id (some d) s.msg_kind s.msg_id ∷ []
        else [])
    else []

module _ (now : ℕ) (written : Bool) (d : List ℕ) (c : Connection) (s : Sender)
    (early : now - s.last_success < disconnect_threshold) where
  transmit-queue :
      (ch : Choice)
      → (transmit now written d ch c s).0.message_queue ≡ c.message_queue ++ requeued written d ch s
  unfolding sent not_sent add_to_queue reset_outbound_stream
  transmit-queue confirmed = sym (append-nil c.message_queue)
  transmit-queue (write f true) = ground (arith, append-nil c.message_queue)
  transmit-queue (write f false) = ground (arith, append-nil c.message_queue)

  failed-queue : (e : List Event) → (failed now s (c, e)).0.message_queue ≡ c.message_queue
  unfolding not_sent
  failed-queue e = ground arith

  failed-AtHand :
      (id : ℕ) (x : Connection × List Event) → AtHand d id s → AtHand d id (failed now s x).1
  unfolding not_sent
  failed-AtHand id x h = ground arith

  sent-Pending :
      (id : ℕ) (f : MessageFrame)
      → AtHand d id s
      → Pending d id (sent now d f c s).0 (sent now d f c s).1
  unfolding sent add_to_queue
  sent-Pending id f h = rw (h.kind, h.number) (inr (InQueue-last (envelop d id) c.message_queue))

-- A choice to write keeps the message at hand, or puts it back in the queue.
transmit-Pending :
    (now : ℕ) (written : Bool) (d : List ℕ) (c : Connection) (s : Sender) (id : ℕ)
    (f : MessageFrame) (enter : Bool)
    → now - s.last_success < disconnect_threshold
    → AtHand d id s
    → let r = transmit now written d (write f enter) c s in Pending d id r.0 r.1
transmit-Pending now true d c s id f enter early h =
    sent-Pending now true d (enter_id enter s.msg_id c) s early id f h
transmit-Pending now false d c s id f enter early h =
    inl
      (failed-AtHand now false d c s early id (reset_outbound_stream (enter_id enter s.msg_id c)) h)

choose_unknown :
    (d : List ℕ) (id : ℕ) (c : Connection) (s : Sender)
    → AtHand d id s
    → lookup id c.confirm_received ≡ none
    → choose d s c ≡ write (new_frame_with_id 3 d id) true
unfolding choose check_confirmation
choose_unknown d id c s h e = rw (h.kind, h.number, e, check_confirmation)

choose_unconfirmed :
    (d : List ℕ) (id : ℕ) (c : Connection) (s : Sender)
    → AtHand d id s
    → lookup id c.confirm_received ≡ some false
    → choose d s c ≡ write (new_frame_with_id 3 d id) false
unfolding choose check_confirmation
choose_unconfirmed d id c s h e = rw (h.kind, h.number, e, check_confirmation)

abbrev tried : Sender → Sender
tried s = record s { attempts = s.attempts + 1 }

module _ (now : ℕ) (written : Bool) (d : List ℕ) (c : Connection) (s : Sender) where
  deliver-closed :
      c.outbound_stream ≡ none → deliver now written d c s ≡ failed now (tried s) (c, [])
  unfolding deliver
  deliver-closed e = ap (λ (o : Option ℕ). attempt o now written d c (tried s)) e

  deliver-open :
      (stream : ℕ)
      → c.outbound_stream ≡ some stream
      → deliver now written d c s ≡ transmit now written d (choose d (tried s) c) c (tried s)
  unfolding deliver
  deliver-open stream e = ap (λ (o : Option ℕ). attempt o now written d c (tried s)) e

  module _ (early : now - s.last_success < disconnect_threshold) where
    pub deliver-queued :
        (e : MessageEnvelop)
        → InQueue e c.message_queue
        → InQueue e (deliver now written d c s).0.message_queue
    deliver-queued e h = elim (Option-cases c.outbound_stream) [
      | inl closed ↦ rw (deliver-closed closed, failed-queue now written d c (tried s) early []) h
      | inr (stream, opened) ↦
          rw
            (
              deliver-open stream opened,
              transmit-queue now written d c (tried s) early (choose d (tried s) c),
            )
            (InQueue-append e c.message_queue _ h)
    ]

    pub deliver-AtHand :
        (id : ℕ)
        → AtHand d id s
        → Pending d id (deliver now written d c s).0 (deliver now written d c s).1 ⊎ Confirmed id c
    deliver-AtHand id h =
        let h' : AtHand d id (tried s) = record {
          payload = h.payload;
          kind = h.kind;
          number = h.number;
        } in
        elim (Option-cases c.outbound_stream) [
          | inl closed ↦ inl (
              rw (deliver-closed closed)
                (inl (failed-AtHand now written d c (tried s) early id (c, []) h')))
          | inr (stream, opened) ↦ elim (Option-cases (lookup id c.confirm_received)) [
            | inl unknown ↦ inl (
                rw (deliver-open stream opened, choose_unknown d id c (tried s) h' unknown)
                  (transmit-Pending now written d c (tried s) id _ true early h'))
            | inr (true, known) ↦ inr known
            | inr (false, known) ↦ inl (
                rw (deliver-open stream opened, choose_unconfirmed d id c (tried s) h' known)
                  (transmit-Pending now written d c (tried s) id _ false early h'))
          ]
        ]
