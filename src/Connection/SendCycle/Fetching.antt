-- ===== src/Connection/SendCycle/Fetching.antt =====
-- Consensus messages at the first steps of the send cycle: the check of the streams, and the fetch.
use lachain_communication_hu.Connection.SendCycle.{
  take_value, take_payload, fetch_for, Sender, prepare, fetch, fetched,
}
use lachain_communication_hu.Base.{
  ℕ, ◌≡◌, refl, sym, ap, ◌∙◌, inl, inr, Option, none, some, List, [], ◌∷◌, arith, Option-cases,
  nat_eq, text_keys,
}
use lachain_communication_hu.Utils.Queue.{MessageEnvelop, MessageQueue, dequeue_or_wait}
use lachain_communication_hu.Connection.State.{Connection}
use lachain_communication_hu.Connection.Outbound.{Network, check_outbound_stream}
use lachain_communication_hu.Connection.SendCycle.Retention.{InQueue, envelop, AtHand, Pending}

fetched-injective :
    (c c' : Connection) (s s' : Sender) → fetched c s ≡ fetched c' s' → (c ≡ c') × (s ≡ s')
fetched-injective c c' s s' e = ground arith

-- Fetching takes the head of the queue to hand.
take_value-Pending :
    (now : ℕ) (d : List ℕ) (id : ℕ) (c c' : Connection) (s s' : Sender) (v : MessageEnvelop)
    (q : MessageQueue)
    → InQueue (envelop d id) (v ∷ q)
    → take_payload v.payload now v q c s ≡ fetched c' s'
    → Pending d id c' s'
take_value-Pending now d id c c' s s' v q h r = elim (Option-cases v.payload) [
  | inl ended ↦ cc (ap (λ (o : Option (List ℕ)). take_payload o now v q c s) ended)
  | inr (b, e) ↦
      let (ec, es) =
        fetched-injective (record c { message_queue = q }) c'
          (record s {
            msg_to_send = some b;
            msg_kind = v.kind;
            msg_id = v.msg_id;
            last_success = now;
          })
          s' (sym (ap (λ (o : Option (List ℕ)). take_payload o now v q c s) e) ∙ r) in
      rw (← ec, ← es) (head_or_rest h e)
]
  where
    head_or_rest :
        {b : List ℕ}
        → InQueue (envelop d id) (v ∷ q)
        → v.payload ≡ some b
        → Pending d id
            (record c { message_queue = q })
            (record s {
              msg_to_send = some b;
              msg_kind = v.kind;
              msg_id = v.msg_id;
              last_success = now;
            })
    head_or_rest (inl same) e = inl (record {
      payload = sym e ∙ ap (λ (x : MessageEnvelop). x.payload) same;
      kind = ap (λ (x : MessageEnvelop). x.kind) same;
      number = ap (λ (x : MessageEnvelop). x.msg_id) same;
    })
    head_or_rest (inr later) e = inr later

fetch_for-Pending :
    (now : ℕ) (d : List ℕ) (id : ℕ) (c c' : Connection) (s s' : Sender) (o : Option (List ℕ))
    (q : MessageQueue)
    → s.msg_to_send ≡ o
    → c.message_queue ≡ q
    → Pending d id c s
    → fetch_for o now c s ≡ fetched c' s'
    → Pending d id c' s'
unfolding dequeue_or_wait
fetch_for-Pending now d id c c' s s' (some b) q e eq p r =
    let (ec, es) = fetched-injective c c' s s' r in rw (← ec, ← es) p
fetch_for-Pending now d id c c' s s' none q e eq (inl h) r = cc (h.payload, e)
fetch_for-Pending now d id c c' s s' none [] e eq (inr h) r = absurd (rw eq at h)
fetch_for-Pending now d id c c' s s' none (v ∷ q) e eq (inr h) r =
    take_value-Pending now d id c c' s s' v q (rw eq at h)
      (sym (ap (λ (l : MessageQueue). take_value now c s (dequeue_or_wait l)) eq) ∙ r)

pub fetch-Pending :
    (now : ℕ) (d : List ℕ) (id : ℕ) (c c' : Connection) (s s' : Sender)
    → Pending d id c s
    → fetch now c s ≡ fetched c' s'
    → Pending d id c' s'
unfolding fetch
fetch-Pending now d id c c' s s' p r =
    fetch_for-Pending now d id c c' s s' s.msg_to_send c.message_queue refl refl p r

check-queue :
    (net : Network) (c : Connection)
    → (check_outbound_stream net c).1.message_queue ≡ c.message_queue
unfolding check_outbound_stream
check-queue net c = ground arith

-- The first step leaves the queue and the message at hand alone.
pub prepare-queue :
    (net : Network) (c : Connection) (s : Sender)
    → (prepare net c s).1.message_queue ≡ c.message_queue
unfolding prepare
prepare-queue net c s = ground (arith, check-queue net c)

prepare-AtHand :
    (net : Network) (d : List ℕ) (id : ℕ) (c : Connection) (s : Sender)
    → AtHand d id s
    → AtHand d id (prepare net c s).2
unfolding prepare
prepare-AtHand net d id c s h = ground arith

pub prepare-Pending :
    (net : Network) (d : List ℕ) (id : ℕ) (c : Connection) (s : Sender)
    → Pending d id c s
    → Pending d id (prepare net c s).1 (prepare net c s).2
prepare-Pending net d id c s (inl h) = inl (prepare-AtHand net d id c s h)
prepare-Pending net d id c s (inr h) = inr (rw (prepare-queue net c s) h)
