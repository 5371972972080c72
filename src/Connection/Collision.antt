-- ===== src/Connection/Collision.antt =====
-- Two messages whose ids were drawn at one reading of the clock, at the receiver's filter.
use lachain_communication_hu.Base.{
  ==_self, ℕ, ◌+◌, ◌^◌, ◌≤◌, ◌<◌, ◌≡◌, ap, ◌∙◌, inl, inr, true, false, not, Option, List, [], ◌∷◌,
  arith, length, leb, Bool-cases, nat_eq, text_keys,
}
use lachain_communication_hu.Utils.Queue.{MessageKind}
use lachain_communication_hu.Utils.Random.{Generator, get_random_uint64, new_envelop}
use lachain_communication_hu.Utils.SpamQueue.{enqueue}
use lachain_communication_hu.Connection.Spam.{SpamFilter, admit, spam_store_threshold}
use lachain_communication_hu.Connection.Window.{
  Tracks, memb, memb-enqueue, rest_of, window_step, admit-Filtered,
}

memb-enqueue_self : (m : ℕ) (w : List ℕ) → memb m (enqueue m w) ≡ true
memb-enqueue_self m w = rw (memb-enqueue m m w, ==_self m)

memb-rest :
    (m : ℕ) (w : List ℕ)
    → spam_store_threshold ≤ length (enqueue m w)
    → memb m (rest_of (enqueue m w)) ≡ true
memb-rest m [] h = absurd (omega arith)
memb-rest m (x ∷ w) h = memb-enqueue_self m w

-- An id that was just seen is in the window.
memb-window_step : (m : ℕ) (w : List ℕ) → memb m (window_step m w) ≡ true
memb-window_step m w = elim (Bool-cases (memb m w)) [
  | inl old ↦ rw old old
  | inr new ↦ rw new (elim (Bool-cases (leb spam_store_threshold (length (enqueue m w)))) [
    | inl full ↦ rw full (memb-rest m w (ground arith))
    | inr room ↦ rw room (memb-enqueue_self m w)
  ])
]

-- For fewer than 2^32 frames at the receiver so far: if two messages that NewEnvelop made at one
-- reading of the clock come in directly one behind the other, the receiver ignores the second.
pub admit-new_envelop :
    (rand : Generator) (now : ℕ) (p q : Option (List ℕ)) (j k : MessageKind) (n : ℕ)
    (s : SpamFilter)
    → n + 2 < 2 ^ 32
    → Tracks n s
    → (admit (new_envelop rand now q k).msg_id (admit (new_envelop rand now p j).msg_id s).1).0
      ≡ false
unfolding new_envelop
admit-new_envelop rand now p q j k n s small t =
    let id = get_random_uint64 rand now in
    let first = admit-Filtered n id s (omega arith) t in
    let second = admit-Filtered (n + 1) id (admit id s).1 (omega arith) first.tracks in
    second.verdict
    ∙ ap (λ (w : List ℕ). not (memb id w)) first.window
    ∙ ap not (memb-window_step id s.received_msg_id)
