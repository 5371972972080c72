-- ===== src/Connection/Window.antt =====
-- The spam filter against its specification: a window of the message ids that were taken last.
use lachain_communication_hu.Base.{
  ne→==, ==_iff, ℕ, ◌+◌, ◌%◌, ◌^◌, ◌≤◌, ◌<◌, ◌≡◌, refl, inl, inr, Bool, true, false, not, Option,
  none, some, List, [], ◌∷◌, arith, length, if◌then◌else◌, leb, ◌==◌, Bool-cases, lookup, insert,
  delete, nat_eq, text_keys, lookup-insert, lookup-delete,
}
use lachain_communication_hu.Utils.SpamQueue.{enqueue}
use lachain_communication_hu.Connection.Spam.{
  SpamFilter, new_filter, spam_store_threshold, admit, check_spam_queue_capacity, spam_count,
}

abbrev pub memb : ℕ → List ℕ → Bool
memb m [] = false
memb m (x ∷ xs) = if x == m then true else memb m xs

abbrev pub NoRepeats : List ℕ → Type 0
NoRepeats [] = Unit {0}
NoRepeats (x ∷ xs) = (memb x xs ≡ false) × NoRepeats xs

abbrev pub rest_of : List ℕ → List ℕ
rest_of [] = []
rest_of (x ∷ xs) = xs

-- The oldest id leaves a window that has reached the threshold.
abbrev pub evict : List ℕ → List ℕ
evict w = if leb spam_store_threshold (length w) then rest_of w else w

-- The specification: an id outside the window is taken, and enters it.
abbrev pub window_step : ℕ → List ℕ → List ℕ
window_step m w = if memb m w then w else evict (enqueue m w)

-- What the map holds of an id, by whether the queue has it: a count from 1 to `n`, or nothing.
abbrev pub Entry : ℕ → Bool → Option ℕ → Type 0
Entry n true none = ⊥
Entry n true (some k) = (1 ≤ k) × (k ≤ n)
Entry n false none = Unit {0}
Entry n false (some k) = ⊥

-- The map has the keys that the queue has, after `n` frames.
pub record Tracks (n : ℕ) (s : SpamFilter) : Type 0 where
  pub linked : (j : ℕ) → Entry n (memb j s.received_msg_id) (lookup j s.msg_spam_count)
  pub distinct : NoRepeats s.received_msg_id

pub memb-enqueue :
    (j m : ℕ) (w : List ℕ) → memb j (enqueue m w) ≡ (if m == j then true else memb j w)
memb-enqueue j m [] = refl
memb-enqueue j m (x ∷ w) = ground (arith, memb-enqueue j m w)

NoRepeats-enqueue : (m : ℕ) (w : List ℕ) → memb m w ≡ false → NoRepeats w → NoRepeats (enqueue m w)
NoRepeats-enqueue m [] h d = (refl, tt)
NoRepeats-enqueue m (x ∷ w) h d = ground (arith, memb-enqueue x m w, NoRepeats-enqueue m w)

Entry-mono : (n : ℕ) (b : Bool) (o : Option ℕ) → Entry n b o → Entry (n + 1) b o
Entry-mono n true none h = h
Entry-mono n true (some k) h = omega arith
Entry-mono n false none h = tt
Entry-mono n false (some k) h = h

Entry-recount :
    (n m j k : ℕ) (b : Bool) (o : Option ℕ)
    → 1 ≤ k
    → k ≤ n + 1
    → (m ≡ j → b ≡ true)
    → Entry n b o
    → Entry (n + 1) b (if m == j then some k else o)
Entry-recount n m j k b o lo hi hb h = elim (Bool-cases (m == j)) [
  | inl e ↦ rw (e, hb ((==_iff m j).0 e)) (lo, hi)
  | inr e ↦ rw e (Entry-mono n b o h)
]

Entry-enter :
    (n m j : ℕ) (b : Bool) (o : Option ℕ)
    → Entry n b o
    → Entry (n + 1) (if m == j then true else b) (if m == j then some 1 else o)
Entry-enter n m j b o h = elim (Bool-cases (m == j)) [
  | inl e ↦ rw e (omega arith)
  | inr e ↦ rw e (Entry-mono n b o h)
]

Entry-leave :
    (n x j : ℕ) (b : Bool) (o : Option ℕ)
    → (x ≡ j → b ≡ false)
    → Entry n (if x == j then true else b) o
    → Entry n b (if x == j then none else o)
Entry-leave n x j b o hb h = elim (Bool-cases (x == j)) [
  | inl e ↦ rw (e, hb ((==_iff x j).0 e)) tt
  | inr e ↦ rw e (rw e at h)
]

recount-Tracks :
    (n m k : ℕ) (q : List ℕ) (counts : List (ℕ × ℕ))
    → memb m q ≡ true
    → 1 ≤ k
    → k ≤ n + 1
    → Tracks n (record { received_msg_id = q; msg_spam_count = counts })
    → Tracks (n + 1) (record { received_msg_id = q; msg_spam_count = insert m k counts })
recount-Tracks n m k q counts h lo hi t = record {
  linked = λ j.
      rw (lookup-insert m j k counts)
        (Entry-recount n m j k (memb j q) (lookup j counts) lo hi (λ e. rw (← e) h) (t.linked j));
  distinct = t.distinct;
}

enter-Tracks :
    (n m : ℕ) (q : List ℕ) (counts : List (ℕ × ℕ))
    → memb m q ≡ false
    → Tracks n (record { received_msg_id = q; msg_spam_count = counts })
    → Tracks (n + 1) (record { received_msg_id = enqueue m q; msg_spam_count = insert m 1 counts })
enter-Tracks n m q counts h t = record {
  linked = λ j.
      rw (lookup-insert m j 1 counts, memb-enqueue j m q)
        (Entry-enter n m j (memb j q) (lookup j counts) (t.linked j));
  distinct = NoRepeats-enqueue m q h t.distinct;
}

leave-Tracks :
    (n x : ℕ) (q : List ℕ) (counts : List (ℕ × ℕ))
    → Tracks n (record { received_msg_id = x ∷ q; msg_spam_count = counts })
    → Tracks n (record { received_msg_id = q; msg_spam_count = delete x counts })
leave-Tracks n x q counts t = record {
  linked = λ j.
      rw (lookup-delete x j counts)
        (Entry-leave n x j (memb j q) (lookup j counts) (λ e. rw (← e) t.distinct.0) (t.linked j));
  distinct = t.distinct.1;
}

-- The capacity check drops the oldest id from both.
check-evict :
    (q : List ℕ) (counts : List (ℕ × ℕ))
    → (check_spam_queue_capacity
        (record { received_msg_id = q; msg_spam_count = counts })).received_msg_id
      ≡ evict q
unfolding check_spam_queue_capacity
check-evict [] counts = refl
check-evict (x ∷ q) counts = elim (Bool-cases (leb spam_store_threshold (length (x ∷ q)))) [
  | inl full ↦ rw full
  | inr room ↦ rw room
]

check-Tracks :
    (n : ℕ) (q : List ℕ) (counts : List (ℕ × ℕ))
    → Tracks n (record { received_msg_id = q; msg_spam_count = counts })
    → Tracks n (check_spam_queue_capacity (record { received_msg_id = q; msg_spam_count = counts }))
unfolding check_spam_queue_capacity
check-Tracks n [] counts t = t
check-Tracks n (x ∷ q) counts t = elim (Bool-cases (leb spam_store_threshold (length (x ∷ q)))) [
  | inl full ↦ rw full (leave-Tracks n x q counts t)
  | inr room ↦ rw room t
]

Entry-absent : (n : ℕ) (o : Option ℕ) → Entry n false o → o ≡ none
Entry-absent n none h = refl
Entry-absent n (some k) h = absurd h

Entry-present : (n : ℕ) (o : Option ℕ) → Entry n true o → (k : ℕ) × (o ≡ some k) × (1 ≤ k) × (k ≤ n)
Entry-present n none h = absurd h
Entry-present n (some k) h = (k, refl, h.0, h.1)

-- What one frame does to the filter.
pub record Filtered (n m : ℕ) (s : SpamFilter) (r : Bool × SpamFilter) : Type 0 where
  pub verdict : r.0 ≡ not (memb m s.received_msg_id)
  pub window : r.1.received_msg_id ≡ window_step m s.received_msg_id
  pub tracks : Tracks (n + 1) r.1

admit_fresh :
    (n m : ℕ) (s : SpamFilter)
    → memb m s.received_msg_id ≡ false
    → Tracks n s
    → Filtered n m s (admit m s)
unfolding admit spam_count
admit_fresh n m s h t =
    let absent : lookup m s.msg_spam_count ≡ none =
      Entry-absent n (lookup m s.msg_spam_count) (rw h at (t.linked m)) in
    record {
      verdict = rw (absent, h);
      window =
          rw (absent, h) (check-evict (enqueue m s.received_msg_id) (insert m 1 s.msg_spam_count));
      tracks =
          rw absent
            (check-Tracks (n + 1) _ _ (enter-Tracks n m s.received_msg_id s.msg_spam_count h t));
    }

admit_repeated :
    (n m : ℕ) (s : SpamFilter)
    → n + 1 < 2 ^ 32
    → memb m s.received_msg_id ≡ true
    → Tracks n s
    → Filtered n m s (admit m s)
unfolding admit spam_count
admit_repeated n m s small h t =
    let (k, found, lo, hi) = Entry-present n (lookup m s.msg_spam_count) (rw h at (t.linked m)) in
    let size : (k + 1) % 2 ^ 32 ≡ k + 1 = omega arith in
    record {
      verdict = rw (found, size, ne→== (k + 1) 1 (omega arith), h);
      window = rw (found, size, ne→== (k + 1) 1 (omega arith), h);
      tracks =
          rw (found, size, ne→== (k + 1) 1 (omega arith))
            (recount-Tracks n m (k + 1) s.received_msg_id s.msg_spam_count h (omega arith)
              (omega arith) t);
    }

pub admit-Filtered :
    (n m : ℕ) (s : SpamFilter) → n + 1 < 2 ^ 32 → Tracks n s → Filtered n m s (admit m s)
admit-Filtered n m s small t = elim (Bool-cases (memb m s.received_msg_id)) [
  | inl old ↦ admit_repeated n m s small old t
  | inr new ↦ admit_fresh n m s new t
]

pub new_filter-Tracks : Tracks 0 new_filter
unfolding lookup
new_filter-Tracks = record { linked = λ j. tt; distinct = tt }

-- The verdicts of the code, and of the specification, on frames with these ids.
unfoldable pub admit_all : SpamFilter → List ℕ → List Bool × SpamFilter
admit_all s [] = ([], s)
admit_all s (m ∷ ms) =
    let (taken, s') = admit m s in let (rest, last) = admit_all s' ms in (taken ∷ rest, last)

unfoldable pub window_all : List ℕ → List ℕ → List Bool × List ℕ
window_all w [] = ([], w)
window_all w (m ∷ ms) =
    let (rest, last) = window_all (window_step m w) ms in (not (memb m w) ∷ rest, last)

admit_all-window_all :
    (n : ℕ) (s : SpamFilter) (ms : List ℕ)
    → n + length ms < 2 ^ 32
    → Tracks n s
    → ((admit_all s ms).0 ≡ (window_all s.received_msg_id ms).0)
      × ((admit_all s ms).1.received_msg_id ≡ (window_all s.received_msg_id ms).1)
unfolding admit_all window_all
admit_all-window_all n s [] small t = (refl, refl)
admit_all-window_all n s (m ∷ ms) small t =
    let f = admit-Filtered n m s (omega arith) t in
    let (v, w) = admit_all-window_all (n + 1) (admit m s).1 ms (omega arith) f.tracks in
    (rw (f.verdict, v, f.window), rw (w, f.window))

-- For fewer than 2^32 frames on a new connection, the map and the queue behave as a window of ids: a
-- frame is taken exactly when its id is not among those in the window, which keeps the ids taken
-- last, and the queue holds just that window.
pub admit-window :
    (ms : List ℕ)
    → length ms < 2 ^ 32
    → ((admit_all new_filter ms).0 ≡ (window_all [] ms).0)
      × ((admit_all new_filter ms).1.received_msg_id ≡ (window_all [] ms).1)
admit-window ms small = admit_all-window_all 0 new_filter ms (omega arith) new_filter-Tracks
