-- ===== src/Communication/Reading.antt =====
use native.Mathlib.Decide.{dec_lt}
-- What io.ReadFull takes from a stream, wherever that is cut into chunks.
use lachain_communication_hu.Base.{
  ℕ, ◌-◌, ◌≤◌, ◌<◌, ◌≡◌, ◌≢◌, refl, sym, ap, ◌∙◌, List, [], ◌∷◌, ◌++◌, Outcome, ok, length, take,
  drop, arith, length-append, append_assoc, take-append_le, drop-append_le, take-append_ge,
  drop-append_ge, concat, leb, Bool-cases, inl, inr, All, false, le→leb, lt→leb, lt→ltb, le→ltb,
  drop-take-append,
}
use lachain_communication_hu.Communication.Frame.{ReadError}
use lachain_communication_hu.Communication.Reader.{
  Reader, Stream, unread, buffer_size, read_more, read_full,
}

abbrev pub NonEmpty : List ℕ → Type 0
NonEmpty c = c ≢ []

-- The reader after `n` bytes were taken from `front`, with the chunks `later` behind.
pub record Took (n : ℕ) (got : List ℕ) (front later : Stream)
    (r : Outcome ReadError (List ℕ) × Reader) : Type 0 where
  pub left : List ℕ
  pub chunks : Stream
  pub result : r ≡ (ok got, record { buffered = left; stream = chunks ++ later })
  pub remains : left ++ concat chunks ≡ drop n (concat front)
  pub nonempty : All NonEmpty chunks

leb-false : (need : ℕ) → leb buffer_size need ≡ false → need ≤ buffer_size
leb-false need e = ground arith

unread-append : (c : List ℕ) (s later : Stream) → unread c s ++ later ≡ unread c (s ++ later)
unread-append [] s later = refl
unread-append (b ∷ bs) s later = refl

concat-unread : (c : List ℕ) (s : Stream) → concat (unread c s) ≡ c ++ concat s
concat-unread [] s = refl
concat-unread (b ∷ bs) s = refl

unread-NonEmpty : (c : List ℕ) (s : Stream) → All NonEmpty s → All NonEmpty (unread c s)
unread-NonEmpty [] s h = h
unread-NonEmpty (b ∷ bs) s h = (λ e. cc, h)

-- The last chunk of a read.
read_more-last :
    (got : List ℕ) (need : ℕ) (c : List ℕ) (front later : Stream)
    → need ≤ length c
    → All NonEmpty front
    → Took need (got ++ take need c) (c ∷ front) later (read_more got need (c ∷ front ++ later))
unfolding read_more
read_more-last got need c front later h ne = elim (Bool-cases (leb buffer_size need)) [
  | inl big ↦ record {
    left = [];
    chunks = unread (drop need c) front;
    result = rw (le→ltb (length c) need h, big, unread-append (drop need c) front later);
    remains = rw (concat-unread (drop need c) front, drop-append_le need c (concat front) h);
    nonempty = unread-NonEmpty (drop need c) front ne;
  }
  | inr small ↦ record {
    left = drop need (take buffer_size c);
    chunks = unread (drop buffer_size c) front;
    result = rw (le→ltb (length c) need h, small, unread-append (drop buffer_size c) front later);
    remains = rw (
      concat-unread (drop buffer_size c) front,
      ← append_assoc,
      drop-take-append need buffer_size c (leb-false need small),
      drop-append_le need c (concat front) h,
    );
    nonempty = unread-NonEmpty (drop buffer_size c) front ne;
  }
]

read_more-skip :
    (got : List ℕ) (need : ℕ) (c : List ℕ) (s : Stream)
    → length c < need
    → read_more got need (c ∷ s) ≡ read_more (got ++ c) (need - length c) s
unfolding read_more
read_more-skip got need c s h = rw (lt→ltb (length c) need h)

read_more-Took :
    (got : List ℕ) (need : ℕ) (front later : Stream)
    → 0 < need
    → need ≤ length (concat front)
    → All NonEmpty front
    → Took need (got ++ take need (concat front)) front later (read_more got need (front ++ later))
read_more-Took got need [] later p h ne = absurd (omega arith)
read_more-Took got need (c ∷ front) later p h (_, ne) = elim (dec_lt (length c) need) [
  | yes short ↦
      let rest =
        read_more-Took (got ++ c) (need - length c) front later (omega arith)
          (omega (arith, length-append c (concat front))) ne in
      record {
        left = rest.left;
        chunks = rest.chunks;
        result =
            read_more-skip got need c (front ++ later) short
            ∙ rest.result
            ∙ ap
                (λ (g : List ℕ).
                  (ok g, record { buffered = rest.left; stream = rest.chunks ++ later }))
                (append_assoc got c _
                  ∙ ap (◌++◌ got) (sym (take-append_ge need c (concat front) (omega arith))));
        remains = rest.remains ∙ sym (drop-append_ge need c (concat front) (omega arith));
        nonempty = rest.nonempty;
      }
  | no enough ↦
      rw (take-append_le need c (concat front) (omega arith))
        (read_more-last got need c front later (omega arith) ne)
]

-- io.ReadFull of bytes that are there.
pub read_full-Took :
    (n : ℕ) (b : List ℕ) (front later : Stream)
    → n ≤ length (b ++ concat front)
    → All NonEmpty front
    → Took n
        (take n (b ++ concat front))
        (b ∷ front)
        later
        (read_full n (record { buffered = b; stream = front ++ later }))
unfolding read_full
read_full-Took n b front later h ne = elim (dec_lt (length b) n) [
  | yes more ↦
      let rest =
        read_more-Took b (n - length b) front later (omega arith)
          (omega (arith, length-append b (concat front))) ne in
      record {
        left = rest.left;
        chunks = rest.chunks;
        result =
            rw (lt→leb n (length b) more, take-append_ge n b (concat front) (omega arith))
              rest.result;
        remains = rest.remains ∙ sym (drop-append_ge n b (concat front) (omega arith));
        nonempty = rest.nonempty;
      }
  | no enough ↦ record {
    left = drop n b;
    chunks = front;
    result =
        rw (le→leb n (length b) (omega arith), take-append_le n b (concat front) (omega arith));
    remains = sym (drop-append_le n b (concat front) (omega arith));
    nonempty = ne;
  }
]
