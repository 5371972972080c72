-- ===== src/Communication/Contents.antt =====
-- ReadFromReader as a function of the bytes before it alone, and the inputs on which it panics.
use lachain_communication_hu.Base.{
  take_all, le→ltb, lt→ltb, slice_inside, lt→leb, length-take_le, ℕ, ◌-◌, ◌≤◌, ◌<◌, ◌≡◌, sym, ap,
  ◌∙◌, ◌↔◌, ◌⊎◌, inl, inr, List, [], ◌∷◌, ◌++◌, append-nil, append_assoc, arith, length, take, drop,
  All, concat, length-append, Outcome, ok, err, panic, if◌then◌else◌, ltb,
}
use native.Mathlib.Decide.{dec_lt, ℕ_discrete}
use lachain_communication_hu.Binary.{word}
use lachain_communication_hu.Communication.Frame.{
  MessageFrame, ReadError, msg_integrity, extract_length, parse_body,
}
use lachain_communication_hu.Communication.Outcomes.{
  stored_checksum, computed_checksum, Intact, parse_body_tiny, parse_body_mismatch, parse_body_lem,
}
use lachain_communication_hu.Communication.Reader.{
  Reader, Stream, contents, end_error, new_reader, read_more, read_full, read_sized,
  read_from_reader,
}
use lachain_communication_hu.Communication.Reading.{NonEmpty, Took, read_full-Took}

abbrev pub announced : List ℕ → ℕ
announced xs = word (take 4 xs)

abbrev pub announced_body : List ℕ → List ℕ
announced_body xs = take (announced xs) (drop 4 xs)

-- What ReadFromReader returns, said of the bytes that can be read.
abbrev parse_announced : List ℕ → Outcome ReadError MessageFrame
parse_announced xs =
    if ltb (announced xs) 4
    then err msg_integrity
    else if ltb (length (drop 4 xs)) (announced xs)
    then err (end_error (drop 4 xs))
    else parse_body (announced_body xs)

abbrev pub parse_contents : List ℕ → Outcome ReadError MessageFrame
parse_contents xs = if ltb (length xs) 4 then err (end_error xs) else parse_announced xs

read_more_short :
    (got : List ℕ) (need : ℕ) (s : Stream)
    → length (concat s) < need
    → read_more got need s ≡ (err (end_error (got ++ concat s)), new_reader [])
unfolding read_more
read_more_short got need [] h = rw (append-nil got)
read_more_short got need (c ∷ s) h =
    rw
      (
        lt→ltb (length c) need (omega (arith, length-append c (concat s))),
        ← append_assoc got c (concat s),
      )
      (read_more_short (got ++ c) (need - length c) s (omega (arith, length-append c (concat s))))

read_full_short :
    (n : ℕ) (b : List ℕ) (s : Stream)
    → length (b ++ concat s) < n
    → read_full n (record { buffered = b; stream = s })
      ≡ (err (end_error (b ++ concat s)), new_reader [])
unfolding read_full
read_full_short n b s h =
    rw (lt→leb n (length b) (omega (arith, length-append b (concat s))))
      (read_more_short b (n - length b) s (omega (arith, length-append b (concat s))))

-- A read of bytes that are there, with nothing set apart behind.
read_full_enough :
    (n : ℕ) (b : List ℕ) (s : Stream)
    → n ≤ length (b ++ concat s)
    → All NonEmpty s
    → (left : List ℕ) × (chunks : Stream) × (read_full n (record { buffered = b; stream = s })
        ≡ (ok (take n (b ++ concat s)), record { buffered = left; stream = chunks }))
      × (left ++ concat chunks ≡ drop n (b ++ concat s))
      × All NonEmpty chunks
read_full_enough n b s h ne =
    let t : Took n (take n (b ++ concat s)) (b ∷ s) []
        (read_full n (record { buffered = b; stream = s ++ [] })) =
      read_full-Took n b s [] h ne in
    (t.left, t.chunks, rw (append-nil s, append-nil t.chunks) at t.result, t.remains, t.nonempty)

extract_length_four : (xs : List ℕ) → 4 ≤ length xs → extract_length (take 4 xs) ≡ ok (announced xs)
unfolding extract_length
extract_length_four xs h =
    rw
      (slice_inside {E = ReadError} (take 4 xs) 0 4 (omega arith)
        (omega (arith, length-take_le 4 xs h)))
      (ap (λ (ys : List ℕ). ok (word ys))
        (take_all (4 - 0) (take 4 xs) (omega (arith, length-take_le 4 xs h))))

read_sized_lem :
    (n : ℕ) (b : List ℕ) (s : Stream) (xs : List ℕ)
    → b ++ concat s ≡ xs
    → All NonEmpty s
    → (read_sized (ok n) (record { buffered = b; stream = s })).0 ≡ (
        if ltb n 4
        then err msg_integrity
        else if ltb (length xs) n
        then err (end_error xs)
        else parse_body (take n xs))
read_sized_lem n b s xs e ne = elim (dec_lt n 4) [
  | yes tiny ↦ rw (lt→ltb n 4 tiny)
  | no big ↦ rw (le→ltb n 4 (omega arith)) (elim (dec_lt (length xs) n) [
    | yes short ↦ rw (lt→ltb (length xs) n short, read_full_short n b s (rw e short), e)
    | no there ↦
        let (left, chunks, r, m, k) = read_full_enough n b s (rw e (omega arith)) ne in
        rw (le→ltb (length xs) n (omega arith), r, e)
  ])
]

-- What ReadFromReader returns depends on the bytes before it and not on how the stream cuts them
-- into chunks: fewer than four bytes are an end of file, a length below four is refused, a body that
-- is cut short is an end of file, and any other body is taken apart.
pub read_from_reader_lem :
    (r : Reader) → All NonEmpty r.stream → (read_from_reader r).0 ≡ parse_contents (contents r)
unfolding read_from_reader
read_from_reader_lem r ne = elim (dec_lt (length (contents r)) 4) [
  | yes short ↦
      rw (lt→ltb (length (contents r)) 4 short, read_full_short 4 r.buffered r.stream short)
  | no there ↦
      let (left, chunks, q, m, k) = read_full_enough 4 r.buffered r.stream (omega arith) ne in
      rw
        (
          le→ltb (length (contents r)) 4 (omega arith),
          q,
          extract_length_four (contents r) (omega arith),
        )
        (read_sized_lem (announced (contents r)) left chunks (drop 4 (contents r)) m k)
]

-- Bytes that announce a body of four to twelve bytes and hold it, with a checksum that is right or
-- with no room for anything but the checksum.
pub record Crashing (xs : List ℕ) : Type 0 where
  pub holds_prefix : 4 ≤ length xs
  pub least : 4 ≤ announced xs
  pub most : announced xs < 13
  pub holds_body : announced xs ≤ length (drop 4 xs)
  pub passes : (announced xs ≡ 4) ⊎ Intact (announced_body xs)

Intact-dec : (b : List ℕ) → Dec (Intact b)
Intact-dec b = ℕ_discrete (stored_checksum b) (computed_checksum b)

module _ (xs : List ℕ) where
  length-announced_body :
      announced xs ≤ length (drop 4 xs) → length (announced_body xs) ≡ announced xs
  length-announced_body h = length-take_le (announced xs) (drop 4 xs) h

  parse_contents_held :
      4 ≤ length xs
      → 4 ≤ announced xs
      → announced xs ≤ length (drop 4 xs)
      → parse_contents xs ≡ parse_body (announced_body xs)
  parse_contents_held p q h = rw (
    le→ltb (length xs) 4 p,
    le→ltb (announced xs) 4 q,
    le→ltb (length (drop 4 xs)) (announced xs) h,
  )

  Crashing-panic : Crashing xs → parse_contents xs ≡ panic
  Crashing-panic c =
      parse_contents_held c.holds_prefix c.least c.holds_body ∙ elim (dec_lt (announced xs) 5) [
        | yes tiny ↦
            parse_body_tiny (announced_body xs) (omega (arith, length-announced_body c.holds_body))
        | no small ↦
            (parse_body_lem (announced_body xs)).2
              (omega (arith, length-announced_body c.holds_body))
              (omega (arith, length-announced_body c.holds_body, c.most)) (intact c.passes small)
      ]
    where
      intact :
          (announced xs ≡ 4) ⊎ Intact (announced_body xs)
          → ¬ (announced xs < 5)
          → Intact (announced_body xs)
      intact (inl four) small = absurd (omega arith)
      intact (inr i) small = i

  held_of_panic :
      parse_contents xs ≡ panic
      → (4 ≤ length xs) × (4 ≤ announced xs) × (announced xs ≤ length (drop 4 xs))
  held_of_panic e = ground arith

  passes_of_panic :
      5 ≤ length (announced_body xs)
      → parse_body (announced_body xs) ≡ panic
      → (length (announced_body xs) < 13) × Intact (announced_body xs)
  passes_of_panic lo e = elim (Intact-dec (announced_body xs)) [
    | no broken ↦ cc (parse_body_mismatch (announced_body xs) lo broken)
    | yes i ↦ elim (dec_lt (length (announced_body xs)) 13) [
      | yes small ↦ (small, i)
      | no large ↦ cc ((parse_body_lem (announced_body xs)).3 (omega arith) i)
    ]
  ]

  panic-Crashing : parse_contents xs ≡ panic → Crashing xs
  panic-Crashing e =
      let (p, q, h) = held_of_panic e in
      let taken : parse_body (announced_body xs) ≡ panic = sym (parse_contents_held p q h) ∙ e in
      let size : length (announced_body xs) ≡ announced xs = length-announced_body h in
      elim (dec_lt (announced xs) 5) [
        | yes tiny ↦ record {
          holds_prefix = p;
          least = q;
          most = omega arith;
          holds_body = h;
          passes = inl (omega arith);
        }
        | no small ↦
            let (m, i) = passes_of_panic (omega arith) taken in
            record {
              holds_prefix = p;
              least = q;
              most = omega arith;
              holds_body = h;
              passes = inr i;
            }
      ]

-- ReadFromReader panics exactly when a body of four to twelve bytes is announced and there, and is
-- four bytes long or ends in its right checksum: the guard against bodies that are too small lets
-- these through.
pub read_from_reader-panic :
    (r : Reader) → All NonEmpty r.stream → ((read_from_reader r).0 ≡ panic) ↔ Crashing (contents r)
read_from_reader-panic r ne = (
  λ e. panic-Crashing (contents r) (sym (read_from_reader_lem r ne) ∙ e),
  λ c. read_from_reader_lem r ne ∙ Crashing-panic (contents r) c,
)
