-- ===== src/Communication/Encodings/Bodies.antt =====
-- The bodies that give a frame, cut into their parts.
use lachain_communication_hu.Base.{
  ==_iff, length-drop, slice_middle, length-take_le, slice_end, take-append-drop, ℕ, ◌+◌, ◌-◌, ◌%◌,
  ◌^◌, ◌≤◌, ◌<◌, ◌≡◌, refl, sym, ap, ◌∙◌, inl, inr, List, [], ◌∷◌, ◌++◌, append_assoc, arith,
  length, take, drop, All, length-append, ok, err, slice, if◌then◌else◌, ◌==◌, Bool-cases, nat_eq,
  text_keys,
}
use mathlib.Core.Path.{subst}
use native.Mathlib.Nat.{pow-suc}
use lachain_communication_hu.Binary.{IsByte, put_word, word, put_uint32, put_uint64, put_word-word}
use lachain_communication_hu.Communication.Checksum.{checksum_ieee}
use lachain_communication_hu.Communication.Frame.{
  MessageFrame, ReadError, msg_integrity, IsFrame, checked_bytes, encode, parse_body, parse_fields,
}
use native.Mathlib.Decide.{dec_lt, ℕ_discrete}
use lachain_communication_hu.Communication.Outcomes.{
  stored_checksum, computed_checksum, parse_body_lem,
}

pub All-split : (xs ys : List ℕ) → All IsByte (xs ++ ys) → All IsByte xs × All IsByte ys
All-split [] ys h = (tt, h)
All-split (x ∷ xs) ys (h, hs) = let (a, b) = All-split xs ys hs in ((h, a), b)

pub word-lt : (bs : List ℕ) → All IsByte bs → word bs < 256 ^ length bs
unfolding word
word-lt [] h = omega arith
word-lt (b ∷ bs) (h, hs) = omega (arith, word-lt bs hs, pow-suc 256 (length bs))

-- The word of so many bytes is written as these bytes.
pub put_word-sized :
    (n : ℕ) (bs : List ℕ) → length bs ≡ n → All IsByte bs → put_word n (word bs) ≡ bs
put_word-sized n bs e h = rw (← e) (put_word-word bs h)

-- A body: the kind, the id, the data, and the checksum.
pub record Pieces (b : List ℕ) : Type 0 where
  pub kind : ℕ
  pub id : List ℕ
  pub payload : List ℕ
  pub trailer : List ℕ
  pub whole : b ≡ kind ∷ (id ++ (payload ++ trailer))
  pub id_size : length id ≡ 8
  pub trailer_size : length trailer ≡ 4

cut_up : (b : List ℕ) → 13 ≤ length b → Pieces b
cut_up [] h = absurd (omega arith)
cut_up (k ∷ b) h =
    let rest = drop 8 b in
    let n = length rest - 4 in
    record {
      kind = k;
      id = take 8 b;
      payload = take n rest;
      trailer = drop n rest;
      whole =
          ap (◌∷◌ k) (sym (ap (◌++◌ (take 8 b)) (take-append-drop n rest) ∙ take-append-drop 8 b));
      id_size = length-take_le 8 b (omega arith);
      trailer_size = omega (arith, length-drop n rest, length-drop 8 b);
    }

abbrev frame_of_pieces : ℕ → List ℕ → List ℕ → MessageFrame
frame_of_pieces k i p = record { kind = k; msg_id = word i; payload = p }

module _ (k : ℕ) (i p t : List ℕ) (ni : length i ≡ 8) (nt : length t ≡ 4) where
  size_of_body : length (k ∷ (i ++ (p ++ t))) ≡ length p + 13
  size_of_body = omega (arith, length-append i (p ++ t), length-append p t)

  parse_body-pieces :
      parse_body (k ∷ (i ++ (p ++ t)))
      ≡ (if word t == checksum_ieee (i ++ p) then ok (frame_of_pieces k i p) else err msg_integrity)
  unfolding parse_body parse_fields
  parse_body-pieces =
      let at_end : slice {E = ReadError} (k ∷ (i ++ (p ++ t))) (length p + 13 - 4) (length p + 13)
          ≡ ok t =
        rw (← append_assoc i p t)
          (slice_end (k ∷ (i ++ p)) t _ _ (omega (arith, length-append i p)) (omega arith)) in
      let checked : slice {E = ReadError} (k ∷ (i ++ (p ++ t))) 1 (length p + 13 - 4)
          ≡ ok (i ++ p) =
        rw (← append_assoc i p t)
          (slice_middle (k ∷ []) (i ++ p) t _ _ refl (omega (arith, length-append i p))) in
      let first : slice {E = ReadError} (k ∷ (i ++ (p ++ t))) 0 1 ≡ ok (k ∷ []) =
        slice_middle [] (k ∷ []) (i ++ (p ++ t)) 0 1 refl (omega arith) in
      let second : slice {E = ReadError} (k ∷ (i ++ (p ++ t))) 1 9 ≡ ok i =
        slice_middle (k ∷ []) i (p ++ t) 1 9 refl (omega arith) in
      let third : slice {E = ReadError} (k ∷ (i ++ (p ++ t))) 9 (length p + 13 - 4) ≡ ok p =
        slice_middle (k ∷ i) p t 9 _ (omega arith) (omega arith) in
      rw (size_of_body, at_end, checked)
        (elim (Bool-cases (word t == checksum_ieee (i ++ p))) [
          | inl same ↦ rw same (rw (first, second, third) refl)
          | inr other ↦ rw other refl
        ])

  encode-pieces :
      k < 256
      → All IsByte i
      → All IsByte t
      → word t ≡ checksum_ieee (i ++ p)
      → length p + 13 < 2 ^ 32
      → encode (frame_of_pieces k i p) ≡ put_uint32 (length p + 13) ++ (k ∷ (i ++ (p ++ t)))
  unfolding encode checked_bytes put_uint32 put_uint64
  encode-pieces hk hi ht same fits =
      let size : (1 + 8 + length p + 4) % 2 ^ 32 ≡ length p + 13 = omega arith in
      let kind : k % 256 ≡ k = omega arith in
      rw
        (size, kind, put_word-sized 8 i ni hi, ← same, put_word-sized 4 t nt ht, append_assoc i p t)

-- What makes a body give a frame.
parse_body_long : (b : List ℕ) (f : MessageFrame) → parse_body b ≡ ok f → 13 ≤ length b
parse_body_long b f e = elim (dec_lt (length b) 13) [
  | no long ↦ omega arith
  | yes short ↦ elim (dec_lt (length b) 5) [
    | yes tiny ↦ cc ((parse_body_lem b).0 tiny)
    | no small ↦ elim (ℕ_discrete (stored_checksum b) (computed_checksum b)) [
      | yes intact ↦ cc ((parse_body_lem b).2 (omega arith) short intact)
      | no broken ↦ cc ((parse_body_lem b).1 (omega arith) broken)
    ]
  ]
]

-- A body of bytes that gives a frame is what Encode writes behind its length.
pub record Behind (b : List ℕ) (f : MessageFrame) : Type 0 where
  pub encoded : encode f ≡ put_uint32 (length b) ++ b
  pub well_formed : IsFrame f

pieces-Behind :
    (k : ℕ) (i p t : List ℕ) (ni : length i ≡ 8) (nt : length t ≡ 4) (f : MessageFrame)
    → All IsByte (k ∷ (i ++ (p ++ t)))
    → length p + 13 < 2 ^ 32
    → parse_body (k ∷ (i ++ (p ++ t))) ≡ ok f
    → Behind (k ∷ (i ++ (p ++ t))) f
pieces-Behind k i p t ni nt f (hk, hs) fits e =
    let (hi, hpt) = All-split i (p ++ t) hs in
    let (hp, ht) = All-split p t hpt in
    let cases = sym (parse_body-pieces k i p t ni nt) ∙ e in
    elim (Bool-cases (word t == checksum_ieee (i ++ p))) [
      | inr other ↦ cc
      | inl same ↦
          let frame : frame_of_pieces k i p ≡ f = ground (arith, cases, same) in
          subst (Behind (k ∷ (i ++ (p ++ t)))) frame (record {
            encoded =
                encode-pieces k i p t ni nt hk hi ht ((==_iff _ _).0 same) fits
                ∙ ap (λ (n : ℕ). put_uint32 n ++ (k ∷ (i ++ (p ++ t))))
                    (sym (size_of_body k i p t ni nt));
            well_formed = record {
              kind_byte = hk;
              id_word = omega (arith, word-lt i hi, ap (λ (n : ℕ). 256 ^ n) ni);
              bytes = hp;
              fits = fits;
            };
          })
    ]

pub parse_body-Behind :
    (b : List ℕ) (f : MessageFrame)
    → All IsByte b
    → length b < 2 ^ 32
    → parse_body b ≡ ok f
    → Behind b f
parse_body-Behind b f bytes fits e =
    let c = cut_up b (parse_body_long b f e) in
    subst (λ (x : List ℕ). Behind x f) (sym c.whole)
      (pieces-Behind c.kind c.id c.payload c.trailer c.id_size c.trailer_size f
        (subst (λ (x : List ℕ). All IsByte x) c.whole bytes)
        (omega (
          arith,
          ap length c.whole,
          size_of_body c.kind c.id c.payload c.trailer c.id_size c.trailer_size,
        ))
        (ap parse_body (sym c.whole) ∙ e))
