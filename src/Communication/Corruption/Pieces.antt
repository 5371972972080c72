-- ===== src/Communication/Corruption/Pieces.antt =====
-- The pieces of a body, and what stands where in them.
use lachain_communication_hu.Base.{
  ℕ, suc, ◌+◌, ◌-◌, ◌^◌, ◌<◌, ◌≡◌, refl, sym, ap, ◌∙◌, ◌≢◌, ◌⊎◌, inl, inr, List, [], ◌∷◌, ◌++◌,
  arith, length, All, length-append, err, nat_eq, text_keys, take-append_seam, drop-append_seam,
  take_all,
}
use lachain_communication_hu.Binary.{
  IsByte, put_word, put_uint32, word, length-put_uint32, put_word-word, put_word-IsByte,
}
use lachain_communication_hu.Communication.Checksum.{checksum_ieee}
use lachain_communication_hu.Communication.Checksum.Injective.{append-IsByte}
use lachain_communication_hu.Communication.Frame.{parse_body, msg_integrity}
use lachain_communication_hu.Communication.Outcomes.{
  stored_checksum, computed_checksum, parse_body_mismatch,
}

-- Where the element `x` of a concatenation stands.
pub record InFirst (xs ys zs : List ℕ) (x : ℕ) (ws : List ℕ) : Type 0 where
  pub behind : List ℕ
  pub first : xs ≡ zs ++ x ∷ behind
  pub last : ws ≡ behind ++ ys

pub record InSecond (xs ys zs : List ℕ) (x : ℕ) (ws : List ℕ) : Type 0 where
  pub before : List ℕ
  pub first : zs ≡ xs ++ before
  pub last : ys ≡ before ++ x ∷ ws

pub located :
    (xs ys zs : List ℕ) (x : ℕ) (ws : List ℕ)
    → xs ++ ys ≡ zs ++ x ∷ ws
    → InFirst xs ys zs x ws ⊎ InSecond xs ys zs x ws
located [] ys zs x ws e = inr (record { before = zs; first = refl; last = e })
located (c ∷ xs) ys [] x ws e = inl (record { behind = xs; first = cc; last = cc })
located (c ∷ xs) ys (z ∷ zs) x ws e = elim (located xs ys zs x ws (cc)) [
  | inl p ↦ inl (record { behind = p.behind; first = cc (p.first); last = p.last })
  | inr p ↦ inr (record { before = p.before; first = cc (p.first); last = p.last })
]

pub append-cancel : (xs : List ℕ) (y z : ℕ) (ys : List ℕ) → xs ++ y ∷ ys ≡ xs ++ z ∷ ys → y ≡ z
append-cancel [] y z ys e = cc
append-cancel (x ∷ xs) y z ys e = append-cancel xs y z ys (cc)

pub All-split :
    (xs : List ℕ) (x : ℕ) (ys : List ℕ)
    → All IsByte (xs ++ x ∷ ys)
    → All IsByte xs × IsByte x × All IsByte ys
All-split [] x ys h = (tt, h.0, h.1)
All-split (c ∷ xs) x ys h = let (a, b, d) = All-split xs x ys h.1 in ((h.0, a), b, d)

-- The two checksums of a body that is a kind, the checked bytes and four bytes.
module _ (k : ℕ) (cs t : List ℕ) (four : length t ≡ 4) where
  size : length (k ∷ (cs ++ t)) ≡ suc (length cs) + 4
  size = omega (arith, length-append cs t)

  stored-trailer : stored_checksum (k ∷ (cs ++ t)) ≡ word t
  stored-trailer =
      let n = length cs in
      let start : suc (n + 4) - 4 ≡ suc n = omega arith in
      let room : suc (n + 4) - suc n ≡ 4 = omega arith in
      rw (length-append cs t, four, start, room, drop-append_seam n cs t refl)
        (ap word (take_all 4 t (omega arith)))

  computed-checked : computed_checksum (k ∷ (cs ++ t)) ≡ checksum_ieee cs
  computed-checked =
      let n = length cs in
      let room : suc (n + 4) - 4 - 1 ≡ n = omega arith in
      rw (length-append cs t, four, room, take-append_seam n cs t refl)

  -- Such a body is refused if the four bytes are not the checksum.
  pub refused : word t ≢ checksum_ieee cs → parse_body (k ∷ (cs ++ t)) ≡ err msg_integrity
  refused ne =
      parse_body_mismatch (k ∷ (cs ++ t)) (omega (arith, size))
        (λ e. ne (sym stored-trailer ∙ e ∙ computed-checked))

-- A number below 2^32 is not read from its four bytes with one of them changed.
pub word-changed :
    (n : ℕ) (before after : List ℕ) (x y : ℕ)
    → put_uint32 n ≡ before ++ x ∷ after
    → IsByte y
    → y ≢ x
    → n < 2 ^ 32
    → word (before ++ y ∷ after) ≢ n
unfolding put_uint32
word-changed n before after x y e hy ne small same =
    let (hb, hx, ha) = All-split before x after (rw e at (put_word-IsByte 4 n)) in
    let four : length (before ++ y ∷ after) ≡ 4 = omega (
      arith,
      length-put_uint32 n,
      ap (λ (l : List ℕ). length l) e,
      length-append before (x ∷ after),
      length-append before (y ∷ after),
    ) in
    ne (
      append-cancel before y x after (
        sym (put_word-word (before ++ y ∷ after) (append-IsByte before (y ∷ after) hb (hy, ha)))
        ∙ ap (λ (k : ℕ). put_word k (word (before ++ y ∷ after))) four
        ∙ ap (put_word 4) same
        ∙ e))
