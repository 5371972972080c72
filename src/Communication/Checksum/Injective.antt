-- ===== src/Communication/Checksum/Injective.antt =====
-- The checksum tells byte sequences apart that differ in one byte.
use lachain_communication_hu.Base.{
  ==_iff, ℕ, zero, suc, ◌/◌, ◌%◌, ◌^◌, ◌<◌, ◌≡◌, sym, ◌∙◌, ◌≢◌, inl, inr, List, [], ◌∷◌, ◌++◌,
  arith, All, ◌==◌, Bool-cases, nat_eq, text_keys,
}
use Prim.Native.Nat.{bit_xor}
use native.Mathlib.Nat.{mod-eq_of_lt}
use lachain_communication_hu.Binary.{IsByte}
use lachain_communication_hu.Bits.{
  bit_xor-cancel_left, bit_xor-cancel_right, bit_xor-lt, bit_xor_top,
}
use lachain_communication_hu.Communication.Checksum.{
  polynomial, shift, update_bits, update, checksum_ieee,
}

shift-lt : (c : ℕ) → c < 2 ^ 32 → shift c < 2 ^ 32
shift-lt c h = elim (Bool-cases (c % 2 == 1)) [
  | inl odd ↦ rw odd (bit_xor-lt 32 (c / 2) polynomial (omega arith) (omega arith))
  | inr even ↦ rw even (omega arith)
]

-- The polynomial has the highest digit, so an odd state is told from an even one.
mixed-absurd : (a b : ℕ) → a < 2 ^ 32 → b < 2 ^ 32 → bit_xor (a / 2) polynomial ≢ b / 2
mixed-absurd a b ha hb e =
    omega (arith, bit_xor_top 31 (a / 2) polynomial (omega arith) (omega arith))

shift-injective : (a b : ℕ) → a < 2 ^ 32 → b < 2 ^ 32 → shift a ≡ shift b → a ≡ b
shift-injective a b ha hb = elim (Bool-cases (a % 2 == 1)) [
  | inl oa ↦ elim (Bool-cases (b % 2 == 1)) [
    | inl ob ↦
        rw (oa, ob)
          (λ e.
            let h : a / 2 ≡ b / 2 = bit_xor-cancel_right (a / 2) (b / 2) polynomial e in
            let pa : a % 2 ≡ 1 = (==_iff (a % 2) 1).0 oa in
            let pb : b % 2 ≡ 1 = (==_iff (b % 2) 1).0 ob in omega arith)
    | inr eb ↦ rw (oa, eb) (λ e. absurd (mixed-absurd a b ha hb e))
  ]
  | inr ea ↦ elim (Bool-cases (b % 2 == 1)) [
    | inl ob ↦ rw (ea, ob) (λ e. absurd (mixed-absurd b a hb ha (sym e)))
    | inr eb ↦
        rw (ea, eb)
          (λ e.
            let pa : a % 2 ≡ 0 = ground arith in let pb : b % 2 ≡ 0 = ground arith in omega arith)
  ]
]

update_bits-lt : (n c : ℕ) → c < 2 ^ 32 → update_bits n c < 2 ^ 32
unfolding update_bits
update_bits-lt zero c h = h
update_bits-lt (suc n) c h = update_bits-lt n (shift c) (shift-lt c h)

update_bits-injective :
    (n a b : ℕ) → a < 2 ^ 32 → b < 2 ^ 32 → update_bits n a ≡ update_bits n b → a ≡ b
unfolding update_bits
update_bits-injective zero a b ha hb e = e
update_bits-injective (suc n) a b ha hb e =
    shift-injective a b ha hb
      (update_bits-injective n (shift a) (shift b) (shift-lt a ha) (shift-lt b hb) e)

with_byte-lt : (c b : ℕ) → c < 2 ^ 32 → IsByte b → bit_xor c b < 2 ^ 32
with_byte-lt c b hc hb = bit_xor-lt 32 c b hc (omega arith)

update-lt : (c : ℕ) (bs : List ℕ) → c < 2 ^ 32 → All IsByte bs → update c bs < 2 ^ 32
unfolding update
update-lt c [] hc h = hc
update-lt c (b ∷ bs) hc (hb, hbs) =
    update-lt (update_bits 8 (bit_xor c b)) bs
      (update_bits-lt 8 (bit_xor c b) (with_byte-lt c b hc hb)) hbs

-- From different states the same bytes lead to different states.
update-injective :
    (bs : List ℕ) (a b : ℕ)
    → a < 2 ^ 32
    → b < 2 ^ 32
    → All IsByte bs
    → update a bs ≡ update b bs
    → a ≡ b
unfolding update
update-injective [] a b ha hb h e = e
update-injective (x ∷ bs) a b ha hb (hx, hs) e =
    let wa = with_byte-lt a x ha hx in
    let wb = with_byte-lt b x hb hx in
    bit_xor-cancel_right a b x (
      update_bits-injective 8 (bit_xor a x) (bit_xor b x) wa wb (
        update-injective bs (update_bits 8 (bit_xor a x)) (update_bits 8 (bit_xor b x))
          (update_bits-lt 8 (bit_xor a x) wa) (update_bits-lt 8 (bit_xor b x) wb) hs e))

-- Sequences that differ in one byte lead to different states.
update-one_byte :
    (before after : List ℕ) (c x y : ℕ)
    → c < 2 ^ 32
    → All IsByte before
    → All IsByte after
    → IsByte x
    → IsByte y
    → update c (before ++ x ∷ after) ≡ update c (before ++ y ∷ after)
    → x ≡ y
unfolding update
update-one_byte [] after c x y hc hb ha hx hy e =
    let wx = with_byte-lt c x hc hx in
    let wy = with_byte-lt c y hc hy in
    bit_xor-cancel_left x y c (
      update_bits-injective 8 (bit_xor c x) (bit_xor c y) wx wy (
        update-injective after (update_bits 8 (bit_xor c x)) (update_bits 8 (bit_xor c y))
          (update_bits-lt 8 (bit_xor c x) wx) (update_bits-lt 8 (bit_xor c y) wy) ha e))
update-one_byte (b ∷ before) after c x y hc (hb, hbs) ha hx hy e =
    update-one_byte before after (update_bits 8 (bit_xor c b)) x y
      (update_bits-lt 8 (bit_xor c b) (with_byte-lt c b hc hb)) hbs ha hx hy e

pub append-IsByte : (xs ys : List ℕ) → All IsByte xs → All IsByte ys → All IsByte (xs ++ ys)
append-IsByte [] ys hx hy = hy
append-IsByte (x ∷ xs) ys (h, hs) hy = (h, append-IsByte xs ys hs hy)

checksum-update :
    (bs : List ℕ) → All IsByte bs → checksum_ieee bs ≡ bit_xor (update 0xffff_ffff bs) 0xffff_ffff
unfolding checksum_ieee
checksum-update bs h =
    mod-eq_of_lt
      (bit_xor-lt 32 _ 0xffff_ffff (update-lt 0xffff_ffff bs (omega arith) h) (omega arith))

pub checksum_ieee-one_byte :
    (before after : List ℕ) (x y : ℕ)
    → All IsByte before
    → All IsByte after
    → IsByte x
    → IsByte y
    → checksum_ieee (before ++ x ∷ after) ≡ checksum_ieee (before ++ y ∷ after)
    → x ≡ y
checksum_ieee-one_byte before after x y hb ha hx hy e =
    update-one_byte before after 0xffff_ffff x y (omega arith) hb ha hx hy (
      bit_xor-cancel_right _ _ 0xffff_ffff (
        sym (checksum-update _ (append-IsByte before (x ∷ after) hb (hx, ha)))
        ∙ e
        ∙ checksum-update _ (append-IsByte before (y ∷ after) hb (hy, ha))))
