-- ===== src/Bits.antt =====
-- Laws of exclusive or on numbers, from the digit recursion that it stands for.
use Prim.Native.Nat.{bit_xor, bit_xor-bitwise, digits, differ}
use native.Mathlib.Nat.{pow-suc}
use lachain_communication_hu.Base.{
  ℕ, zero, suc, ◌+◌, ◌*◌, ◌/◌, ◌%◌, ◌^◌, ◌≤◌, ◌<◌, ◌≡◌, refl, sym, ap, ◌∙◌, arith, nat_eq,
  text_keys,
}

abbrev xor_digits : ℕ → ℕ → ℕ → ℕ
xor_digits n a b = digits (λ b. b) differ n a b

-- Fuel that is at least the first number is enough.
xor_digits_fuel : (n m a b : ℕ) → a ≤ n → a ≤ m → xor_digits n a b ≡ xor_digits m a b
xor_digits_fuel zero zero a b p q = refl
xor_digits_fuel zero (suc m) zero b p q = refl
xor_digits_fuel zero (suc m) (suc a) b p q = absurd (omega arith)
xor_digits_fuel (suc n) zero zero b p q = refl
xor_digits_fuel (suc n) zero (suc a) b p q = absurd (omega arith)
xor_digits_fuel (suc n) (suc m) zero b p q = refl
xor_digits_fuel (suc n) (suc m) (suc a) b p q =
    omega (arith, xor_digits_fuel n m (suc a / 2) (b / 2) (omega arith) (omega arith))

pub zero-bit_xor : (b : ℕ) → bit_xor 0 b ≡ b
zero-bit_xor b = bit_xor-bitwise 0 b

bit_xor_step : (a b : ℕ) → bit_xor a b ≡ bit_xor (a / 2) (b / 2) * 2 + differ (a % 2) (b % 2)
bit_xor_step zero b = omega (arith, zero-bit_xor b, zero-bit_xor (b / 2))
bit_xor_step (suc a) b = omega (
  arith,
  bit_xor-bitwise (suc a) b,
  bit_xor-bitwise (suc a / 2) (b / 2),
  xor_digits_fuel a (suc a / 2) (suc a / 2) (b / 2) (omega arith) (omega arith),
)

differ-add : (x y : ℕ) → x < 2 → y < 2 → differ x y ≡ (x + y) % 2
differ-add zero y p q = omega arith
differ-add (suc zero) zero p q = refl
differ-add (suc zero) (suc zero) p q = refl
differ-add (suc zero) (suc (suc y)) p q = absurd (omega arith)
differ-add (suc (suc x)) y p q = absurd (omega arith)

-- The lowest digit, and the others.
pub bit_xor-mod : (a b : ℕ) → bit_xor a b % 2 ≡ (a + b) % 2
bit_xor-mod a b =
    omega (arith, bit_xor_step a b, differ-add (a % 2) (b % 2) (omega arith) (omega arith))

pub bit_xor-div : (a b : ℕ) → bit_xor a b / 2 ≡ bit_xor (a / 2) (b / 2)
bit_xor-div a b =
    omega (arith, bit_xor_step a b, differ-add (a % 2) (b % 2) (omega arith) (omega arith))

cancel_right : (k a b p : ℕ) → a ≤ k → b ≤ k → bit_xor a p ≡ bit_xor b p → a ≡ b
cancel_right zero a b p ha hb e = omega arith
cancel_right (suc k) a b p ha hb e =
    let halves : a / 2 ≡ b / 2 =
      cancel_right k (a / 2) (b / 2) (p / 2) (omega arith) (omega arith)
        (sym (bit_xor-div a p) ∙ ap (λ (n : ℕ). n / 2) e ∙ bit_xor-div b p) in
    omega (arith, bit_xor-mod a p, bit_xor-mod b p)

cancel_left : (k a b p : ℕ) → a ≤ k → b ≤ k → bit_xor p a ≡ bit_xor p b → a ≡ b
cancel_left zero a b p ha hb e = omega arith
cancel_left (suc k) a b p ha hb e =
    let halves : a / 2 ≡ b / 2 =
      cancel_left k (a / 2) (b / 2) (p / 2) (omega arith) (omega arith)
        (sym (bit_xor-div p a) ∙ ap (λ (n : ℕ). n / 2) e ∙ bit_xor-div p b) in
    omega (arith, bit_xor-mod p a, bit_xor-mod p b)

pub bit_xor-cancel_right : (a b p : ℕ) → bit_xor a p ≡ bit_xor b p → a ≡ b
bit_xor-cancel_right a b p e = cancel_right (a + b) a b p (omega arith) (omega arith) e

pub bit_xor-cancel_left : (a b p : ℕ) → bit_xor p a ≡ bit_xor p b → a ≡ b
bit_xor-cancel_left a b p e = cancel_left (a + b) a b p (omega arith) (omega arith) e

pub bit_xor-lt : (k a b : ℕ) → a < 2 ^ k → b < 2 ^ k → bit_xor a b < 2 ^ k
bit_xor-lt zero a b ha hb = let e : bit_xor a b ≡ 0 = ground (arith, zero-bit_xor b) in omega arith
bit_xor-lt (suc k) a b ha hb = omega (
  arith,
  pow-suc 2 k,
  bit_xor-div a b,
  bit_xor-lt k (a / 2) (b / 2) (omega (arith, pow-suc 2 k)) (omega (arith, pow-suc 2 k)),
)

-- The digit above a number is that of the other.
pub bit_xor_top : (k a p : ℕ) → a < 2 ^ k → 2 ^ k ≤ p → 2 ^ k ≤ bit_xor a p
bit_xor_top zero a p ha hp = ground (arith, zero-bit_xor p)
bit_xor_top (suc k) a p ha hp = omega (
  arith,
  pow-suc 2 k,
  bit_xor-div a p,
  bit_xor_top k (a / 2) (p / 2) (omega (arith, pow-suc 2 k)) (omega (arith, pow-suc 2 k)),
)
