-- ===== src/Utils/Signing.antt =====
-- EcRecover on what LaSign returned.
use native.Mathlib.Nat.{div_self, div-eq_of_lt}
use native.Mathlib.Decide.{dec_lt}
use lachain_communication_hu.Base.{
  le→leb, take-append_seam, lt→ltb, le→ltb, ne→==, ℕ, zero, suc, ◌+◌, ◌-◌, ◌*◌, ◌/◌, ◌%◌, ◌^◌, ◌≤◌,
  ◌<◌, ◌≡◌, refl, ap, Bool, true, false, ◌||◌, some, List, [], ◌∷◌, ◌++◌, append_assoc, arith,
  length, length-append, ok, if◌then◌else◌, ltb, ◌==◌,
}
use lachain_communication_hu.Binary.{put_word, put_uint32, word}
use lachain_communication_hu.Utils.Platform.{Platform}
use lachain_communication_hu.Utils.Crypto.{
  index, encoded_rec_id, recover_encoded_rec_id, rec_id_byte, recover_with, la_sign, ec_recover,
}

index-append :
    (n : ℕ) (xs : List ℕ) (y : ℕ) (ys : List ℕ) → length xs ≡ n → index (xs ++ y ∷ ys) n ≡ ok y
index-append zero [] y ys h = refl
index-append zero (x ∷ xs) y ys h = absurd (omega arith)
index-append (suc n) [] y ys h = absurd (omega arith)
index-append (suc n) (x ∷ xs) y ys h = index-append n xs y ys (omega arith)

-- The recovery id comes back from 2c + 35 + v, for v = 0 and v = 1.
rec_id-quotient : (c v : ℕ) → 0 < c → v ≤ 1 → (c * 2 + 35 + v - 36) / 2 / c ≡ v
rec_id-quotient c zero hc hv =
    let e : (c * 2 + 35 + 0 - 36) / 2 ≡ c - 1 = omega arith in rw e (div-eq_of_lt (omega arith))
rec_id-quotient c (suc zero) hc hv =
    let e : (c * 2 + 35 + 1 - 36) / 2 ≡ c = omega arith in rw e (div_self hc)
rec_id-quotient c (suc (suc v)) hc hv = absurd (omega arith)

rec_id_byte_lem : (c v : ℕ) → 0 < c → v ≤ 1 → rec_id_byte (c * 2 + 35 + v) c ≡ ok v
unfolding rec_id_byte
rec_id_byte_lem c v hc hv =
    rw
      (ne→== c 0 (omega arith), le→leb 36 (c * 2 + 35 + v) (omega arith), rec_id-quotient c v hc hv)
      (ap ok (omega arith))

-- The bytes behind the first 64 and what they are read as.
record Encoded (c v : ℕ) (last : List ℕ) : Type 0 where
  size : length last ≡ (if ltb c 110 then 1 else 2)
  reads : (rs : List ℕ) → length rs ≡ 64 → recover_encoded_rec_id (rs ++ last) ≡ ok (c * 2 + 35 + v)

small-Encoded :
    (c v : ℕ)
    → c < 110
    → v ≤ 1
    → (last : List ℕ) × (encoded_rec_id c v ≡ ok last) × Encoded c v last
unfolding encoded_rec_id recover_encoded_rec_id
small-Encoded c v h hv = (
  (c * 2 % 256 + 35 + v) % 256 ∷ [],
  rw (lt→ltb c 110 h),
  record {
    size = rw (lt→ltb c 110 h);
    reads = λ rs n.
        rw
          (
            length-append rs ((c * 2 % 256 + 35 + v) % 256 ∷ []),
            n,
            index-append 64 rs ((c * 2 % 256 + 35 + v) % 256) [] n,
          )
          (ap ok (omega arith));
  },
)

large-Encoded :
    (c v : ℕ)
    → 110 ≤ c
    → c < 256
    → v ≤ 1
    → (last : List ℕ) × (encoded_rec_id c v ≡ ok last) × Encoded c v last
unfolding encoded_rec_id recover_encoded_rec_id put_uint32 put_word word
large-Encoded c v h hc hv =
    let x : ℕ = (c * 2 + 35 + v) % 2 ^ 32 in
    let low : ℕ = x % 256 in
    let high : ℕ = x / 256 % 256 in
    (
      high ∷ low ∷ [],
      rw (le→ltb c 110 h),
      record {
        size = rw (le→ltb c 110 h);
        reads = λ rs n.
            rw
              (
                length-append rs (high ∷ low ∷ []),
                n,
                index-append 64 rs high (low ∷ []) n,
                ← append_assoc rs (high ∷ []) (low ∷ []),
                index-append 65 (rs ++ high ∷ []) low []
                    (omega (arith, length-append rs (high ∷ []))),
              )
              (ap ok (omega arith));
      },
    )

encoded_rec_id-Encoded :
    (c v : ℕ)
    → c < 256
    → v ≤ 1
    → (last : List ℕ) × (encoded_rec_id c v ≡ ok last) × Encoded c v last
encoded_rec_id-Encoded c v hc hv = elim (dec_lt c 110) [
  | yes small ↦ small-Encoded c v small hv
  | no large ↦ large-Encoded c v (omega arith) hc hv
]

-- For a chain id from 1 to 255: if the library's Sign returns 64 bytes and a recovery id of 0 or 1,
-- LaSign returns 65 bytes for a chain id below 110 and 66 otherwise, and EcRecover with that chain
-- id hands the library exactly the bytes that Sign returned.
pub ec_recover-la_sign :
    (lib : Platform) (message prv rs : List ℕ) (v c : ℕ)
    → 0 < c
    → c < 256
    → v ≤ 1
    → length rs ≡ 64
    → lib.sign (lib.keccak256 message) prv ≡ some (rs ++ v ∷ [])
    → (sig : List ℕ) × (la_sign lib message prv c ≡ ok sig)
      × (length sig ≡ (if ltb c 110 then 65 else 66))
      × (ec_recover lib message sig c ≡ recover_with lib (lib.keccak256 message) (rs ++ v ∷ []))
unfolding la_sign ec_recover
ec_recover-la_sign lib message prv rs v c lo hi hv n signed =
    let (last, e, enc) = encoded_rec_id-Encoded c v hi hv in
    let size : length (rs ++ last) ≡ (if ltb c 110 then 65 else 66) =
      rw (length-append rs last, n, enc.size) (size_cases (ltb c 110)) in
    (
      rs ++ last,
      rw (signed, index-append 64 rs v [] n, e, take-append_seam 64 rs (v ∷ []) n),
      size,
      rw (
        size,
        allowed (ltb c 110),
        enc.reads rs n,
        rec_id_byte_lem c v lo hv,
        take-append_seam 64 rs last n,
      ),
    )
  where
    size_cases : (b : Bool) → 64 + (if b then 1 else 2) ≡ (if b then 65 else 66)
    size_cases true = refl
    size_cases false = refl

    allowed : (b : Bool) → ((if b then 65 else 66) == 65 || (if b then 65 else 66) == 66) ≡ true
    allowed true = refl
    allowed false = refl
