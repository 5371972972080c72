-- ===== src/Binary.antt =====
-- encoding/binary's little-endian words, as communication.go and metadata.go use them.
use lachain_communication_hu.Base.{
  ℕ, zero, suc, ◌+◌, ◌*◌, ◌/◌, ◌%◌, ◌^◌, ◌<◌, ◌≡◌, refl, ap, List, [], ◌∷◌, arith, length, All,
}
use native.Mathlib.Nat.{pow-suc}

abbrev pub IsByte : ℕ → Type 0
IsByte b = b < 256

-- A word of `w` bytes, the lowest byte first.
unfoldable pub put_word : ℕ → ℕ → List ℕ
put_word zero v = []
put_word (suc w) v = (v % 256) ∷ put_word w (v / 256)

unfoldable pub word : List ℕ → ℕ
word [] = 0
word (b ∷ bs) = b + 256 * word bs

-- `binary.LittleEndian.PutUint32` and `Uint32`, `PutUint64` and `Uint64`.
unfoldable pub put_uint32 : ℕ → List ℕ
put_uint32 v = put_word 4 v

unfoldable pub put_uint64 : ℕ → List ℕ
put_uint64 v = put_word 8 v

pub length-put_word : (w v : ℕ) → length (put_word w v) ≡ w
unfolding put_word
length-put_word zero v = refl
length-put_word (suc w) v = ap suc (length-put_word w (v / 256))

pub put_word-IsByte : (w v : ℕ) → All IsByte (put_word w v)
unfolding put_word
put_word-IsByte zero v = tt
put_word-IsByte (suc w) v = (omega arith, put_word-IsByte w (v / 256))

pub word-put_word : (w v : ℕ) → v < 256 ^ w → word (put_word w v) ≡ v
unfolding put_word word
word-put_word zero v h = omega arith
word-put_word (suc w) v h = omega (arith, word-put_word w (v / 256) (omega (arith, pow-suc 256 w)))

pub put_word-word : (bs : List ℕ) → All IsByte bs → put_word (length bs) (word bs) ≡ bs
unfolding put_word word
put_word-word [] h = refl
put_word-word (b ∷ bs) (hb, hbs) = ground (arith, put_word-word bs hbs)

pub length-put_uint32 : (v : ℕ) → length (put_uint32 v) ≡ 4
unfolding put_uint32
length-put_uint32 v = length-put_word 4 v

pub word-put_uint32 : (v : ℕ) → v < 2 ^ 32 → word (put_uint32 v) ≡ v
unfolding put_uint32
word-put_uint32 v h = word-put_word 4 v (omega arith)
