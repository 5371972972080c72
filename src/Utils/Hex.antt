-- ===== src/Utils/Hex.antt =====
-- encoding/hex as utils/crypto.go uses it: BytesToHex and HexToBytes.
use lachain_communication_hu.Base.{
  ◌≢◌, length, ◌++◌, ℕ, ◌+◌, ◌-◌, ◌*◌, ◌/◌, ◌%◌, ◌<◌, ◌≡◌, refl, ap, ◌&&◌, Option, none, some, List,
  [], ◌∷◌, arith, All, if◌then◌else◌, ltb, leb, Text,
}
use lachain_communication_hu.Binary.{IsByte}

unfoldable pub hex_digit : ℕ → ℕ
hex_digit n = if ltb n 10 then b'0' + n else b'a' + n - 10

-- The value of a digit, of either case.
from_digit : ℕ → Option ℕ
from_digit c =
    if leb b'0' c && leb c b'9'
    then some (c - b'0')
    else if leb b'a' c && leb c b'f'
    then some (c - b'a' + 10)
    else if leb b'A' c && leb c b'F'
    then some (c - b'A' + 10)
    else none

abbrev both : Option ℕ → Option ℕ → Option ℕ
both (some a) (some b) = some (a * 16 + b)
both none _ = none
both (some a) none = none

-- BytesToHex
unfoldable pub bytes_to_hex : List ℕ → Text
unfolding hex_digit
bytes_to_hex [] = []
bytes_to_hex (b ∷ bs) = hex_digit (b / 16) ∷ hex_digit (b % 16) ∷ bytes_to_hex bs

abbrev cons_decoded : Option ℕ → List ℕ → List ℕ
cons_decoded (some b) bs = b ∷ bs
cons_decoded none bs = []

-- HexToBytes logs the error of hex.DecodeString and returns the bytes that come with it: those
-- before the first pair that is no number.
unfoldable pub hex_to_bytes : Text → List ℕ
unfolding from_digit
hex_to_bytes [] = []
hex_to_bytes (c ∷ []) = []
hex_to_bytes (c ∷ d ∷ rest) = cons_decoded (both (from_digit c) (from_digit d)) (hex_to_bytes rest)

from_digit-hex_digit : (n : ℕ) → n < 16 → from_digit (hex_digit n) ≡ some n
unfolding from_digit hex_digit
from_digit-hex_digit n h = ground arith

-- Reading the text that was made of a byte slice gives the slice back.
pub hex_to_bytes-bytes_to_hex : (bs : List ℕ) → All IsByte bs → hex_to_bytes (bytes_to_hex bs) ≡ bs
unfolding hex_to_bytes bytes_to_hex
hex_to_bytes-bytes_to_hex [] h = refl
hex_to_bytes-bytes_to_hex (b ∷ bs) (hb, hbs) =
    rw
      (
        from_digit-hex_digit (b / 16) (omega arith),
        from_digit-hex_digit (b % 16) (omega arith),
        hex_to_bytes-bytes_to_hex bs hbs,
      )
      (ap (λ (k : ℕ). k ∷ bs) (omega arith))

abbrev cons_both : Option ℕ → Option (List ℕ) → Option (List ℕ)
cons_both (some b) (some bs) = some (b ∷ bs)
cons_both none _ = none
cons_both (some b) none = none

-- hex.DecodeString; `none` is an error.
unfoldable pub decode_string : Text → Option (List ℕ)
unfolding from_digit
decode_string [] = some []
decode_string (c ∷ []) = none
decode_string (c ∷ d ∷ rest) = cons_both (both (from_digit c) (from_digit d)) (decode_string rest)

pub decode_string-bytes_to_hex :
    (bs : List ℕ) → All IsByte bs → decode_string (bytes_to_hex bs) ≡ some bs
unfolding decode_string bytes_to_hex
decode_string-bytes_to_hex [] h = refl
decode_string-bytes_to_hex (b ∷ bs) (hb, hbs) =
    rw
      (
        from_digit-hex_digit (b / 16) (omega arith),
        from_digit-hex_digit (b % 16) (omega arith),
        decode_string-bytes_to_hex bs hbs,
      )
      (ap (λ (k : ℕ). some (k ∷ bs)) (omega arith))

-- A text that goes on with a byte 0 is refused.
pub decode_string_zero : (bs rest : List ℕ) → decode_string (bytes_to_hex bs ++ 0 ∷ rest) ≡ none
unfolding decode_string bytes_to_hex from_digit
decode_string_zero [] [] = refl
decode_string_zero [] (c ∷ rest) = refl
decode_string_zero (b ∷ bs) rest = rw (decode_string_zero bs rest) (cons_none _)
  where
    cons_none : (o : Option ℕ) → cons_both o none ≡ none
    cons_none none = refl
    cons_none (some b) = refl

pub length-bytes_to_hex : (bs : List ℕ) → length (bytes_to_hex bs) ≡ 2 * length bs
unfolding bytes_to_hex
length-bytes_to_hex [] = refl
length-bytes_to_hex (b ∷ bs) = omega (arith, length-bytes_to_hex bs)

-- A digit is no comma.
pub hex_digit-ne : (n : ℕ) → n < 16 → hex_digit n ≢ 44
unfolding hex_digit
hex_digit-ne n h = ground arith
