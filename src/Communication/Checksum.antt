-- ===== src/Communication/Checksum.antt =====
-- hash/crc32's ChecksumIEEE, bit by bit: the reflected polynomial 0xEDB88320, with the state
-- inverted at the start and at the end.
pub mod Injective
use Prim.Native.Nat.{bit_xor}
use lachain_communication_hu.Base.{
  ℕ, zero, suc, ◌/◌, ◌%◌, ◌^◌, ◌<◌, ◌≡◌, refl, List, [], ◌∷◌, arith, if◌then◌else◌, ◌==◌,
}

abbrev pub polynomial : ℕ
polynomial = 0xedb8_8320

-- One digit of the state goes out.
abbrev pub shift : ℕ → ℕ
shift c = if c % 2 == 1 then bit_xor (c / 2) polynomial else c / 2

pub update_bits : ℕ → ℕ → ℕ
update_bits zero c = c
update_bits (suc n) c = update_bits n (shift c)

pub update : ℕ → List ℕ → ℕ
update c [] = c
update c (b ∷ bs) = update (update_bits 8 (bit_xor c b)) bs

-- The result is a uint32.
unfoldable pub checksum_ieee : List ℕ → ℕ
unfolding update update_bits
checksum_ieee bs = bit_xor (update 0xffff_ffff bs) 0xffff_ffff % 2 ^ 32

pub checksum_ieee-lt : (bs : List ℕ) → checksum_ieee bs < 2 ^ 32
unfolding checksum_ieee
checksum_ieee-lt bs = omega arith

-- The check value of CRC-32: the bytes of "123456789".
check_value :
    checksum_ieee (0x31 ∷ 0x32 ∷ 0x33 ∷ 0x34 ∷ 0x35 ∷ 0x36 ∷ 0x37 ∷ 0x38 ∷ 0x39 ∷ []) ≡ 0xcbf4_3926
unfolding checksum_ieee
check_value = refl
