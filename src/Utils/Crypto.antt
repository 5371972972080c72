-- ===== src/Utils/Crypto.antt =====
-- utils/crypto.go: signatures that carry the chain id beside the recovery id.
use lachain_communication_hu.Base.{
  ℕ, zero, suc, ◌+◌, ◌-◌, ◌*◌, ◌/◌, ◌%◌, ◌^◌, not, ◌&&◌, ◌||◌, Option, none, some, List, [], ◌∷◌,
  ◌++◌, length, take, Outcome, ok, err, panic, ◌>>=◌, ◌>>◌, guard, if◌then◌else◌, ltb, leb, ◌==◌,
  Text,
}
use lachain_communication_hu.Binary.{put_uint32, word}
use lachain_communication_hu.Utils.Platform.{Platform}
use lachain_communication_hu.Utils.Hex.{bytes_to_hex, hex_to_bytes}

pub data CryptoError : Type 0 where
  bad_signature_length refused : CryptoError

-- `s[i]`
abbrev pub index : List ℕ → ℕ → Outcome CryptoError ℕ
index [] i = panic
index (x ∷ xs) zero = ok x
index (x ∷ xs) (suc i) = index xs i

abbrev pub or_refused {ℓ} : {A : Type ℓ} → Option A → Outcome CryptoError A
or_refused none = err refused
or_refused (some a) = ok a

-- LaSign's last bytes for the recovery id `v`: one byte of byte arithmetic on small chains, and two
-- bytes, high byte first, on the others.
unfoldable pub encoded_rec_id : ℕ → ℕ → Outcome CryptoError (List ℕ)
encoded_rec_id chain_id v =
    if ltb chain_id 110 then ok ((chain_id * 2 % 256 + 35 + v) % 256 ∷ []) else do
      let rec_id_bytes = put_uint32 ((chain_id * 2 + 35 + v) % 2 ^ 32)
      high ← index rec_id_bytes 1
      low ← index rec_id_bytes 0
      ok (high ∷ low ∷ [])

-- recoverEncodedRecIdFromSignature
unfoldable pub recover_encoded_rec_id : List ℕ → Outcome CryptoError ℕ
recover_encoded_rec_id sig =
    if not (length sig == 65) && not (length sig == 66)
    then err bad_signature_length
    else if length sig == 65
    then index sig 64
    else do low ← index sig 65; high ← index sig 64; ok (word (low ∷ high ∷ 0 ∷ 0 ∷ []))

-- `byte((encodedRecId - 36) / 2 / int(chainId))`: Go's division truncates towards zero, the
-- conversion keeps the low byte, and division by zero panics.
unfoldable pub rec_id_byte : ℕ → ℕ → Outcome CryptoError ℕ
rec_id_byte encoded chain_id =
    if chain_id == 0
    then panic
    else if leb 36 encoded
    then ok ((encoded - 36) / 2 / chain_id % 256)
    else ok ((256 - (36 - encoded) / 2 / chain_id % 256) % 256)

module _ (lib : Platform) where
  -- The part of EcRecover that the library does.
  unfoldable pub recover_with : List ℕ → List ℕ → Outcome CryptoError (List ℕ)
  recover_with data_hash rec_sig = do
    rpk ← or_refused (lib.ecrecover data_hash rec_sig)
    or_refused (lib.unmarshal_pubkey rpk)

  unfoldable pub la_sign : List ℕ → List ℕ → ℕ → Outcome CryptoError (List ℕ)
  la_sign message prv chain_id = do
    signature ← or_refused (lib.sign (lib.keccak256 message) prv)
    v ← index signature 64
    last ← encoded_rec_id chain_id v
    ok (take 64 signature ++ last)

  unfoldable pub ec_recover : List ℕ → List ℕ → ℕ → Outcome CryptoError (List ℕ)
  ec_recover message sig chain_id = do
    guard (length sig == 65 || length sig == 66) bad_signature_length
    encoded ← recover_encoded_rec_id sig
    rec_id ← rec_id_byte encoded chain_id
    recover_with (lib.keccak256 message) (take 64 sig ++ rec_id ∷ [])

  unfoldable pub public_key_to_hex_string : List ℕ → Text
  public_key_to_hex_string key = bytes_to_hex (lib.compress_pubkey key)

  unfoldable pub hex_to_public_key : Text → Option (List ℕ)
  hex_to_public_key t = lib.decompress_pubkey (hex_to_bytes t)
