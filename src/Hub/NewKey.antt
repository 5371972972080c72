-- ===== src/Hub/NewKey.antt =====
-- GenerateNewKey of embedded_hub.go. The key that GenerateECDSAKeyPair makes is an argument, by its
-- marshalled bytes and the text of its peer id.
use lachain_communication_hu.Base.{
  ℕ, ◌/◌, ◌%◌, ◌^◌, ◌<◌, ◌≡◌, ap, ◌∙◌, ◌||◌, Option, none, some, List, [], ◌∷◌, ◌++◌, arith, length,
  All, if◌then◌else◌, ltb, leb, Text, nat_eq, text_keys,
}
use lachain_communication_hu.Binary.{IsByte}
use lachain_communication_hu.Utils.Hex.{
  bytes_to_hex, decode_string, decode_string-bytes_to_hex, hex_digit-ne,
}
use lachain_communication_hu.Config.{split, comma}
use lachain_communication_hu.Config.Addresses.{Free, split-Free, split-append}

-- The text that is made of the key.
abbrev pub key_text : List ℕ → Text → Text
key_text prv_bytes id = bytes_to_hex prv_bytes ++ comma ∷ id

-- GenerateNewKey: the result, and the bytes that are copied into the buffer, if any. `buffer_len` is
-- the 32 bits of a C int.
unfoldable pub generate_new_key : List ℕ → Text → ℕ → ℕ × Option (List ℕ)
generate_new_key prv_bytes id buffer_len =
    let prv_hex = key_text prv_bytes id in
    if ltb buffer_len (length prv_hex) || leb (2 ^ 31) buffer_len
    then (length prv_hex % 2 ^ 32, none)
    else (length prv_hex % 2 ^ 32, some prv_hex)

bytes_to_hex-Free : (bs : List ℕ) → All IsByte bs → Free comma (bytes_to_hex bs)
unfolding bytes_to_hex
bytes_to_hex-Free [] h = tt
bytes_to_hex-Free (b ∷ bs) (small, hs) = (
  hex_digit-ne (b / 16) (omega arith),
  (hex_digit-ne (b % 16) (omega arith), bytes_to_hex-Free bs hs),
)

-- A buffer that is large enough gets the whole text, whose two parts, at the comma, are hexadecimal
-- digits that decode to the key's bytes, and the id. Into a smaller one nothing is copied, and the
-- result is the length that would do.
pub generate_new_key-split :
    (prv_bytes : List ℕ) (id : Text) (buffer_len : ℕ)
    → All IsByte prv_bytes
    → Free comma id
    → buffer_len < 2 ^ 31
    → length (key_text prv_bytes id) < 2 ^ 31
    → (generate_new_key prv_bytes id buffer_len ≡ (
      length (key_text prv_bytes id),
      if ltb buffer_len (length (key_text prv_bytes id))
          then none
          else some (key_text prv_bytes id),
    ))
      × (split comma (key_text prv_bytes id) ≡ bytes_to_hex prv_bytes ∷ id ∷ [])
      × (decode_string (bytes_to_hex prv_bytes) ≡ some prv_bytes)
unfolding generate_new_key
generate_new_key-split prv_bytes id buffer_len bytes free small room = (
  ground arith,
  split-append comma (bytes_to_hex prv_bytes) id (bytes_to_hex-Free prv_bytes bytes)
      ∙ ap (◌∷◌ (bytes_to_hex prv_bytes)) (split-Free comma id free),
  decode_string-bytes_to_hex prv_bytes bytes,
)
