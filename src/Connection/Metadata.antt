-- ===== src/Connection/Metadata.antt =====
-- peer_service/connection/metadata.go: lists of peers as length-prefixed gob values.
use lachain_communication_hu.Base.{
  ℕ, zero, suc, ◌+◌, ◌-◌, ◌%◌, ◌^◌, Option, none, some, List, [], ◌∷◌, ◌++◌, length, take, drop,
  if◌then◌else◌, ltb, ◌==◌, Text,
}
use lachain_communication_hu.Binary.{put_uint32, word}
use lachain_communication_hu.Utils.Hex.{hex_to_bytes, bytes_to_hex}
use lachain_communication_hu.Utils.Platform.{Platform, MetadataSerializable}

-- A nil multiaddress is `none`.
pub record Metadata : Type 0 where
  pub public_key : Text
  pub id : Text
  pub last_seen : ℕ
  pub addr : Option (List ℕ)

abbrev pub addr_bytes : Option (List ℕ) → List ℕ
addr_bytes none = []
addr_bytes (some a) = a

-- `none` is a panic.
abbrev pub addr_of_bytes : (List ℕ → Option (List ℕ)) → List ℕ → Option (Option (List ℕ))
addr_of_bytes new [] = some none
addr_of_bytes new (b ∷ bs) = elim (new (b ∷ bs)) [ none ↦ none | some a ↦ some (some a) ]

infixl 5 ◌>>=?◌
abbrev pub ◌>>=?◌ {ℓ κ} : {A : Type ℓ} {B : Type κ} → Option A → (A → Option B) → Option B
none >>=? f = none
some a >>=? f = f a

module _ (lib : Platform) where
  -- What toBytes hands to the gob encoder.
  unfoldable pub serializable : Metadata → MetadataSerializable
  serializable pc = record {
    public_key = hex_to_bytes pc.public_key;
    id = lib.pretty pc.id;
    last_seen = pc.last_seen;
    addr = addr_bytes pc.addr;
  }

  unfoldable pub to_bytes : Metadata → List ℕ
  to_bytes pc = lib.gob_encode (serializable pc)

  -- Metadata.Encode
  unfoldable pub encode_metadata : Metadata → List ℕ
  encode_metadata pc = let bytes = to_bytes pc in put_uint32 (length bytes % 2 ^ 32) ++ bytes

  -- PeerConnectionFromBytes, which panics where it cannot decode.
  unfoldable pub peer_connection_from_bytes : List ℕ → Option Metadata
  peer_connection_from_bytes raw = lib.gob_decode raw >>=? λ peer_conn.
      lib.peer_decode peer_conn.id >>=? λ id.
      addr_of_bytes lib.new_multiaddr_bytes peer_conn.addr >>=? λ addr. some (record {
        public_key = bytes_to_hex peer_conn.public_key;
        id = id;
        last_seen = peer_conn.last_seen;
        addr = addr;
      })

  -- EncodeArray
  unfoldable pub encode_array : List Metadata → List ℕ
  encode_array [] = []
  encode_array (pc ∷ pcs) = encode_metadata pc ++ encode_array pcs

  -- One round of DecodeArray's loop on the bytes from the cursor to the end of the capacity: the
  -- peer, and how many bytes the cursor moves. `none` is a slice expression out of bounds, or the
  -- decoder's panic.
  unfoldable pub decode_next : List ℕ → Option (Metadata × ℕ)
  decode_next behind =
      if ltb (length behind) 4
      then none
      else let size = word (take 4 behind) in
        if ltb (length (drop 4 behind)) size
        then none
        else (peer_connection_from_bytes (take size (drop 4 behind)) >>=? λ pc. some (pc, 4 + size))

  -- A round that decoded a peer, and what the later rounds give.
  abbrev pub after_round :
      Metadata → Option (Option (List Metadata)) → Option (Option (List Metadata))
  after_round pc none = none
  after_round pc (some none) = some none
  after_round pc (some (some pcs)) = some (some (pc ∷ pcs))

  -- DecodeArray's loop: `left` bytes of the slice are before the cursor's end, and `behind` runs on
  -- into the slice's capacity. The fuel bounds the rounds; `none` within `some` is a panic.
  unfoldable pub decode_loop : ℕ → ℕ → List ℕ → Option (Option (List Metadata))
  decode_loop zero left behind = if left == 0 then some (some []) else none
  decode_loop (suc fuel) left behind =
      if left == 0 then some (some []) else elim (decode_next behind) [
        | none ↦ some none
        | some (pc, n) ↦ after_round pc (decode_loop fuel (left - n) (drop n behind))
      ]

  -- DecodeArray of a slice with `spare` behind it up to its capacity. Each round takes four bytes
  -- at least, so as many rounds as bytes are enough.
  unfoldable pub decode_array : List ℕ → List ℕ → Option (Option (List Metadata))
  decode_array raw spare = decode_loop (length raw) (length raw) (raw ++ spare)
