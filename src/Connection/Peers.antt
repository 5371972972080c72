-- ===== src/Connection/Peers.antt =====
-- The list of peers of metadata.go: DecodeArray returns or panics on every input, and reads back what
-- EncodeArray wrote.
use lachain_communication_hu.Base.{
  ne→==, le→ltb, drop-append_seam, take-append_seam, ℕ, zero, suc, ◌+◌, ◌-◌, ◌%◌, ◌^◌, ◌≤◌, ◌<◌,
  ◌≡◌, refl, sym, ap, ◌∙◌, ◌≢◌, inl, inr, Option, none, some, List, [], ◌∷◌, ◌++◌, append_assoc,
  arith, length, drop, All, length-append, ◌==◌, Bool-cases, Option-cases, Text, nat_eq, text_keys,
}
use lachain_communication_hu.Binary.{IsByte, put_uint32, word, length-put_uint32, word-put_uint32}
use lachain_communication_hu.Utils.Platform.{Platform, MetadataSerializable}
use lachain_communication_hu.Utils.Hex.{bytes_to_hex, hex_to_bytes, hex_to_bytes-bytes_to_hex}
use lachain_communication_hu.Connection.Metadata.{
  Metadata, addr_bytes, addr_of_bytes, serializable, to_bytes, encode_metadata,
  peer_connection_from_bytes, encode_array, decode_next, decode_loop, after_round, decode_array,
}

-- gob decodes what it encoded.
pub record Faithful (lib : Platform) : Type 0 where
  pub gob : (s : MetadataSerializable) → lib.gob_decode (lib.gob_encode s) ≡ some s

module _ (lib : Platform) where
  -- An id that is read back from its readable form, a key in the hub's hexadecimal form, an address
  -- that multiaddr reads, and a length for four bytes.
  pub record IsMetadata (pc : Metadata) : Type 0 where
    pub key : List ℕ
    pub key_bytes : All IsByte key
    pub public_key : pc.public_key ≡ bytes_to_hex key
    pub id : lib.peer_decode (lib.pretty pc.id) ≡ some pc.id
    pub addr : addr_of_bytes lib.new_multiaddr_bytes (addr_bytes pc.addr) ≡ some pc.addr
    pub fits : length (to_bytes lib pc) < 2 ^ 32

  key-hex :
      (pc : Metadata) → IsMetadata pc → bytes_to_hex (hex_to_bytes pc.public_key) ≡ pc.public_key
  key-hex pc h =
      ap (λ (k : Text). bytes_to_hex (hex_to_bytes k)) h.public_key
      ∙ ap bytes_to_hex (hex_to_bytes-bytes_to_hex h.key h.key_bytes)
      ∙ sym h.public_key

  peer_connection-to_bytes :
      Faithful lib
      → (pc : Metadata) → IsMetadata pc
      → peer_connection_from_bytes lib (to_bytes lib pc) ≡ some pc
  unfolding peer_connection_from_bytes to_bytes serializable
  peer_connection-to_bytes f pc h = rw (f.gob (serializable lib pc), h.id, h.addr, key-hex pc h)

  -- The prefix of a record, and what is behind it.
  decode_next-encode_metadata :
      Faithful lib
      → (pc : Metadata) (rest : List ℕ) → IsMetadata pc
      → decode_next lib (encode_metadata lib pc ++ rest)
        ≡ some (pc, length (encode_metadata lib pc))
  unfolding decode_next encode_metadata
  decode_next-encode_metadata f pc rest h =
      let bytes = to_bytes lib pc in
      let prefix = put_uint32 (length bytes % 2 ^ 32) in
      let same : length bytes % 2 ^ 32 ≡ length bytes = omega (arith, h.fits) in
      let four : length prefix ≡ 4 = length-put_uint32 (length bytes % 2 ^ 32) in
      let size : word prefix ≡ length bytes =
        word-put_uint32 (length bytes % 2 ^ 32) (omega arith) ∙ same in
      rw
        (
          append_assoc prefix bytes rest,
          length-append prefix (bytes ++ rest),
          four,
          take-append_seam 4 prefix (bytes ++ rest) four,
          drop-append_seam 4 prefix (bytes ++ rest) four,
          size,
          length-append bytes rest,
          length-append prefix bytes,
        )
        (rw
          (
            le→ltb (4 + (length bytes + length rest)) 4 (omega arith),
            le→ltb (length bytes + length rest) (length bytes) (omega arith),
            take-append_seam (length bytes) bytes rest refl,
            peer_connection-to_bytes f pc h,
            four,
          )
          refl)

  -- Every round moves the cursor by four bytes at least.
  decode_next-progress :
      (behind : List ℕ) (pc : Metadata) (n : ℕ) → decode_next lib behind ≡ some (pc, n) → 4 ≤ n
  unfolding decode_next
  decode_next-progress behind pc n e = ground arith

  next_round-returns :
      (pc : Metadata) (o : Option (Option (List Metadata))) → o ≢ none → after_round lib pc o ≢ none
  next_round-returns pc none h = absurd (h refl)
  next_round-returns pc (some none) h = λ e. cc
  next_round-returns pc (some (some pcs)) h = λ e. cc

  decode_loop-returns :
      (fuel left : ℕ) (behind : List ℕ) → left ≤ fuel → decode_loop lib fuel left behind ≢ none
  unfolding decode_loop
  decode_loop-returns zero left behind h = λ e. ground arith
  decode_loop-returns (suc fuel) left behind h = elim (Bool-cases (left == 0)) [
    | inl done ↦ rw (decode_loop, done) (λ e. cc)
    | inr more ↦
        rw (decode_loop, more)
          (elim (Option-cases (decode_next lib behind)) [
            | inl crash ↦ rw crash (λ e. cc)
            | inr ((pc, n), next) ↦ rw next (
                next_round-returns pc _ (
                  decode_loop-returns fuel (left - n) (drop n behind)
                    (omega (arith, decode_next-progress behind pc n next))))
          ])
  ]

  -- Whatever a peer sends, DecodeArray comes to an end, with a list or a panic.
  pub decode_array_total : (raw spare : List ℕ) → decode_array lib raw spare ≢ none
  unfolding decode_array
  decode_array_total raw spare =
      decode_loop-returns (length raw) (length raw) (raw ++ spare) (omega arith)

  length-encode_metadata : (pc : Metadata) → 4 ≤ length (encode_metadata lib pc)
  unfolding encode_metadata
  length-encode_metadata pc =
      let bytes = to_bytes lib pc in
      omega (
        arith,
        length-append (put_uint32 (length bytes % 2 ^ 32)) bytes,
        length-put_uint32 (length bytes % 2 ^ 32),
      )

  decode_loop-encode_array :
      Faithful lib
      → (fuel : ℕ) (pcs : List Metadata) (spare : List ℕ) → All IsMetadata pcs
      → length (encode_array lib pcs) ≤ fuel
      → decode_loop lib fuel (length (encode_array lib pcs)) (encode_array lib pcs ++ spare)
        ≡ some (some pcs)
  unfolding decode_loop encode_array
  decode_loop-encode_array f zero [] spare hs enough = refl
  decode_loop-encode_array f (suc fuel) [] spare hs enough = refl
  decode_loop-encode_array f zero (pc ∷ pcs) spare hs enough = absurd (
      omega (
        arith,
        length-append (encode_metadata lib pc) (encode_array lib pcs),
        length-encode_metadata pc,
      ))
  decode_loop-encode_array f (suc fuel) (pc ∷ pcs) spare (h, hs) enough =
      let e = encode_metadata lib pc in
      let es = encode_array lib pcs in
      let size : length (e ++ es) ≡ length e + length es = length-append e es in
      let four : 4 ≤ length e = length-encode_metadata pc in
      let left : length e + length es - length e ≡ length es = omega arith in
      let later : decode_loop lib fuel (length es) (es ++ spare) ≡ some (some pcs) =
        decode_loop-encode_array f fuel pcs spare hs (omega arith) in
      rw
        (
          decode_loop,
          size,
          ne→== (length e + length es) 0 (omega arith),
          append_assoc e es spare,
          decode_next-encode_metadata f pc (es ++ spare) h,
          encode_array,
          size,
          left,
          append_assoc e es spare,
          drop-append_seam (length e) e (es ++ spare) refl,
        )
        (ap (after_round lib pc) later)

  -- Where gob decodes what it encoded, DecodeArray reads back the peers that EncodeArray wrote, in
  -- their order, whatever stands behind them in memory, if every id is read back from its readable
  -- form, every key is in the hub's hexadecimal form, every address one that multiaddr reads, and no
  -- record longer than four bytes can say.
  pub decode_array-encode_array :
      Faithful lib
      → (pcs : List Metadata) (spare : List ℕ) → All IsMetadata pcs
      → decode_array lib (encode_array lib pcs) spare ≡ some (some pcs)
  unfolding decode_array
  decode_array-encode_array f pcs spare hs =
      decode_loop-encode_array f (length (encode_array lib pcs)) pcs spare hs (omega arith)
