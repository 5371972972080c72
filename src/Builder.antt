-- ===== src/Builder.antt =====
-- GetPrivateKeyForHost of host/builder.go. A file is its contents under its path, and go-libp2p's
-- private keys are a parameter.
pub mod NamedHost
mod Examples
use lachain_communication_hu.Base.{not}
use lachain_communication_hu.Base.{Bool}
use lachain_communication_hu.Base.{true}
use lachain_communication_hu.Base.{
  take_all, ℕ, zero, suc, ◌-◌, ◌<◌, ◌≡◌, refl, ◌∙◌, inl, inr, Option, none, some, List, [], ◌∷◌,
  ◌++◌, append-nil, arith, length, take, All, if◌then◌else◌, ◌==◌, Bool-cases, Text, text_eq_iff,
  lookup, insert, nat_eq, text_keys, lookup-insert,
}
use lachain_communication_hu.Binary.{IsByte}
use lachain_communication_hu.Utils.Hex.{
  bytes_to_hex, decode_string, decode_string-bytes_to_hex, decode_string_zero, length-bytes_to_hex,
}

-- Marshalling and unmarshalling of private keys; `none` is an error.
pub record Keys (Key : Type 0) : Type 0 where
  pub marshal : Key → Option (List ℕ)
  pub unmarshal : List ℕ → Option Key

-- `make([]byte, 250)`, into which the file is read.
abbrev zeros : ℕ → List ℕ
zeros zero = []
zeros (suc n) = 0 ∷ zeros n

abbrev pub buffer_size : ℕ
buffer_size = 250

abbrev pub read_buffer : Text → List ℕ
read_buffer content = take buffer_size content ++ zeros (buffer_size - length content)

module _ {Key : Type 0} (lib : Keys Key) where
  -- The branch for a file that is there; the read of an empty file is an error.
  unfoldable pub read_key : Text → Option Key
  read_key content =
      if length content == 0 then none else elim (decode_string (read_buffer content)) [
        | none ↦ none
        | some bytes ↦ lib.unmarshal bytes
      ]

  -- GetPrivateKeyForHost, with the key that GenerateECDSAKeyPair makes; a panic is `none`. `done` says
  -- whether the calls of GenerateECDSAKeyPair, Create, WriteString and Open that it makes succeed.
  unfoldable pub get_private_key_for_host :
      Key → Bool → Text → List (Text × Text) → Option (Key × List (Text × Text))
  unfolding read_key
  get_private_key_for_host generated done path files =
      if not done then none else elim (lookup path files) [
        | none ↦ elim (lib.marshal generated) [
          | none ↦ none
          | some bytes ↦ some (generated, insert path (bytes_to_hex bytes) files)
        ]
        | some content ↦ elim (read_key content) [ none ↦ none | some prv ↦ some (prv, files) ]
      ]

  get_private_key_for_host_new :
      (key : Key) (path : Text) (files : List (Text × Text)) (bytes : List ℕ)
      → lookup path files ≡ none
      → lib.marshal key ≡ some bytes
      → get_private_key_for_host key true path files
        ≡ some (key, insert path (bytes_to_hex bytes) files)
  unfolding get_private_key_for_host
  get_private_key_for_host_new key path files bytes missing made =
      rw (get_private_key_for_host, missing, made) refl

  get_private_key_for_host_old :
      (other : Key) (path content : Text) (files : List (Text × Text)) (o : Option Key)
      → lookup path files ≡ some content
      → read_key content ≡ o
      → get_private_key_for_host other true path files
        ≡ (elim o [ none ↦ none | some prv ↦ some (prv, files) ])
  unfolding get_private_key_for_host
  get_private_key_for_host_old other path content files o there e =
      rw (get_private_key_for_host, there, e) refl

  lookup-written :
      (path : Text) (content : Text) (files : List (Text × Text))
      → lookup path (insert path content files) ≡ some content
  lookup-written path content files =
      lookup-insert path path content files ∙ (rw ((text_eq_iff path path).1 refl) refl)

  read_key-bytes_to_hex :
      (key : Key) (bytes : List ℕ)
      → All IsByte bytes
      → length bytes ≡ 125
      → lib.unmarshal bytes ≡ some key
      → read_key (bytes_to_hex bytes) ≡ some key
  unfolding read_key
  read_key-bytes_to_hex key bytes small size read =
      let n : length (bytes_to_hex bytes) ≡ 250 = omega (arith, length-bytes_to_hex bytes) in
      rw
        (
          n,
          take_all 250 (bytes_to_hex bytes) (omega arith),
          append-nil (bytes_to_hex bytes),
          decode_string-bytes_to_hex bytes small,
        )
        read

  read_key_short : (bytes : List ℕ) → length bytes < 125 → read_key (bytes_to_hex bytes) ≡ none
  unfolding read_key
  read_key_short bytes short =
      let t = bytes_to_hex bytes in
      let room : 250 - length t ≡ suc (249 - length t) = omega (arith, length-bytes_to_hex bytes) in
      elim (Bool-cases (length t == 0)) [
        | inl nothing ↦ rw nothing refl
        | inr something ↦
            rw
              (
                something,
                take_all 250 t (omega (arith, length-bytes_to_hex bytes)),
                room,
                decode_string_zero bytes (zeros (249 - length t)),
              )
              refl
      ]

  -- On calls in which crypto and the file system do not fail: the first call for a path without a
  -- file makes a key and writes it. If its marshalled form is
  -- 125 bytes long and is unmarshalled to the key, each later call returns this key, whatever it
  -- would make, and leaves the files as they are.
  pub get_private_key_for_host_again :
      (key other : Key) (path : Text) (files : List (Text × Text)) (bytes : List ℕ)
      → lookup path files ≡ none
      → lib.marshal key ≡ some bytes
      → All IsByte bytes
      → length bytes ≡ 125
      → lib.unmarshal bytes ≡ some key
      → (written : List (Text × Text)) × (get_private_key_for_host key true path files
          ≡ some (key, written))
        × (get_private_key_for_host other true path written ≡ some (key, written))
  get_private_key_for_host_again key other path files bytes missing made small size read =
      let written = insert path (bytes_to_hex bytes) files in
      (
        written,
        get_private_key_for_host_new key path files bytes missing made,
        get_private_key_for_host_old other path (bytes_to_hex bytes) written (some key)
            (lookup-written path (bytes_to_hex bytes) files)
            (read_key-bytes_to_hex key bytes small size read),
      )

  -- On calls in which crypto and the file system do not fail: if the marshalled form is shorter than
  -- 125 bytes, the first call for a path without a file returns the key and writes it, and each later
  -- call panics.
  pub get_private_key_for_host_short :
      (key other : Key) (path : Text) (files : List (Text × Text)) (bytes : List ℕ)
      → lookup path files ≡ none
      → lib.marshal key ≡ some bytes
      → length bytes < 125
      → (written : List (Text × Text)) × (get_private_key_for_host key true path files
          ≡ some (key, written))
        × (get_private_key_for_host other true path written ≡ none)
  get_private_key_for_host_short key other path files bytes missing made short =
      let written = insert path (bytes_to_hex bytes) files in
      (
        written,
        get_private_key_for_host_new key path files bytes missing made,
        get_private_key_for_host_old other path (bytes_to_hex bytes) written none
            (lookup-written path (bytes_to_hex bytes) files) (read_key_short bytes short),
      )
