-- ===== src/Utils/Toy.antt =====
-- A small stand-in for the third-party packages, on which the theorems are tried: the hash is a
-- length, a signature carries the first byte of the key, and a recovered key is the signature's end.
use lachain_communication_hu.Base.{
  ℕ, zero, suc, none, some, List, [], ◌∷◌, ◌++◌, length, drop, nat_eq, text_keys,
}
use lachain_communication_hu.Utils.Platform.{Platform}

abbrev repeat : ℕ → ℕ → List ℕ
repeat zero b = []
repeat (suc n) b = b ∷ repeat n b

abbrev pub toy_signature : List ℕ → List ℕ → List ℕ
toy_signature digest prv = repeat 64 9 ++ 1 ∷ []

abbrev pub toy : Platform
toy = record {
  keccak256 = λ m. length m ∷ [];
  sign = λ digest prv. some (toy_signature digest prv);
  ecrecover = λ digest sig. some (drop 63 sig);
  unmarshal_pubkey = λ key. some key;
  compress_pubkey = λ key. key;
  decompress_pubkey = λ bytes. some bytes;
  marshal = λ id. some id;
  pretty = λ id. id;
  peer_decode = λ t. some t;
  new_multiaddr_bytes = λ bytes. some bytes;
  new_multiaddr = λ t. some t;
  multiaddr_string = λ a. a;
  gob_encode = λ m. m.public_key;
  gob_decode = λ bytes. none;
}
