-- ===== src/Utils/Platform.antt =====
-- The functions of packages outside the repository that the hub calls, as one record; peer ids,
-- multiaddresses and public keys are the byte strings that stand for them.
use lachain_communication_hu.Base.{ℕ, Option, List, Text}

-- What gob carries for a peer, as connection/metadata.go declares it.
pub record MetadataSerializable : Type 0 where
  pub public_key : List ℕ
  pub id : Text
  pub last_seen : ℕ
  pub addr : List ℕ

pub record Platform : Type 0 where
  -- go-ethereum's crypto
  pub keccak256 : List ℕ → List ℕ
  pub sign : List ℕ → List ℕ → Option (List ℕ)
  pub ecrecover : List ℕ → List ℕ → Option (List ℕ)
  pub unmarshal_pubkey : List ℕ → Option (List ℕ)
  pub compress_pubkey : List ℕ → List ℕ
  pub decompress_pubkey : List ℕ → Option (List ℕ)
  -- go-libp2p's peer ids
  pub marshal : Text → Option (List ℕ)
  pub pretty : Text → Text
  pub peer_decode : Text → Option Text
  -- go-multiaddr
  pub new_multiaddr_bytes : List ℕ → Option (List ℕ)
  pub new_multiaddr : Text → Option (List ℕ)
  pub multiaddr_string : List ℕ → Text
  -- encoding/gob at MetadataSerializable
  pub gob_encode : MetadataSerializable → List ℕ
  pub gob_decode : List ℕ → Option MetadataSerializable
