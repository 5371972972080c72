-- ===== src/Hub/Starting.antt =====
-- StartHub and GetKey of embedded_hub.go. The host that is built of a private key's bytes, what a
-- lookup of the external IP finds, and fmt's Sprintf are parameters.
use lachain_communication_hu.Base.{
  Bool, ℕ, ◌%◌, ◌^◌, ◌||◌, Option, none, some, List, [], length, if◌then◌else◌, ltb, leb, ◌==◌,
  Text, nat_eq, text_keys,
}
use lachain_communication_hu.Utils.Platform.{Platform}
use lachain_communication_hu.Config.{Config, set_bootstrap_address}
use lachain_communication_hu.PeerService.State.{PeerService, Emitted}
use lachain_communication_hu.PeerService.Startup.{Host, new_service, get_id}
use lachain_communication_hu.PeerService.Startup.Network.{Format}

-- The variables of the packages that StartHub writes.
pub record Hub : Type 0 where
  pub config : Config
  pub chain_id : ℕ
  pub local_peer : Option PeerService

module _ (lib : Platform) where
  -- StartHub: `host_of` is UnmarshalPrivateKey and BuildNamedHost, `none` a panic. The versions and
  -- the chain id are the 32 bits of a C int.
  unfoldable pub start_hub :
      Format
      → (List ℕ → Option Host)
      → Bool
      → Option Text
      → Text
      → List ℕ
      → Text
      → ℕ
      → ℕ
      → Hub
      → Option (Hub × Emitted)
  start_hub fmt host_of ip_lookup found bootstrap_address priv_key network_name version chain_id
        hub =
      elim (set_bootstrap_address bootstrap_address hub.config) [
        | none ↦ none
        | some conf ↦ elim (host_of priv_key) [
          | none ↦ none
          | some host ↦
              elim (new_service lib host ip_lookup found (fmt.sprintf network_name version) conf) [
                | none ↦ none
                | some (ps, emitted) ↦ some (
                  record { config = conf; chain_id = chain_id % 256; local_peer = some ps },
                  emitted,
                )
              ]
        ]
      ]

  -- The bytes that GetKey copies, and their number; an empty id panics. `max_length` is the 32 bits
  -- of a C int.
  abbrev pub key_of : Option (List ℕ) → ℕ → Option (ℕ × List ℕ)
  key_of none max_length = some (0, [])
  key_of (some id) max_length =
      if ltb max_length (length id) || leb (2 ^ 31) max_length
      then some (0, [])
      else if length id == 0
      then none
      else some (length id, id)

  -- GetKey
  unfoldable pub get_key : ℕ → Option PeerService → Option (ℕ × List ℕ)
  get_key max_length none = some (0, [])
  get_key max_length (some ps) = key_of (get_id lib ps) max_length
