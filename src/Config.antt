-- ===== src/Config.antt =====
-- config/config.go: the bootstrap addresses. A text is the list of its bytes; a panic is `none`.
pub mod Addresses
use lachain_communication_hu.Base.{
  ℕ, Bool, false, not, Option, none, some, List, [], ◌∷◌, ◌++◌, arith, length, if◌then◌else◌, ◌==◌,
  Text, text_eq, nat_eq, text_keys,
}
use lachain_communication_hu.Utils.Platform.{Platform}

-- The package's variables.
pub record Config : Type 0 where
  pub relay_addrs : List Text
  pub relay_ids : List Text

abbrev onto_first : ℕ → List Text → List Text
onto_first c [] = (c ∷ []) ∷ []
onto_first c (part ∷ parts) = (c ∷ part) ∷ parts

-- strings.Split for a separator of one byte.
unfoldable pub split : ℕ → Text → List Text
split sep [] = [] ∷ []
split sep (c ∷ cs) = let rest = split sep cs in if c == sep then [] ∷ rest else onto_first c rest

-- The bytes of `,`, `@`, `:`, `/ip4/` and `/tcp/`.
abbrev pub comma : ℕ
comma = 44

abbrev pub at_sign : ℕ
at_sign = 64

abbrev pub colon : ℕ
colon = 58

abbrev pub ip4 : Text
ip4 = 47 ∷ 105 ∷ 112 ∷ 52 ∷ 47 ∷ []

abbrev pub tcp : Text
tcp = 47 ∷ 116 ∷ 99 ∷ 112 ∷ 47 ∷ []

abbrev pub two_parts : List Text → Option (Text × Text)
two_parts (a ∷ b ∷ []) = some (a, b)
two_parts _ = none

-- One turn of SetBootstrapAddress's loop.
unfoldable pub add_address : Text → Config → Option Config
add_address address conf = elim (two_parts (split at_sign address)) [
  | none ↦ none
  | some (id, host) ↦ elim (two_parts (split colon host)) [
    | none ↦ none
    | some (ip, port) ↦ some (record {
      relay_addrs = conf.relay_addrs ++ (ip4 ++ ip ++ tcp ++ port) ∷ [];
      relay_ids = conf.relay_ids ++ id ∷ [];
    })
  ]
]

unfoldable pub add_addresses : List Text → Config → Option Config
add_addresses [] conf = some conf
add_addresses (address ∷ addresses) conf = elim (add_address address conf) [
  | none ↦ none
  | some conf' ↦ add_addresses addresses conf'
]

-- SetBootstrapAddress
unfoldable pub set_bootstrap_address : Text → Config → Option Config
set_bootstrap_address addresses conf =
    if length addresses == 0 then some conf else add_addresses (split comma addresses) conf

-- What a loop appends to its slice, unless it panics.
abbrev prepended {ℓ} : {A : Type ℓ} → A → Option (List A) → Option (List A)
prepended a none = none
prepended a (some rest) = some (a ∷ rest)

-- GetBootstrapMultiaddrs and GetBootstrapIDs: every text is converted, or the loop panics.
abbrev pub converted {ℓ} : {A : Type ℓ} → (Text → Option A) → List Text → Option (List A)
converted f [] = some []
converted f (t ∷ ts) = elim (f t) [ none ↦ none | some a ↦ prepended a (converted f ts) ]

unfoldable pub get_bootstrap_multiaddrs : Platform → Config → Option (List (List ℕ))
get_bootstrap_multiaddrs lib conf = converted lib.new_multiaddr conf.relay_addrs

unfoldable pub get_bootstrap_ids : Platform → Config → Option (List Text)
get_bootstrap_ids lib conf = converted lib.peer_decode conf.relay_ids

-- GetBootstrapIDAddresses: the loop over the ids and the addresses at their indices; a missing
-- index panics.
unfoldable pub addresses_of : Platform → Text → List Text → List Text → Option (List (List ℕ))
addresses_of lib peer_id [] addrs = some []
addresses_of lib peer_id (relay_id ∷ ids) [] = elim (lib.peer_decode relay_id) [
  | none ↦ none
  | some id ↦
      let rest = addresses_of lib peer_id ids [] in if text_eq id peer_id then none else rest
]
addresses_of lib peer_id (relay_id ∷ ids) (addr ∷ addrs) = elim (lib.peer_decode relay_id) [
  | none ↦ none
  | some id ↦
      let rest = addresses_of lib peer_id ids addrs in
      if text_eq id peer_id
      then elim (lib.new_multiaddr addr) [ none ↦ none | some a ↦ prepended a rest ]
      else rest
]

unfoldable pub get_bootstrap_id_addresses : Platform → Text → Config → Option (List (List ℕ))
get_bootstrap_id_addresses lib peer_id conf =
    addresses_of lib peer_id conf.relay_ids conf.relay_addrs

-- DisableIpLookup, on the flag ipLookup.
abbrev pub disable_ip_lookup : Bool → Bool
disable_ip_lookup ip_lookup = false

-- GetP2PExternalIP; `found` is what the lookup finds, and a lookup that fails panics.
unfoldable pub get_p2p_external_ip : Bool → Option Text → Option Text
get_p2p_external_ip ip_lookup found = if not ip_lookup then some [] else found
