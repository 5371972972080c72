-- ===== src/PeerService/Startup.antt =====
-- The start of a service in peer_service.go: New with the bootstrap peers of the configuration,
-- GetExternalMultiAddress, GetId, and networkMatcher.
pub mod Network
pub mod Dialled
pub mod Bootstrap
pub mod External
use lachain_communication_hu.Base.{
  ℕ, Bool, true, false, Option, none, some, List, [], ◌∷◌, ◌++◌, arith, length, if◌then◌else◌, ◌==◌,
  Text, nat_eq, text_keys,
}
use lachain_communication_hu.Utils.Platform.{Platform}
use lachain_communication_hu.Config.{
  Config, get_p2p_external_ip, get_bootstrap_multiaddrs, get_bootstrap_ids,
}
use lachain_communication_hu.PeerService.State.{PeerService, Emitted, empty_service}
use lachain_communication_hu.PeerService.Operations.{connect}

-- The libp2p host that BuildNamedHost makes of a private key: its peer id and its addresses.
pub record Host : Type 0 where
  pub id : Text
  pub addrs : List (List ℕ)

-- strings.HasPrefix and strings.Contains.
unfoldable pub has_prefix : Text → Text → Bool
has_prefix t [] = true
has_prefix [] (p ∷ ps) = false
has_prefix (c ∷ cs) (p ∷ ps) = let rest = has_prefix cs ps in if c == p then rest else false

unfoldable pub contains : Text → Text → Bool
unfolding has_prefix
contains [] sub = has_prefix [] sub
contains (c ∷ cs) sub = let rest = contains cs sub in if has_prefix (c ∷ cs) sub then true else rest

abbrev pub first_of : List (List ℕ) → Option (List ℕ)
first_of [] = none
first_of (a ∷ as') = some a

module _ (lib : Platform) where
  -- The loop of GetExternalMultiAddress over the addresses of the host.
  unfoldable pub address_with : Text → List (List ℕ) → Option (List ℕ)
  unfolding contains
  address_with ext_ip [] = none
  address_with ext_ip (addr ∷ addrs) =
      let rest = address_with ext_ip addrs in
      if contains (lib.multiaddr_string addr) ext_ip then some addr else rest

  -- An address with the IP, or else the first.
  abbrev pub external_of : Text → List (List ℕ) → Option (List ℕ)
  external_of ext_ip addrs = elim (address_with ext_ip addrs) [
    | some addr ↦ some addr
    | none ↦ first_of addrs
  ]

  abbrev pub address_at : Text → Host → Option (List ℕ)
  address_at ext_ip host = if length ext_ip == 0 then none else external_of ext_ip host.addrs

  -- GetExternalMultiAddress, with the flag of the configuration and what a lookup of the IP finds:
  -- `none` is a panic, `some none` an error.
  unfoldable pub get_external_multiaddress : Bool → Option Text → Host → Option (Option (List ℕ))
  get_external_multiaddress ip_lookup found host = elim (get_p2p_external_ip ip_lookup found) [
    | none ↦ none
    | some ext_ip ↦ some (address_at ext_ip host)
  ]

  -- The loop of New over the bootstrap ids; a missing address panics.
  unfoldable pub connect_all :
      List Text → List (List ℕ) → PeerService → Emitted → Option (PeerService × Emitted)
  connect_all [] addrs ps emitted = some (ps, emitted)
  connect_all (id ∷ ids) [] ps emitted = none
  connect_all (id ∷ ids) (addr ∷ addrs) ps emitted = elim (connect lib id (some addr) ps) [
    | none ↦ none
    | some (ps', events) ↦ connect_all ids addrs ps' (emitted ++ events)
  ]

  -- New at an external address, with the host and the protocol string.
  abbrev pub new_with_address :
      Host → Option (List ℕ) → Text → Config → Option (PeerService × Emitted)
  new_with_address host none protocol conf = none
  new_with_address host (some address) protocol conf = elim (get_bootstrap_multiaddrs lib conf) [
    | none ↦ none
    | some addrs ↦ elim (get_bootstrap_ids lib conf) [
      | none ↦ none
      | some ids ↦ connect_all ids addrs (empty_service host.id address protocol) []
    ]
  ]

  -- New, with the flag of the configuration and what a lookup of the IP finds.
  unfoldable pub new_service :
      Host → Bool → Option Text → Text → Config → Option (PeerService × Emitted)
  new_service host ip_lookup found protocol conf =
      elim (get_external_multiaddress ip_lookup found host) [
        | none ↦ none
        | some o ↦ new_with_address host o protocol conf
      ]

  -- GetId, on a service that has a host.
  unfoldable pub get_id : PeerService → Option (List ℕ)
  get_id ps = lib.marshal ps.host_id
