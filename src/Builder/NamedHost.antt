-- ===== src/Builder/NamedHost.antt =====
-- BuildNamedHost and GenerateKey of host/builder.go. libp2p's New is a parameter, with the address to
-- listen on, if any, and the key.
use lachain_communication_hu.Config.{get_p2p_external_ip}
use lachain_communication_hu.Base.{◌++◌, ◌⊎◌}
use lachain_communication_hu.Base.{Bool}
use lachain_communication_hu.Base.{ap}
use lachain_communication_hu.Base.{
  ℕ, ◌+◌, ◌≡◌, refl, inl, inr, Option, none, some, List, [], ◌∷◌, map, All, if◌then◌else◌,
  Bool-cases, Text, text_eq, nat_eq, text_keys,
}
use lachain_communication_hu.Utils.Platform.{Platform}
use lachain_communication_hu.Config.{
  Config, set_bootstrap_address, addresses_of, get_bootstrap_id_addresses,
}
use lachain_communication_hu.Config.Addresses.{
  Entry, IsEntry, joined, address_of, set_bootstrap_address-joined,
}
use lachain_communication_hu.PeerService.Startup.{Host}
use lachain_communication_hu.PeerService.Startup.Bootstrap.{Resolves}
use lachain_communication_hu.Builder.{Keys, get_private_key_for_host}

-- The loop over the node's own bootstrap addresses: each takes the place of the one before.
abbrev pub last_of : Option (List ℕ) → List (List ℕ) → Option (List ℕ)
last_of o [] = o
last_of o (addr ∷ addrs) = last_of (some addr) addrs

module _ {Key : Type 0} (lib : Platform) (id_of : Key → Text)
    (new_host : Option (List ℕ) → Key → Option Host) where
  -- BuildNamedHost, with the flag of the configuration and what a lookup of the IP finds, of which only
  -- the panic matters; `none` is a panic.
  unfoldable pub build_named_host : Bool → Option Text → Config → Key → Option Host
  build_named_host ip_lookup found conf priv_key = elim (get_p2p_external_ip ip_lookup found) [
    | none ↦ none
    | some external_ip ↦ elim (get_bootstrap_id_addresses lib (id_of priv_key) conf) [
      | none ↦ none
      | some addrs ↦ new_host (last_of none addrs) priv_key
    ]
  ]

-- The addresses of a peer among those of the bootstrap peers.
abbrev pub own : Text → List (Text × List ℕ) → List (List ℕ)
own me [] = []
own me ((id, addr) ∷ peers) = if text_eq id me then addr ∷ own me peers else own me peers

addresses_of-own :
    (lib : Platform) (me : Text) (es : List Entry) (peers : List (Text × List ℕ))
    → Resolves lib es peers
    → addresses_of lib me (map (λ (e : Entry). e.id) es) (map address_of es) ≡ some (own me peers)
unfolding addresses_of
addresses_of-own lib me [] [] h = refl
addresses_of-own lib me (e ∷ es) ((id, addr) ∷ peers) (i, a, hs) =
    elim (Bool-cases (text_eq id me)) [
      | inl mine ↦ rw (i, mine, a, addresses_of-own lib me es peers hs) refl
      | inr other ↦ rw (i, other, addresses_of-own lib me es peers hs) refl
    ]
addresses_of-own lib me [] (p ∷ peers) h = absurd h
addresses_of-own lib me (e ∷ es) [] h = absurd h

-- What is left of the loop is the address at the end of the list.
last_of-end :
    (a : List ℕ) (addrs : List (List ℕ))
    → (front : List (List ℕ)) × (addr : List ℕ) × (a ∷ addrs ≡ front ++ addr ∷ [])
      × (last_of (some a) addrs ≡ some addr)
last_of-end a [] = ([], a, refl, refl)
last_of-end a (b ∷ addrs) =
    let (front, addr, split, left) = last_of-end b addrs in
    (a ∷ front, addr, ap (◌∷◌ a) split, left)

-- The node's own addresses in a list of peers, and what its host makes of them: it listens on no
-- address of the configuration if there is none, and else on the one behind all others.
abbrev pub ListensOnEnd :
    {Key : Type 0}
    → List (List ℕ)
    → (Option (List ℕ) → Key → Option Host)
    → Key
    → Option Host
    → Type 0
ListensOnEnd addrs new_host priv_key made =
    ((addrs ≡ []) × (made ≡ new_host none priv_key))
    ⊎ ((front : List (List ℕ)) × (addr : List ℕ) × (addrs ≡ front ++ addr ∷ [])
        × (made ≡ new_host (some addr) priv_key))

last_of-ListensOnEnd :
    {Key : Type 0} (new_host : Option (List ℕ) → Key → Option Host) (priv_key : Key)
    (addrs : List (List ℕ))
    → ListensOnEnd addrs new_host priv_key (new_host (last_of none addrs) priv_key)
last_of-ListensOnEnd new_host priv_key [] = inl (refl, refl)
last_of-ListensOnEnd new_host priv_key (a ∷ addrs) =
    let (front, addr, split, left) = last_of-end a addrs in
    inr (front, addr, split, ap (λ (o : Option (List ℕ)). new_host o priv_key) left)

-- A node whose configuration is the text of a list of bootstrap addresses, each of which names a peer
-- with an address, and whose external IP is found or not looked up: if the list has no address under
-- the id of the node's own key, the host that it builds listens on no address of the configuration;
-- else it listens on that one of these addresses that stands behind all the others.
pub build_named_host-joined :
    {Key : Type 0} (lib : Platform) (id_of : Key → Text)
    (new_host : Option (List ℕ) → Key → Option Host) (ip_lookup : Bool) (found : Option Text)
    (ext_ip : Text) (priv_key : Key) (es : List Entry) (peers : List (Text × List ℕ))
    → All IsEntry es
    → Resolves lib es peers
    → get_p2p_external_ip ip_lookup found ≡ some ext_ip
    → (conf : Config) × (set_bootstrap_address
          (joined es)
          (record { relay_addrs = []; relay_ids = [] })
        ≡ some conf)
      × ListensOnEnd
          (own (id_of priv_key) peers)
          new_host
          priv_key
          (build_named_host lib id_of new_host ip_lookup found conf priv_key)
unfolding build_named_host get_bootstrap_id_addresses
build_named_host-joined lib id_of new_host ip_lookup found ext_ip priv_key es peers h res ip = (
  record { relay_addrs = map address_of es; relay_ids = map (λ (e : Entry). e.id) es },
  set_bootstrap_address-joined es (record { relay_addrs = []; relay_ids = [] }) h,
  rw (build_named_host, ip, addresses_of-own lib (id_of priv_key) es peers res)
      (last_of-ListensOnEnd new_host priv_key (own (id_of priv_key) peers)),
)

-- GenerateKey: a key for each number, read or made, and the ids that are printed. `path_of` is the
-- path for a number, and the keys are those that would be made, each with whether the calls of crypto
-- and the file system succeed; a panic is `none`.
module _ {Key : Type 0} (keys : Keys Key) (id_of : Key → Text) (path_of : ℕ → Text) where
  abbrev printed :
      Text → Option (List Text × List (Text × Text)) → Option (List Text × List (Text × Text))
  printed id none = none
  printed id (some (ids, files)) = some (id ∷ ids, files)

  unfoldable pub generate_key :
      ℕ → List (Bool × Key) → List (Text × Text) → Option (List Text × List (Text × Text))
  generate_key i [] files = some ([], files)
  generate_key i ((done, made) ∷ rest) files =
      elim (get_private_key_for_host keys made done (path_of i) files) [
        | none ↦ none
        | some (prv, files') ↦ printed (id_of prv) (generate_key (i + 1) rest files')
      ]
