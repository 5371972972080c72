-- ===== src/PeerService/Startup/Network.antt =====
-- networkMatcher: which protocol strings a node answers to. fmt's Sprintf and Sscanf with the format
-- "%s %d" are a parameter; versions are the 32 bits of an int32.
use lachain_communication_hu.Base.{
  ℕ, ◌+◌, ◌%◌, ◌^◌, ◌<◌, ◌≡◌, refl, ◌≢◌, ◌↔◌, inl, inr, Bool, true, false, not, ◌&&◌, Option, none,
  some, [], arith, All, if◌then◌else◌, ltb, Bool-cases, Text, text_eq, text_eq_iff, nat_eq,
  text_keys,
}

-- `<` on int32.
abbrev pub int32_lt : ℕ → ℕ → Bool
int32_lt a b = ltb ((a + 2 ^ 31) % 2 ^ 32) ((b + 2 ^ 31) % 2 ^ 32)

abbrev pub NoSpace : Text → Type 0
NoSpace t = (t ≢ []) × All (λ c. 32 < c) t

-- A name without spaces and a version are read back from what was printed of them.
pub record Format : Type 0 where
  pub sprintf : Text → ℕ → Text
  pub sscanf : Text → Option (Text × ℕ)
  pub sscanf-sprintf :
      (name : Text) (version : ℕ)
      → NoSpace name
      → version < 2 ^ 32
      → sscanf (sprintf name version) ≡ some (name, version)

and_not_iff : (b c : Bool) → ((b && not c) ≡ true) ↔ ((b ≡ true) × (c ≡ false))
and_not_iff true true = ground arith
and_not_iff true false = ground arith
and_not_iff false c = ground arith

module _ (fmt : Format) where
  -- networkMatcher of a service with this network name and least version.
  unfoldable pub network_matcher : Text → ℕ → Text → Bool
  network_matcher network_name min_peer_version protocol = elim (fmt.sscanf protocol) [
    | none ↦ false
    | some (network, version) ↦
        if not (text_eq network network_name)
        then false
        else if int32_lt version min_peer_version
        then false
        else true
  ]

  network_matcher-some :
      (mine protocol theirs : Text) (least version : ℕ)
      → fmt.sscanf protocol ≡ some (theirs, version)
      → network_matcher mine least protocol ≡ (text_eq theirs mine && not (int32_lt version least))
  unfolding network_matcher
  network_matcher-some mine protocol theirs least version scanned =
      rw (network_matcher, scanned)
        (elim (Bool-cases (text_eq theirs mine)) [
          | inl same ↦ rw same (elim (Bool-cases (int32_lt version least)) [
            | inl old ↦ rw old refl
            | inr recent ↦ rw recent refl
          ])
          | inr other ↦ rw other refl
        ])

  -- A node answers to the protocol string of another exactly if both are of one network and the
  -- other's version is not below the least that the node takes.
  pub network_matcher-sprintf :
      (mine theirs : Text) (least version : ℕ)
      → NoSpace theirs
      → version < 2 ^ 32
      → (network_matcher mine least (fmt.sprintf theirs version) ≡ true)
        ↔ ((theirs ≡ mine) × (int32_lt version least ≡ false))
  network_matcher-sprintf mine theirs least version name small =
      let e =
        network_matcher-some mine (fmt.sprintf theirs version) theirs least version
          (fmt.sscanf-sprintf theirs version name small) in
      let same = text_eq_iff theirs mine in
      let split = and_not_iff (text_eq theirs mine) (int32_lt version least) in
      rw e ((λ h. (same.0 (split.0 h).0, (split.0 h).1)), λ (t, r). split.1 (same.1 t, r))
