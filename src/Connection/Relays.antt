-- ===== src/Connection/Relays.antt =====
-- The dialling of a peer whose address is not known, through the relays.
use lachain_communication_hu.Base.{
  ℕ, ◌≡◌, refl, Bool, false, ◌||◌, none, some, List, [], ◌∷◌, ◌++◌, map, arith, take, Text, nat_eq,
  text_keys,
}
use lachain_communication_hu.Utils.Platform.{Platform}
use lachain_communication_hu.Connection.Outbound.{connect_through, max_try_to_connect}

-- `/p2p/` and `/p2p-circuit/p2p/`.
abbrev p2p : Text
p2p = 47 ∷ 112 ∷ 50 ∷ 112 ∷ 47 ∷ []

abbrev p2p_circuit : Text
p2p_circuit = 47 ∷ 112 ∷ 50 ∷ 112 ∷ 45 ∷ 99 ∷ 105 ∷ 114 ∷ 99 ∷ 117 ∷ 105 ∷ 116 ∷ p2p

abbrev pub any : List Bool → Bool
any [] = false
any (b ∷ bs) = b || any bs

-- `dials` says whether the host connects to a peer at an address.
module _ (lib : Platform) (dials : Text → List ℕ → Bool) where
  -- connectToPeerUsingRelay: true stands for no error.
  unfoldable pub connect_to_peer_using_relay : Text → Text → Bool
  connect_to_peer_using_relay relay_id target_peer_id =
      elim (lib.new_multiaddr
        (p2p ++ lib.pretty relay_id ++ p2p_circuit ++ lib.pretty target_peer_id)) [
          | none ↦ false
          | some relayed_addr ↦ dials target_peer_id relayed_addr
        ]

  -- The branch of connect without an address, over the shuffled relays.
  unfoldable pub connect_to_relays : List Text → Text → Bool
  connect_to_relays relays target =
      connect_through 0 (map (λ (r : Text). connect_to_peer_using_relay r target) relays)

  -- A peer without an address is reached exactly if one of the first three of the shuffled relays
  -- leads to it.
  pub connect_to_relays-any :
      (relays : List Text) (target : Text)
      → connect_to_relays relays target
        ≡ any (
            map
              (λ (r : Text). connect_to_peer_using_relay r target)
              (take max_try_to_connect relays))
  unfolding connect_to_relays connect_through
  connect_to_relays-any [] target = refl
  connect_to_relays-any (a ∷ []) target = ground arith
  connect_to_relays-any (a ∷ b ∷ []) target = ground arith
  connect_to_relays-any (a ∷ b ∷ c ∷ rest) target = ground arith
