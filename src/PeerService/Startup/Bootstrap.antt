-- ===== src/PeerService/Startup/Bootstrap.antt =====
-- The bootstrap peers, from the text of the configuration to the connections of a new service.
use lachain_communication_hu.Base.{Option}
use lachain_communication_hu.Base.{Bool}
use lachain_communication_hu.Base.{
  ℕ, ◌^◌, ◌<◌, ◌≡◌, refl, some, List, [], ◌∷◌, map, arith, length, All, Text, nat_eq, text_keys,
}
use lachain_communication_hu.Utils.Platform.{Platform}
use lachain_communication_hu.Config.{
  Config, set_bootstrap_address, get_bootstrap_multiaddrs, get_bootstrap_ids, converted,
}
use lachain_communication_hu.Config.Addresses.{
  Entry, IsEntry, joined, address_of, set_bootstrap_address-joined,
}
use lachain_communication_hu.PeerService.State.{PeerService, Emitted, empty_service}
use lachain_communication_hu.PeerService.Startup.{
  new_with_address, Host, new_service, get_external_multiaddress,
}
use lachain_communication_hu.PeerService.Startup.Dialled.{
  Distinct, ids_of, addrs_of, dialled, connect_all-dialled, Fresh-nil,
}

module _ (lib : Platform) where
  -- The peers that the entries of the configuration stand for.
  abbrev pub Resolves : List Entry → List (Text × List ℕ) → Type 0
  Resolves [] [] = Unit {0}
  Resolves (e ∷ es) ((id, addr) ∷ peers) =
      (lib.peer_decode e.id ≡ some id)
      × (lib.new_multiaddr (address_of e) ≡ some addr)
      × Resolves es peers
  Resolves [] (p ∷ peers) = ⊥
  Resolves (e ∷ es) [] = ⊥

  converted-ids :
      (es : List Entry) (peers : List (Text × List ℕ))
      → Resolves es peers
      → converted lib.peer_decode (map (λ (e : Entry). e.id) es) ≡ some (ids_of peers)
  converted-ids [] [] h = refl
  converted-ids (e ∷ es) ((id, addr) ∷ peers) (i, a, hs) = rw (i, converted-ids es peers hs) refl
  converted-ids [] (p ∷ peers) h = absurd h
  converted-ids (e ∷ es) [] h = absurd h

  converted-addrs :
      (es : List Entry) (peers : List (Text × List ℕ))
      → Resolves es peers
      → converted lib.new_multiaddr (map address_of es) ≡ some (addrs_of peers)
  converted-addrs [] [] h = refl
  converted-addrs (e ∷ es) ((id, addr) ∷ peers) (i, a, hs) =
      rw (a, converted-addrs es peers hs) refl
  converted-addrs [] (p ∷ peers) h = absurd h
  converted-addrs (e ∷ es) [] h = absurd h

  -- The node is given the text of a list of bootstrap addresses, each of which names a peer with an
  -- address and no two of which one peer, and fewer than 2^32, and GetExternalMultiAddress finds an
  -- external address of its host. Then its configuration and its service are made without a panic,
  -- and the service has exactly the connections to the peers other than itself: each under the
  -- peer's name, with the peer's id and address, in the order of the text and numbered in it from 0.
  pub new_service-bootstrap :
      (es : List Entry) (peers : List (Text × List ℕ)) (host : Host) (ip_lookup : Bool)
      (lookup_result : Option Text) (protocol : Text) (address : List ℕ)
      → All IsEntry es
      → Resolves es peers
      → Distinct lib peers
      → length peers < 2 ^ 32
      → get_external_multiaddress lib ip_lookup lookup_result host ≡ some (some address)
      → (conf : Config) × (r : PeerService × Emitted) × (set_bootstrap_address
            (joined es)
            (record { relay_addrs = []; relay_ids = [] })
          ≡ some conf)
        × (new_service lib host ip_lookup lookup_result protocol conf ≡ some r)
        × (r.0.connections ≡ dialled lib host.id address protocol 0 peers)
  unfolding new_service get_bootstrap_multiaddrs get_bootstrap_ids
  new_service-bootstrap es peers host ip_lookup lookup_result protocol address h res d small found =
      let (r, made, conns) =
        connect_all-dialled lib peers (empty_service host.id address protocol) [] d
          (Fresh-nil lib peers) refl (omega arith) in
      let conf : Config = record {
        relay_addrs = map address_of es;
        relay_ids = map (λ (e : Entry). e.id) es;
      } in
      (
        conf,
        r,
        set_bootstrap_address-joined es (record { relay_addrs = []; relay_ids = [] }) h,
        rw
            (
              new_service,
              found,
              new_with_address,
              converted-addrs es peers res,
              converted-ids es peers res,
            )
            made,
        conns,
      )
