-- ===== src/PeerService/StartExamples.antt =====
-- A service that starts with two bootstrap peers, one of them itself.
use lachain_communication_hu.Base.{◌≢◌}
use lachain_communication_hu.Base.{Option}
use lachain_communication_hu.Base.{true}
use lachain_communication_hu.Base.{
  ◌⊎◌, ℕ, ◌≡◌, refl, ◌↔◌, false, none, some, List, [], ◌∷◌, arith, All, Text, text_eq, nat_eq,
  text_keys,
}
use lachain_communication_hu.Config.{get_p2p_external_ip, Config, set_bootstrap_address}
use lachain_communication_hu.PeerService.Startup.External.{get_external_multiaddress-none}
use lachain_communication_hu.Utils.Toy.{toy}
use lachain_communication_hu.Config.Addresses.{Entry, IsEntry, joined, address_of}
use lachain_communication_hu.PeerService.State.{PeerService, Emitted}
use lachain_communication_hu.PeerService.Startup.{
  Host, new_service, get_external_multiaddress, address_with, contains, has_prefix,
}
use lachain_communication_hu.PeerService.Startup.Dialled.{dialled}
use lachain_communication_hu.PeerService.Startup.Bootstrap.{new_service-bootstrap}

abbrev self : Entry
self = record { id = 0x51 ∷ []; ip = 0x31 ∷ []; port = 0x37 ∷ [] }

abbrev other : Entry
other = record { id = 0x52 ∷ []; ip = 0x32 ∷ []; port = 0x38 ∷ [] }

abbrev entries : List Entry
entries = self ∷ other ∷ []

abbrev host : Host
host = record { id = 0x51 ∷ []; addrs = (9 ∷ []) ∷ (9 ∷ 5 ∷ []) ∷ [] }

abbrev peers : List (Text × List ℕ)
peers = (self.id, address_of self) ∷ (other.id, address_of other) ∷ []

entries-IsEntry : All IsEntry entries
entries-IsEntry = ground arith

abbrev net : Text
net = 0x4c ∷ []

new_service-bootstrap_example :
    (conf : Config) × (r : PeerService × Emitted) × (set_bootstrap_address
        (joined entries)
        (record { relay_addrs = []; relay_ids = [] })
      ≡ some conf)
    × (new_service toy host true (some (5 ∷ [])) net conf ≡ some r)
    × (r.0.connections ≡ dialled toy (0x51 ∷ []) (9 ∷ 5 ∷ []) net 0 peers)
unfolding get_p2p_external_ip get_external_multiaddress address_with contains has_prefix text_eq
new_service-bootstrap_example =
    new_service-bootstrap toy entries peers host true (some (5 ∷ [])) net (9 ∷ 5 ∷ [])
      entries-IsEntry (refl, refl, (refl, refl, tt)) ((refl, tt), (tt, tt)) (omega arith) refl

-- A node whose lookup of the IP fails.
get_external_multiaddress-none_example :
    ((get_external_multiaddress toy true none host ≡ none)
      ↔ ((true ≡ true) × (◌≡◌ {A = Option Text} none none)))
    × ((get_external_multiaddress toy true none host ≡ some none) ↔ (
        (true ≡ false) ⊎ ((true ≡ true) × (◌≢◌ {A = Option Text} none none) × (host.addrs ≡ []))))
get_external_multiaddress-none_example = get_external_multiaddress-none toy true none host (λ e. cc)
