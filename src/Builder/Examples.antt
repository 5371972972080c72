-- ===== src/Builder/Examples.antt =====
-- A key of the length that is read back, and one that is shorter.
use lachain_communication_hu.Base.{
  ◌++◌, ◌⊎◌, false, true, Option, ℕ, zero, suc, ◌≡◌, refl, ap, none, some, List, [], ◌∷◌, arith,
  length, All, Text, lookup, nat_eq, text_keys,
}
use lachain_communication_hu.Builder.NamedHost.{own, build_named_host, build_named_host-joined}
use lachain_communication_hu.Config.{get_p2p_external_ip, Config, set_bootstrap_address}
use lachain_communication_hu.Utils.Toy.{toy}
use lachain_communication_hu.Config.Addresses.{Entry, IsEntry, joined, address_of}
use lachain_communication_hu.PeerService.Startup.{Host}
use lachain_communication_hu.Binary.{IsByte}
use lachain_communication_hu.Builder.{
  Keys, get_private_key_for_host, get_private_key_for_host_again, get_private_key_for_host_short,
}

abbrev sevens : ℕ → List ℕ
sevens zero = []
sevens (suc n) = 7 ∷ sevens n

length-sevens : (n : ℕ) → length (sevens n) ≡ n
length-sevens zero = refl
length-sevens (suc n) = omega (arith, length-sevens n)

sevens-IsByte : (n : ℕ) → All IsByte (sevens n)
sevens-IsByte zero = tt
sevens-IsByte (suc n) = (omega arith, sevens-IsByte n)

-- A key is the number of its bytes, all of which are 7.
abbrev counted : Keys ℕ
counted = record { marshal = λ n. some (sevens n); unmarshal = λ bytes. some (length bytes) }

abbrev path : Text
path = 0x2e ∷ 0x2f ∷ []

get_private_key_for_host_again_example :
    (written : List (Text × Text)) × (get_private_key_for_host counted 125 true path []
      ≡ some (125, written))
    × (get_private_key_for_host counted 9 true path written ≡ some (125, written))
unfolding lookup
get_private_key_for_host_again_example =
    get_private_key_for_host_again counted 125 9 path [] (sevens 125) refl refl (sevens-IsByte 125)
      (length-sevens 125) (ap some (length-sevens 125))

get_private_key_for_host_short_example :
    (written : List (Text × Text)) × (get_private_key_for_host counted 121 true path []
      ≡ some (121, written))
    × (get_private_key_for_host counted 9 true path written ≡ none)
unfolding lookup
get_private_key_for_host_short_example =
    get_private_key_for_host_short counted 121 9 path [] (sevens 121) refl refl (omega arith)

-- A node whose own id stands among those of the bootstrap peers.
abbrev itself : Entry
itself = record { id = 0x51 ∷ []; ip = 0x31 ∷ []; port = 0x37 ∷ [] }

abbrev other : Entry
other = record { id = 0x52 ∷ []; ip = 0x32 ∷ []; port = 0x38 ∷ [] }

-- Another address of the node itself.
abbrev again : Entry
again = record { id = 0x51 ∷ []; ip = 0x33 ∷ []; port = 0x39 ∷ [] }

abbrev entries : List Entry
entries = itself ∷ other ∷ again ∷ []

entries-IsEntry : All IsEntry entries
entries-IsEntry = ground arith

abbrev peers : List (Text × List ℕ)
peers =
    (itself.id, address_of itself)
    ∷ (other.id, address_of other)
    ∷ (again.id, address_of again)
    ∷ []

-- The host keeps the address that it listens on.
abbrev hosting : Option (List ℕ) → ℕ → Option Host
hosting none key = none
hosting (some addr) key = some (record { id = 0x51 ∷ []; addrs = addr ∷ [] })

build_named_host-joined_example :
    (conf : Config) × (set_bootstrap_address
        (joined entries)
        (record { relay_addrs = []; relay_ids = [] })
      ≡ some conf)
    × (((own (0x51 ∷ []) peers ≡ [])
          × (build_named_host toy (λ k. 0x51 ∷ []) hosting false none conf 3 ≡ hosting none 3))
        ⊎ ((front : List (List ℕ)) × (addr : List ℕ) × (own (0x51 ∷ []) peers ≡ front ++ addr ∷ [])
            × (build_named_host toy (λ k. 0x51 ∷ []) hosting false none conf 3
                ≡ hosting (some addr) 3)))
unfolding get_p2p_external_ip
build_named_host-joined_example =
    build_named_host-joined toy (λ k. 0x51 ∷ []) hosting false none [] 3 entries peers
      entries-IsEntry (refl, refl, (refl, refl, (refl, refl, tt))) refl
