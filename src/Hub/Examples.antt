-- ===== src/Hub/Examples.antt =====
-- A FIFO that is a list, and a fetch into a small buffer.
use lachain_communication_hu.Base.{true}
use lachain_communication_hu.Config.{get_p2p_external_ip}
use lachain_communication_hu.Utils.Hex.{bytes_to_hex, hex_digit, decode_string}
use lachain_communication_hu.Config.{
  split, comma, set_bootstrap_address, get_bootstrap_multiaddrs, get_bootstrap_ids,
}
use lachain_communication_hu.Hub.NewKey.{generate_new_key, generate_new_key-split}
use lachain_communication_hu.Base.{
  take, ok, Text, ℕ, ◌≡◌, refl, Option, none, some, List, [], ◌∷◌, arith, nat_eq, text_keys,
}
use lachain_communication_hu.Hub.{get_messages, get_loop}
use lachain_communication_hu.Utils.Toy.{toy, toy_signature}
use lachain_communication_hu.PeerService.State.{empty_service, Emitted}
use lachain_communication_hu.PeerService.Startup.{
  Host, new_service, get_external_multiaddress, address_with, contains, has_prefix, connect_all,
}
use lachain_communication_hu.PeerService.Startup.Network.{Format}
use lachain_communication_hu.Hub.Starting.{Hub, start_hub}
use lachain_communication_hu.Utils.Crypto.{la_sign, recover_with}
use lachain_communication_hu.Hub.Signing.{Signed, init_hub, init_hub-la_sign}
use lachain_communication_hu.Hub.ListFifo.{list_fifo}
use lachain_communication_hu.Hub.Fetching.{Got, get_messages-Got}

abbrev waiting : List (List ℕ)
waiting = (1 ∷ 2 ∷ []) ∷ (3 ∷ []) ∷ (4 ∷ 5 ∷ 6 ∷ []) ∷ []

get_messages-Got_example : Got list_fifo 12 0 0 waiting (get_messages list_fifo 12 waiting)
get_messages-Got_example =
    get_messages-Got list_fifo 12 waiting (omega arith) (λ e. cc)
      (omega arith, (omega arith, (omega arith, tt)))

-- The third message stays.
fetched_two : (get_messages list_fifo 12 waiting).queue ≡ (4 ∷ 5 ∷ 6 ∷ []) ∷ []
unfolding get_messages get_loop
fetched_two = refl

-- The hub is started without bootstrap peers, and gives out its id.
abbrev stopped : Hub
stopped = record {
  config = record { relay_addrs = []; relay_ids = [] };
  chain_id = 0;
  local_peer = none;
}

abbrev format : Format
format = record {
  sprintf = λ name version. version ∷ name;
  sscanf = scanned;
  sscanf-sprintf = λ name version h small. refl;
}
  where
    scanned : Text → Option (Text × ℕ)
    scanned [] = none
    scanned (v ∷ name) = some (name, v)

abbrev host : Host
host = record { id = 0x51 ∷ 0x52 ∷ []; addrs = (9 ∷ []) ∷ [] }

abbrev running : Hub
running = record stopped {
  chain_id = 25;
  local_peer = some (empty_service host.id (9 ∷ []) (7 ∷ 0x4c ∷ []));
}

starts :
    start_hub toy format
      (λ key. some host)
      true
      (some (9 ∷ []))
      []
      (1 ∷ [])
      (0x4c ∷ [])
      7
      25
      stopped
    ≡ some (running, [])
unfolding get_p2p_external_ip start_hub set_bootstrap_address new_service get_external_multiaddress
    address_with contains has_prefix get_bootstrap_multiaddrs get_bootstrap_ids connect_all
starts = refl

-- The core signs the id with the key of one byte, and hands the signature to the hub.
init_hub-la_sign_example :
    (sig : List ℕ) × (r : ℕ × Hub × Emitted) × (la_sign toy (0x51 ∷ 0x52 ∷ []) (5 ∷ []) 25 ≡ ok sig)
    × (init_hub toy sig running ≡ some r)
    × Signed toy sig r
unfolding recover_with
init_hub-la_sign_example =
    init_hub-la_sign toy running (empty_service host.id (9 ∷ []) (7 ∷ 0x4c ∷ [])) (0x51 ∷ 0x52 ∷ [])
      (5 ∷ []) (take 64 (toy_signature (2 ∷ []) (5 ∷ []))) (9 ∷ 1 ∷ []) 1 (omega arith)
      (omega arith) (omega arith) refl refl refl refl refl

-- A key of two bytes, in a buffer of ten.
generate_new_key-split_example :
    (generate_new_key (1 ∷ 171 ∷ []) (0x51 ∷ []) 10
      ≡ (6, some (0x30 ∷ 0x31 ∷ 0x61 ∷ 0x62 ∷ 0x2c ∷ 0x51 ∷ [])))
    × (split comma (0x30 ∷ 0x31 ∷ 0x61 ∷ 0x62 ∷ 0x2c ∷ 0x51 ∷ [])
        ≡ (0x30 ∷ 0x31 ∷ 0x61 ∷ 0x62 ∷ []) ∷ (0x51 ∷ []) ∷ [])
    × (decode_string (0x30 ∷ 0x31 ∷ 0x61 ∷ 0x62 ∷ []) ≡ some (1 ∷ 171 ∷ []))
unfolding bytes_to_hex hex_digit
generate_new_key-split_example =
    generate_new_key-split (1 ∷ 171 ∷ []) (0x51 ∷ []) 10 (omega arith, (omega arith, tt))
      ((λ e. cc), tt) (omega arith) (omega arith)
