-- ===== src/PeerService/Examples.antt =====
-- A service with one connection, and messages for a peer whose key is not known yet.
use lachain_communication_hu.PeerService.Strangers.{update_peer_list-none}
use lachain_communication_hu.PeerService.Strangers.{HasStranger}
use lachain_communication_hu.Base.{◌↔◌}
use lachain_communication_hu.Base.{none}
use lachain_communication_hu.PeerService.Operations.{update_peer_list}
use lachain_communication_hu.Connection.Metadata.{Metadata}
use lachain_communication_hu.PeerService.State.{
  Emitted, PeerService, empty_service, get_next_peer_id, stored, find_by_public_key, is_banned_key,
}
use lachain_communication_hu.Base.{
  ◌⊎◌, false, insert, ◌≡◌, refl, Bool, true, some, List, [], ◌∷◌, ◌++◌, arith, Text, text_eq,
  lookup, keys, nat_eq, text_keys,
}
use lachain_communication_hu.PeerService.Broadcast.{Meant, broadcast_message_lem}
use lachain_communication_hu.Connection.State.{
  new_at, started, receive_message_cycle, send_message_cycle, send_peers_cycle, Connection, init,
  Event,
}
use lachain_communication_hu.PeerService.Stored.{HasQueue, send_messages, recovered-send_messages}
use lachain_communication_hu.Utils.Toy.{toy}
use lachain_communication_hu.Utils.Queue.{MessageEnvelop, new_envelop_with_id, MessageKind}
use lachain_communication_hu.PeerService.Operations.{
  add_connection, recovered, ban_peer, broadcast_message, set_peer_public_key, connect,
}
use lachain_communication_hu.PeerService.Numbers.{Leads}
use lachain_communication_hu.PeerService.Steps.{here, next, connects, set_peer_public_key_total}

abbrev fresh : Connection
fresh = init (1 ∷ []) (2 ∷ []) [] 0

abbrev key : Text
key = 0x30 ∷ 0x32 ∷ []

abbrev hello : MessageEnvelop
hello = new_envelop_with_id (some (0x68 ∷ [])) MessageKind.message 11

abbrev world : MessageEnvelop
world = new_envelop_with_id (some (0x77 ∷ [])) MessageKind.consensus 12

abbrev service : PeerService
service = record (empty_service (0 ∷ []) [] (2 ∷ [])) {
  connections = (1 ∷ [], fresh) ∷ [];
  messages = (key, hello ∷ []) ∷ [];
  peer_ids = (0, 1 ∷ []) ∷ [];
  total_peers = 1;
}

recovered-send_messages_example :
    HasQueue
      (1 ∷ [])
      (recovered (1 ∷ []) key (send_messages key (world ∷ []) service))
      (fresh.message_queue ++ (stored key service ++ world ∷ []))
      false
    × HasQueue
        (1 ∷ [])
        (recovered (1 ∷ []) key (ban_peer key (send_messages key (world ∷ []) service)).1)
        (fresh.message_queue ++ (stored key service ++ world ∷ []))
        true
unfolding init stored find_by_public_key is_banned_key lookup text_eq
recovered-send_messages_example =
    recovered-send_messages (1 ∷ []) key fresh (world ∷ []) service refl refl refl refl refl
      ((λ e. cc), tt) ((λ e. cc), tt)

broadcast_message_lem_example :
    (keys (broadcast_message hello service).connections ≡ keys service.connections)
    × ((Meant fresh
          × (lookup (1 ∷ []) (broadcast_message hello service).connections
              ≡ some (record fresh { message_queue = fresh.message_queue ++ hello ∷ [] })))
        ⊎ ((¬ Meant fresh)
            × (lookup (1 ∷ []) (broadcast_message hello service).connections ≡ some fresh)))
unfolding init lookup text_eq
broadcast_message_lem_example =
    broadcast_message_lem hello (0x68 ∷ []) service (1 ∷ []) fresh refl refl refl

abbrev unconnected : PeerService
unconnected = empty_service (0 ∷ []) [] (2 ∷ [])

-- The number 0 is given to the first peer that the service connects to.
abbrev connected : PeerService
connected = record unconnected {
  connections =
      ((1 ∷ []), record (init (1 ∷ []) (2 ∷ []) [] 0) { peer_address = some (9 ∷ []) }) ∷ [];
  peer_ids = (0, 1 ∷ []) ∷ [];
  total_peers = 1;
}

abbrev starts_cycles : Emitted
starts_cycles =
    (
      1 ∷ [],
      started receive_message_cycle ∷ started send_message_cycle ∷ started send_peers_cycle ∷ [],
    )
    ∷ []

connects_first : connect toy (1 ∷ []) (some (9 ∷ [])) unconnected ≡ some (connected, starts_cycles)
unfolding connect lookup text_eq add_connection get_next_peer_id new_at insert
connects_first = refl

set_peer_public_key_total_example :
    Leads 0 connected.peer_ids connected.connections
    × ((r : Bool × PeerService × List (Text × List Event)) × (set_peer_public_key toy 25 key 0
            connected
          ≡ some r))
set_peer_public_key_total_example =
    set_peer_public_key_total toy 25 (0 ∷ []) [] (2 ∷ [])
      (next here (connects (1 ∷ []) (some (9 ∷ [])) starts_cycles (omega arith) connects_first)) key
      0 (omega arith)

-- A list with a peer that has an address, and one that has none.
abbrev listed : List Metadata
listed =
    record { public_key = []; id = 3 ∷ []; last_seen = 0; addr = some (9 ∷ []) }
    ∷ record { public_key = []; id = 4 ∷ []; last_seen = 0; addr = none }
    ∷ []

update_peer_list-none_example :
    (update_peer_list toy listed unconnected ≡ none) ↔ HasStranger toy listed unconnected
update_peer_list-none_example = update_peer_list-none toy listed unconnected refl
