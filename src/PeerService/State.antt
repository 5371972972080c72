-- ===== src/PeerService/State.antt =====
-- The state of peer_service.go, with connectionByPublicKey and the storing of messages. Every method
-- holds the mutex from its first line to its last where not said otherwise, so it is one step.
use lachain_communication_hu.Base.{
  ℕ, ◌+◌, ◌%◌, ◌^◌, Bool, true, false, Option, none, some, List, [], ◌∷◌, ◌++◌, if◌then◌else◌, Text,
  text_eq, lookup, insert, nat_eq, text_keys,
}
use lachain_communication_hu.Utils.Queue.{MessageEnvelop}
use lachain_communication_hu.Connection.State.{Connection, Event, send}

-- The connections are keyed by the readable form of the peer's id. The connection that a key maps
-- to is shared with no other key. `protocol` is the string made of the network's name and version.
pub record PeerService : Type 0 where
  pub host_id : Text
  pub my_external_address : List ℕ
  pub protocol : Text
  pub connections : List (Text × Connection)
  pub messages : List (Text × List MessageEnvelop)
  pub peer_ids : List (ℕ × Text)
  pub banned_peer : List (Text × Bool)
  pub running : Bool
  pub signature : Option (List ℕ)
  pub total_peers : ℕ

-- The service that New fills in before it connects to the bootstrap peers.
abbrev pub empty_service : Text → List ℕ → Text → PeerService
empty_service host_id address protocol = record {
  host_id = host_id;
  my_external_address = address;
  protocol = protocol;
  connections = [];
  messages = [];
  peer_ids = [];
  banned_peer = [];
  running = true;
  signature = none;
  total_peers = 0;
}

-- What a connection emits, under the key of the connection.
abbrev pub Emitted : Type 0
Emitted = List (Text × List Event)

-- connectionByPublicKey: the first connection with this key, in the order of iteration.
unfoldable pub find_by_public_key : Text → List (Text × Connection) → Option (Text × Connection)
find_by_public_key public_key [] = none
find_by_public_key public_key ((id, c) ∷ conns) =
    if text_eq c.peer_public_key public_key
    then some (id, c)
    else find_by_public_key public_key conns

-- A method on the connection under a key.
abbrev pub with_connection : Text → Connection → PeerService → PeerService
with_connection id c ps = record ps { connections = insert id c ps.connections }

-- The zero value of a missing entry of the messages, and of bannedPeer.
abbrev pub or_nil : Option (List MessageEnvelop) → List MessageEnvelop
or_nil none = []
or_nil (some ms) = ms

abbrev pub is_true : Option Bool → Bool
is_true none = false
is_true (some b) = b

unfoldable pub stored : Text → PeerService → List MessageEnvelop
stored key ps = or_nil (lookup key ps.messages)

unfoldable pub is_banned_key : Text → PeerService → Bool
is_banned_key key ps = is_true (lookup key ps.banned_peer)

-- The branch of storeMessage for a key that no connection has.
unfoldable pub postpone : Text → MessageEnvelop → PeerService → PeerService
unfolding stored is_banned_key
postpone key msg ps =
    if is_banned_key key ps
    then ps
    else record ps { messages = insert key (stored key ps ++ msg ∷ []) ps.messages }

abbrev pub store_for :
    Option (Text × Connection) → Text → MessageEnvelop → PeerService → PeerService
store_for none key msg ps = postpone key msg ps
store_for (some (id, c)) key msg ps = with_connection id (send msg c) ps

-- storeMessage
unfoldable pub store_message : Text → MessageEnvelop → PeerService → PeerService
store_message key msg ps = store_for (find_by_public_key key ps.connections) key msg ps

abbrev pub send_to :
    Option (Text × Connection) → Text → MessageEnvelop → PeerService → Bool × PeerService
send_to none key msg ps = (false, store_message key msg ps)
send_to (some (id, c)) key msg ps = (true, with_connection id (send msg c) ps)

-- SendMessageToPeer
unfoldable pub send_message_to_peer : Text → MessageEnvelop → PeerService → Bool × PeerService
unfolding store_message
send_message_to_peer key msg ps = send_to (find_by_public_key key ps.connections) key msg ps

-- getNextPeerId: the number is a uint32.
unfoldable pub get_next_peer_id : PeerService → ℕ × PeerService
get_next_peer_id ps = (ps.total_peers, record ps { total_peers = (ps.total_peers + 1) % 2 ^ 32 })
