-- ===== src/PeerService/Operations.antt =====
-- The methods of peer_service.go.
use lachain_communication_hu.Base.{
  ℕ, Bool, true, false, not, ◌&&◌, Option, none, some, List, [], ◌∷◌, ◌++◌, Outcome, ok, err, panic,
  if◌then◌else◌, Text, text_eq, lookup, insert, nat_eq, text_keys,
}
use lachain_communication_hu.Utils.Queue.{MessageEnvelop}
use lachain_communication_hu.Utils.Platform.{Platform}
use lachain_communication_hu.Utils.Crypto.{CryptoError, ec_recover}
use lachain_communication_hu.Connection.State
use lachain_communication_hu.Connection.State.{
  Connection, Event, on_message, on_public_key_recovered, on_peer_list_update, new, from_stream,
  set_signature, set_inbound_stream, set_peer_address, is_active, send, terminate,
}
use lachain_communication_hu.Connection.Metadata.{Metadata}
use lachain_communication_hu.Connection.Handshake.{try_set_peer_public_key, is_empty}
use lachain_communication_hu.PeerService.State.{
  PeerService, Emitted, find_by_public_key, with_connection, stored, is_banned_key,
  get_next_peer_id,
}

-- The two writes that follow the making of a connection.
abbrev pub register : Text → ℕ → Connection × List Event → PeerService → PeerService × Emitted
register id uniq_id (c, events) ps = (
  record ps { connections = insert id c ps.connections; peer_ids = insert uniq_id id ps.peer_ids },
  (id, events) ∷ [],
)

abbrev pub register_new :
    Text → ℕ → Option (Connection × List Event) → PeerService → Option (PeerService × Emitted)
register_new id uniq_id none ps = none
register_new id uniq_id (some made) ps = some (register id uniq_id made ps)

-- A new connection to a peer; `none` is the panic of connection.New on a missing address.
unfoldable pub add_connection :
    Text → Text → Option (List ℕ) → Option (List ℕ) → PeerService → Option (PeerService × Emitted)
unfolding get_next_peer_id
add_connection key id address signature ps =
    let (uniq_id, ps') = get_next_peer_id ps in
    register_new key uniq_id (new id ps.protocol ps.my_external_address address signature uniq_id)
      ps'

abbrev pub onto_stream :
    Option Connection → Text → ℕ → List ℕ → Text → PeerService → PeerService × Emitted
onto_stream (some c) key stream address id ps =
    let (c', events) = set_inbound_stream stream c in
    (with_connection key c' ps, (key, events) ∷ [])
onto_stream none key stream address id ps =
    let (uniq_id, ps') = get_next_peer_id ps in
    register key uniq_id
      (from_stream id stream address ps.my_external_address ps.signature ps.protocol uniq_id) ps'

abbrev pub set_address_of : Option (List ℕ) → Connection → Connection
set_address_of none c = c
set_address_of (some a) c = set_peer_address a c

abbrev pub known_peer :
    Option Connection → Text → Metadata → PeerService → Option (PeerService × Emitted)
known_peer (some c) key peer ps = some (with_connection key (set_address_of peer.addr c) ps, [])
known_peer none key peer ps = add_connection key peer.id peer.addr ps.signature ps

-- The loop over the postponed messages in onPublicKeyRecovered.
unfoldable pub send_all : List MessageEnvelop → Connection → Connection
send_all [] c = c
send_all (m ∷ ms) c = send_all ms (send m c)

-- What onPublicKeyRecovered does to the connection under `id`.
unfoldable pub recover_for : Option Connection → Text → Text → PeerService → PeerService
recover_for none id public_key ps = record ps { messages = insert public_key [] ps.messages }
recover_for (some c) id public_key ps =
    let c' = send_all (stored public_key ps) c in
    let c'' = if is_banned_key public_key ps then State.ban_peer c' else c' in
    record ps {
      messages = insert public_key [] ps.messages;
      connections = insert id c'' ps.connections;
    }

-- onPublicKeyRecovered, called by the connection under `id`.
unfoldable pub recovered : Text → Text → PeerService → PeerService
recovered id public_key ps =
    if not ps.running then ps else recover_for (lookup id ps.connections) id public_key ps

-- The flag is set on the connection that is found; the result says whether there was one.
abbrev pub flag_found :
    Option (Text × Connection) → (Connection → Connection) → PeerService → Bool × PeerService
flag_found none f ps = (false, ps)
flag_found (some (id, c)) f ps = (true, with_connection id (f c) ps)

-- BanPeer and RemoveFromBanList
unfoldable pub ban_peer : Text → PeerService → Bool × PeerService
ban_peer public_key ps =
    flag_found (find_by_public_key public_key ps.connections) State.ban_peer
      (record ps { banned_peer = insert public_key true ps.banned_peer })

unfoldable pub remove_from_ban_list : Text → PeerService → Bool × PeerService
remove_from_ban_list public_key ps =
    flag_found (find_by_public_key public_key ps.connections) State.remove_from_ban_list
      (record ps { banned_peer = insert public_key false ps.banned_peer })

-- BroadcastMessage passes over inactive connections whose peer's key is known.
abbrev pub passed_over : Connection → Bool
passed_over c = not (is_active c) && not (is_empty c.peer_public_key)

unfoldable pub broadcast : MessageEnvelop → List (Text × Connection) → List (Text × Connection)
broadcast msg [] = []
broadcast msg ((id, c) ∷ conns) =
    (id, if passed_over c then c else send msg c) ∷ broadcast msg conns

unfoldable pub broadcast_message : MessageEnvelop → PeerService → PeerService
broadcast_message msg ps = record ps { connections = broadcast msg ps.connections }

-- IsConnected looks its argument up among the keys of the connections.
unfoldable pub is_connected : Text → PeerService → Bool
is_connected public_key ps = elim (lookup public_key ps.connections) [
  | none ↦ false
  | some c ↦ is_active c
]

-- GetPeers
unfoldable pub get_peers : List (Text × Connection) → List Metadata
get_peers [] = []
get_peers ((id, c) ∷ conns) =
    let rest = get_peers conns in
    if is_active c
    then record {
      public_key = c.peer_public_key;
      id = c.peer_id;
      last_seen = 0;
      addr = c.peer_address;
    }
      ∷ rest
    else rest

abbrev has_address : Option (List ℕ) → Bool
has_address none = false
has_address (some a) = true

-- AvailableRelays
unfoldable pub available_relays : List (Text × Connection) → List Text
available_relays [] = []
available_relays ((id, c) ∷ conns) =
    let rest = available_relays conns in
    if is_active c && has_address c.peer_address then c.peer_id ∷ rest else rest

-- The loop of Stop; `random_id` gives the ids of the nil messages.
unfoldable pub terminate_all : ℕ → List (Text × Connection) → Emitted
terminate_all random_id [] = []
terminate_all random_id ((id, c) ∷ conns) =
    (id, (terminate random_id c).1) ∷ terminate_all random_id conns

-- Stop, up to the closing of the host.
unfoldable pub stop : ℕ → PeerService → PeerService × Emitted
stop random_id ps =
    if not ps.running
    then (ps, [])
    else (record ps { running = false; connections = [] }, terminate_all random_id ps.connections)

unfoldable pub sign_all : List ℕ → List (Text × Connection) → List (Text × Connection) × Emitted
sign_all sig [] = ([], [])
sign_all sig ((id, c) ∷ conns) =
    let (c', events) = set_signature sig c in
    let (rest, emitted) = sign_all sig conns in ((id, c') ∷ rest, (id, events) ∷ emitted)

-- What a step emits goes before what the next ones do.
abbrev pub emitted_first : Emitted → Option (PeerService × Emitted) → Option (PeerService × Emitted)
emitted_first emitted none = none
emitted_first emitted (some (ps, more)) = some (ps, emitted ++ more)

module _ (lib : Platform) where
  -- connect; `none` is a panic, here and below.
  unfoldable pub connect : Text → Option (List ℕ) → PeerService → Option (PeerService × Emitted)
  connect id address ps =
      if text_eq id ps.host_id
      then some (ps, [])
      else elim (lookup (lib.pretty id) ps.connections) [
        | some c ↦ some (ps, [])
        | none ↦ add_connection (lib.pretty id) id address none ps
      ]

  -- onConnect
  unfoldable pub on_connect : Text → ℕ → List ℕ → PeerService → PeerService × Emitted
  on_connect remote_peer stream address ps =
      if not ps.running
      then (ps, [])
      else onto_stream (lookup (lib.pretty remote_peer) ps.connections) (lib.pretty remote_peer)
          stream address remote_peer ps

  -- The loop of updatePeerList.
  abbrev pub take_peer : Metadata → PeerService → Option (PeerService × Emitted)
  take_peer peer ps =
      if text_eq peer.id ps.host_id
      then some (ps, [])
      else known_peer (lookup (lib.pretty peer.id) ps.connections) (lib.pretty peer.id) peer ps

  unfoldable pub update_peers : List Metadata → PeerService → Option (PeerService × Emitted)
  update_peers [] ps = some (ps, [])
  update_peers (peer ∷ peers) ps = elim (take_peer peer ps) [
    | none ↦ none
    | some (ps', emitted) ↦ emitted_first emitted (update_peers peers ps')
  ]

  -- updatePeerList
  unfoldable pub update_peer_list : List Metadata → PeerService → Option (PeerService × Emitted)
  update_peer_list peers ps = if not ps.running then some (ps, []) else update_peers peers ps

  module _ (chain_id : ℕ) where
    -- SetSignature; `none` is a panic.
    abbrev pub signed_with :
        Outcome CryptoError (List ℕ) → List ℕ → PeerService → Option (Bool × PeerService × Emitted)
    signed_with panic sig ps = none
    signed_with (err e) sig ps = some (false, ps, [])
    signed_with (ok key) sig ps =
        let (conns, emitted) = sign_all sig ps.connections in
        some (true, record ps { signature = some sig; connections = conns }, emitted)

    abbrev pub sign_as :
        Option (List ℕ) → List ℕ → PeerService → Option (Bool × PeerService × Emitted)
    sign_as none sig ps = some (false, ps, [])
    sign_as (some peer_id) sig ps = signed_with (ec_recover lib peer_id sig chain_id) sig ps

    unfoldable pub sign : List ℕ → PeerService → Option (Bool × PeerService × Emitted)
    sign sig ps = sign_as (lib.marshal ps.host_id) sig ps

    -- What the service does with an event of the connection under `id`.
    unfoldable pub handle_event : Text → Event → PeerService → Option (PeerService × Emitted)
    handle_event id (on_public_key_recovered key) ps = some (recovered id key ps, [])
    handle_event id (on_peer_list_update peers) ps = update_peer_list peers ps
    handle_event id _ ps = some (ps, [])

    unfoldable pub handle_events : Text → List Event → PeerService → Option (PeerService × Emitted)
    handle_events id [] ps = some (ps, [])
    handle_events id (e ∷ es) ps = elim (handle_event id e ps) [
      | none ↦ none
      | some (ps', emitted) ↦ emitted_first emitted (handle_events id es ps')
    ]

    abbrev pub with_answer :
        Bool → Emitted → Option (PeerService × Emitted) → Option (Bool × PeerService × Emitted)
    with_answer done emitted none = none
    with_answer done emitted (some (ps, more)) = some (done, ps, emitted ++ more)

    abbrev pub set_key_of :
        Option Connection → Text → Text → PeerService → Option (Bool × PeerService × Emitted)
    set_key_of none public_key id ps = none
    set_key_of (some c) public_key id ps =
        let (done, c', events) = try_set_peer_public_key lib chain_id public_key c in
        with_answer done ((id, events) ∷ []) (handle_events id events (with_connection id c' ps))

    abbrev pub set_key_under :
        Option Text → Text → PeerService → Option (Bool × PeerService × Emitted)
    set_key_under none public_key ps = none
    set_key_under (some id) public_key ps = set_key_of (lookup id ps.connections) public_key id ps

    -- SetPeerPublicKey, which takes the mutex only in the callback. An unknown number panics.
    unfoldable pub set_peer_public_key :
        Text → ℕ → PeerService → Option (Bool × PeerService × Emitted)
    set_peer_public_key public_key peer_uniq_id ps =
        set_key_under (lookup peer_uniq_id ps.peer_ids) public_key ps
