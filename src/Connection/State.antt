-- ===== src/Connection/State.antt =====
-- The state of a connection, and the small operations of connection.go on it. Callbacks, stream
-- resets, started goroutines and throughput measurements are the events that an operation emits, in
-- order. A nil pointer, slice or interface is `none`.
use lachain_communication_hu.Base.{
  ℕ, Bool, true, false, not, ◌&&◌, ◌||◌, Option, none, some, List, [], ◌∷◌, ◌++◌, if◌then◌else◌,
  Text, nat_eq, text_keys,
}
use lachain_communication_hu.Utils.Queue.{
  MessageEnvelop, MessageQueue, new_envelop_with_id, message, enqueue,
}
use lachain_communication_hu.Connection.Spam.{SpamFilter, new_filter}
use lachain_communication_hu.Connection.Confirm.{Confirmations}
use lachain_communication_hu.Connection.Metadata.{Metadata}

pub data Status : Type 0 where
  not_connected just_connected handshake_complete terminated : Status

abbrev pub status_eq : Status → Status → Bool
status_eq not_connected not_connected = true
status_eq just_connected just_connected = true
status_eq handshake_complete handshake_complete = true
status_eq terminated terminated = true
status_eq _ _ = false

-- atomic.Int32's CAS
abbrev pub cas : Status → Status → Status → Status
cas old new s = if status_eq s old then new else s

pub data Goroutine : Type 0 where
  receive_message_cycle send_message_cycle send_peers_cycle send_signature : Goroutine

pub data Event : Type 0 where
  on_message : List ℕ → Event
  on_public_key_recovered : Text → Event
  on_peer_list_update : List Metadata → Event
  reset : ℕ → Event
  started : Goroutine → Event
  inbound_measured outbound_measured : ℕ → Event

-- A stream is known by a number.
pub record Connection : Type 0 where
  pub peer_id : Text
  pub peer_address : Option (List ℕ)
  pub peer_public_key : Text
  pub peer_protocol : Text
  pub my_address : List ℕ
  pub signature : Option (List ℕ)
  pub signature_sent : Bool
  pub message_queue : MessageQueue
  pub filter : SpamFilter
  pub confirm_received : Confirmations
  pub inbound_stream : Option ℕ
  pub outbound_stream : Option ℕ
  pub status : Status
  pub is_banned : Bool
  pub uniq_id : ℕ

-- Connection.init over the zero value of the struct.
unfoldable pub init : Text → Text → List ℕ → ℕ → Connection
init id protocol my_address uniq_id = record {
  peer_id = id;
  peer_address = none;
  peer_public_key = [];
  peer_protocol = protocol;
  my_address = my_address;
  signature = none;
  signature_sent = false;
  message_queue = [];
  filter = new_filter;
  confirm_received = [];
  inbound_stream = none;
  outbound_stream = none;
  status = not_connected;
  is_banned = false;
  uniq_id = uniq_id;
}

-- SetSignature
unfoldable pub set_signature : List ℕ → Connection → Connection × List Event
set_signature signature c =
    if c.signature_sent then (record c { signature = some signature }, []) else (
      record c { signature = some signature; signature_sent = true },
      started send_signature ∷ [],
    )

abbrev cycles : List Event
cycles = started receive_message_cycle ∷ started send_message_cycle ∷ started send_peers_cycle ∷ []

-- connection.New, for an address that is not nil.
unfoldable pub new_at :
    Text → Text → List ℕ → List ℕ → Option (List ℕ) → ℕ → Connection × List Event
unfolding init set_signature
new_at id protocol my_address peer_address signature uniq_id =
    let c = record (init id protocol my_address uniq_id) { peer_address = some peer_address } in
    elim signature [
      | none ↦ (c, cycles)
      | some s ↦ let (c', events) = set_signature s c in (c', cycles ++ events)
    ]

-- connection.New, which panics on a nil address: its log line calls String on it.
abbrev pub new :
    Text → Text → List ℕ → Option (List ℕ) → Option (List ℕ) → ℕ → Option (Connection × List Event)
new id protocol my_address none signature uniq_id = none
new id protocol my_address (some peer_address) signature uniq_id =
    some (new_at id protocol my_address peer_address signature uniq_id)

-- connection.FromStream
unfoldable pub from_stream :
    Text → ℕ → List ℕ → List ℕ → Option (List ℕ) → Text → ℕ → Connection × List Event
unfolding init set_signature
from_stream remote_peer stream remote_address my_address signature protocol uniq_id =
    let c = record (init remote_peer protocol my_address uniq_id) {
      peer_address = some remote_address;
      inbound_stream = some stream;
    } in
    elim signature [
      | none ↦ (c, cycles)
      | some s ↦ let (c', events) = set_signature s c in (c', events ++ cycles)
    ]

-- SetPeerAddress
abbrev pub set_peer_address : List ℕ → Connection → Connection
set_peer_address address c = record c { peer_address = some address }

abbrev is_some {ℓ} : {A : Type ℓ} → Option A → Bool
is_some none = false
is_some (some a) = true

-- IsActive
unfoldable pub is_active : Connection → Bool
is_active c =
    not (status_eq c.status terminated)
    && not (status_eq c.status not_connected)
    && (is_some c.inbound_stream || is_some c.outbound_stream)

-- BanPeer and RemoveFromBanList
unfoldable pub ban_peer : Connection → Connection
ban_peer c = record c { is_banned = true }

unfoldable pub remove_from_ban_list : Connection → Connection
remove_from_ban_list c = record c { is_banned = false }

-- addToQueue
unfoldable pub add_to_queue : MessageEnvelop → Connection → Connection
add_to_queue msg c = record c { message_queue = enqueue msg c.message_queue }

-- Send
unfoldable pub send : MessageEnvelop → Connection → Connection
unfolding add_to_queue
send msg c = elim msg.payload [ none ↦ c | some d ↦ if c.is_banned then c else add_to_queue msg c ]

-- resetInboundStream and resetOutboundStream
unfoldable pub reset_inbound_stream : Connection → Connection × List Event
reset_inbound_stream c = elim c.inbound_stream [
  | none ↦ (c, [])
  | some s ↦ (record c { inbound_stream = none }, reset s ∷ [])
]

unfoldable pub reset_outbound_stream : Connection → Connection × List Event
reset_outbound_stream c = elim c.outbound_stream [
  | none ↦ (c, [])
  | some s ↦ (record c { outbound_stream = none }, reset s ∷ [])
]

-- The events of replacing an inbound stream.
abbrev reset_old : Option ℕ → List Event
reset_old none = []
reset_old (some s) = reset s ∷ []

-- SetInboundStream
unfoldable pub set_inbound_stream : ℕ → Connection → Connection × List Event
set_inbound_stream stream c = if status_eq c.status terminated then (c, []) else (
  record c {
    inbound_stream = some stream;
    signature_sent = false;
    status = cas handshake_complete just_connected (cas not_connected just_connected c.status);
  },
  reset_old c.inbound_stream,
)

-- Terminate up to its waits for the two cycles; `random_id` is the id of the nil message.
unfoldable pub terminate : ℕ → Connection → Connection × List Event
unfolding add_to_queue reset_inbound_stream reset_outbound_stream
terminate random_id c =
    let last = new_envelop_with_id none message random_id in
    let (c1, events1) =
      reset_inbound_stream (add_to_queue last (record c { status = terminated })) in
    let (c2, events2) = reset_outbound_stream c1 in (c2, events1 ++ events2)
