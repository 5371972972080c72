-- ===== src/Connection/Receive.antt =====
-- receiveMessageCycle of connection.go, one round at a time, with messageReceived and handlePeers.
-- `none` is a panic.
use lachain_communication_hu.Base.{
  ℕ, not, Option, none, some, List, [], ◌∷◌, ◌++◌, length, Outcome, ok, err, panic, if◌then◌else◌,
  nat_eq, text_keys,
}
use lachain_communication_hu.Binary.{put_uint32}
use lachain_communication_hu.Communication.Checksum.{checksum_ieee}
use lachain_communication_hu.Communication.Frame.{
  MessageFrame, FrameKind, message, signature, get_peers_reply, message_confirm_request,
  confirm_reply, unknown, kind_of_byte, checked_bytes, ReadError,
}
use lachain_communication_hu.Utils.Platform.{Platform}
use lachain_communication_hu.Utils.Queue.{MessageEnvelop, MessageKind, new_envelop_with_id}
use lachain_communication_hu.Connection.Spam.{admit}
use lachain_communication_hu.Connection.Confirm.{confirmation_received}
use lachain_communication_hu.Connection.Metadata.{Metadata, decode_array}
use lachain_communication_hu.Connection.State.{
  terminated, status_eq, Event, on_message, on_peer_list_update, inbound_measured, Connection,
  add_to_queue, reset_inbound_stream,
}
use lachain_communication_hu.Connection.Handshake.{handle_signature}

-- messageReceived: the message goes up behind the connection's number.
unfoldable pub message_received : List ℕ → Connection → List Event
message_received payload c = on_message (put_uint32 c.uniq_id ++ payload) ∷ []

-- The bytes behind a received frame's data, up to the end of the slice's capacity: its checksum.
abbrev pub spare_bytes : MessageFrame → List ℕ
spare_bytes f = put_uint32 (checksum_ieee (checked_bytes f))

-- The envelope that confirms a message.
abbrev pub confirm_reply_to : ℕ → MessageEnvelop
confirm_reply_to id = new_envelop_with_id (some (0 ∷ [])) MessageKind.confirm_reply id

abbrev peers_received :
    Connection → Option (Option (List Metadata)) → Option (Connection × List Event)
peers_received c none = none
peers_received c (some none) = none
peers_received c (some (some peers)) = some (c, on_peer_list_update peers ∷ [])

abbrev pub then_events :
    List Event → Option (Connection × List Event) → Option (Connection × List Event)
then_events before none = none
then_events before (some (c, events)) = some (c, before ++ events)

abbrev pub measured :
    MessageFrame → Option (Connection × List Event) → Option (Connection × List Event)
measured f none = none
measured f (some (c, events)) = some (c, inbound_measured (length f.payload) ∷ events)

module _ (lib : Platform) (chain_id : ℕ) where
  -- handlePeers
  unfoldable pub handle_peers : MessageFrame → Connection → Option (Connection × List Event)
  handle_peers f c = peers_received c (decode_array lib f.payload (spare_bytes f))

  -- The switch on the frame's kind.
  unfoldable pub dispatch : FrameKind → MessageFrame → Connection → Option (Connection × List Event)
  dispatch confirm_reply f c =
      some (record c { confirm_received = confirmation_received f.msg_id c.confirm_received }, [])
  dispatch message_confirm_request f c =
      some (add_to_queue (confirm_reply_to f.msg_id) c, on_message f.payload ∷ [])
  dispatch message f c =
      if not c.is_banned then some (c, message_received f.payload c) else some (c, [])
  dispatch signature f c = handle_signature lib chain_id f.payload c
  dispatch get_peers_reply f c = if not c.is_banned then handle_peers f c else some (c, [])
  dispatch (unknown k) f c = some (c, [])

  -- What a round does with a frame: a repeated id is ignored.
  unfoldable pub receive_frame : MessageFrame → Connection → Option (Connection × List Event)
  receive_frame f c =
      let (taken, filter) = admit f.msg_id c.filter in
      let c' = record c { filter = filter } in
      measured f (if taken then dispatch (kind_of_byte f.kind) f c' else some (c', []))

  -- A round that read from the inbound stream with this outcome.
  unfoldable pub receive_round :
      Outcome ReadError MessageFrame → Connection → Option (Connection × List Event)
  receive_round (ok f) c = receive_frame f c
  receive_round (err e) c = some (reset_inbound_stream c)
  receive_round panic c = none

  -- The loop over the outcomes of its reads. Without an inbound stream it sleeps, so the outcomes
  -- that are left are not read; a terminated connection leaves the loop.
  unfoldable pub receive_message_cycle :
      List (Outcome ReadError MessageFrame) → Connection → Option (Connection × List Event)
  receive_message_cycle [] c = some (c, [])
  receive_message_cycle (o ∷ os) c =
      if status_eq c.status terminated then some (c, []) else elim c.inbound_stream [
        | none ↦ some (c, [])
        | some s ↦ elim (receive_round o c) [
          | none ↦ none
          | some (c', events) ↦ then_events events (receive_message_cycle os c')
        ]
      ]
