-- ===== src/Journey.antt =====
-- The way of plain messages between two nodes: SendMessage of the one's embedded_hub.go, the send
-- cycle and the receive cycle of connection.go, ProcessMessage and GetMessages of the other's hub.
pub mod Sending
pub mod Receiving
pub mod Arrival
pub mod Confirming
pub mod Meeting
mod Examples
use lachain_communication_hu.Base.{
  ℕ, zero, suc, Option, none, some, List, [], ◌∷◌, map, arith, length, concat, Outcome, Text,
  nat_eq, text_keys,
}
use lachain_communication_hu.Utils.Platform.{Platform}
use lachain_communication_hu.Utils.Hex.{bytes_to_hex}
use lachain_communication_hu.Utils.Queue.{MessageEnvelop, MessageKind, new_envelop_with_id}
use lachain_communication_hu.Communication.Frame.{MessageFrame, ReadError, new_frame_with_id}
use lachain_communication_hu.Communication.Reader.{Stream, read_once}
use lachain_communication_hu.Connection.State.{Connection, Event}
use lachain_communication_hu.Connection.SendCycle.{Sender}
use lachain_communication_hu.Connection.SendCycle.Round.{Turn, Rounds, send_rounds}
use lachain_communication_hu.Connection.Receive.{receive_message_cycle}
use lachain_communication_hu.Connection.Delivery.{delivered}
use lachain_communication_hu.PeerService.State.{PeerService, find_by_public_key}
use lachain_communication_hu.Hub.{Fifo, Fetch, send_message, process_message, get_messages}

-- A message, and the id that is drawn for it.
pub record Mail : Type 0 where
  pub payload : List ℕ
  pub id : ℕ

abbrev pub envelope_of : Mail → MessageEnvelop
envelope_of m = new_envelop_with_id (some m.payload) MessageKind.message m.id

abbrev pub frame_of : Mail → MessageFrame
frame_of m = new_frame_with_id 0 m.payload m.id

-- Calls of SendMessage, one for each message, with the flag of a plain message.
unfoldable pub send_mails : List ℕ → List Mail → Option PeerService → Option PeerService
send_mails key [] a = a
send_mails key (m ∷ ms) a = send_mails key ms (send_message key m.payload 0 m.id a)

-- The outcomes of reads from a stream, one after the other.
unfoldable pub read_outcomes : ℕ → Stream → List (Outcome ReadError MessageFrame)
read_outcomes zero s = []
read_outcomes (suc n) s = let (o, later) = read_once s in o ∷ read_outcomes n later

-- What the callback of a connection hands to the hub, and the hub to its queue.
unfoldable pub process_all : {Q : Type 0} → Fifo Q → List (List ℕ) → Q → Q
process_all fifo [] q = q
process_all fifo (m ∷ ms) q = process_all fifo ms (process_message fifo m q)

-- What the receiving node has: its connection to the sender, its queue, and the buffer's length.
pub record Receiver (Q : Type 0) : Type 0 where
  pub connection : Connection
  pub queue : Q
  pub max_length : ℕ

module _ (lib : Platform) (chain_id : ℕ) {Q : Type 0} (fifo : Fifo Q) where
  abbrev pub fetch_received : Receiver Q → Option (Connection × List Event) → Option (Fetch Q)
  fetch_received b none = none
  fetch_received b (some (c, events)) =
      some (get_messages fifo b.max_length (process_all fifo (delivered events) b.queue))

  -- The receive cycle on a stream with so many frames, then GetMessages.
  abbrev pub receive : ℕ → Stream → Receiver Q → Option (Fetch Q)
  receive n s b =
      fetch_received b (receive_message_cycle lib chain_id (read_outcomes n s) b.connection)

  -- The frames that the rounds wrote travel in the chunks that `cut` makes of each.
  abbrev pub carry : (MessageFrame → Stream) → Receiver Q → Rounds → Option (Fetch Q)
  carry cut b none = none
  carry cut b (some (frames, c, s)) = receive (length frames) (concat (map cut frames)) b

  abbrev pub send_out :
      (MessageFrame → Stream)
      → List Turn
      → Sender
      → Receiver Q
      → Option (Text × Connection)
      → Option (Fetch Q)
  send_out cut turns s b none = none
  send_out cut turns s b (some (id, c)) = carry cut b (send_rounds turns c s)

  abbrev pub depart :
      List ℕ
      → (MessageFrame → Stream)
      → List Turn
      → Sender
      → Receiver Q
      → Option PeerService
      → Option (Fetch Q)
  depart key cut turns s b none = none
  depart key cut turns s b (some a) =
      send_out cut turns s b (find_by_public_key (bytes_to_hex key) a.connections)

  -- The messages are sent to a key, the send cycle of the key's connection takes these turns, the
  -- receiver reads what was written, and its GetMessages is called.
  unfoldable pub transfer :
      List ℕ
      → List Mail
      → PeerService
      → (MessageFrame → Stream)
      → List Turn
      → Sender
      → Receiver Q
      → Option (Fetch Q)
  transfer key mails a cut turns s b = depart key cut turns s b (send_mails key mails (some a))
