-- ===== src/Journey/Examples.antt =====
-- Two messages on the whole way, and a consensus message with its confirmation.
use lachain_communication_hu.Communication.Frame.{new_frame_with_id}
use lachain_communication_hu.Utils.Hex.{hex_digit}
use lachain_communication_hu.PeerService.State.{is_banned_key}
use lachain_communication_hu.PeerService.State.{stored}
use lachain_communication_hu.Base.{map, take, ◌++◌}
use lachain_communication_hu.Connection.Spam.{new_filter}
use lachain_communication_hu.Base.{lookup}
use lachain_communication_hu.Base.{
  ℕ, ◌≡◌, refl, ap, true, none, some, List, [], ◌∷◌, append-nil, arith, length, All, text_eq,
  nat_eq, text_keys,
}
use lachain_communication_hu.Binary.{put_uint32, put_word}
use lachain_communication_hu.Utils.Toy.{toy, toy_signature}
use lachain_communication_hu.Utils.Hex.{bytes_to_hex}
use lachain_communication_hu.Communication.Frame.{MessageFrame, encode}
use lachain_communication_hu.Communication.Reader.{Stream}
use lachain_communication_hu.Communication.Reading.{NonEmpty}
use lachain_communication_hu.Communication.RoundTrip.{length-encode}
use lachain_communication_hu.Connection.State.{Connection, init}
use lachain_communication_hu.Connection.Window.{new_filter-Tracks}
use lachain_communication_hu.Connection.SendCycle.{new_sender}
use lachain_communication_hu.Connection.SendCycle.Round.{Turn}
use lachain_communication_hu.PeerService.State.{PeerService, empty_service, find_by_public_key}
use lachain_communication_hu.Hub.{Fetch}
use lachain_communication_hu.Hub.ListFifo.{list_fifo}
use lachain_communication_hu.Journey.{Mail, envelope_of, Receiver, transfer}
use lachain_communication_hu.Journey.Confirming.{envelop_of, Exchange, send_round-Exchange}
use lachain_communication_hu.Journey.Meeting.{meet, meet-queued}
use lachain_communication_hu.Utils.Crypto.{
  ec_recover, recover_with, public_key_to_hex_string, recover_encoded_rec_id, rec_id_byte,
}
use lachain_communication_hu.Journey.Arrival.{Emptied, transfer-Emptied}

abbrev key : List ℕ
key = 1 ∷ []

abbrev mails : List Mail
mails = record { payload = 1 ∷ []; id = 7 } ∷ record { payload = 2 ∷ []; id = 8 } ∷ []

abbrev to_receiver : Connection
to_receiver = record (init (1 ∷ []) (2 ∷ []) [] 5) {
  peer_public_key = bytes_to_hex key;
  outbound_stream = some 3;
}

abbrev sending : PeerService
sending = record (empty_service (9 ∷ []) [] []) { connections = ((1 ∷ []), to_receiver) ∷ [] }

abbrev turn : Turn
turn = record {
  net = record { connected = true; direct = true; relays = []; new_stream = none };
  fetched_at = 1;
  sent_at = 2;
  written = true;
}

abbrev receiving : Receiver (List (List ℕ))
receiving = record {
  connection = record (init (9 ∷ []) (2 ∷ []) [] 6) { inbound_stream = some 4 };
  queue = [];
  max_length = 100;
}

-- The network delivers a frame in one chunk.
abbrev in_one : MessageFrame → Stream
in_one f = encode f ∷ []

in_one-NonEmpty : (f : MessageFrame) → All NonEmpty (in_one f)
in_one-NonEmpty f = (λ e. absurd (omega (arith, length-encode f, ap length e)), tt)

transfer-Emptied_example :
    (r : Fetch (List (List ℕ))) × (transfer toy 25 list_fifo key mails sending in_one
        (turn ∷ turn ∷ [])
        (new_sender 0)
        receiving
      ≡ some r)
    × Emptied list_fifo ((6 ∷ 0 ∷ 0 ∷ 0 ∷ 1 ∷ []) ∷ (6 ∷ 0 ∷ 0 ∷ 0 ∷ 2 ∷ []) ∷ []) r
unfolding init find_by_public_key new_sender put_uint32 put_word bytes_to_hex text_eq
transfer-Emptied_example =
    transfer-Emptied toy 25 list_fifo key mails sending (1 ∷ []) to_receiver 3 in_one
      (turn ∷ turn ∷ []) (new_sender 0) 0 receiving (λ e. cc) refl refl refl
      (record { open_stream = refl; queue = refl; nothing = refl; live = refl }) refl
      (record { connected = refl; done = refl }, (record { connected = refl; done = refl }, tt))
      (λ f. append-nil (encode f)) in_one-NonEmpty
      (
        record {
          kind_byte = omega arith;
          id_word = omega arith;
          bytes = (omega arith, tt);
          fits = omega arith;
        },
        (
          record {
            kind_byte = omega arith;
            id_word = omega arith;
            bytes = (omega arith, tt);
            fits = omega arith;
          },
          tt,
        ),
      )
      (record {
        stream = 4;
        inbound = refl;
        live = refl;
        free = refl;
        tracks = new_filter-Tracks;
        fresh = (refl, refl, (refl, refl, tt));
        counts = omega arith;
      })
      refl (omega arith) (omega arith)

-- A consensus message, from the node under the key 1 to the one under 9.
abbrev voter : Connection
voter = record to_receiver { message_queue = envelop_of (5 ∷ []) 9 ∷ [] }

abbrev listener : Connection
listener = record receiving.connection { outbound_stream = some 8 }

send_round-Exchange_example :
    Exchange toy 25 (5 ∷ []) 9 turn turn turn voter (new_sender 0) listener (new_sender 0)
unfolding init new_sender lookup
send_round-Exchange_example =
    send_round-Exchange toy 25 (5 ∷ []) 9 0 0 3 8 [] [] new_filter new_filter turn turn turn voter
      (new_sender 0) listener (new_sender 0) (record { connected = refl; done = refl })
      (record { connected = refl; done = refl }) (record { connected = refl; done = refl }) refl
      (record { counts = omega arith; tracks = new_filter-Tracks; new = refl })
      (record { counts = omega arith; tracks = new_filter-Tracks; new = refl })
      (record {
        idle = record { open_stream = refl; queue = refl; nothing = refl; live = refl };
        confirmations = refl;
        filter = refl;
      })
      (record {
        idle = record { open_stream = refl; queue = refl; nothing = refl; live = refl };
        confirmations = refl;
        filter = refl;
      })

-- A node that knows the peer 1 by its connection only, and the peer's signature.
abbrev stranger : Connection
stranger = init (1 ∷ []) (2 ∷ []) [] 0

abbrev hosting : PeerService
hosting = record (empty_service (9 ∷ []) [] []) { connections = ((1 ∷ []), stranger) ∷ [] }

abbrev signature : List ℕ
signature = take 64 (toy_signature (1 ∷ []) (5 ∷ [])) ++ 86 ∷ []

meet-queued_example :
    (ps : PeerService) × (c : Connection) × (meet toy 25
        (9 ∷ 1 ∷ [])
        mails
        mails
        (1 ∷ [])
        (new_frame_with_id 1 (signature ++ 4 ∷ 6 ∷ []) 77)
        hosting
      ≡ some ps)
    × (find_by_public_key (bytes_to_hex (9 ∷ 1 ∷ [])) ps.connections ≡ some ((1 ∷ []), c))
    × (c.message_queue ≡ map envelope_of mails ++ map envelope_of mails)
unfolding init find_by_public_key text_eq stored is_banned_key lookup ec_recover recover_with
    public_key_to_hex_string bytes_to_hex hex_digit recover_encoded_rec_id rec_id_byte
meet-queued_example =
    meet-queued toy 25 (9 ∷ 1 ∷ []) signature (4 ∷ 6 ∷ []) 77 0 mails mails (1 ∷ []) stranger
      hosting refl refl refl refl refl tt refl (λ e. cc) refl
      (record { id = 1 ∷ []; marshalled = refl; size = refl; signer = refl; readable = refl })
      (record { counts = omega arith; tracks = new_filter-Tracks; new = refl })
