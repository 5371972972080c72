-- ===== src/Connection/Examples.antt =====
-- A connection on concrete frames, and runs of its cycles.
use lachain_communication_hu.Base.{
  ◌≡◌, refl, ◌⊎◌, inl, inr, true, false, some, [], ◌∷◌, arith, ok, err, nat_eq, text_keys, lookup,
}
use lachain_communication_hu.Utils.Toy.{toy}
use lachain_communication_hu.Utils.Queue.{MessageEnvelop, MessageKind, dequeue_or_wait}
use lachain_communication_hu.Communication.Frame.{
  MessageFrame, new_frame_with_id, ReadError, kind_of_byte,
}
use lachain_communication_hu.Connection.Spam.{new_filter}
use lachain_communication_hu.Connection.Window.{
  Tracks, window_all, admit_all, admit-window, new_filter-Tracks,
}
use lachain_communication_hu.Connection.State.{Connection, init}
use lachain_communication_hu.Connection.Receive.{receive_frame, receive_message_cycle}
use lachain_communication_hu.Connection.Delivery.{Delivers, replies, receive_frame-Delivers}
use lachain_communication_hu.Connection.Key.{KeepsKey, receive_message_cycle-KeepsKey}
use lachain_communication_hu.Connection.SendCycle.{
  Sender, new_sender, fetch, fetched, deliver, millisecond, second,
}
use lachain_communication_hu.Connection.SendCycle.Run.{Run, here, next, fetches, delivers}
use lachain_communication_hu.Connection.SendCycle.Retention.{envelop, Pending}
use lachain_communication_hu.Connection.SendCycle.Answered.{Answered, Run-Answered}
use lachain_communication_hu.Connection.SendCycle.Backoff.{Waits, Run-Waits}

admit-window_example :
    ((admit_all new_filter (7 ∷ 8 ∷ 7 ∷ [])).0 ≡ (window_all [] (7 ∷ 8 ∷ 7 ∷ [])).0)
    × ((admit_all new_filter (7 ∷ 8 ∷ 7 ∷ [])).1.received_msg_id
        ≡ (window_all [] (7 ∷ 8 ∷ 7 ∷ [])).1)
admit-window_example = admit-window (7 ∷ 8 ∷ 7 ∷ []) (omega arith)

-- The verdicts on these ids.
verdicts : (window_all [] (7 ∷ 8 ∷ 7 ∷ [])).0 ≡ true ∷ true ∷ false ∷ []
unfolding window_all
verdicts = refl

abbrev peer : Connection
unfolding init
peer = record (init (1 ∷ []) (2 ∷ []) [] 5) { inbound_stream = some 3 }

peer-Tracks : Tracks 0 peer.filter
unfolding init
peer-Tracks = new_filter-Tracks

-- A request for confirmation.
abbrev request : MessageFrame
request = new_frame_with_id 3 (0x68 ∷ []) 7

receive_frame-Delivers_example :
    Delivers false
      ((0x68 ∷ []) ∷ [])
      (replies (kind_of_byte request.kind) request)
      peer
      (receive_frame toy 25 request peer)
unfolding init
receive_frame-Delivers_example =
    receive_frame-Delivers toy 25 0 request peer (omega arith) peer-Tracks

abbrev known : Connection
known = record peer { peer_public_key = 0x30 ∷ 0x32 ∷ [] }

receive_message_cycle-KeepsKey_example :
    KeepsKey
      (0x30 ∷ 0x32 ∷ [])
      (receive_message_cycle toy 25 (ok request ∷ err ReadError.eof ∷ []) known)
receive_message_cycle-KeepsKey_example =
    receive_message_cycle-KeepsKey toy 25 (ok request ∷ err ReadError.eof ∷ []) known (λ e. cc)

-- A consensus message is sent, fetched, and its first delivery fails for want of a stream.
abbrev vote : MessageEnvelop
vote = envelop (4 ∷ []) 9

abbrev voting : Connection
voting = record peer { message_queue = vote ∷ [] }

abbrev fetching : Connection × Sender
fetching = (
  peer,
  record {
    msg_to_send = some (4 ∷ []);
    msg_kind = MessageKind.consensus;
    msg_id = 9;
    attempts = 0;
    send_backoff = millisecond;
    open_stream_backoff = second;
    last_success = 5;
  },
)

first : fetch 5 voting (new_sender 0) ≡ fetched fetching.0 fetching.1
unfolding fetch new_sender init dequeue_or_wait
first = refl

abbrev undelivered : Connection × Sender
undelivered = (
  (deliver 7 false (4 ∷ []) fetching.0 fetching.1).0,
  (deliver 7 false (4 ∷ []) fetching.0 fetching.1).1,
)

abbrev voting_run : Run toy 25 voting (new_sender 0) undelivered.0 undelivered.1
voting_run = next (next here (fetches 5 first)) (delivers 7 false (4 ∷ []) refl (omega arith))

Run-Waits_example : Waits undelivered.1
Run-Waits_example = Run-Waits 0 voting_run

Run-Answered_example : Pending (4 ∷ []) 9 undelivered.0 undelivered.1 ⊎ Answered toy 25 9 voting_run
unfolding init lookup
Run-Answered_example = Run-Answered toy 25 (4 ∷ []) 9 voting_run (λ e. cc) (inr (inl refl))
