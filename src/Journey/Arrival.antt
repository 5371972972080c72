-- ===== src/Journey/Arrival.antt =====
-- Messages on the whole way, from SendMessage to GetMessages.
use lachain_communication_hu.Base.{
  ℕ, ◌+◌, ◌^◌, ◌≤◌, ◌<◌, ◌≡◌, refl, sym, ap, ◌∙◌, ◌≢◌, false, some, List, [], ◌∷◌, ◌++◌, map,
  append-nil, arith, length, All, concat, Text, text_eq, nat_eq, text_keys,
}
use lachain_communication_hu.Utils.Platform.{Platform}
use lachain_communication_hu.Utils.Hex.{bytes_to_hex}
use lachain_communication_hu.Communication.Frame.{MessageFrame, IsFrame, encode}
use lachain_communication_hu.Communication.Reader.{Stream}
use lachain_communication_hu.Communication.Reading.{NonEmpty}
use lachain_communication_hu.Connection.State.{Connection}
use lachain_communication_hu.Connection.Delivery.{delivered}
use lachain_communication_hu.Connection.SendCycle.{Sender}
use lachain_communication_hu.Connection.SendCycle.Round.{Turn, IsIdle, Succeeds}
use lachain_communication_hu.PeerService.State.{PeerService, find_by_public_key}
use lachain_communication_hu.Hub.{Fifo, Fetch, get_messages, zero_pub}
use lachain_communication_hu.Hub.Fetching.{laid_out, total_size, Full, Small, Got, get_messages-Got}
use lachain_communication_hu.Journey.{Mail, frame_of, process_all, Receiver, transfer}
use lachain_communication_hu.Journey.Sending.{
  queued-IsIdle, queued, send_mails-queued, send_rounds-mails,
}
use lachain_communication_hu.Journey.Receiving.{
  Ready, message_of, read_outcomes-cut, elements-process_all, receive_message_cycle-mails,
}

total_size-append : (xs ys : List (List ℕ)) → total_size (xs ++ ys) ≡ total_size xs + total_size ys
total_size-append [] ys = omega arith
total_size-append (x ∷ xs) ys = omega (arith, total_size-append xs ys)

all-Small : (ms : List (List ℕ)) → total_size ms < 2 ^ 31 → All Small ms
all-Small [] h = tt
all-Small (m ∷ ms) h = (omega arith, all-Small ms (omega arith))

-- What fits into the buffer is handed over whole.
nothing_left :
    (max_length : ℕ) (taken left : List (List ℕ))
    → Full max_length (0 + total_size taken) left
    → total_size (taken ++ left) ≤ max_length
    → left ≡ []
nothing_left max_length taken [] full fits = refl
nothing_left max_length taken (m ∷ left) full fits =
    absurd (omega (arith, total_size-append taken (m ∷ left)))

-- What GetMessages gives for a queue that fits into the buffer.
pub record Emptied {Q : Type 0} (fifo : Fifo Q) (ms : List (List ℕ)) (r : Fetch Q) : Type 0 where
  pub number : r.count ≡ some (length ms)
  pub copies : r.copies ≡ laid_out 0 ms
  pub queue : fifo.elements r.queue ≡ []

Got-Emptied :
    {Q : Type 0} (fifo : Fifo Q) (max_length : ℕ) (ms : List (List ℕ)) (r : Fetch Q)
    → total_size ms ≤ max_length
    → Got fifo max_length 0 0 ms r
    → Emptied fifo ms r
Got-Emptied fifo max_length ms r fits g =
    let none_left : g.left ≡ [] =
      nothing_left max_length g.taken g.left g.full (rw (← g.split) fits) in
    let whole : g.taken ≡ ms = sym (g.split ∙ rw none_left (append-nil g.taken)) in
    let count : 0 + length g.taken ≡ length g.taken = omega arith in
    record {
      number = rw whole at (g.number ∙ ap some count);
      copies = rw whole at g.copies;
      queue = g.queue ∙ none_left;
    }

get_messages-Emptied :
    {Q : Type 0} (fifo : Fifo Q) (max_length : ℕ) (q : Q) (ms : List (List ℕ))
    → fifo.elements q ≡ ms
    → ms ≢ []
    → max_length < 2 ^ 31
    → total_size ms ≤ max_length
    → Emptied fifo ms (get_messages fifo max_length q)
get_messages-Emptied fifo max_length q ms e some_there most fits =
    Got-Emptied fifo max_length ms _ fits (
      rw e at (
        get_messages-Got fifo max_length q most (rw e some_there)
          (rw e (all-Small ms (omega arith)))))

map-empty : {A B : Type 0} (f : A → B) (xs : List A) → xs ≢ [] → map f xs ≢ []
map-empty f [] h = absurd (h refl)
map-empty f (x ∷ xs) h = λ e. cc

module _ (lib : Platform) (chain_id : ℕ) {Q : Type 0} (fifo : Fifo Q) where
  -- Some plain messages, well-formed as frames, are sent to the key (not the zero key) of a
  -- live connection whose peer is not banned, whose queue is empty and whose stream is open. Its send
  -- cycle has no message at hand and takes as many rounds, in each of which the peer is connected
  -- and the write succeeds. The network hands every frame over in nonempty chunks of its own. The
  -- receiver's connection is not terminated, has an inbound stream and has taken `n` frames, which
  -- with these are fewer than 2^32; its peer is not banned and its window has none of the ids, which
  -- are distinct. The receiver's queue is empty, and its buffer, shorter than 2^31 bytes, has room for
  -- all. Then GetMessages returns their number, the buffer has them in their order, each behind its
  -- length and the connection's number, and the queue is empty again.
  pub transfer-Emptied :
      (key : List ℕ) (mails : List Mail) (a : PeerService) (id : Text) (c : Connection) (stream : ℕ)
      (cut : MessageFrame → Stream) (turns : List Turn) (s : Sender) (n : ℕ) (b : Receiver Q)
      → mails ≢ []
      → text_eq key zero_pub ≡ false
      → find_by_public_key (bytes_to_hex key) a.connections ≡ some (id, c)
      → c.is_banned ≡ false
      → IsIdle stream [] c s
      → length turns ≡ length mails
      → All Succeeds turns
      → ((f : MessageFrame) → concat (cut f) ≡ encode f)
      → ((f : MessageFrame) → All NonEmpty (cut f))
      → All IsFrame (map frame_of mails)
      → Ready n mails b.connection
      → fifo.elements b.queue ≡ []
      → b.max_length < 2 ^ 31
      → total_size (map (message_of b.connection.uniq_id) mails) ≤ b.max_length
      → (r : Fetch Q) × (transfer lib chain_id fifo key mails a cut turns s b ≡ some r)
        × Emptied fifo (map (message_of b.connection.uniq_id) mails) r
  unfolding transfer
  transfer-Emptied key mails a id c stream cut turns s n b some_there one found free idle size done
        whole ne v ready none_yet most fits =
      let (a', sent, there) = send_mails-queued key mails a id c one found free in
      let (c', s', written) =
        send_rounds-mails stream mails turns (queued mails c) s size done
          (queued-IsIdle stream mails c s idle) in
      let reads = read_outcomes-cut cut (map frame_of mails) whole ne v in
      let (b', events, got, up) =
        receive_message_cycle-mails lib chain_id n mails b.connection ready in
      let waiting = elements-process_all fifo (delivered events) b.queue ∙ rw (none_yet, up) refl in
      (
        get_messages fifo b.max_length (process_all fifo (delivered events) b.queue),
        rw (sent, there, written, reads, got) refl,
        get_messages-Emptied fifo b.max_length _ _ waiting (map-empty _ mails some_there) most fits,
      )
