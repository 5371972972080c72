-- ===== src/Journey/Sending.antt =====
-- Messages from SendMessage to the frames that are written.
use lachain_communication_hu.Connection.SendCycle.Round.{
  send_round, Turn, IsIdle, Succeeds, send_rounds, send_round-message,
}
use lachain_communication_hu.Communication.Frame.{MessageFrame}
use lachain_communication_hu.Base.{
  ℕ, ◌≡◌, refl, ap, ◌∙◌, false, some, List, [], ◌∷◌, ◌++◌, map, append-nil, append_assoc, arith,
  length, All, Text, text_eq, nat_eq, text_keys,
}
use lachain_communication_hu.Utils.Hex.{bytes_to_hex}
use lachain_communication_hu.Connection.State.{Connection, send, add_to_queue}
use lachain_communication_hu.Connection.SendCycle.{Sender}
use lachain_communication_hu.PeerService.State.{
  PeerService, find_by_public_key, send_message_to_peer, with_connection,
}
use lachain_communication_hu.PeerService.Found.{find-key, find-insert}
use lachain_communication_hu.Hub.{send_message, zero_pub}
use lachain_communication_hu.Journey.{Mail, envelope_of, frame_of, send_mails}

send_rounds_none : (c : Connection) (s : Sender) → send_rounds [] c s ≡ some ([], c, s)
unfolding send_rounds
send_rounds_none c s = refl

send_rounds_step :
    (t : Turn) (ts : List Turn) (c c1 c2 : Connection) (s s1 s2 : Sender)
    (fs rest : List MessageFrame)
    → send_round t c s ≡ some (fs, c1, s1)
    → send_rounds ts c1 s1 ≡ some (rest, c2, s2)
    → send_rounds (t ∷ ts) c s ≡ some (fs ++ rest, c2, s2)
unfolding send_rounds
send_rounds_step t ts c c1 c2 s s1 s2 fs rest h more = rw (send_rounds, h, more)

-- The rounds write what waits in the queue, in its order.
pub send_rounds-mails :
    (stream : ℕ) (mails : List Mail) (turns : List Turn) (c : Connection) (s : Sender)
    → length turns ≡ length mails
    → All Succeeds turns
    → IsIdle stream (map envelope_of mails) c s
    → (c' : Connection) × (s' : Sender) × (send_rounds turns c s
        ≡ some (map frame_of mails, c', s'))
unfolding send_rounds
send_rounds-mails stream [] [] c s n done h = (c, s, send_rounds_none c s)
send_rounds-mails stream [] (t ∷ ts) c s n done h = absurd (omega arith)
send_rounds-mails stream (m ∷ ms) [] c s n done h = absurd (omega arith)
send_rounds-mails stream (m ∷ ms) (t ∷ ts) c s n (done, more) h =
    let p = send_round-message t stream m.payload m.id (map envelope_of ms) c s done h in
    let rest = send_rounds-mails stream ms ts p.0 p.1 (omega arith) more p.3 in
    (rest.0, rest.1, send_rounds_step t ts c p.0 rest.0 s p.1 rest.1 _ _ p.2 rest.2)

-- A connection with these messages at the end of its queue.
abbrev pub queued : List Mail → Connection → Connection
queued mails c = record c { message_queue = c.message_queue ++ map envelope_of mails }

-- SendMessage to the key of a connection.
send_message-found :
    (key : List ℕ) (m : Mail) (a : PeerService) (id : Text) (c : Connection)
    → text_eq key zero_pub ≡ false
    → find_by_public_key (bytes_to_hex key) a.connections ≡ some (id, c)
    → c.is_banned ≡ false
    → send_message key m.payload 0 m.id (some a) ≡ some (with_connection id (queued (m ∷ []) c) a)
unfolding send_message send_message_to_peer send add_to_queue
send_message-found key m a id c one found free = rw (one, found, free)

-- Messages that are sent to the key of a connection come behind what waits in its queue.
pub send_mails-queued :
    (key : List ℕ) (mails : List Mail) (a : PeerService) (id : Text) (c : Connection)
    → text_eq key zero_pub ≡ false
    → find_by_public_key (bytes_to_hex key) a.connections ≡ some (id, c)
    → c.is_banned ≡ false
    → (a' : PeerService) × (send_mails key mails (some a) ≡ some a')
      × (find_by_public_key (bytes_to_hex key) a'.connections ≡ some (id, queued mails c))
unfolding send_mails
send_mails-queued key [] a id c one found free = (a, refl, rw (append-nil c.message_queue) found)
send_mails-queued key (m ∷ ms) a id c one found free =
    let now = send_message-found key m a id c one found free in
    let there =
      find-insert (bytes_to_hex key) id c (queued (m ∷ []) c) a.connections
        (find-key (bytes_to_hex key) id c a.connections found) found in
    let rest =
      send_mails-queued key ms (with_connection id (queued (m ∷ []) c) a) id (queued (m ∷ []) c) one
        there free in
    (
      rest.0,
      ap (send_mails key ms) now ∙ rest.1,
      rw (append_assoc c.message_queue (envelope_of m ∷ []) (map envelope_of ms)) at rest.2,
    )

pub queued-IsIdle :
    (stream : ℕ) (mails : List Mail) (c : Connection) (s : Sender)
    → IsIdle stream [] c s
    → IsIdle stream (map envelope_of mails) (queued mails c) s
queued-IsIdle stream mails c s idle = record {
  open_stream = idle.open_stream;
  queue = rw idle.queue;
  nothing = idle.nothing;
  live = idle.live;
}
