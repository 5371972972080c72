-- ===== src/Journey/Receiving.antt =====
-- Frames from the stream to the queue of the hub.
use lachain_communication_hu.Base.{
  ℕ, ◌+◌, ◌^◌, ◌<◌, ◌≡◌, refl, sym, ap, ◌∙◌, inl, inr, false, some, List, [], ◌∷◌, ◌++◌, map,
  append-nil, append_assoc, arith, length, All, concat, ok, ◌==◌, Bool-cases, nat_eq, text_keys,
}
use lachain_communication_hu.Binary.{put_uint32}
use lachain_communication_hu.Utils.Platform.{Platform}
use lachain_communication_hu.Utils.SpamQueue.{enqueue}
use lachain_communication_hu.Communication.Frame.{MessageFrame, IsFrame, encode}
use lachain_communication_hu.Communication.Reader.{Stream}
use lachain_communication_hu.Communication.Reading.{NonEmpty}
use lachain_communication_hu.Communication.RoundTrip.{read_once-encode}
use lachain_communication_hu.Connection.Window.{
  memb, memb-enqueue, evict, window_step, Tracks, admit-Filtered,
}
use lachain_communication_hu.Connection.State.{
  Connection, Event, terminated, status_eq, on_message, inbound_measured,
}
use lachain_communication_hu.Connection.Receive.{
  dispatch, message_received, receive_frame, receive_round, receive_message_cycle,
}
use lachain_communication_hu.Connection.Delivery.{delivered}
use lachain_communication_hu.Hub.{Fifo, process_message}
use lachain_communication_hu.Journey.{Mail, frame_of, read_outcomes, process_all}

-- Each frame is read from its own chunks.
pub read_outcomes-cut :
    (cut : MessageFrame → Stream) (frames : List MessageFrame)
    → ((f : MessageFrame) → concat (cut f) ≡ encode f)
    → ((f : MessageFrame) → All NonEmpty (cut f))
    → All IsFrame frames
    → read_outcomes (length frames) (concat (map cut frames)) ≡ map ok frames
unfolding read_outcomes
read_outcomes-cut cut [] whole ne v = refl
read_outcomes-cut cut (f ∷ fs) whole ne (v, more) = rw (
  read_once-encode f (cut f) (concat (map cut fs)) v (whole f) (ne f),
  read_outcomes-cut cut fs whole ne more,
)

pub elements-process_all :
    {Q : Type 0} (fifo : Fifo Q) (ms : List (List ℕ)) (q : Q)
    → fifo.elements (process_all fifo ms q) ≡ fifo.elements q ++ ms
unfolding process_all
elements-process_all fifo [] q = sym (append-nil (fifo.elements q))
elements-process_all fifo (m ∷ ms) q = rw (
  elements-process_all fifo ms (process_message fifo m q),
  fifo.elements-enqueue m q,
  append_assoc (fifo.elements q) (m ∷ []) ms,
)

-- The ids of these messages.
abbrev pub ids : List Mail → List ℕ
ids mails = map (λ (m : Mail). m.id) mails

memb-evict : (j : ℕ) (w : List ℕ) → memb j w ≡ false → memb j (evict w) ≡ false
memb-evict j [] h = refl
memb-evict j (x ∷ w) h = ground arith

-- An id that the window does not have, other than the one that comes in, is still not in it.
memb-window_step :
    (j m : ℕ) (w : List ℕ) → memb j w ≡ false → (m == j) ≡ false → memb j (window_step m w) ≡ false
memb-window_step j m w h ne = elim (Bool-cases (memb m w)) [
  | inl old ↦ rw old h
  | inr new ↦ rw new (memb-evict j (enqueue m w) (memb-enqueue j m w ∙ rw (ne, h) refl))
]

-- The ids are new to a window, and no two are the same.
abbrev pub Fresh : List Mail → List ℕ → Type 0
Fresh [] w = Unit {0}
Fresh (m ∷ ms) w = (memb m.id w ≡ false) × (memb m.id (ids ms) ≡ false) × Fresh ms w

memb_apart :
    (m x : ℕ) (xs : List ℕ) → memb m (x ∷ xs) ≡ false → ((m == x) ≡ false) × (memb m xs ≡ false)
memb_apart m x xs h = ground arith

Fresh-window_step :
    (m : ℕ) (ms : List Mail) (w : List ℕ)
    → memb m (ids ms) ≡ false
    → Fresh ms w
    → Fresh ms (window_step m w)
Fresh-window_step m [] w other h = tt
Fresh-window_step m (x ∷ ms) w other (new, apart, more) = (
  memb-window_step x.id m w new (memb_apart m x.id (ids ms) other).0,
  apart,
  Fresh-window_step m ms w (memb_apart m x.id (ids ms) other).1 more,
)

-- A connection that has taken `n` frames, and is ready for these messages.
pub record Ready (n : ℕ) (mails : List Mail) (c : Connection) : Type 0 where
  pub stream : ℕ
  pub inbound : c.inbound_stream ≡ some stream
  pub live : status_eq c.status terminated ≡ false
  pub free : c.is_banned ≡ false
  pub tracks : Tracks n c.filter
  pub fresh : Fresh mails c.filter.received_msg_id
  pub counts : n + length mails < 2 ^ 32

abbrev pub message_of : ℕ → Mail → List ℕ
message_of number m = put_uint32 number ++ m.payload

module _ (lib : Platform) (chain_id : ℕ) where
  receive_frame-mail :
      (n : ℕ) (m : Mail) (ms : List Mail) (c : Connection)
      → Ready n (m ∷ ms) c
      → (c' : Connection) × (receive_frame lib chain_id (frame_of m) c
          ≡ some
              (c', inbound_measured (length m.payload) ∷ on_message (message_of c.uniq_id m) ∷ []))
        × (c'.uniq_id ≡ c.uniq_id)
        × Ready (n + 1) ms c'
  unfolding receive_frame dispatch message_received
  receive_frame-mail n m ms c r =
      let d = admit-Filtered n m.id c.filter (omega (arith, r.counts)) r.tracks in
      rw (d.verdict, r.fresh.0, r.free)
        (
          _,
          refl,
          refl,
          record {
            stream = r.stream;
            inbound = r.inbound;
            live = r.live;
            free = refl;
            tracks = d.tracks;
            fresh =
                rw (d.window)
                  (Fresh-window_step m.id ms c.filter.received_msg_id r.fresh.1 r.fresh.2);
            counts = omega (arith, r.counts);
          },
        )

  cycle_step :
      (f : MessageFrame) (fs : List MessageFrame) (stream : ℕ) (c c1 c2 : Connection)
      (events later : List Event)
      → c.inbound_stream ≡ some stream
      → status_eq c.status terminated ≡ false
      → receive_frame lib chain_id f c ≡ some (c1, events)
      → receive_message_cycle lib chain_id (map ok fs) c1 ≡ some (c2, later)
      → receive_message_cycle lib chain_id (map ok (f ∷ fs)) c ≡ some (c2, events ++ later)
  unfolding receive_message_cycle receive_round
  cycle_step f fs stream c c1 c2 events later inbound live now more = rw (live, inbound, now, more)

  pub receive_message_cycle-mails :
      (n : ℕ) (mails : List Mail) (c : Connection)
      → Ready n mails c
      → (c' : Connection) × (events : List Event) × (receive_message_cycle lib chain_id
            (map ok (map frame_of mails))
            c
          ≡ some (c', events))
        × (delivered events ≡ map (message_of c.uniq_id) mails)
  unfolding receive_message_cycle
  receive_message_cycle-mails n [] c r = (c, [], refl, refl)
  receive_message_cycle-mails n (m ∷ ms) c r =
      let p = receive_frame-mail n m ms c r in
      let rest = receive_message_cycle-mails (n + 1) ms p.0 p.3 in
      (
        rest.0,
        _,
        cycle_step (frame_of m) (map frame_of ms) r.stream c p.0 rest.0 _ rest.1 r.inbound r.live
            p.1 rest.2,
        ap (◌∷◌ (message_of c.uniq_id m)) (rest.3 ∙ ap (λ (u : ℕ). map (message_of u) ms) p.2),
      )
