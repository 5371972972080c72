-- ===== src/Connection/Delivery.antt =====
-- What the rounds of receiveMessageCycle hand up, by the kind of the frame and the state of the
-- connection.
use lachain_communication_hu.Utils.Crypto.{CryptoError}
use lachain_communication_hu.Connection.Receive.{
  measured, handle_peers, dispatch, receive_frame, message_received, confirm_reply_to,
}
use lachain_communication_hu.Connection.State.{
  reset_inbound_stream, Status, terminated, Event, on_message, Connection, add_to_queue, status_eq,
}
use lachain_communication_hu.Utils.Queue.{MessageQueue}
use lachain_communication_hu.Base.{
  true, ℕ, ◌+◌, ◌^◌, ◌<◌, ◌≡◌, refl, sym, ◌≢◌, inl, inr, Bool, false, Option, none, some, List, [],
  ◌∷◌, ◌++◌, append-nil, arith, length, Outcome, ok, err, panic, if◌then◌else◌, ltb, Bool-cases,
  Option-cases, nat_eq, text_keys,
}
use lachain_communication_hu.Connection.Handshake.{handle_recovered, sig_len, handle_signature}
use lachain_communication_hu.Binary.{put_uint32}
use lachain_communication_hu.Utils.Platform.{Platform}
use lachain_communication_hu.Communication.Frame.{
  MessageFrame, FrameKind, message, signature, get_peers_reply, message_confirm_request,
  confirm_reply, unknown, kind_of_byte,
}
use lachain_communication_hu.Connection.Spam.{admit}
use lachain_communication_hu.Connection.Window.{Tracks, memb, admit-Filtered}

-- The messages among the events.
abbrev pub delivered : List Event → List (List ℕ)
delivered [] = []
delivered (on_message m ∷ events) = m ∷ delivered events
delivered (_ ∷ events) = delivered events

-- What a frame of a kind delivers on a connection with this ban and number, and what it adds to the queue, if its id is new.
abbrev pub deliveries : FrameKind → MessageFrame → Bool → ℕ → List (List ℕ)
deliveries message f banned uniq_id = if banned then [] else (put_uint32 uniq_id ++ f.payload) ∷ []
deliveries message_confirm_request f banned uniq_id = f.payload ∷ []
deliveries _ f banned uniq_id = []

abbrev pub replies : FrameKind → MessageFrame → MessageQueue
replies message_confirm_request f = confirm_reply_to f.msg_id ∷ []
replies _ f = []

-- The kinds whose handlers slice or decode what the peer sent, and panic on some of it.
abbrev pub may_crash : FrameKind → Bool
may_crash signature = true
may_crash get_peers_reply = true
may_crash _ = false

-- A result that delivers `ms` and appends `q` to the queue, or a panic where one may be.
abbrev pub Delivers :
    Bool → List (List ℕ) → MessageQueue → Connection → Option (Connection × List Event) → Type 0
Delivers crashing ms q c none = crashing ≡ true
Delivers crashing ms q c (some (c', events)) =
    (delivered events ≡ ms) × (c'.message_queue ≡ c.message_queue ++ q)

reset-Delivers : (c : Connection) → Delivers true [] [] c (some (reset_inbound_stream c))
unfolding reset_inbound_stream
reset-Delivers c = ground (arith, append-nil c.message_queue)

pub status_eq-false : (a b : Status) → a ≢ b → status_eq a b ≡ false
status_eq-false a b h = ground arith

module _ (lib : Platform) (chain_id : ℕ) where
  handle_recovered-Delivers :
      (r : Outcome CryptoError (List ℕ)) (bytes : List ℕ) (c : Connection)
      → Delivers true [] [] c (handle_recovered lib chain_id r bytes c)
  unfolding handle_recovered
  handle_recovered-Delivers panic bytes c = refl
  handle_recovered-Delivers (err e) bytes c = reset-Delivers c
  handle_recovered-Delivers (ok key) bytes c =
      ground (arith, reset-Delivers c, append-nil c.message_queue)

  handle_signature-Delivers :
      (payload : List ℕ) (c : Connection)
      → Delivers true [] [] c (handle_signature lib chain_id payload c)
  unfolding handle_signature
  handle_signature-Delivers payload c = elim (Bool-cases (status_eq c.status terminated)) [
    | inl over ↦ rw over (refl, sym (append-nil c.message_queue))
    | inr live ↦ rw live (elim (Bool-cases (ltb (length payload) (sig_len chain_id))) [
      | inl short ↦ rw short refl
      | inr long ↦ rw long (elim (Option-cases (lib.marshal c.peer_id)) [
        | inl failed ↦ rw failed (refl, sym (append-nil c.message_queue))
        | inr (id, e) ↦ rw e (handle_recovered-Delivers _ _ c)
      ])
    ])
  ]

  pub dispatch-Delivers :
      (k : FrameKind) (f : MessageFrame) (c : Connection)
      → Delivers
          (may_crash k)
          (deliveries k f c.is_banned c.uniq_id)
          (replies k f)
          c
          (dispatch lib chain_id k f c)
  unfolding dispatch handle_peers add_to_queue message_received
  dispatch-Delivers confirm_reply f c = (refl, sym (append-nil c.message_queue))
  dispatch-Delivers message_confirm_request f c = (refl, refl)
  dispatch-Delivers message f c = ground (arith, append-nil c.message_queue)
  dispatch-Delivers signature f c = handle_signature-Delivers f.payload c
  dispatch-Delivers get_peers_reply f c = ground (arith, append-nil c.message_queue)
  dispatch-Delivers (unknown k) f c = (refl, sym (append-nil c.message_queue))

  measured-Delivers :
      (b : Bool) (ms : List (List ℕ)) (q : MessageQueue) (c : Connection) (f : MessageFrame)
      (r : Option (Connection × List Event))
      → Delivers b ms q c r
      → Delivers b ms q c (measured f r)
  measured-Delivers b ms q c f none d = d
  measured-Delivers b ms q c f (some (c', events)) d = d

  -- A round of the receive loop, for fewer than 2^32 frames so far: it panics at most on a signature
  -- or on peers, under an id that is not in the window. Otherwise a frame whose id is in the window
  -- delivers and queues nothing; any other delivers its data if it asks for confirmation, and queues
  -- that; it delivers its data behind the connection's number if it is a plain message and the peer
  -- is not banned; and it delivers nothing otherwise.
  pub receive_frame-Delivers :
      (n : ℕ) (f : MessageFrame) (c : Connection)
      → n + 1 < 2 ^ 32
      → Tracks n c.filter
      → Delivers
          (if memb f.msg_id c.filter.received_msg_id
            then false
            else may_crash (kind_of_byte f.kind))
          (if memb f.msg_id c.filter.received_msg_id
            then []
            else deliveries (kind_of_byte f.kind) f c.is_banned c.uniq_id)
          (if memb f.msg_id c.filter.received_msg_id then [] else replies (kind_of_byte f.kind) f)
          c
          (receive_frame lib chain_id f c)
  unfolding receive_frame
  receive_frame-Delivers n f c small t =
      let d = admit-Filtered n f.msg_id c.filter small t in
      elim (Bool-cases (memb f.msg_id c.filter.received_msg_id)) [
        | inl old ↦ rw (d.verdict, old) (refl, sym (append-nil c.message_queue))
        | inr new ↦
            rw (d.verdict, new)
              (measured-Delivers _ _ _ c f _ (
                dispatch-Delivers (kind_of_byte f.kind) f
                  (record c { filter = (admit f.msg_id c.filter).1 })))
      ]
