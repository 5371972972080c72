-- ===== src/Connection/Key.antt =====
-- The peer's public key: once a connection has one, no frame and no call changes it.
use lachain_communication_hu.Connection.Receive.{
  then_events, handle_peers, dispatch, receive_frame, receive_round, receive_message_cycle,
}
use lachain_communication_hu.Connection.State.{
  terminated, Event, Connection, reset_inbound_stream, add_to_queue, status_eq,
}
use lachain_communication_hu.Base.{
  ℕ, ◌≡◌, refl, sym, ◌∙◌, ◌≢◌, inl, inr, true, false, Option, none, some, List, [], ◌∷◌, arith,
  length, Outcome, ok, err, panic, ltb, Bool-cases, Option-cases, Text, text_eq_iff, nat_eq,
  text_keys,
}
use lachain_communication_hu.Utils.Platform.{Platform}
use lachain_communication_hu.Utils.Crypto.{CryptoError, public_key_to_hex_string}
use lachain_communication_hu.Communication.Frame.{
  MessageFrame, FrameKind, message, signature, get_peers_reply, message_confirm_request,
  confirm_reply, unknown, kind_of_byte, ReadError,
}
use lachain_communication_hu.Connection.Spam.{admit}
use lachain_communication_hu.Connection.Handshake.{
  is_empty, sig_len, validate_public_key, handle_recovered, handle_signature,
  try_set_peer_public_key,
}

-- A result that leaves the key as it was; a panic leaves nothing.
abbrev pub KeepsKey : Text → Option (Connection × List Event) → Type 0
KeepsKey key none = Unit {0}
KeepsKey key (some (c, events)) = c.peer_public_key ≡ key

reset-key : (c : Connection) → (reset_inbound_stream c).0.peer_public_key ≡ c.peer_public_key
unfolding reset_inbound_stream
reset-key c = ground arith

is_empty-false : (t : Text) → t ≢ [] → is_empty t ≡ false
is_empty-false [] h = absurd (h refl)
is_empty-false (x ∷ t) h = refl

then_events-KeepsKey :
    (key : Text) (events : List Event) (r : Option (Connection × List Event))
    → KeepsKey key r
    → KeepsKey key (then_events events r)
then_events-KeepsKey key events none k = tt
then_events-KeepsKey key events (some (c, later)) k = k

module _ (lib : Platform) (chain_id : ℕ) where
  -- The key that passes validation is the one that the connection has.
  validate-key :
      (key : List ℕ) (c : Connection)
      → c.peer_public_key ≢ []
      → validate_public_key lib chain_id key c ≡ true
      → public_key_to_hex_string lib key ≡ c.peer_public_key
  unfolding validate_public_key
  validate-key key c h e = (text_eq_iff _ _).0 (rw (is_empty-false c.peer_public_key h) at e)

  handle_recovered-KeepsKey :
      (r : Outcome CryptoError (List ℕ)) (bytes : List ℕ) (c : Connection)
      → c.peer_public_key ≢ []
      → KeepsKey c.peer_public_key (handle_recovered lib chain_id r bytes c)
  unfolding handle_recovered
  handle_recovered-KeepsKey panic bytes c h = tt
  handle_recovered-KeepsKey (err e) bytes c h = reset-key c
  handle_recovered-KeepsKey (ok key) bytes c h = ground (arith, validate-key key c h, reset-key c)

  handle_signature-KeepsKey :
      (payload : List ℕ) (c : Connection)
      → c.peer_public_key ≢ []
      → KeepsKey c.peer_public_key (handle_signature lib chain_id payload c)
  unfolding handle_signature
  handle_signature-KeepsKey payload c h = elim (Bool-cases (status_eq c.status terminated)) [
    | inl over ↦ rw over refl
    | inr live ↦ rw live (elim (Bool-cases (ltb (length payload) (sig_len chain_id))) [
      | inl short ↦ rw short tt
      | inr long ↦ rw long (elim (Option-cases (lib.marshal c.peer_id)) [
        | inl failed ↦ rw failed refl
        | inr (id, e) ↦ rw e (handle_recovered-KeepsKey _ _ c h)
      ])
    ])
  ]

  dispatch-KeepsKey :
      (k : FrameKind) (f : MessageFrame) (c : Connection)
      → c.peer_public_key ≢ []
      → KeepsKey c.peer_public_key (dispatch lib chain_id k f c)
  unfolding dispatch handle_peers add_to_queue
  dispatch-KeepsKey confirm_reply f c h = refl
  dispatch-KeepsKey message_confirm_request f c h = refl
  dispatch-KeepsKey message f c h = ground arith
  dispatch-KeepsKey signature f c h = handle_signature-KeepsKey f.payload c h
  dispatch-KeepsKey get_peers_reply f c h = ground arith
  dispatch-KeepsKey (unknown k) f c h = refl

  -- Setting the key from outside keeps it too.
  try_set-key :
      (key : Text) (c : Connection)
      → c.peer_public_key ≢ []
      → (try_set_peer_public_key lib chain_id key c).1.peer_public_key ≡ c.peer_public_key
  unfolding try_set_peer_public_key
  try_set-key key c h = ground (arith, is_empty-false c.peer_public_key h, reset-key c)

  receive_frame-KeepsKey :
      (f : MessageFrame) (c : Connection)
      → c.peer_public_key ≢ []
      → KeepsKey c.peer_public_key (receive_frame lib chain_id f c)
  unfolding receive_frame
  receive_frame-KeepsKey f c h = ground (
    arith,
    dispatch-KeepsKey (kind_of_byte f.kind) f (record c { filter = (admit f.msg_id c.filter).1 }) h,
  )

  receive_round-KeepsKey :
      (o : Outcome ReadError MessageFrame) (c : Connection)
      → c.peer_public_key ≢ []
      → KeepsKey c.peer_public_key (receive_round lib chain_id o c)
  unfolding receive_round
  receive_round-KeepsKey (ok f) c h = receive_frame-KeepsKey f c h
  receive_round-KeepsKey (err e) c h = reset-key c
  receive_round-KeepsKey panic c h = tt

  cycle-KeepsKey :
      (os : List (Outcome ReadError MessageFrame)) (c : Connection) (key : Text)
      → key ≢ []
      → c.peer_public_key ≡ key
      → KeepsKey key (receive_message_cycle lib chain_id os c)
  unfolding receive_message_cycle
  cycle-KeepsKey [] c key h same = same
  cycle-KeepsKey (o ∷ os) c key h same = elim (Bool-cases (status_eq c.status terminated)) [
    | inl over ↦ rw over same
    | inr live ↦ rw live (elim (Option-cases c.inbound_stream) [
      | inl closed ↦ rw closed same
      | inr (s, e) ↦ rw e (elim (Option-cases (receive_round lib chain_id o c)) [
        | inl crashed ↦ rw crashed tt
        | inr ((c', events), r) ↦ rw r (
            then_events-KeepsKey key events (receive_message_cycle lib chain_id os c') (
              cycle-KeepsKey os c' key h
                ((rw r at (receive_round-KeepsKey o c (λ z. h (sym same ∙ z)))) ∙ same)))
      ])
    ])
  ]

  -- Once a connection has a public key, no sequence of frames and read errors changes it.
  pub receive_message_cycle-KeepsKey :
      (os : List (Outcome ReadError MessageFrame)) (c : Connection)
      → c.peer_public_key ≢ []
      → KeepsKey c.peer_public_key (receive_message_cycle lib chain_id os c)
  receive_message_cycle-KeepsKey os c h = cycle-KeepsKey os c c.peer_public_key h refl
