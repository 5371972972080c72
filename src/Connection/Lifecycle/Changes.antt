-- ===== src/Connection/Lifecycle/Changes.antt =====
-- Everything that changes a connection, in any order.
use lachain_communication_hu.Base.{
  ℕ, ◌≡◌, refl, sym, ap, ◌∙◌, ◌≢◌, inl, inr, Bool, true, false, not, Option, none, some, List, [],
  ◌∷◌, length, Outcome, ok, err, panic, if◌then◌else◌, ltb, Bool-cases, Option-cases, Text, nat_eq,
  text_keys,
}
use lachain_communication_hu.Utils.Platform.{Platform}
use lachain_communication_hu.Utils.Crypto.{CryptoError, public_key_to_hex_string, hex_to_public_key}
use lachain_communication_hu.Utils.Hex.{bytes_to_hex, hex_to_bytes}
use lachain_communication_hu.Utils.Queue.{MessageEnvelop}
use lachain_communication_hu.Communication.Frame.{
  MessageFrame, FrameKind, message, signature, get_peers_reply, message_confirm_request,
  confirm_reply, unknown, kind_of_byte, ReadError,
}
use lachain_communication_hu.Connection.Spam.{admit, SpamFilter}
use lachain_communication_hu.Connection.State.{
  Connection, Event, Status, not_connected, just_connected, handshake_complete, terminated,
  status_eq, cas, send, add_to_queue, set_inbound_stream, set_signature, terminate,
  set_peer_address, ban_peer, remove_from_ban_list, new,
}
use lachain_communication_hu.Connection.Handshake.{
  validate_public_key, sig_len, is_empty, accept_key, handle_recovered, handle_signature,
  try_set_peer_public_key,
}
use lachain_communication_hu.Connection.Outbound.{Network}
use lachain_communication_hu.Connection.Receive.{
  spare_bytes, message_received, handle_peers, dispatch, receive_frame, receive_round, measured,
}
use lachain_communication_hu.Connection.SendCycle.{Sender, prepare, fetch, fetched, deliver}
use lachain_communication_hu.Connection.Metadata.{decode_array}
use lachain_communication_hu.Connection.SendCycle.Keeping.{prepare-Kept, fetch-Kept, deliver-Kept}
use lachain_communication_hu.Connection.Lifecycle.Kept.{
  Kept, Kept-trans, same_fields, completed-Kept, reset_inbound-Kept, send-Kept, set_inbound-Kept,
  set_signature-Kept, terminate-Kept,
}

-- A compressed key has bytes, and no bytes are no key.
pub record HasKeys (lib : Platform) : Type 0 where
  pub compressed : (key : List ℕ) → lib.compress_pubkey key ≢ []
  pub no_bytes : lib.decompress_pubkey [] ≡ none

-- A result that keeps what is to be kept; a panic leaves nothing.
abbrev KeptBy : Connection → Option (Connection × List Event) → Type 0
KeptBy c none = Unit {0}
KeptBy c (some (c', events)) = Kept c c'

bytes_to_hex-ne : (bs : List ℕ) → bs ≢ [] → bytes_to_hex bs ≢ []
unfolding bytes_to_hex
bytes_to_hex-ne [] h = absurd (h refl)
bytes_to_hex-ne (b ∷ bs) h = λ e. cc

if_free :
    (b : Bool) (c : Connection) (r : Option (Connection × List Event))
    → KeptBy c r
    → KeptBy c (if b then r else some (c, []))
if_free true c r k = k
if_free false c r k = same_fields c c refl refl

-- A frame's id in the filter, and its measurement, matter to neither.
with_filter :
    (c : Connection) (x : SpamFilter) (f : MessageFrame) (r : Option (Connection × List Event))
    → KeptBy (record c { filter = x }) r
    → KeptBy c (measured f r)
with_filter c x f none k = tt
with_filter c x f (some (c', events)) k = record { allowed = k.allowed; keyed = k.keyed }

module _ (lib : Platform) (chain_id : ℕ) (keys : HasKeys lib) where
  hex_key-ne : (key : List ℕ) → public_key_to_hex_string lib key ≢ []
  unfolding public_key_to_hex_string
  hex_key-ne key = bytes_to_hex-ne (lib.compress_pubkey key) (keys.compressed key)

  hex_to_public_key-ne : (t : Text) (key : List ℕ) → hex_to_public_key lib t ≡ some key → t ≢ []
  unfolding hex_to_public_key hex_to_bytes
  hex_to_public_key-ne [] key e = absurd (none_key (sym keys.no_bytes ∙ e))
    where
      none_key : ◌≡◌ {A = Option (List ℕ)} none (some key) → ⊥
      none_key e = cc
  hex_to_public_key-ne (c ∷ t) key e = λ z. cc

  accept_key-Kept :
      (key : Text) (c d : Connection)
      → key ≢ []
      → d.status ≡ c.status
      → Kept c (accept_key lib chain_id key d).0
  unfolding accept_key
  accept_key-Kept key c d h s =
      completed-Kept c _
        (ap
          (λ (x : Status).
            cas just_connected handshake_complete (cas not_connected handshake_complete x))
          s)
        h

  handle_recovered-Kept :
      (r : Outcome CryptoError (List ℕ)) (bytes : List ℕ) (c : Connection)
      → KeptBy c (handle_recovered lib chain_id r bytes c)
  unfolding handle_recovered
  handle_recovered-Kept panic bytes c = tt
  handle_recovered-Kept (err e) bytes c = reset_inbound-Kept c
  handle_recovered-Kept (ok key) bytes c =
      elim (Bool-cases (validate_public_key lib chain_id key c)) [
        | inr other ↦ rw other (reset_inbound-Kept c)
        | inl same ↦ rw same (elim (Option-cases (lib.new_multiaddr_bytes bytes)) [
          | inl failure ↦ rw failure (reset_inbound-Kept c)
          | inr (a, e) ↦ rw e (
              accept_key-Kept (public_key_to_hex_string lib key) c
                (record c { peer_address = some a }) (hex_key-ne key) refl)
        ])
      ]

  handle_signature-Kept :
      (payload : List ℕ) (c : Connection) → KeptBy c (handle_signature lib chain_id payload c)
  unfolding handle_signature
  handle_signature-Kept payload c = elim (Bool-cases (status_eq c.status terminated)) [
    | inl over ↦ rw over (same_fields c c refl refl)
    | inr live ↦ rw live (elim (Bool-cases (ltb (length payload) (sig_len chain_id))) [
      | inl short ↦ rw short tt
      | inr long ↦ rw long (elim (Option-cases (lib.marshal c.peer_id)) [
        | inl failure ↦ rw failure (same_fields c c refl refl)
        | inr (id, e) ↦ rw e (handle_recovered-Kept _ _ c)
      ])
    ])
  ]

  try_set-Kept :
      (key : Text) (c : Connection) → Kept c (try_set_peer_public_key lib chain_id key c).1
  unfolding try_set_peer_public_key
  try_set-Kept key c = elim (Bool-cases (status_eq c.status terminated)) [
    | inl over ↦ rw over (same_fields c c refl refl)
    | inr live ↦ rw live (elim (Option-cases (hex_to_public_key lib key)) [
      | inl failure ↦ rw failure (reset_inbound-Kept c)
      | inr (k, e) ↦ rw e (elim (Bool-cases (validate_public_key lib chain_id k c)) [
        | inr other ↦ rw other (reset_inbound-Kept c)
        | inl same ↦ rw same (elim (Bool-cases (is_empty c.peer_public_key)) [
          | inr known ↦ rw known (same_fields c c refl refl)
          | inl fresh ↦ rw fresh (accept_key-Kept key c c (hex_to_public_key-ne key k e) refl)
        ])
      ])
    ])
  ]

  handle_peers-Kept : (f : MessageFrame) (c : Connection) → KeptBy c (handle_peers lib chain_id f c)
  unfolding handle_peers
  handle_peers-Kept f c = elim (Option-cases (decode_array lib f.payload (spare_bytes f))) [
    | inl more ↦ rw more tt
    | inr (none, e) ↦ rw e tt
    | inr (some peers, e) ↦ rw e (same_fields c c refl refl)
  ]

  dispatch-Kept :
      (k : FrameKind) (f : MessageFrame) (c : Connection) → KeptBy c (dispatch lib chain_id k f c)
  unfolding dispatch add_to_queue
  dispatch-Kept confirm_reply f c = same_fields c _ refl refl
  dispatch-Kept message_confirm_request f c = same_fields c _ refl refl
  dispatch-Kept message f c =
      if_free (not c.is_banned) c (some (c, message_received f.payload c))
        (same_fields c c refl refl)
  dispatch-Kept signature f c = handle_signature-Kept f.payload c
  dispatch-Kept get_peers_reply f c =
      if_free (not c.is_banned) c (handle_peers lib chain_id f c) (handle_peers-Kept f c)
  dispatch-Kept (unknown k) f c = same_fields c _ refl refl

  receive_frame-Kept :
      (f : MessageFrame) (c : Connection) → KeptBy c (receive_frame lib chain_id f c)
  unfolding receive_frame
  receive_frame-Kept f c =
      let x = (admit f.msg_id c.filter).1 in
      with_filter c x f _ (elim (Bool-cases (admit f.msg_id c.filter).0) [
        | inl new ↦ rw new (dispatch-Kept (kind_of_byte f.kind) f (record c { filter = x }))
        | inr old ↦
            rw old (same_fields (record c { filter = x }) (record c { filter = x }) refl refl)
      ])

  receive_round-Kept :
      (o : Outcome ReadError MessageFrame) (c : Connection)
      → KeptBy c (receive_round lib chain_id o c)
  unfolding receive_round
  receive_round-Kept (ok f) c = receive_frame-Kept f c
  receive_round-Kept (err e) c = reset_inbound-Kept c
  receive_round-Kept panic c = tt

-- A change of a connection: a step of one of its cycles, or a call.
pub data Change (lib : Platform) (chain_id : ℕ) (c : Connection) : Connection → Type 0 where
  prepares : (net : Network) (s : Sender) → Change lib chain_id c (prepare net c s).1
  fetches :
      {c' : Connection} (now : ℕ) (s s' : Sender)
      → fetch now c s ≡ fetched c' s'
      → Change lib chain_id c c'
  delivers :
      (now : ℕ) (written : Bool) (d : List ℕ) (s : Sender)
      → Change lib chain_id c (deliver now written d c s).0
  receives :
      {c' : Connection} (o : Outcome ReadError MessageFrame) (events : List Event)
      → receive_round lib chain_id o c ≡ some (c', events)
      → Change lib chain_id c c'
  sends : (msg : MessageEnvelop) → Change lib chain_id c (send msg c)
  bans : Change lib chain_id c (ban_peer c)
  unbans : Change lib chain_id c (remove_from_ban_list c)
  reconnects : (stream : ℕ) → Change lib chain_id c (set_inbound_stream stream c).0
  readdresses : (address : List ℕ) → Change lib chain_id c (set_peer_address address c)
  signs : (sig : List ℕ) → Change lib chain_id c (set_signature sig c).0
  sets_key : (key : Text) → Change lib chain_id c (try_set_peer_public_key lib chain_id key c).1
  terminates : (random_id : ℕ) → Change lib chain_id c (terminate random_id c).0

pub data Life (lib : Platform) (chain_id : ℕ) (c : Connection) : Connection → Type 0 where
  here : Life lib chain_id c c
  next :
      {d e : Connection} → Life lib chain_id c d → Change lib chain_id d e → Life lib chain_id c e

module _ (lib : Platform) (chain_id : ℕ) (keys : HasKeys lib) where
  Change-Kept : {c c' : Connection} → Change lib chain_id c c' → Kept c c'
  unfolding ban_peer remove_from_ban_list
  Change-Kept {c} (prepares net s) = prepare-Kept net c s
  Change-Kept {c} {c'} (fetches now s s' e) = fetch-Kept now c c' s s' e
  Change-Kept {c} (delivers now written d s) = deliver-Kept now written d c s
  Change-Kept {c} (receives o events e) = rw e at (receive_round-Kept lib chain_id keys o c)
  Change-Kept {c} (sends msg) = send-Kept msg c
  Change-Kept {c} bans = same_fields c _ refl refl
  Change-Kept {c} unbans = same_fields c _ refl refl
  Change-Kept {c} (reconnects stream) = set_inbound-Kept stream c
  Change-Kept {c} (readdresses address) = same_fields c _ refl refl
  Change-Kept {c} (signs sig) = set_signature-Kept sig c
  Change-Kept {c} (sets_key key) = try_set-Kept lib chain_id keys key c
  Change-Kept {c} (terminates random_id) = terminate-Kept random_id c

  -- Whatever happens to a connection, in any order: if it was terminated it stays so, it never goes
  -- back to its first status from a later one, and a complete handshake goes with a public key of
  -- the peer, where it did so at the start.
  pub Life-Kept : {c c' : Connection} → Life lib chain_id c c' → Kept c c'
  Life-Kept {c} here = same_fields c c refl refl
  Life-Kept {c} {c'} (next {d} life ch) = Kept-trans c d c' (Life-Kept life) (Change-Kept ch)
