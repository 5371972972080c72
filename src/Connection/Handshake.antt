-- ===== src/Connection/Handshake.antt =====
-- The public key of the peer in connection.go: handleSignature, TrySetPeerPublicKey and
-- validatePublicKey. `none` is a panic.
use lachain_communication_hu.Base.{
  ℕ, Bool, true, false, not, Option, none, some, List, [], ◌∷◌, length, take, drop, Outcome, ok,
  err, panic, if◌then◌else◌, ltb, leb, Text, text_eq, nat_eq, text_keys,
}
use lachain_communication_hu.Utils.Platform.{Platform}
use lachain_communication_hu.Utils.Crypto.{
  CryptoError, ec_recover, public_key_to_hex_string, hex_to_public_key,
}
use lachain_communication_hu.Connection.State.{
  not_connected, just_connected, handshake_complete, terminated, status_eq, cas, Event,
  on_public_key_recovered, Connection, reset_inbound_stream,
}

-- Signatures are one byte longer on chains with a large id.
abbrev pub sig_len : ℕ → ℕ
sig_len chain_id = if leb 110 chain_id then 66 else 65

abbrev pub is_empty : Text → Bool
is_empty [] = true
is_empty (c ∷ cs) = false

module _ (lib : Platform) (chain_id : ℕ) where
  -- validatePublicKey
  unfoldable pub validate_public_key : List ℕ → Connection → Bool
  validate_public_key key c =
      if is_empty c.peer_public_key
      then true
      else text_eq (public_key_to_hex_string lib key) c.peer_public_key

  -- The two compare-and-swaps and the callback after a key was accepted.
  unfoldable pub accept_key : Text → Connection → Connection × List Event
  accept_key key c = (
    record c {
      peer_public_key = key;
      status =
          cas just_connected handshake_complete (cas not_connected handshake_complete c.status);
    },
    on_public_key_recovered key ∷ [],
  )

  -- handleSignature from the recovered key on.
  unfoldable pub handle_recovered :
      Outcome CryptoError (List ℕ) → List ℕ → Connection → Option (Connection × List Event)
  unfolding validate_public_key accept_key
  handle_recovered panic address_bytes c = none
  handle_recovered (err e) address_bytes c = some (reset_inbound_stream c)
  handle_recovered (ok key) address_bytes c =
      if not (validate_public_key key c)
      then some (reset_inbound_stream c)
      else elim (lib.new_multiaddr_bytes address_bytes) [
        | none ↦ some (reset_inbound_stream c)
        | some address ↦ some (
            accept_key (public_key_to_hex_string lib key)
              (record c { peer_address = some address }))
      ]

  -- handleSignature. `data[sigLen:]` panics on a shorter slice.
  unfoldable pub handle_signature : List ℕ → Connection → Option (Connection × List Event)
  handle_signature payload c =
      if status_eq c.status terminated
      then some (c, [])
      else if ltb (length payload) (sig_len chain_id)
      then none
      else elim (lib.marshal c.peer_id) [
        | none ↦ some (c, [])
        | some peer_id_bytes ↦
            handle_recovered
              (ec_recover lib peer_id_bytes (take (sig_len chain_id) payload) chain_id)
              (drop (sig_len chain_id) payload) c
      ]

  abbrev refuse : Connection × List Event → Bool × Connection × List Event
  refuse (c, events) = (false, c, events)

  abbrev accept : Connection × List Event → Bool × Connection × List Event
  accept (c, events) = (true, c, events)

  -- TrySetPeerPublicKey
  unfoldable pub try_set_peer_public_key : Text → Connection → Bool × Connection × List Event
  unfolding validate_public_key accept_key
  try_set_peer_public_key public_key c =
      if status_eq c.status terminated
      then (false, c, [])
      else elim (hex_to_public_key lib public_key) [
        | none ↦ refuse (reset_inbound_stream c)
        | some key ↦
            if not (validate_public_key key c)
            then refuse (reset_inbound_stream c)
            else if not (is_empty c.peer_public_key)
            then (true, c, [])
            else accept (accept_key public_key c)
      ]
