-- ===== src/Connection/Signature.antt =====
-- sendSignature of connection.go, and what handleSignature at the other end makes of it. Other
-- goroutines change the connection between two rounds, so each round is given the connection that
-- it reads.
use lachain_communication_hu.Base.{
  drop-append_seam, take-append_seam, ==_self, le→ltb, ℕ, ◌*◌, ◌≤◌, ◌<◌, ◌≡◌, sym, ap, ◌∙◌, ◌≢◌,
  Bool, true, not, Option, none, some, List, [], ◌∷◌, ◌++◌, arith, length, length-append, Outcome,
  ok, if◌then◌else◌, ltb, ◌==◌, nat_eq, text_keys,
}
use lachain_communication_hu.Utils.Platform.{Platform}
use lachain_communication_hu.Utils.Crypto.{
  CryptoError, la_sign, ec_recover, recover_with, public_key_to_hex_string,
}
use lachain_communication_hu.Utils.Signing.{ec_recover-la_sign}
use lachain_communication_hu.Communication.Frame.{MessageFrame, new_frame_with_id}
use lachain_communication_hu.Connection.State.{Connection, terminated, status_eq}
use lachain_communication_hu.Connection.Handshake.{
  sig_len, validate_public_key, accept_key, handle_recovered, handle_signature,
}
use lachain_communication_hu.Connection.Delivery.{status_eq-false}
use lachain_communication_hu.Connection.SendCycle.{minute}

-- How a round ends: the loop is left, the frame was written, or the next round comes after a wait.
pub data Round : Type 0 where
  finished : Round
  written : MessageFrame → Round
  again : ℕ → Round

abbrev pub nil_bytes : Option (List ℕ) → List ℕ
nil_bytes none = []
nil_bytes (some bytes) = bytes

abbrev after_wait : ℕ → Round
after_wait backoff = again (if ltb backoff minute then backoff * 2 else backoff)

-- A round of sendSignature, with the id that NewFrame draws and whether Write succeeds; `none` is
-- the panic on a signature of another length.
unfoldable pub send_signature_round : ℕ → ℕ → ℕ → Bool → Connection → Option Round
send_signature_round chain_id backoff random_id success c =
    if status_eq c.status terminated then some finished else elim c.outbound_stream [
      | none ↦ some (after_wait backoff)
      | some stream ↦
          if not (length (nil_bytes c.signature) == sig_len chain_id)
          then none
          else if success
          then some
              (written (new_frame_with_id 1 (nil_bytes c.signature ++ c.my_address) random_id))
          else some (after_wait backoff)
    ]

same_length : (chain_id : ℕ) → (if ltb chain_id 110 then 65 else 66) ≡ sig_len chain_id
same_length chain_id = ground arith

module _ (lib : Platform) (chain_id : ℕ) where
  -- What handleSignature does with a signature of the right length and an address behind it.
  pub handle_signature-append :
      (sig address id : List ℕ) (c : Connection)
      → c.status ≢ terminated
      → length sig ≡ sig_len chain_id
      → lib.marshal c.peer_id ≡ some id
      → handle_signature lib chain_id (sig ++ address) c
        ≡ handle_recovered lib chain_id (ec_recover lib id sig chain_id) address c
  unfolding handle_signature
  handle_signature-append sig address id c live n e = rw (
    status_eq-false c.status terminated live,
    le→ltb (length (sig ++ address)) (sig_len chain_id) (omega (arith, length-append sig address)),
    e,
    take-append_seam (sig_len chain_id) sig address n,
    drop-append_seam (sig_len chain_id) sig address n,
  )

  pub accepted :
      (r : Outcome CryptoError (List ℕ)) (key address : List ℕ) (c : Connection)
      → r ≡ ok key
      → validate_public_key lib chain_id key c ≡ true
      → lib.new_multiaddr_bytes address ≡ some address
      → handle_recovered lib chain_id r address c
        ≡ some (
            accept_key lib chain_id
              (public_key_to_hex_string lib key)
              (record c { peer_address = some address }))
  unfolding handle_recovered
  accepted r key address c e valid known = rw (e, valid, known)

  -- For a chain id from 1 to 255, and a Sign that returns 64 bytes and a recovery id of 0 or 1,
  -- from which the library recovers a key: a node whose signature is LaSign's of its peer id, and
  -- which is not terminated, sends a frame in a round with an outbound stream whose write
  -- succeeds. A peer that knows the node by this id, by no other key, and over a connection that
  -- is not terminated, accepts that frame if multiaddr reads the node's address: it takes the
  -- recovered key and the address, and completes the handshake.
  pub handle_signature-send_signature_round :
      (a b : Connection) (id prv rs sig key : List ℕ) (v backoff random_id stream : ℕ)
      → 0 < chain_id
      → chain_id < 256
      → v ≤ 1
      → length rs ≡ 64
      → lib.sign (lib.keccak256 id) prv ≡ some (rs ++ v ∷ [])
      → recover_with lib (lib.keccak256 id) (rs ++ v ∷ []) ≡ ok key
      → la_sign lib id prv chain_id ≡ ok sig
      → a.signature ≡ some sig
      → a.status ≢ terminated
      → a.outbound_stream ≡ some stream
      → lib.marshal b.peer_id ≡ some id
      → b.status ≢ terminated
      → validate_public_key lib chain_id key b ≡ true
      → lib.new_multiaddr_bytes a.my_address ≡ some a.my_address
      → (f : MessageFrame) × (send_signature_round chain_id backoff random_id true a
          ≡ some (written f))
        × (handle_signature lib chain_id f.payload b
            ≡ some (
                accept_key lib chain_id
                  (public_key_to_hex_string lib key)
                  (record b { peer_address = some a.my_address })))
  unfolding send_signature_round
  handle_signature-send_signature_round a b id prv rs sig key v backoff random_id stream lo hi hv n
        signed recovered signature has live open_a known live_b valid address =
      let (sig', e, size, same) = ec_recover-la_sign lib id prv rs v chain_id lo hi hv n signed in
      let one : sig' ≡ sig = ground (arith, e, signature) in
      let long : length sig ≡ sig_len chain_id =
        ap (λ (s : List ℕ). length s) (sym one) ∙ size ∙ same_length chain_id in
      let got : ec_recover lib id sig chain_id ≡ ok key =
        ap (λ (s : List ℕ). ec_recover lib id s chain_id) (sym one) ∙ same ∙ recovered in
      (
        new_frame_with_id 1 (sig ++ a.my_address) random_id,
        rw (
          status_eq-false a.status terminated live,
          open_a,
          has,
          long,
          ==_self (sig_len chain_id),
        ),
        handle_signature-append sig a.my_address id b live_b long known
            ∙ accepted _ key a.my_address b got valid address,
      )
