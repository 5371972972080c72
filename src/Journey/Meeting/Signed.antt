-- ===== src/Journey/Meeting/Signed.antt =====
-- The receipt of a peer's signature.
use lachain_communication_hu.Base.{
  ℕ, ◌≡◌, refl, ◌≢◌, some, List, [], ◌∷◌, ◌++◌, length, ok, nat_eq, text_keys,
}
use lachain_communication_hu.Utils.Platform.{Platform}
use lachain_communication_hu.Utils.Crypto.{ec_recover, public_key_to_hex_string}
use lachain_communication_hu.Communication.Frame.{new_frame_with_id}
use lachain_communication_hu.Connection.Spam.{admit}
use lachain_communication_hu.Connection.Window.{admit-Filtered}
use lachain_communication_hu.Connection.State.{
  Connection, terminated, on_public_key_recovered, inbound_measured,
}
use lachain_communication_hu.Connection.Receive.{receive_frame, dispatch}
use lachain_communication_hu.Connection.Handshake.{sig_len, validate_public_key, accept_key}
use lachain_communication_hu.Connection.Signature.{handle_signature-append, accepted}
use lachain_communication_hu.Journey.Confirming.{IsOpenTo}

module _ (lib : Platform) (chain_id : ℕ) where
  -- A signature of the peer's id from which this key is recovered, with an address that multiaddr
  -- reads.
  pub record IsSignedBy (key sig address : List ℕ) (c : Connection) : Type 0 where
    pub id : List ℕ
    pub marshalled : lib.marshal c.peer_id ≡ some id
    pub size : length sig ≡ sig_len chain_id
    pub signer : ec_recover lib id sig chain_id ≡ ok key
    pub readable : lib.new_multiaddr_bytes address ≡ some address

  -- The signature is accepted.
  pub receive_frame-signature :
      (key sig address : List ℕ) (frame_id n : ℕ) (c : Connection)
      → IsSignedBy key sig address c
      → IsOpenTo frame_id n c.filter
      → c.status ≢ terminated
      → c.peer_public_key ≡ []
      → (c' : Connection) × (receive_frame lib chain_id
            (new_frame_with_id 1 (sig ++ address) frame_id)
            c
          ≡ some (
            c',
            inbound_measured (length (sig ++ address))
                ∷ on_public_key_recovered (public_key_to_hex_string lib key)
                ∷ [],
          ))
        × (c'.peer_public_key ≡ public_key_to_hex_string lib key)
        × (c'.is_banned ≡ c.is_banned)
        × (c'.message_queue ≡ c.message_queue)
  unfolding receive_frame dispatch accept_key validate_public_key
  receive_frame-signature key sig address frame_id n c g o live unknown =
      let w = admit-Filtered n frame_id c.filter o.counts o.tracks in
      let c0 : Connection = record c { filter = (admit frame_id c.filter).1 } in
      rw (w.verdict, o.new)
        (rw
          (
            handle_signature-append lib chain_id sig address g.id c0 live g.size g.marshalled,
            accepted lib chain_id _ key address c0 g.signer (rw unknown refl) g.readable,
          )
          (_, refl, refl, refl, refl))
