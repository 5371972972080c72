-- ===== src/Connection/PeerExchange.antt =====
-- sendPeers of connection.go, and what the other end makes of it.
use lachain_communication_hu.Base.{
  ne→==, ℕ, suc, ◌≡◌, refl, ◌≢◌, false, Option, none, some, List, [], ◌∷◌, arith, length, All,
  if◌then◌else◌, ◌==◌, nat_eq, text_keys,
}
use lachain_communication_hu.Utils.Platform.{Platform}
use lachain_communication_hu.Communication.Frame.{MessageFrame, new_frame_with_id, kind_of_byte}
use lachain_communication_hu.Connection.Metadata.{Metadata, encode_array}
use lachain_communication_hu.Connection.State.{Connection, on_peer_list_update}
use lachain_communication_hu.Connection.Receive.{handle_peers, dispatch, spare_bytes}
use lachain_communication_hu.Connection.Peers.{Faithful, IsMetadata, decode_array-encode_array}

module _ (lib : Platform) where
  -- The frame that sendPeers writes for the peers that getPeers returns, if any; `random_id` is the
  -- id that NewFrame draws.
  unfoldable pub send_peers : List Metadata → ℕ → Connection → Option MessageFrame
  send_peers peers random_id c = if c.is_banned then none else elim c.outbound_stream [
    | none ↦ none
    | some stream ↦
        if length peers == 0
        then none
        else some (new_frame_with_id 2 (encode_array lib peers) random_id)
  ]

  -- The frame of a list of peers that is not empty makes the other node call back with just that
  -- list, if neither has banned the other, gob decodes what it encoded, and of every peer the id is
  -- read back from its readable form, the key is in the hub's hexadecimal form, the address is one
  -- that multiaddr reads, and the record is no longer than four bytes can say.
  pub dispatch-send_peers :
      (chain_id : ℕ) (peers : List Metadata) (random_id stream : ℕ) (a b : Connection)
      → Faithful lib
      → All (IsMetadata lib) peers
      → peers ≢ []
      → a.is_banned ≡ false
      → b.is_banned ≡ false
      → a.outbound_stream ≡ some stream
      → (f : MessageFrame) × (send_peers peers random_id a ≡ some f)
        × (dispatch lib chain_id (kind_of_byte f.kind) f b
            ≡ some (b, on_peer_list_update peers ∷ []))
  unfolding send_peers handle_peers dispatch
  dispatch-send_peers chain_id [] random_id stream a b f hs some_there free free_b open_a =
      absurd (some_there refl)
  dispatch-send_peers chain_id (p ∷ ps) random_id stream a b f hs some_there free free_b open_a =
      let frame = new_frame_with_id 2 (encode_array lib (p ∷ ps)) random_id in
      (
        frame,
        rw (free, open_a, ne→== (suc (length ps)) 0 (omega arith)) refl,
        rw (free_b, decode_array-encode_array lib f (p ∷ ps) (spare_bytes frame) hs) refl,
      )
