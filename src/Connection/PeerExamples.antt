-- ===== src/Connection/PeerExamples.antt =====
-- A list of one peer, with a gob that writes every slice behind its length.
use lachain_communication_hu.Base.{
  Bool, true, false, ◌==◌, drop-append_seam, take-append_seam, ℕ, ◌≡◌, refl, ◌≢◌, Option, none,
  some, List, [], ◌∷◌, ◌++◌, arith, length, take, drop, Text, nat_eq, text_keys,
}
use lachain_communication_hu.Connection.Relays.{
  any, connect_to_peer_using_relay, connect_to_relays, connect_to_relays-any,
}
use lachain_communication_hu.Utils.Platform.{Platform, MetadataSerializable}
use lachain_communication_hu.Utils.Toy.{toy}
use lachain_communication_hu.Utils.Hex.{bytes_to_hex, hex_to_bytes}
use lachain_communication_hu.Connection.Metadata.{Metadata, to_bytes, serializable, decode_array}
use lachain_communication_hu.Communication.Frame.{MessageFrame, kind_of_byte}
use lachain_communication_hu.Connection.State.{Connection, init, on_peer_list_update}
use lachain_communication_hu.Connection.Receive.{dispatch}
use lachain_communication_hu.Connection.PeerExchange.{send_peers, dispatch-send_peers}
use lachain_communication_hu.Connection.Peers.{Faithful, IsMetadata, decode_array_total}

abbrev written : MetadataSerializable → List ℕ
written s = length s.public_key ∷ (s.public_key ++ length s.id ∷ (s.id ++ s.last_seen ∷ s.addr))

abbrev read_rest : List ℕ → Text → List ℕ → Option MetadataSerializable
read_rest key id [] = none
read_rest key id (seen ∷ addr) =
    some (record { public_key = key; id = id; last_seen = seen; addr = addr })

abbrev read_id : List ℕ → List ℕ → Option MetadataSerializable
read_id key [] = none
read_id key (n ∷ rest) = read_rest key (take n rest) (drop n rest)

abbrev read_back : List ℕ → Option MetadataSerializable
read_back [] = none
read_back (n ∷ rest) = read_id (take n rest) (drop n rest)

abbrev faithful : Platform
faithful = record toy { gob_encode = written; gob_decode = read_back }

read_back-written : (s : MetadataSerializable) → read_back (written s) ≡ some s
read_back-written s =
    let end = s.last_seen ∷ s.addr in
    rw (
      take-append_seam (length s.public_key) s.public_key (length s.id ∷ (s.id ++ end)) refl,
      drop-append_seam (length s.public_key) s.public_key (length s.id ∷ (s.id ++ end)) refl,
      take-append_seam (length s.id) s.id end refl,
      drop-append_seam (length s.id) s.id end refl,
    )

faithful-Faithful : Faithful faithful
faithful-Faithful = record { gob = read_back-written }

abbrev someone : Metadata
someone = record {
  public_key = bytes_to_hex (2 ∷ 160 ∷ []);
  id = 1 ∷ [];
  last_seen = 8;
  addr = some (7 ∷ []);
}

someone-IsMetadata : IsMetadata faithful someone
unfolding to_bytes serializable bytes_to_hex hex_to_bytes
someone-IsMetadata = record {
  key = 2 ∷ 160 ∷ [];
  key_bytes = (omega arith, (omega arith, tt));
  public_key = refl;
  id = refl;
  addr = refl;
  fits = omega arith;
}

decode_array_total_example : decode_array toy (9 ∷ 9 ∷ []) [] ≢ none
decode_array_total_example = decode_array_total toy (9 ∷ 9 ∷ []) []

-- The connections of two nodes with each other.
abbrev ours : Connection
unfolding init
ours = record (init (2 ∷ []) (9 ∷ []) [] 0) { outbound_stream = some 3 }

abbrev theirs : Connection
unfolding init
theirs = init (1 ∷ []) (9 ∷ []) [] 0

dispatch-send_peers_example :
    (f : MessageFrame) × (send_peers faithful (someone ∷ []) 77 ours ≡ some f)
    × (dispatch faithful 25 (kind_of_byte f.kind) f theirs
        ≡ some (theirs, on_peer_list_update (someone ∷ []) ∷ []))
unfolding init
dispatch-send_peers_example =
    dispatch-send_peers faithful 25 (someone ∷ []) 77 3 ours theirs faithful-Faithful
      (someone-IsMetadata, tt) (λ e. cc) refl refl refl

-- The second of four relays leads to the peer 7.
abbrev second_dials : Text → List ℕ → Bool
second_dials target addr = length addr == 25

connect_to_relays-any_example :
    connect_to_relays toy second_dials ((1 ∷ []) ∷ (2 ∷ 2 ∷ []) ∷ (3 ∷ []) ∷ (4 ∷ []) ∷ []) (7 ∷ [])
    ≡ any (false ∷ true ∷ false ∷ [])
unfolding connect_to_peer_using_relay
connect_to_relays-any_example =
    connect_to_relays-any toy second_dials ((1 ∷ []) ∷ (2 ∷ 2 ∷ []) ∷ (3 ∷ []) ∷ (4 ∷ []) ∷ [])
      (7 ∷ [])
