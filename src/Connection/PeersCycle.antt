-- ===== src/Connection/PeersCycle.antt =====
-- sendPeersCycle of connection.go.
use lachain_communication_hu.Base.{
  ℕ, Bool, true, false, Option, none, some, List, [], ◌∷◌, ◌++◌, if◌then◌else◌, nat_eq, text_keys,
}
use lachain_communication_hu.Utils.Platform.{Platform}
use lachain_communication_hu.Communication.Frame.{MessageFrame}
use lachain_communication_hu.Connection.Metadata.{Metadata}
use lachain_communication_hu.Connection.State.{Connection, terminated, status_eq}
use lachain_communication_hu.Connection.PeerExchange.{send_peers}

-- What a round finds: the connection, the peers that getPeers returns, the id that NewFrame draws,
-- whether the stream takes the frame, and whether peerCycleFinished is closed before a minute is over.
pub record PeersRound : Type 0 where
  pub connection : Connection
  pub peers : List Metadata
  pub random_id : ℕ
  pub written : Bool
  pub closed : Bool

abbrev pub frame_list : Option MessageFrame → List MessageFrame
frame_list none = []
frame_list (some f) = f ∷ []

abbrev pub written_first : List MessageFrame → List MessageFrame × Bool → List MessageFrame × Bool
written_first fs (rest, ended) = (fs ++ rest, ended)

module _ (lib : Platform) where
  -- The frame of a round, unless its Write fails.
  abbrev pub round_frames : PeersRound → List MessageFrame
  round_frames r =
      if r.written then frame_list (send_peers lib r.peers r.random_id r.connection) else []

  -- The frames that the cycle writes, and whether it has come to its end.
  unfoldable pub send_peers_cycle : List PeersRound → List MessageFrame × Bool
  send_peers_cycle [] = ([], false)
  send_peers_cycle (r ∷ rs) =
      let rest = written_first (round_frames r) (send_peers_cycle rs) in
      if status_eq r.connection.status terminated
      then ([], true)
      else if r.closed
      then (round_frames r, true)
      else rest
