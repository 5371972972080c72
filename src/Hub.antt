-- ===== src/Hub.antt =====
-- embedded_hub.go: the exported calls over a PeerService, and the queue of what was received.
-- goconcurrentqueue's FIFO is a parameter.
pub mod Starting
pub mod Signing
pub mod NewKey
pub mod Profiler
pub mod Fetching
pub mod ListFifo
mod Examples
use lachain_communication_hu.Base.{
  ℕ, zero, suc, ◌+◌, ◌%◌, ◌^◌, ◌≡◌, Bool, Option, none, some, List, [], ◌∷◌, ◌++◌, arith, length,
  take, if◌then◌else◌, ltb, ◌==◌, text_eq, nat_eq, text_keys,
}
use lachain_communication_hu.Binary.{put_uint32}
use lachain_communication_hu.Utils.Platform.{Platform}
use lachain_communication_hu.Utils.Hex.{bytes_to_hex}
use lachain_communication_hu.Utils.Queue.{MessageEnvelop, MessageKind, new_envelop_with_id}
use lachain_communication_hu.PeerService.State.{PeerService, Emitted, send_message_to_peer}
use lachain_communication_hu.PeerService.Operations
use lachain_communication_hu.PeerService.Operations.{broadcast_message}

-- The operations of a FIFO that the hub calls, with an index where the package takes one, and the
-- elements that they stand for.
pub record Fifo (Q : Type 0) : Type 0 where
  pub get_len : Q → ℕ
  pub enqueue : List ℕ → Q → Q
  pub get : ℕ → Q → Option (List ℕ)
  pub remove : ℕ → Q → Option Q
  pub elements : Q → List (List ℕ)
  pub elements-enqueue : (m : List ℕ) (q : Q) → elements (enqueue m q) ≡ elements q ++ m ∷ []
  pub get_len-elements : (q : Q) → get_len q ≡ length (elements q)
  pub get_first : (q : Q) (m : List ℕ) (ms : List (List ℕ)) → elements q ≡ m ∷ ms → get 0 q ≡ some m
  pub remove_first :
      (q : Q) (m : List ℕ) (ms : List (List ℕ))
      → elements q ≡ m ∷ ms
      → (q' : Q) × (remove 0 q ≡ some q') × (elements q' ≡ ms)

-- What a call of GetMessages returns (`none` is -1), the copies that it makes into the buffer with
-- their offsets, and the queue that it leaves.
pub record Fetch (Q : Type 0) : Type 0 where
  pub count : Option ℕ
  pub copies : List (ℕ × List ℕ)
  pub queue : Q

abbrev pub copied : {Q : Type 0} → ℕ × List ℕ → Fetch Q → Fetch Q
copied copy r = record r { copies = copy ∷ r.copies }

module _ {Q : Type 0} (fifo : Fifo Q) where
  -- ProcessMessage
  abbrev pub process_message : List ℕ → Q → Q
  process_message msg q = fifo.enqueue msg q

  -- The loop: `ptr` and the lengths are uint32, and so is `max_length`, which is the uint32 of the
  -- argument.
  unfoldable pub get_loop : ℕ → ℕ → ℕ → ℕ → Q → Fetch Q
  get_loop zero max_length ptr c q = record { count = some c; copies = []; queue = q }
  get_loop (suc turns) max_length ptr c q = elim (fifo.get 0 q) [
    | none ↦ record { count = none; copies = []; queue = q }
    | some msg ↦
        let l = length msg % 2 ^ 32 in
        if ltb max_length ((ptr + l + 4) % 2 ^ 32)
        then record { count = some c; copies = []; queue = q }
        else elim (fifo.remove 0 q) [
          | none ↦ record { count = none; copies = []; queue = q }
          | some q' ↦
              copied (ptr, take ((l + 4) % 2 ^ 32) (put_uint32 l ++ msg))
                (get_loop turns max_length ((ptr + l + 4) % 2 ^ 32) (c + 1) q')
        ]
  ]

  -- GetMessages
  unfoldable pub get_messages : ℕ → Q → Fetch Q
  get_messages max_length q =
      if fifo.get_len q == 0
      then record { count = none; copies = []; queue = q }
      else get_loop (fifo.get_len q) max_length 0 0 q

-- The key of 33 zero bytes stands for everybody.
abbrev zeros : ℕ → List ℕ
zeros zero = []
zeros (suc n) = 0 ∷ zeros n

abbrev pub zero_pub : List ℕ
zero_pub = zeros 33

abbrev kind_of_flag : ℕ → MessageKind
kind_of_flag zero = MessageKind.message
kind_of_flag (suc n) = MessageKind.consensus

-- SendMessage; `random_id` is the id that NewEnvelop draws. A missing localPeer panics, here and below.
unfoldable pub send_message : List ℕ → List ℕ → ℕ → ℕ → Option PeerService → Option PeerService
send_message pub_key data_bytes flag random_id none = none
send_message pub_key data_bytes flag random_id (some ps) =
    let msg = new_envelop_with_id (some data_bytes) (kind_of_flag flag) random_id in
    some (
      if text_eq pub_key zero_pub
      then broadcast_message msg ps
      else (send_message_to_peer (bytes_to_hex pub_key) msg ps).1)

abbrev state_of : Bool × PeerService → PeerService
state_of (b, ps) = ps

-- BanPeer and RemoveFromBanList
unfoldable pub ban_peer : List ℕ → Option PeerService → Option PeerService
ban_peer pub_key none = none
ban_peer pub_key (some ps) = some (state_of (Operations.ban_peer (bytes_to_hex pub_key) ps))

unfoldable pub remove_from_ban_list : List ℕ → Option PeerService → Option PeerService
remove_from_ban_list pub_key none = none
remove_from_ban_list pub_key (some ps) =
    some (state_of (Operations.remove_from_ban_list (bytes_to_hex pub_key) ps))

-- StopHub; `random_id` is the id of the nil messages.
unfoldable pub stop_hub : ℕ → Option PeerService → Option (PeerService × Emitted)
stop_hub random_id none = none
stop_hub random_id (some ps) = some (Operations.stop random_id ps)

-- SetPeerPublicKey; `number` is the uint32 of the argument.
unfoldable pub set_peer_public_key :
    Platform → ℕ → List ℕ → ℕ → Option PeerService → Option (Bool × PeerService × Emitted)
set_peer_public_key lib chain_id pub_key number none = none
set_peer_public_key lib chain_id pub_key number (some ps) =
    Operations.set_peer_public_key lib chain_id (bytes_to_hex pub_key) number ps
