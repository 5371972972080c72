-- ===== src/PeerService/Locks.antt =====
-- The mutex of the service and the stream locks of its connections: the order in which the code
-- takes them, and the goroutines that wait for them.
pub mod Blocking
pub mod Ordered
pub mod Progress
pub mod Stopping
use lachain_communication_hu.Base.{
  ℕ, ◌≡◌, refl, ap, ◌≢◌, inl, inr, Bool, true, false, Option, none, some, List, [], ◌∷◌, ◌++◌,
  arith, if◌then◌else◌, ◌==◌, Bool-cases, Text, text_eq, text_eq_iff, nat_eq, text_keys, ne→==,
}

-- A connection's stream lock goes with the key of the connection, and so does the end of its receive
-- cycle: the cycle has it from its start on, and gives it up when it closes lifecycleFinished.
pub data Lock : Type 0 where
  service : Lock
  stream lifecycle : Text → Lock

abbrev pub lock_eq : Lock → Lock → Bool
lock_eq service service = true
lock_eq (stream id) (stream other) = text_eq id other
lock_eq (lifecycle id) (lifecycle other) = text_eq id other
lock_eq service (stream id) = false
lock_eq service (lifecycle id) = false
lock_eq (stream id) service = false
lock_eq (stream id) (lifecycle other) = false
lock_eq (lifecycle id) service = false
lock_eq (lifecycle id) (stream other) = false

pub data Action : Type 0 where
  acquire : Lock → Action
  release : Lock → Action

-- onConnect, which calls SetInboundStream if it has a connection under the peer's key that is not
-- terminated.
unfoldable pub on_connect_locks : Option Text → List Action
on_connect_locks none = acquire service ∷ release service ∷ []
on_connect_locks (some id) =
    acquire service ∷ acquire (stream id) ∷ release (stream id) ∷ release service ∷ []

-- AvailableRelays
abbrev pub available_relays_locks : List Action
available_relays_locks = acquire service ∷ release service ∷ []

-- connect of a connection, by the peer's address.
unfoldable pub connect_locks : Option (List ℕ) → List Action
connect_locks (some address) = []
connect_locks none = available_relays_locks

-- checkOutboundStream
unfoldable pub check_outbound_stream_locks : Text → Bool → Option (List ℕ) → List Action
unfolding connect_locks
check_outbound_stream_locks id connected address =
    acquire (stream id)
    ∷ ((if connected then [] else connect_locks address) ++ release (stream id) ∷ [])

-- Terminate waits for the receive cycle, and then for the send cycle, which is left out here.
abbrev pub terminate_locks : Text → List Action
terminate_locks id = acquire (lifecycle id) ∷ release (lifecycle id) ∷ []

-- Stop, on the connections under these keys.
abbrev pub terminate_all_locks : List Text → List Action
terminate_all_locks [] = release service ∷ []
terminate_all_locks (id ∷ ids) = terminate_locks id ++ terminate_all_locks ids

unfoldable pub stop_locks : List Text → List Action
stop_locks ids = acquire service ∷ terminate_all_locks ids

-- The rest of a receive cycle that calls onPublicKeyRecovered, has seen the service running, and then
-- finds its connection terminated.
unfoldable pub recovering_locks : Text → List Action
recovering_locks id = acquire service ∷ release service ∷ release (lifecycle id) ∷ []

-- The goroutine that has each lock, and what each goroutine is still to do.
pub record Locks : Type 0 where
  pub owner : Lock → Option ℕ
  pub rest : ℕ → List Action

abbrev pub with_owner : Lock → Option ℕ → (Lock → Option ℕ) → Lock → Option ℕ
with_owner l o owner k = if lock_eq l k then o else owner k

abbrev pub with_rest : ℕ → List Action → (ℕ → List Action) → ℕ → List Action
with_rest t actions rest u = if t == u then actions else rest u

-- A goroutine takes a lock that is free, gives up one that it has, or begins something that may
-- begin when it has nothing left to do.
pub data Step (Begins : List Action → Type 0) (s : Locks) : Locks → Type 0 where
  acquires :
      (t : ℕ) (l : Lock) (actions : List Action)
      → s.rest t ≡ acquire l ∷ actions
      → s.owner l ≡ none
      → Step Begins s
          (record { owner = with_owner l (some t) s.owner; rest = with_rest t actions s.rest })
  releases :
      (t : ℕ) (l : Lock) (actions : List Action)
      → s.rest t ≡ release l ∷ actions
      → s.owner l ≡ some t
      → Step Begins s
          (record { owner = with_owner l none s.owner; rest = with_rest t actions s.rest })
  begins :
      (t : ℕ) (actions : List Action)
      → Begins actions
      → s.rest t ≡ []
      → Step Begins s (record { owner = s.owner; rest = with_rest t actions s.rest })

pub data Reach (Begins : List Action → Type 0) (s : Locks) : Locks → Type 0 where
  here : Reach Begins s s
  later : {m n : Locks} → Reach Begins s m → Step Begins m n → Reach Begins s n

pub same_lock : (l k : Lock) → lock_eq l k ≡ true → l ≡ k
same_lock service service e = refl
same_lock (stream id) (stream other) e = ap stream ((text_eq_iff id other).0 e)
same_lock (lifecycle id) (lifecycle other) e = ap lifecycle ((text_eq_iff id other).0 e)
same_lock service (stream id) e = cc
same_lock service (lifecycle id) e = cc
same_lock (stream id) service e = cc
same_lock (stream id) (lifecycle other) e = cc
same_lock (lifecycle id) service e = cc
same_lock (lifecycle id) (stream other) e = cc

pub lock_eq_self : (l : Lock) → lock_eq l l ≡ true
lock_eq_self service = refl
lock_eq_self (stream id) = (text_eq_iff id id).1 refl
lock_eq_self (lifecycle id) = (text_eq_iff id id).1 refl

pub kept_rest :
    (t u : ℕ) (new old : List Action) (rest : ℕ → List Action)
    → t ≢ u
    → rest u ≡ old
    → with_rest t new rest u ≡ old
kept_rest t u new old rest ne e = rw (ne→== t u ne) e

pub kept_owner :
    (l k : Lock) (o : Option ℕ) (t : ℕ) (owner : Lock → Option ℕ)
    → owner l ≢ owner k
    → owner k ≡ some t
    → with_owner l o owner k ≡ some t
kept_owner l k o t owner ne e = elim (Bool-cases (lock_eq l k)) [
  | inl same ↦ absurd (ne (ap owner (same_lock l k same)))
  | inr other ↦ rw other e
]
