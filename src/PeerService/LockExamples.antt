-- ===== src/PeerService/LockExamples.antt =====
-- Two goroutines at one connection.
use lachain_communication_hu.Base.{
  text_eq, refl, false, none, some, [], ◌∷◌, arith, Text, nat_eq, text_keys,
}
use lachain_communication_hu.PeerService.Locks.{
  lifecycle, with_owner, stop_locks, recovering_locks, on_connect_locks,
  check_outbound_stream_locks, Locks, with_rest, begins, Reach, here, later,
}
use lachain_communication_hu.PeerService.Locks.Ordered.{Ordered, accepts, checks_addressed}
use lachain_communication_hu.PeerService.Locks.Progress.{Advances, no_deadlock}
use lachain_communication_hu.PeerService.Locks.Stopping.{stop-recovering}
use lachain_communication_hu.PeerService.Locks.Blocking.{Blocked}

abbrev peer : Text
peer = 1 ∷ []

abbrev quiet : Locks
quiet = record { owner = λ l. none; rest = λ t. [] }

-- A stream comes in while the connection checks its outbound stream, and knows an address.
abbrev busy : Locks
busy = record quiet {
  rest =
      with_rest 2 (check_outbound_stream_locks peer false (some (9 ∷ [])))
        (with_rest 1 (on_connect_locks (some peer)) quiet.rest);
}

busy-Reach : Reach Ordered quiet busy
busy-Reach =
    later (later here (begins 1 (on_connect_locks (some peer)) (accepts (some peer)) refl)) (
      begins 2 (check_outbound_stream_locks peer false (some (9 ∷ [])))
        (checks_addressed peer false (9 ∷ [])) refl)

no_deadlock_example : Advances busy
unfolding on_connect_locks
no_deadlock_example = no_deadlock 1 (λ l. refl) (λ u. refl) busy-Reach (λ e. cc)

-- The receive cycle 2 recovers the key of its peer while 1 stops the service.
abbrev recovering : Locks
recovering = record {
  owner = with_owner (lifecycle peer) (some 2) quiet.owner;
  rest = with_rest 2 (recovering_locks peer) (with_rest 1 (stop_locks (peer ∷ [])) quiet.rest);
}

stop-recovering_example :
    (m : Locks) × Reach (λ actions. Unit {0}) recovering m
    × ((n : Locks) → Reach (λ actions. Unit {0}) m n → Blocked (lifecycle peer) 1 2 n)
unfolding text_eq
stop-recovering_example =
    stop-recovering (λ actions. Unit {0}) peer 1 2 recovering [] (omega arith) refl refl refl refl
