-- ===== src/PeerService/Locks/Stopping.antt =====
-- Stop, while a connection recovers the key of its peer.
use lachain_communication_hu.Base.{
  ==_self, ℕ, ◌≡◌, refl, ◌≢◌, none, some, List, [], ◌∷◌, Text, nat_eq, text_keys,
}
use lachain_communication_hu.PeerService.Locks.{
  service, lifecycle, Action, release, terminate_all_locks, stop_locks, recovering_locks, Locks,
  with_owner, with_rest, Step, acquires, kept_rest, Reach, here, later,
}
use lachain_communication_hu.PeerService.Locks.Blocking.{Blocked, Reach-Blocked}

module _ (Begins : List Action → Type 0) (id : Text) (a b : ℕ) where
  -- A receive cycle is about to take the service's mutex in onPublicKeyRecovered, having seen the
  -- service running, when Stop is about to begin, first with the connection of that cycle, and the
  -- mutex is free: the two can come to where Stop has the mutex and waits for the end of the cycle,
  -- which waits for the mutex, and they stay there whatever the other goroutines do, so that Stop
  -- never returns.
  pub stop-recovering :
      (s : Locks) (ids : List Text)
      → a ≢ b
      → s.owner service ≡ none
      → s.owner (lifecycle id) ≡ some b
      → s.rest a ≡ stop_locks (id ∷ ids)
      → s.rest b ≡ recovering_locks id
      → (m : Locks) × Reach Begins s m
        × ((n : Locks) → Reach Begins m n → Blocked (lifecycle id) a b n)
  unfolding stop_locks recovering_locks
  stop-recovering s ids ne free own ra rb =
      let after = terminate_all_locks (id ∷ ids) in
      let m : Locks = record {
        owner = with_owner service (some a) s.owner;
        rest = with_rest a after s.rest;
      } in
      let first : Step Begins s m = acquires a service after ra free in
      let blocked : Blocked (lifecycle id) a b m = record {
        has_service = refl;
        has_other = own;
        wants_other = (release (lifecycle id) ∷ terminate_all_locks ids, rw (==_self a) refl);
        wants_service =
            (release service ∷ release (lifecycle id) ∷ [], kept_rest a b after _ s.rest ne rb);
      } in
      (m, later here first, λ n r. Reach-Blocked Begins (lifecycle id) a b r blocked)
