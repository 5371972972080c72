-- ===== src/PeerService/Locks/Blocking.antt =====
-- Two goroutines of which each waits for what the other has: they wait for good.
use lachain_communication_hu.Base.{
  ℕ, ◌≡◌, ◌∙◌, ◌≢◌, Option, none, some, List, ◌∷◌, nat_eq, text_keys,
}
use lachain_communication_hu.PeerService.Locks.{
  Lock, service, Action, acquire, Locks, with_owner, with_rest, Step, acquires, releases, begins,
  kept_rest, kept_owner, Reach, here, later,
}

-- Each of the two has the lock that the other waits for: the one the service's mutex, the other `l`.
pub record Blocked (l : Lock) (a b : ℕ) (s : Locks) : Type 0 where
  pub has_service : s.owner service ≡ some a
  pub has_other : s.owner l ≡ some b
  pub wants_other : (as' : List Action) × (s.rest a ≡ acquire l ∷ as')
  pub wants_service : (bs : List Action) × (s.rest b ≡ acquire service ∷ bs)

module _ (Begins : List Action → Type 0) (k : Lock) (a b : ℕ) where
  -- A goroutine other than the two, at a lock that neither has.
  others-Blocked :
      (s : Locks) (t : ℕ) (l : Lock) (o : Option ℕ) (actions : List Action)
      → Blocked k a b s
      → t ≢ a
      → t ≢ b
      → s.owner l ≢ some a
      → s.owner l ≢ some b
      → Blocked k a b (record { owner = with_owner l o s.owner; rest = with_rest t actions s.rest })
  others-Blocked s t l o actions h na nb oa ob =
      let (as', wa) = h.wants_other in
      let (bs, wb) = h.wants_service in
      record {
        has_service = kept_owner l service o a s.owner (λ e. oa (e ∙ h.has_service)) h.has_service;
        has_other = kept_owner l k o b s.owner (λ e. ob (e ∙ h.has_other)) h.has_other;
        wants_other = (as', kept_rest t a actions _ s.rest na wa);
        wants_service = (bs, kept_rest t b actions _ s.rest nb wb);
      }

  Step-Blocked : {s n : Locks} → Step Begins s n → Blocked k a b s → Blocked k a b n
  Step-Blocked {s} (acquires t l actions e free) h =
      let (as', wa) = h.wants_other in
      let (bs, wb) = h.wants_service in
      others-Blocked s t l (some t) actions h (λ same. cc) (λ same. cc) (λ x. cc) (λ x. cc)
  Step-Blocked {s} (releases t l actions e own) h =
      let (as', wa) = h.wants_other in
      let (bs, wb) = h.wants_service in
      let na : t ≢ a = λ same. cc in
      let nb : t ≢ b = λ same. cc in
      others-Blocked s t l none actions h na nb (λ x. na cc) (λ x. nb cc)
  Step-Blocked {s} (begins t actions may e) h =
      let (as', wa) = h.wants_other in
      let (bs, wb) = h.wants_service in
      record {
        has_service = h.has_service;
        has_other = h.has_other;
        wants_other = (as', kept_rest t a actions _ s.rest (λ same. cc) wa);
        wants_service = (bs, kept_rest t b actions _ s.rest (λ same. cc) wb);
      }

  pub Reach-Blocked : {s n : Locks} → Reach Begins s n → Blocked k a b s → Blocked k a b n
  Reach-Blocked here h = h
  Reach-Blocked (later r st) h = Step-Blocked st (Reach-Blocked r h)
