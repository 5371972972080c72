-- ===== src/PeerService/Locks/Progress.antt =====
-- Some goroutine can always go on.
use lachain_communication_hu.Base.{
  ℕ, ◌≡◌, refl, sym, ◌∙◌, ◌≢◌, inl, inr, none, some, List, [], ◌∷◌, arith, Option-cases, Text,
  nat_eq, text_keys, ==_self,
}
use lachain_communication_hu.PeerService.Locks.{
  Lock, service, stream, Action, acquire, release, Locks, with_owner, with_rest, Step, acquires,
  releases, Reach,
}
use lachain_communication_hu.PeerService.Locks.Ordered.{
  Ordered, Shape, idle, enters, inside, has_both, leaves, method, opens, closes, Has, IsSound,
  Reach-IsSound,
}

-- A goroutine does the next of what it has to do.
pub record Advances (s : Locks) : Type 0 where
  pub goroutine : ℕ
  pub after : Locks
  pub step : Step Ordered s after
  pub action : Action
  pub done : s.rest goroutine ≡ action ∷ after.rest goroutine

takes :
    (s : Locks) (t : ℕ) (l : Lock) (actions : List Action)
    → s.rest t ≡ acquire l ∷ actions
    → s.owner l ≡ none
    → Advances s
takes s t l actions e free = record {
  goroutine = t;
  after = record { owner = with_owner l (some t) s.owner; rest = with_rest t actions s.rest };
  step = acquires t l actions e free;
  action = acquire l;
  done = rw (==_self t) e;
}

gives :
    (s : Locks) (t : ℕ) (l : Lock) (actions : List Action)
    → s.rest t ≡ release l ∷ actions
    → s.owner l ≡ some t
    → Advances s
gives s t l actions e own = record {
  goroutine = t;
  after = record { owner = with_owner l none s.owner; rest = with_rest t actions s.rest };
  step = releases t l actions e own;
  action = release l;
  done = rw (==_self t) e;
}

-- The owner of a stream lock waits for nothing.
stream_owner :
    (s : Locks) (id : Text) (t : ℕ) (actions : List Action)
    → Shape s.owner t actions
    → s.rest t ≡ actions
    → Has (stream id) actions
    → Advances s
stream_owner s id t _ idle e h = absurd h
stream_owner s id t _ (enters other) e (x, (ne, h)) = absurd (ground arith)
stream_owner s id t _ (inside other own) e (ne, h) = absurd (ground arith)
stream_owner s id t _ (has_both other own own') e h = gives s t (stream other) _ e own'
stream_owner s id t _ (leaves own) e h = gives s t service _ e own
stream_owner s id t _ method e (ne, h) = absurd (ground arith)
stream_owner s id t _ (opens other) e (ne, h) = absurd (ground arith)
stream_owner s id t _ (closes other own) e h = gives s t (stream other) _ e own

wants_stream :
    (s : Locks) (id : Text) (t : ℕ) (actions : List Action)
    → IsSound s
    → s.rest t ≡ acquire (stream id) ∷ actions
    → Advances s
wants_stream s id t actions h e = elim (Option-cases (s.owner (stream id))) [
  | inl free ↦ takes s t (stream id) actions e free
  | inr (u, own) ↦ stream_owner s id u (s.rest u) (h.shapes u) refl (h.held (stream id) u own)
]

service_owner :
    (s : Locks) (t : ℕ) (actions : List Action)
    → IsSound s
    → Shape s.owner t actions
    → s.rest t ≡ actions
    → Has service actions
    → Advances s
service_owner s t _ sound idle e h = absurd h
service_owner s t _ sound (enters other) e (ne, h) = absurd (ne refl)
service_owner s t _ sound (inside other own) e h = wants_stream s other t _ sound e
service_owner s t _ sound (has_both other own own') e h = gives s t (stream other) _ e own'
service_owner s t _ sound (leaves own) e h = gives s t service _ e own
service_owner s t _ sound method e (ne, h) = absurd (ne refl)
service_owner s t _ sound (opens other) e h = wants_stream s other t _ sound e
service_owner s t _ sound (closes other own) e h = gives s t (stream other) _ e own

wants_service :
    (s : Locks) (t : ℕ) (actions : List Action)
    → IsSound s
    → s.rest t ≡ acquire service ∷ actions
    → Advances s
wants_service s t actions h e = elim (Option-cases (s.owner service)) [
  | inl free ↦ takes s t service actions e free
  | inr (u, own) ↦ service_owner s u (s.rest u) h (h.shapes u) refl (h.held service u own)
]

goes_on :
    (s : Locks) (t : ℕ) (actions : List Action)
    → IsSound s
    → Shape s.owner t actions
    → s.rest t ≡ actions
    → actions ≢ []
    → Advances s
goes_on s t _ sound idle e ne = absurd (ne refl)
goes_on s t _ sound (enters other) e ne = wants_service s t _ sound e
goes_on s t _ sound (inside other own) e ne = wants_stream s other t _ sound e
goes_on s t _ sound (has_both other own own') e ne = gives s t (stream other) _ e own'
goes_on s t _ sound (leaves own) e ne = gives s t service _ e own
goes_on s t _ sound method e ne = wants_service s t _ sound e
goes_on s t _ sound (opens other) e ne = wants_stream s other t _ sound e
goes_on s t _ sound (closes other own) e ne = gives s t (stream other) _ e own

ne_some : (t : ℕ) → none ≢ some t
ne_some t e = cc

start-IsSound :
    (s : Locks) → ((l : Lock) → s.owner l ≡ none) → ((t : ℕ) → s.rest t ≡ []) → IsSound s
start-IsSound s free rest = record {
  shapes = λ t. rw (rest t) idle;
  held = λ l t e. absurd (ne_some t (sym (free l) ∙ e));
}

-- From a state in which all locks are free and nobody has anything left to do, in any interleaving
-- of incoming streams, of methods of the service that touch no stream and stop no connection, and of
-- checks of outbound streams and writes to them, in which no peer that is not connected lacks an
-- address: as long as any goroutine has something left to do, some goroutine can do the next of what
-- it has to do.
pub no_deadlock :
    {s n : Locks} (t : ℕ)
    → ((l : Lock) → s.owner l ≡ none)
    → ((u : ℕ) → s.rest u ≡ [])
    → Reach Ordered s n
    → n.rest t ≢ []
    → Advances n
no_deadlock {s} {n} t free rest r ne =
    let sound = Reach-IsSound r (start-IsSound s free rest) in
    goes_on n t (n.rest t) sound (sound.shapes t) refl ne
