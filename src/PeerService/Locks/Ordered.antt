-- ===== src/PeerService/Locks/Ordered.antt =====
-- Goroutines none of which takes the service's mutex while it has a stream lock.
use mathlib.Core.Path.{subst}
use lachain_communication_hu.Base.{
  ℕ, ◌≡◌, refl, ◌≢◌, ◌⊎◌, inl, inr, Bool, true, false, Option, none, some, List, [], ◌∷◌, arith,
  ◌==◌, Bool-cases, Text, nat_eq, text_keys, ==_self, ==_iff,
}
use lachain_communication_hu.PeerService.Locks.{
  Lock, service, stream, lock_eq, Action, acquire, release, on_connect_locks,
  available_relays_locks, connect_locks, check_outbound_stream_locks, Locks, with_owner, with_rest,
  Step, acquires, releases, begins, Reach, here, later, same_lock, lock_eq_self, kept_owner,
}

-- onConnect, a method of the service that touches no stream and stops no connection, and a check of
-- an outbound stream whose peer is connected or has an address; a write to a stream takes its lock as
-- such a check does.
pub data Ordered : List Action → Type 0 where
  accepts : (known : Option Text) → Ordered (on_connect_locks known)
  calls : Ordered available_relays_locks
  checks_connected :
      (id : Text) (address : Option (List ℕ))
      → Ordered (check_outbound_stream_locks id true address)
  checks_addressed :
      (id : Text) (connected : Bool) (address : List ℕ)
      → Ordered (check_outbound_stream_locks id connected (some address))

-- What a goroutine can have left to do, with the locks that it has then.
pub data Shape (owner : Lock → Option ℕ) (t : ℕ) : List Action → Type 0 where
  idle : Shape owner t []
  enters :
      (id : Text)
      → Shape owner t
          (acquire service ∷ acquire (stream id) ∷ release (stream id) ∷ release service ∷ [])
  inside :
      (id : Text)
      → owner service ≡ some t
      → Shape owner t (acquire (stream id) ∷ release (stream id) ∷ release service ∷ [])
  has_both :
      (id : Text)
      → owner service ≡ some t
      → owner (stream id) ≡ some t
      → Shape owner t (release (stream id) ∷ release service ∷ [])
  leaves : owner service ≡ some t → Shape owner t (release service ∷ [])
  method : Shape owner t (acquire service ∷ release service ∷ [])
  opens : (id : Text) → Shape owner t (acquire (stream id) ∷ release (stream id) ∷ [])
  closes : (id : Text) → owner (stream id) ≡ some t → Shape owner t (release (stream id) ∷ [])

-- The goroutine is to give up a lock, which it does not take before.
abbrev pub Has : Lock → List Action → Type 0
Has l [] = ⊥
Has l (acquire k ∷ actions) = (k ≢ l) × Has l actions
Has l (release k ∷ actions) = (k ≡ l) ⊎ Has l actions

pub record IsSound (s : Locks) : Type 0 where
  pub shapes : (t : ℕ) → Shape s.owner t (s.rest t)
  pub held : (l : Lock) (t : ℕ) → s.owner l ≡ some t → Has l (s.rest t)

Ordered-Shape :
    (owner : Lock → Option ℕ) (t : ℕ) (actions : List Action)
    → Ordered actions
    → Shape owner t actions
unfolding on_connect_locks check_outbound_stream_locks connect_locks
Ordered-Shape owner t _ (accepts none) = method
Ordered-Shape owner t _ (accepts (some id)) = enters id
Ordered-Shape owner t _ calls = method
Ordered-Shape owner t _ (checks_connected id address) = opens id
Ordered-Shape owner t _ (checks_addressed id true address) = opens id
Ordered-Shape owner t _ (checks_addressed id false address) = opens id

-- The goroutine has the locks that it had.
Shape-kept :
    (owner owner' : Lock → Option ℕ) (t : ℕ) (actions : List Action)
    → ((k : Lock) → owner k ≡ some t → owner' k ≡ some t)
    → Shape owner t actions
    → Shape owner' t actions
Shape-kept owner owner' t _ h idle = idle
Shape-kept owner owner' t _ h (enters id) = enters id
Shape-kept owner owner' t _ h (inside id e) = inside id (h service e)
Shape-kept owner owner' t _ h (has_both id e f) = has_both id (h service e) (h (stream id) f)
Shape-kept owner owner' t _ h (leaves e) = leaves (h service e)
Shape-kept owner owner' t _ h method = method
Shape-kept owner owner' t _ h (opens id) = opens id
Shape-kept owner owner' t _ h (closes id e) = closes id (h (stream id) e)

acquire-Shape :
    (owner : Lock → Option ℕ) (t : ℕ) (l : Lock) (actions : List Action)
    → Shape owner t (acquire l ∷ actions)
    → owner l ≡ some t
    → Shape owner t actions
acquire-Shape owner t _ _ (enters id) e = inside id e
acquire-Shape owner t _ _ (inside id s) e = has_both id s e
acquire-Shape owner t _ _ method e = leaves e
acquire-Shape owner t _ _ (opens id) e = closes id e

acquire-Has :
    (owner : Lock → Option ℕ) (t : ℕ) (l : Lock) (actions : List Action)
    → Shape owner t (acquire l ∷ actions)
    → Has l actions
acquire-Has owner t _ _ (enters id) = ((λ e. cc), inr (inl refl))
acquire-Has owner t _ _ (inside id s) = inl refl
acquire-Has owner t _ _ method = inl refl
acquire-Has owner t _ _ (opens id) = inl refl

release-Shape :
    (owner : Lock → Option ℕ) (t : ℕ) (l : Lock) (actions : List Action)
    → Shape owner t (release l ∷ actions)
    → Shape (with_owner l none owner) t actions
release-Shape owner t _ _ (has_both id s e) = leaves s
release-Shape owner t _ _ (leaves s) = idle
release-Shape owner t _ _ (closes id s) = idle

-- A lock that has an owner other than the new one had that owner.
owner_back :
    (l k : Lock) (o : Option ℕ) (u : ℕ) (owner : Lock → Option ℕ)
    → o ≢ some u
    → with_owner l o owner k ≡ some u
    → (owner k ≡ some u) × (lock_eq l k ≡ false)
owner_back l k o u owner ne e = elim (Bool-cases (lock_eq l k)) [
  | inl same ↦ absurd (ne (rw same at e))
  | inr other ↦ (rw other at e, other)
]

same_or_other : (t u : ℕ) → (t ≡ u) ⊎ (((t == u) ≡ false) × (t ≢ u))
same_or_other t u = elim (Bool-cases (t == u)) [
  | inl same ↦ inl ((==_iff t u).0 same)
  | inr other ↦ inr (other, λ e. ground (arith, ==_iff t u))
]

-- A goroutine comes to its next action, and the others keep their locks.
moved :
    (s : Locks) (t : ℕ) (owner : Lock → Option ℕ) (actions : List Action)
    → Shape owner t actions
    → ((l : Lock) → owner l ≡ some t → Has l actions)
    → ((u : ℕ) → t ≢ u → (l : Lock) → owner l ≡ some u → s.owner l ≡ some u)
    → ((u : ℕ) → t ≢ u → (l : Lock) → s.owner l ≡ some u → owner l ≡ some u)
    → IsSound s
    → IsSound (record { owner = owner; rest = with_rest t actions s.rest })
moved s t owner actions shape has back forth h = record {
  shapes = λ u. elim (same_or_other t u) [
    | inl same ↦
        subst (λ (v : ℕ). Shape owner v (with_rest t actions s.rest v)) same (rw (==_self t) shape)
    | inr (other, ne) ↦ rw other (Shape-kept s.owner owner u (s.rest u) (forth u ne) (h.shapes u))
  ];
  held = λ l u e. elim (same_or_other t u) [
    | inl same ↦
        subst (λ (v : ℕ). owner l ≡ some v → Has l (with_rest t actions s.rest v)) same
          (λ x. rw (==_self t) (has l x)) e
    | inr (other, ne) ↦ rw other (h.held l u (back u ne l e))
  ];
}

still_to_release :
    (k l : Lock) (actions : List Action)
    → lock_eq l k ≡ false
    → Has k (release l ∷ actions)
    → Has k actions
still_to_release k l actions other (inl same) =
    let equal : lock_eq l k ≡ true =
      subst (λ (j : Lock). lock_eq l j ≡ true) same (lock_eq_self l) in
    cc
still_to_release k l actions other (inr behind) = behind

acquires-IsSound :
    (s : Locks) (t : ℕ) (l : Lock) (actions : List Action)
    → s.rest t ≡ acquire l ∷ actions
    → s.owner l ≡ none
    → IsSound s
    → IsSound (record { owner = with_owner l (some t) s.owner; rest = with_rest t actions s.rest })
acquires-IsSound s t l actions e free h =
    let owner = with_owner l (some t) s.owner in
    let keep : (u : ℕ) (k : Lock) → s.owner k ≡ some u → owner k ≡ some u =
      λ u k x. kept_owner l k (some t) u s.owner (λ y. cc) x in
    let shape : Shape s.owner t (acquire l ∷ actions) = subst (Shape s.owner t) e (h.shapes t) in
    moved s t owner actions
      (acquire-Shape owner t l actions (Shape-kept s.owner owner t _ (keep t) shape)
        (rw (lock_eq_self l) refl))
      (λ k x. elim (Bool-cases (lock_eq l k)) [
        | inl same ↦
            subst (λ (j : Lock). Has j actions) (same_lock l k same)
              (acquire-Has s.owner t l actions shape)
        | inr other ↦ (subst (Has k) e (h.held k t (rw other at x))).1
      ])
      (λ u ne k x. (owner_back l k (some t) u s.owner (λ y. ne cc) x).0) (λ u ne k x. keep u k x) h

releases-IsSound :
    (s : Locks) (t : ℕ) (l : Lock) (actions : List Action)
    → s.rest t ≡ release l ∷ actions
    → s.owner l ≡ some t
    → IsSound s
    → IsSound (record { owner = with_owner l none s.owner; rest = with_rest t actions s.rest })
releases-IsSound s t l actions e own h =
    moved s t (with_owner l none s.owner) actions
      (release-Shape s.owner t l actions (subst (Shape s.owner t) e (h.shapes t)))
      (λ k x.
        let (had, other) = owner_back l k none t s.owner (λ y. cc) x in
        still_to_release k l actions other (subst (Has k) e (h.held k t had)))
      (λ u ne k x. (owner_back l k none u s.owner (λ y. cc) x).0)
      (λ u ne k x. kept_owner l k none u s.owner (λ y. ne cc) x) h

Step-IsSound : {s n : Locks} → Step Ordered s n → IsSound s → IsSound n
Step-IsSound {s} (acquires t l actions e free) h = acquires-IsSound s t l actions e free h
Step-IsSound {s} (releases t l actions e own) h = releases-IsSound s t l actions e own h
Step-IsSound {s} (begins t actions may e) h =
    moved s t s.owner actions (Ordered-Shape s.owner t actions may)
      (λ k x. absurd (subst (Has k) e (h.held k t x))) (λ u ne k x. x) (λ u ne k x. x) h

pub Reach-IsSound : {s n : Locks} → Reach Ordered s n → IsSound s → IsSound n
Reach-IsSound here h = h
Reach-IsSound (later r st) h = Step-IsSound st (Reach-IsSound r h)
