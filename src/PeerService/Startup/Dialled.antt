-- ===== src/PeerService/Startup/Dialled.antt =====
-- The loop of New that connects to the bootstrap peers, and the connections that it makes.
use lachain_communication_hu.Connection.State.{new_at, Connection, init}
use lachain_communication_hu.Base.{
  keys-insert_new, ℕ, ◌+◌, ◌^◌, ◌<◌, ◌≡◌, refl, sym, ap, ◌∙◌, inl, inr, true, false, Option, none,
  some, List, [], ◌∷◌, ◌++◌, append-nil, append_assoc, arith, length, All, if◌then◌else◌,
  Bool-cases, Text, text_eq, lookup, insert, nat_eq, text_keys, lookup-insert,
}
use lachain_communication_hu.Utils.Platform.{Platform}
use lachain_communication_hu.PeerService.State.{PeerService, Emitted, get_next_peer_id}
use lachain_communication_hu.PeerService.Operations.{connect, add_connection}
use lachain_communication_hu.PeerService.Startup.{connect_all}

abbrev pub ids_of : List (Text × List ℕ) → List Text
ids_of [] = []
ids_of ((id, addr) ∷ peers) = id ∷ ids_of peers

abbrev pub addrs_of : List (Text × List ℕ) → List (List ℕ)
addrs_of [] = []
addrs_of ((id, addr) ∷ peers) = addr ∷ addrs_of peers

module _ (lib : Platform) where
  -- No two of the peers have one name.
  abbrev pub Distinct : List (Text × List ℕ) → Type 0
  Distinct [] = Unit {0}
  Distinct ((id, addr) ∷ peers) =
      All (λ (other : Text × List ℕ). text_eq (lib.pretty id) (lib.pretty other.0) ≡ false) peers
      × Distinct peers

  abbrev pub Fresh : List (Text × Connection) → List (Text × List ℕ) → Type 0
  Fresh conns peers = All (λ (peer : Text × List ℕ). lookup (lib.pretty peer.0) conns ≡ none) peers

  module _ (host_id : Text) (address : List ℕ) (protocol : Text) where
    -- The connections to the peers but the node itself, numbered from n on.
    unfoldable pub dialled : ℕ → List (Text × List ℕ) → List (Text × Connection)
    dialled n [] = []
    dialled n ((id, addr) ∷ peers) =
        if text_eq id host_id
        then dialled n peers
        else (lib.pretty id, record (init id protocol address n) { peer_address = some addr })
          ∷ dialled (n + 1) peers

  pub Fresh-nil : (peers : List (Text × List ℕ)) → Fresh [] peers
  unfolding lookup
  Fresh-nil [] = tt
  Fresh-nil (p ∷ peers) = (refl, Fresh-nil peers)

  Fresh-insert :
      (k : Text) (c : Connection) (conns : List (Text × Connection)) (peers : List (Text × List ℕ))
      → All (λ (other : Text × List ℕ). text_eq k (lib.pretty other.0) ≡ false) peers
      → Fresh conns peers
      → Fresh (insert k c conns) peers
  Fresh-insert k c conns [] d f = tt
  Fresh-insert k c conns (p ∷ peers) (d, ds) (f, fs) =
      (lookup-insert k (lib.pretty p.0) c conns ∙ rw d f, Fresh-insert k c conns peers ds fs)

  -- The service after a connection to a peer that it did not know.
  abbrev Joined : Text → List ℕ → PeerService → PeerService → Type 0
  Joined id addr ps ps' =
      (ps'.host_id ≡ ps.host_id)
      × (ps'.my_external_address ≡ ps.my_external_address)
      × (ps'.protocol ≡ ps.protocol)
      × (ps'.signature ≡ none)
      × (ps'.total_peers ≡ ps.total_peers + 1)
      × (ps'.connections
          ≡ insert (lib.pretty id)
              (record (init id ps.protocol ps.my_external_address ps.total_peers) {
                peer_address = some addr;
              })
              ps.connections)

  add_connection-Joined :
      (id : Text) (addr : List ℕ) (ps : PeerService)
      → ps.signature ≡ none
      → ps.total_peers + 1 < 2 ^ 32
      → (r : PeerService × Emitted) × (add_connection (lib.pretty id) id (some addr) none ps
          ≡ some r)
        × Joined id addr ps r.0
  unfolding add_connection get_next_peer_id new_at
  add_connection-Joined id addr ps s small = (_, refl, (refl, refl, refl, s, omega arith, refl))

  connect_all-cons :
      (id : Text) (addr : List ℕ) (ids : List Text) (addrs : List (List ℕ)) (ps : PeerService)
      (emitted : Emitted) (r : PeerService × Emitted)
      → connect lib id (some addr) ps ≡ some r
      → connect_all lib (id ∷ ids) (addr ∷ addrs) ps emitted
        ≡ connect_all lib ids addrs r.0 (emitted ++ r.1)
  unfolding connect_all
  connect_all-cons id addr ids addrs ps emitted r e = rw (connect_all, e) refl

  connect-known :
      (id : Text) (address : Option (List ℕ)) (ps : PeerService)
      → text_eq id ps.host_id ≡ true
      → connect lib id address ps ≡ some (ps, [])
  unfolding connect
  connect-known id address ps self = rw self refl

  connect-fresh :
      (id : Text) (address : Option (List ℕ)) (ps : PeerService)
      → text_eq id ps.host_id ≡ false
      → lookup (lib.pretty id) ps.connections ≡ none
      → connect lib id address ps ≡ add_connection (lib.pretty id) id address none ps
  unfolding connect
  connect-fresh id address ps other f = rw (other, f) refl

  abbrev pub Ends :
      List Text → List (List ℕ) → PeerService → Emitted → List (Text × Connection) → Type 0
  Ends ids addrs ps emitted conns =
      (r : PeerService × Emitted) × (connect_all lib ids addrs ps emitted ≡ some r)
      × (r.0.connections ≡ conns)

  dialled_self :
      (id host : Text) (addr address : List ℕ) (protocol : Text) (n : ℕ)
      (peers : List (Text × List ℕ))
      → text_eq id host ≡ true
      → dialled host address protocol n ((id, addr) ∷ peers) ≡ dialled host address protocol n peers
  unfolding dialled
  dialled_self id host addr address protocol n peers e = rw e refl

  dialled_other :
      (id host : Text) (addr address : List ℕ) (protocol : Text) (n : ℕ)
      (peers : List (Text × List ℕ))
      → text_eq id host ≡ false
      → dialled host address protocol n ((id, addr) ∷ peers)
        ≡ (lib.pretty id, record (init id protocol address n) { peer_address = some addr })
          ∷ dialled host address protocol (n + 1) peers
  unfolding dialled
  dialled_other id host addr address protocol n peers e = rw e refl

  Joined-dialled :
      (id : Text) (addr : List ℕ) (peers : List (Text × List ℕ)) (ps ps' : PeerService)
      → Joined id addr ps ps'
      → text_eq id ps.host_id ≡ false
      → lookup (lib.pretty id) ps.connections ≡ none
      → ps'.connections
          ++ dialled ps'.host_id ps'.my_external_address ps'.protocol ps'.total_peers peers
        ≡ ps.connections
          ++ dialled ps.host_id ps.my_external_address ps.protocol ps.total_peers
              ((id, addr) ∷ peers)
  Joined-dialled id addr peers ps ps' (h, a, p, sg, t, e) other f =
      let c = record (init id ps.protocol ps.my_external_address ps.total_peers) {
        peer_address = some addr;
      } in
      let rest = dialled ps.host_id ps.my_external_address ps.protocol (ps.total_peers + 1) peers in
      rw
        (
          h,
          a,
          p,
          t,
          e,
          keys-insert_new (lib.pretty id) c ps.connections f,
          dialled_other id ps.host_id addr ps.my_external_address ps.protocol ps.total_peers peers
              other,
        )
        (append_assoc ps.connections ((lib.pretty id, c) ∷ []) rest)

  pub connect_all-dialled :
      (peers : List (Text × List ℕ)) (ps : PeerService) (emitted : Emitted)
      → Distinct peers
      → Fresh ps.connections peers
      → ps.signature ≡ none
      → ps.total_peers + length peers < 2 ^ 32
      → Ends (ids_of peers) (addrs_of peers) ps emitted (
          ps.connections
          ++ dialled ps.host_id ps.my_external_address ps.protocol ps.total_peers peers)
  unfolding connect_all dialled
  connect_all-dialled [] ps emitted d f s small =
      ((ps, emitted), refl, sym (append-nil ps.connections))
  connect_all-dialled ((id, addr) ∷ peers) ps emitted (d, ds) (f, fs) s small =
      elim (Bool-cases (text_eq id ps.host_id)) [
        | inl self ↦
            let (r, made, conns) =
              connect_all-dialled peers ps (emitted ++ []) ds fs s (omega arith) in
            let first =
              connect_all-cons id addr (ids_of peers) (addrs_of peers) ps emitted (ps, [])
                (connect-known id (some addr) ps self) in
            (
              r,
              first ∙ made,
              conns
                  ∙ ap (λ x. ps.connections ++ x)
                      (sym (
                        dialled_self id ps.host_id addr ps.my_external_address ps.protocol
                          ps.total_peers peers self)),
            )
        | inr other ↦
            let (added, joins, joined) = add_connection-Joined id addr ps s (omega arith) in
            let (h, a, p, sg, t, e) = joined in
            let c = record (init id ps.protocol ps.my_external_address ps.total_peers) {
              peer_address = some addr;
            } in
            let (r, made, conns) =
              connect_all-dialled peers added.0 (emitted ++ added.1) ds
                (rw e (Fresh-insert (lib.pretty id) c ps.connections peers d fs)) sg
                (rw t (omega arith)) in
            let first =
              connect_all-cons id addr (ids_of peers) (addrs_of peers) ps emitted added
                (connect-fresh id (some addr) ps other f ∙ joins) in
            (r, first ∙ made, conns ∙ Joined-dialled id addr peers ps added.0 joined other f)
      ]
