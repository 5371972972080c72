-- ===== src/PeerService/Numbering.antt =====
-- The numbers of the peers after the methods that make connections or set keys.
use lachain_communication_hu.Base.{
  sym, not, if◌then◌else◌, ◌++◌, ℕ, ◌+◌, ◌^◌, ◌≤◌, ◌<◌, ◌≡◌, refl, ap, inl, inr, Bool, Option, none,
  some, List, [], ◌∷◌, arith, length, All, Outcome, ok, err, panic, Bool-cases, Option-cases, Text,
  text_eq, lookup, nat_eq, text_keys,
}
use lachain_communication_hu.PeerService.Operations.{
  with_answer, emitted_first, take_peer, add_connection, known_peer, connect, on_connect,
  update_peers, update_peer_list, recovered, sign, signed_with, handle_event, handle_events,
  set_key_of, set_key_under,
}
use lachain_communication_hu.PeerService.State.{
  with_connection, PeerService, Emitted, get_next_peer_id,
}
use mathlib.Core.Path.{subst}
use lachain_communication_hu.Connection.Handshake.{try_set_peer_public_key}
use lachain_communication_hu.Utils.Platform.{Platform}
use lachain_communication_hu.Utils.Crypto.{CryptoError}
use lachain_communication_hu.Connection.State.{
  Connection, Event, reset, on_message, on_public_key_recovered, on_peer_list_update, started,
  inbound_measured, outbound_measured,
}
use lachain_communication_hu.Connection.Metadata.{Metadata}
use lachain_communication_hu.PeerService.Calls.{
  other_fields, known_peer-Numbered, add_connection-Numbered, onto_stream-Numbered,
  recovered-Numbered, sign_all-Numbered, KeyEvent, Holds, after-Holds, try_set-uniq,
  try_set-KeyEvent,
}
use lachain_communication_hu.PeerService.Numbers.{Numbered, with_connection-Numbered}

known_peer-total :
    (o : Option Connection) (key : Text) (peer : Metadata) (ps : PeerService)
    → Holds (λ (q : PeerService). q.total_peers ≤ ps.total_peers + 1) (known_peer o key peer ps)
unfolding add_connection get_next_peer_id
known_peer-total (some c) key peer ps = omega arith
known_peer-total none key peer ps = elim (Option-cases peer.addr) [
  | inl e ↦ rw e tt
  | inr (a, e) ↦ rw e (omega arith)
]

both :
    (P Q : PeerService → Type 0) (o : Option (PeerService × Emitted))
    → Holds P o
    → Holds Q o
    → Holds (λ (q : PeerService). P q × Q q) o
both P Q none h k = tt
both P Q (some (ps, emitted)) h k = (h, k)

module _ (lib : Platform) where
  pub connect-Numbered :
      (id : Text) (address : Option (List ℕ)) (ps : PeerService)
      → Numbered ps
      → ps.total_peers + 1 < 2 ^ 32
      → Holds Numbered (connect lib id address ps)
  unfolding connect
  connect-Numbered id address ps n small = elim (Bool-cases (text_eq id ps.host_id)) [
    | inl self ↦ rw self n
    | inr other ↦ rw other (elim (Option-cases (lookup (lib.pretty id) ps.connections)) [
      | inl fresh ↦
          rw fresh (add_connection-Numbered ps n (lib.pretty id) id address none small fresh)
      | inr (c, found) ↦ rw found n
    ])
  ]

  pub on_connect-Numbered :
      (peer : Text) (stream : ℕ) (address : List ℕ) (ps : PeerService)
      → Numbered ps
      → ps.total_peers + 1 < 2 ^ 32
      → Numbered (on_connect lib peer stream address ps).0
  unfolding on_connect
  on_connect-Numbered peer stream address ps n small =
      let after = onto_stream-Numbered ps n _ (lib.pretty peer) stream address peer small refl in
      ground (arith, after)

  take_peer-Numbered :
      (peer : Metadata) (ps : PeerService)
      → Numbered ps
      → ps.total_peers + 1 < 2 ^ 32
      → Holds
          (λ (q : PeerService). Numbered q × (q.total_peers ≤ ps.total_peers + 1))
          (take_peer lib peer ps)
  take_peer-Numbered peer ps n small = elim (Bool-cases (text_eq peer.id ps.host_id)) [
    | inl self ↦ rw self (n, omega arith)
    | inr other ↦
        let key = lib.pretty peer.id in
        let o = lookup key ps.connections in
        rw other (
          both Numbered (λ (q : PeerService). q.total_peers ≤ ps.total_peers + 1)
            (known_peer o key peer ps) (known_peer-Numbered ps n o key peer small refl)
            (known_peer-total o key peer ps))
  ]

  update_peers-Numbered :
      (peers : List Metadata) (ps : PeerService)
      → Numbered ps
      → ps.total_peers + length peers < 2 ^ 32
      → Holds Numbered (update_peers lib peers ps)
  unfolding update_peers
  update_peers-Numbered [] ps n small = n
  update_peers-Numbered (peer ∷ peers) ps n small =
      after-Holds (λ (q : PeerService). Numbered q × (q.total_peers ≤ ps.total_peers + 1)) Numbered
        (take_peer lib peer ps) (update_peers lib peers)
        (take_peer-Numbered peer ps n (omega arith))
        λ q (m, grown). update_peers-Numbered peers q m (omega arith)

  pub update_peer_list-Numbered :
      (peers : List Metadata) (ps : PeerService)
      → Numbered ps
      → ps.total_peers + length peers < 2 ^ 32
      → Holds Numbered (update_peer_list lib peers ps)
  unfolding update_peer_list
  update_peer_list-Numbered peers ps n small = elim (Bool-cases ps.running) [
    | inl up ↦
        subst
          (λ (b : Bool).
            Holds Numbered (if not b then some (ps, []) else update_peers lib peers ps))
          (sym up) (update_peers-Numbered peers ps n small)
    | inr down ↦
        subst
          (λ (b : Bool).
            Holds Numbered (if not b then some (ps, []) else update_peers lib peers ps))
          (sym down) n
  ]

  module _ (chain_id : ℕ) where
    handle_events-Numbered :
        (id : Text) (events : List Event) (ps : PeerService)
        → All KeyEvent events
        → Numbered ps
        → (r : PeerService × Emitted) × (handle_events lib chain_id id events ps ≡ some r)
          × Numbered r.0
    unfolding handle_events handle_event
    handle_events-Numbered id [] ps k n = ((ps, []), refl, n)
    handle_events-Numbered id (on_public_key_recovered key ∷ es) ps k n =
        let (r, e, m) =
          handle_events-Numbered id es (recovered id key ps) k.1 (recovered-Numbered ps n id key) in
        ((r.0, [] ++ r.1), ap (emitted_first []) e, m)
    handle_events-Numbered id (on_peer_list_update peers ∷ es) ps k n = absurd k.0
    handle_events-Numbered id (on_message m ∷ es) ps k n =
        let (r, e, m) = handle_events-Numbered id es ps k.1 n in
        ((r.0, [] ++ r.1), ap (emitted_first []) e, m)
    handle_events-Numbered id (reset s ∷ es) ps k n =
        let (r, e, m) = handle_events-Numbered id es ps k.1 n in
        ((r.0, [] ++ r.1), ap (emitted_first []) e, m)
    handle_events-Numbered id (started g ∷ es) ps k n =
        let (r, e, m) = handle_events-Numbered id es ps k.1 n in
        ((r.0, [] ++ r.1), ap (emitted_first []) e, m)
    handle_events-Numbered id (inbound_measured m ∷ es) ps k n =
        let (r, e, m) = handle_events-Numbered id es ps k.1 n in
        ((r.0, [] ++ r.1), ap (emitted_first []) e, m)
    handle_events-Numbered id (outbound_measured m ∷ es) ps k n =
        let (r, e, m) = handle_events-Numbered id es ps k.1 n in
        ((r.0, [] ++ r.1), ap (emitted_first []) e, m)

    -- The service after a call of SetPeerPublicKey that does not panic.
    abbrev pub After : Option (Bool × PeerService × Emitted) → Type 0
    After none = Unit {0}
    After (some (b, ps, emitted)) = Numbered ps

    -- The loop of the callbacks does not panic on the events of setting a key.
    pub set_key_of-some :
        (c : Connection) (key id : Text) (ps : PeerService)
        → lookup id ps.connections ≡ some c
        → Numbered ps
        → (r : Bool × PeerService × Emitted) × (set_key_of lib chain_id (some c) key id ps ≡ some r)
          × Numbered r.1
    set_key_of-some c key id ps e n =
        let (done, c', events) = try_set_peer_public_key lib chain_id key c in
        let (r, handled, m) =
          handle_events-Numbered id events (with_connection id c' ps)
            (try_set-KeyEvent lib chain_id key c)
            (with_connection-Numbered ps n id c c' e (try_set-uniq lib chain_id key c)) in
        (
          (done, r.0, ((id, events) ∷ []) ++ r.1),
          ap (with_answer lib chain_id done ((id, events) ∷ [])) handled,
          m,
        )

    set_key_of-After :
        (o : Option Connection) (key id : Text) (ps : PeerService)
        → lookup id ps.connections ≡ o
        → Numbered ps
        → After (set_key_of lib chain_id o key id ps)
    set_key_of-After none key id ps e n = tt
    set_key_of-After (some c) key id ps e n =
        let (r, set, m) = set_key_of-some c key id ps e n in rw set m

    pub set_key_under-After :
        (o : Option Text) (key : Text) (ps : PeerService)
        → Numbered ps
        → After (set_key_under lib chain_id o key ps)
    set_key_under-After none key ps n = tt
    set_key_under-After (some id) key ps n = set_key_of-After _ key id ps refl n

    signed_with-After :
        (r : Outcome CryptoError (List ℕ)) (sig : List ℕ) (ps : PeerService)
        → Numbered ps
        → After (signed_with lib chain_id r sig ps)
    signed_with-After panic sig ps n = tt
    signed_with-After (err e) sig ps n = n
    signed_with-After (ok key) sig ps n =
        other_fields _ _ (sign_all-Numbered ps n sig) refl refl refl

    pub sign-After :
        (sig : List ℕ) (ps : PeerService) → Numbered ps → After (sign lib chain_id sig ps)
    unfolding sign
    sign-After sig ps n = elim (Option-cases (lib.marshal ps.host_id)) [
      | inl failed ↦ rw failed n
      | inr (id, e) ↦ rw e (signed_with-After _ sig ps n)
    ]
