-- ===== src/PeerService/Strangers.antt =====
-- Lists of peers on which updatePeerList panics.
use mathlib.Core.Path.{subst}
use lachain_communication_hu.Base.{
  ◌≡◌, refl, sym, ap, ◌∙◌, ◌↔◌, ◌⊎◌, inl, inr, Bool, true, false, not, Option, none, some, List, [],
  ◌∷◌, ◌++◌, All, if◌then◌else◌, Bool-cases, Option-cases, Text, text_eq, lookup, insert,
  lookup-insert, nat_eq, text_keys,
}
use lachain_communication_hu.Utils.Platform.{Platform}
use lachain_communication_hu.Connection.State.{Connection, new_at}
use lachain_communication_hu.Connection.Metadata.{Metadata}
use lachain_communication_hu.PeerService.State.{
  PeerService, Emitted, with_connection, get_next_peer_id,
}
use lachain_communication_hu.PeerService.Operations.{
  add_connection, emitted_first, register, set_address_of, take_peer, update_peers,
  update_peer_list,
}

insert-unknown :
    (k key : Text) (c : Connection) (conns : List (Text × Connection))
    → lookup key (insert k c conns) ≡ none
    → (lookup key conns ≡ none) × (text_eq k key ≡ false)
insert-unknown k key c conns e = elim (Bool-cases (text_eq k key)) [
  | inl same ↦ cc (lookup-insert k key c conns)
  | inr apart ↦ (sym (lookup-insert k key c conns ∙ rw apart refl) ∙ e, apart)
]

emitted_first-none :
    (emitted : Emitted) (o : Option (PeerService × Emitted))
    → emitted_first emitted o ≡ none
    → o ≡ none
emitted_first-none emitted none e = refl
emitted_first-none emitted (some r) e = cc

module _ (lib : Platform) where
  -- A peer of the list that makes no connection under the key.
  abbrev pub Apart : Text → Text → Metadata → Type 0
  Apart host_id key q = (text_eq q.id host_id ≡ true) ⊎ (text_eq (lib.pretty q.id) key ≡ false)

  -- A peer with no address, other than the node, whose key is new to the service and to the part of
  -- the list before it.
  pub record Stranger (ps : PeerService) (before : List Metadata) (peer : Metadata) : Type 0 where
    pub other : text_eq peer.id ps.host_id ≡ false
    pub nowhere : peer.addr ≡ none
    pub unknown : lookup (lib.pretty peer.id) ps.connections ≡ none
    pub apart : All (Apart ps.host_id (lib.pretty peer.id)) before

  -- A peer of the list is taken, and which keys are new after it.
  record Goes (q : Metadata) (ps : PeerService) (r : PeerService × Emitted) : Type 0 where
    taken : take_peer lib q ps ≡ some r
    host : r.0.host_id ≡ ps.host_id
    keeps :
        (key : Text)
        → lookup key ps.connections ≡ none
        → Apart ps.host_id key q
        → lookup key r.0.connections ≡ none
    was :
        (key : Text)
        → lookup key r.0.connections ≡ none
        → (lookup key ps.connections ≡ none) × Apart ps.host_id key q

  inserted-Goes :
      (q : Metadata) (ps : PeerService) (r : PeerService × Emitted) (c : Connection)
      → text_eq q.id ps.host_id ≡ false
      → take_peer lib q ps ≡ some r
      → r.0.host_id ≡ ps.host_id
      → r.0.connections ≡ insert (lib.pretty q.id) c ps.connections
      → Goes q ps r
  inserted-Goes q ps r c other taken host conns = record {
    taken = taken;
    host = host;
    keeps = λ key unknown apart.
        ap (lookup key) conns
        ∙ lookup-insert (lib.pretty q.id) key c ps.connections
        ∙ (elim apart [ inl self ↦ cc | inr away ↦ rw away unknown ]);
    was = λ key unknown.
        let (old, away) =
          insert-unknown (lib.pretty q.id) key c ps.connections
            (ap (lookup key) (sym conns) ∙ unknown) in
        (old, inr away);
  }

  take_peer-cases :
      (q : Metadata) (ps : PeerService)
      → ((take_peer lib q ps ≡ none) × Stranger ps [] q)
        ⊎ ((r : PeerService × Emitted) × Goes q ps r)
  unfolding add_connection get_next_peer_id
  take_peer-cases q ps = elim (Bool-cases (text_eq q.id ps.host_id)) [
    | inl self ↦ inr (
      (ps, []),
      record {
        taken = rw self refl;
        host = refl;
        keeps = λ key unknown apart. unknown;
        was = λ key unknown. (unknown, inl self);
      },
    )
    | inr other ↦ elim (Option-cases (lookup (lib.pretty q.id) ps.connections)) [
      | inr (c, found) ↦
          let c' = set_address_of q.addr c in
          let r : PeerService × Emitted = (with_connection (lib.pretty q.id) c' ps, []) in
          inr (r, inserted-Goes q ps r c' other (rw (other, found) refl) refl refl)
      | inl fresh ↦ elim (Option-cases q.addr) [
        | inl nowhere ↦ inl (
          rw (other, fresh, nowhere) refl,
          record { other = other; nowhere = nowhere; unknown = fresh; apart = tt },
        )
        | inr (a, e) ↦
            let (n, ps') = get_next_peer_id ps in
            let made = new_at q.id ps.protocol ps.my_external_address a ps.signature n in
            let r = register (lib.pretty q.id) n made ps' in
            inr (r, inserted-Goes q ps r made.0 other (rw (other, fresh, e) refl) refl refl)
      ]
    ]
  ]

  Stranger-none :
      (before : List Metadata) (peer : Metadata) (after : List Metadata) (ps : PeerService)
      → Stranger ps before peer
      → update_peers lib (before ++ peer ∷ after) ps ≡ none
  unfolding update_peers add_connection get_next_peer_id
  Stranger-none [] peer after ps h =
      let panics : take_peer lib peer ps ≡ none = rw (h.other, h.unknown, h.nowhere) refl in
      rw (update_peers, panics) refl
  Stranger-none (b ∷ before) peer after ps h = elim (take_peer-cases b ps) [
    | inl (e, s) ↦ rw (update_peers, e) refl
    | inr (r, g) ↦
        rw (update_peers, g.taken)
          (ap (emitted_first r.1) (
            Stranger-none before peer after r.0 (record {
              other = rw g.host h.other;
              nowhere = h.nowhere;
              unknown = g.keeps (lib.pretty peer.id) h.unknown h.apart.0;
              apart = rw g.host h.apart.1;
            })))
  ]

  abbrev pub HasStranger : List Metadata → PeerService → Type 0
  HasStranger peers ps =
      (before : List Metadata) × (peer : Metadata) × (after : List Metadata) × (peers
        ≡ before ++ peer ∷ after)
      × Stranger ps before peer

  none-Stranger :
      (peers : List Metadata) (ps : PeerService)
      → update_peers lib peers ps ≡ none
      → HasStranger peers ps
  unfolding update_peers
  none-Stranger [] ps e = cc
  none-Stranger (q ∷ peers) ps e = elim (take_peer-cases q ps) [
    | inl (gone, s) ↦ ([], q, peers, refl, s)
    | inr (r, g) ↦
        let rest =
          emitted_first-none r.1 (update_peers lib peers r.0) (rw (update_peers, g.taken) at e) in
        let (before, peer, after, split, s) = none-Stranger peers r.0 rest in
        let (old, away) = g.was (lib.pretty peer.id) s.unknown in
        (
          q ∷ before,
          peer,
          after,
          ap (◌∷◌ q) split,
          record {
            other = sym (ap (text_eq peer.id) g.host) ∙ s.other;
            nowhere = s.nowhere;
            unknown = old;
            apart = (
              away,
              subst (λ (h : Text). All (Apart h (lib.pretty peer.id)) before) g.host s.apart,
            );
          },
        )
  ]

  -- A running service panics on a list of peers exactly if the list names, at some place, a peer
  -- without an address that is not the node itself, that has no connection, and that no peer before
  -- it in the list gets one for.
  pub update_peer_list-none :
      (peers : List Metadata) (ps : PeerService)
      → ps.running ≡ true
      → (update_peer_list lib peers ps ≡ none) ↔ HasStranger peers ps
  unfolding update_peer_list
  update_peer_list-none peers ps up =
      let run : update_peer_list lib peers ps ≡ update_peers lib peers ps =
        ap (λ (b : Bool). if not b then some (ps, []) else update_peers lib peers ps) up in
      (
        (λ e. none-Stranger peers ps (sym run ∙ e)),
        λ h.
            run
            ∙ ap (λ (x : List Metadata). update_peers lib x ps) h.3
            ∙ Stranger-none h.0 h.1 h.2 ps h.4,
      )
