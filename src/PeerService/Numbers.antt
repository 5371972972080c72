-- ===== src/PeerService/Numbers.antt =====
-- The numbers of the peers: each number that was given out leads to its connection.
use mathlib.Core.Path.{subst}
use lachain_communication_hu.Base.{
  ne→==, ==_self, ℕ, ◌+◌, ◌^◌, ◌<◌, ◌≡◌, refl, sym, ap, ◌∙◌, ◌≢◌, inl, inr, false, none, some, List,
  [], ◌∷◌, arith, Bool-cases, Text, text_eq, text_eq_iff, lookup, insert, nat_eq, text_keys,
  lookup-insert,
}
use native.Mathlib.Decide.{dec_lt}
use lachain_communication_hu.Connection.State.{Connection, Event, new}
use lachain_communication_hu.PeerService.State.{
  PeerService, find_by_public_key, with_connection, get_next_peer_id,
}
use lachain_communication_hu.PeerService.Operations.{register}

-- A number leads to a connection that bears it.
pub record Leads (u : ℕ) (peer_ids : List (ℕ × Text)) (conns : List (Text × Connection))
    : Type 0 where
  pub id : Text
  pub connection : Connection
  pub peer : lookup u peer_ids ≡ some id
  pub place : lookup id conns ≡ some connection
  pub number : connection.uniq_id ≡ u

-- No key stands twice.
abbrev pub Distinct : List (Text × Connection) → Type 0
Distinct [] = Unit {0}
Distinct ((id, c) ∷ conns) = (lookup id conns ≡ none) × Distinct conns

pub record Numbered (ps : PeerService) : Type 0 where
  pub leads : (u : ℕ) → u < ps.total_peers → Leads u ps.peer_ids ps.connections
  pub distinct : Distinct ps.connections

text_eq_sym : (a b : Text) → text_eq a b ≡ text_eq b a
text_eq_sym a b = ground (arith, text_eq_iff a b, text_eq_iff b a)

insert-none :
    (id j : Text) (c : Connection) (conns : List (Text × Connection))
    → text_eq id j ≡ false
    → lookup j conns ≡ none
    → lookup j (insert id c conns) ≡ none
insert-none id j c conns ne h = rw (lookup-insert id j c conns, ne) h

insert-Distinct :
    (id : Text) (c : Connection) (conns : List (Text × Connection))
    → Distinct conns
    → Distinct (insert id c conns)
unfolding insert
insert-Distinct id c [] d = (unfold lookup in refl, tt)
insert-Distinct id c ((j, w) ∷ conns) d = elim (Bool-cases (text_eq j id)) [
  | inl same ↦ rw same d
  | inr other ↦
      rw other
        (insert-none id j c conns (text_eq_sym id j ∙ other) d.0, insert-Distinct id c conns d.1)
]

-- The connection that is found by its public key is the one under its own key.
pub find-lookup :
    (key id : Text) (c : Connection) (conns : List (Text × Connection))
    → Distinct conns
    → find_by_public_key key conns ≡ some (id, c)
    → lookup id conns ≡ some c
unfolding find_by_public_key lookup
find-lookup key id c [] d e = cc
find-lookup key id c ((j, w) ∷ conns) d e =
    ground (arith, find-lookup key id c conns d.1, text_eq_iff j id, d.0)

-- A replaced connection, with the same number.
replace-Leads :
    (u : ℕ) (peer_ids : List (ℕ × Text)) (conns : List (Text × Connection)) (id : Text)
    (c c' : Connection)
    → lookup id conns ≡ some c
    → c'.uniq_id ≡ c.uniq_id
    → Leads u peer_ids conns
    → Leads u peer_ids (insert id c' conns)
replace-Leads u peer_ids conns id c c' found same l = elim (Bool-cases (text_eq id l.id)) [
  | inl hit ↦
      let at_id : lookup l.id conns ≡ some c =
        ap (λ (k : Text). lookup k conns) (sym ((text_eq_iff id l.id).0 hit)) ∙ found in
      let is_c : l.connection ≡ c = ground (arith, at_id, l.place) in
      record {
        id = l.id;
        connection = c';
        peer = l.peer;
        place = rw (lookup-insert id l.id c' conns, hit);
        number = same ∙ ap (λ (x : Connection). x.uniq_id) (sym is_c) ∙ l.number;
      }
  | inr miss ↦ record {
    id = l.id;
    connection = l.connection;
    peer = l.peer;
    place = rw (lookup-insert id l.id c' conns, miss) l.place;
    number = l.number;
  }
]

-- A new connection under a new number.
register_old-Leads :
    (u v : ℕ) (peer_ids : List (ℕ × Text)) (conns : List (Text × Connection)) (id : Text)
    (c : Connection)
    → lookup id conns ≡ none
    → v ≢ u
    → Leads u peer_ids conns
    → Leads u (insert v id peer_ids) (insert id c conns)
register_old-Leads u v peer_ids conns id c new ne l = record {
  id = l.id;
  connection = l.connection;
  peer = rw (lookup-insert v u id peer_ids, ne→== v u ne) l.peer;
  place = rw (lookup-insert id l.id c conns, apart) l.place;
  number = l.number;
}
  where
    apart : text_eq id l.id ≡ false
    apart = elim (Bool-cases (text_eq id l.id)) [
      | inl hit ↦ cc (ap (λ (k : Text). lookup k conns) ((text_eq_iff id l.id).0 hit), l.place, new)
      | inr miss ↦ miss
    ]

register_new-Leads :
    (v : ℕ) (peer_ids : List (ℕ × Text)) (conns : List (Text × Connection)) (id : Text)
    (c : Connection)
    → c.uniq_id ≡ v
    → Leads v (insert v id peer_ids) (insert id c conns)
register_new-Leads v peer_ids conns id c same = record {
  id = id;
  connection = c;
  peer = rw (lookup-insert v v id peer_ids, ==_self v);
  place = rw (lookup-insert id id c conns, (text_eq_iff id id).1 refl);
  number = same;
}

module _ (ps : PeerService) (n : Numbered ps) where
  -- A connection is replaced by one with the same number.
  pub with_connection-Numbered :
      (id : Text) (c c' : Connection)
      → lookup id ps.connections ≡ some c
      → c'.uniq_id ≡ c.uniq_id
      → Numbered (with_connection id c' ps)
  with_connection-Numbered id c c' found same = record {
    leads = λ u lt. replace-Leads u ps.peer_ids ps.connections id c c' found same (n.leads u lt);
    distinct = insert-Distinct id c' ps.connections n.distinct;
  }

  -- A new connection takes the next number.
  pub register-Numbered :
      (id : Text) (e : Connection × List Event)
      → ps.total_peers + 1 < 2 ^ 32
      → lookup id ps.connections ≡ none
      → e.0.uniq_id ≡ ps.total_peers
      → Numbered (register id ps.total_peers e (get_next_peer_id ps).1).0
  unfolding get_next_peer_id
  register-Numbered id e small new same = record {
    leads = λ u lt. elim (dec_lt u ps.total_peers) [
      | yes old ↦
          register_old-Leads u ps.total_peers ps.peer_ids ps.connections id e.0 new (omega arith)
            (n.leads u old)
      | no last ↦
          let is_last : ps.total_peers ≡ u = omega arith in
          subst
            (λ (k : ℕ).
              Leads k (insert ps.total_peers id ps.peer_ids) (insert id e.0 ps.connections))
            is_last (register_new-Leads ps.total_peers ps.peer_ids ps.connections id e.0 same)
    ];
    distinct = insert-Distinct id e.0 ps.connections n.distinct;
  }
