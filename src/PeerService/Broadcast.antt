-- ===== src/PeerService/Broadcast.antt =====
-- Whom BroadcastMessage reaches.
use lachain_communication_hu.Connection.Handshake.{is_empty}
use lachain_communication_hu.Base.{◌&&◌}
use lachain_communication_hu.Base.{inl}
use lachain_communication_hu.Connection.State.{not_connected, just_connected, handshake_complete}
use lachain_communication_hu.Base.{not}
use lachain_communication_hu.Base.{inr}
use lachain_communication_hu.Base.{◌∙◌}
use lachain_communication_hu.Connection.State.{terminated}
use lachain_communication_hu.Base.{true}
use lachain_communication_hu.Base.{◌++◌}
use lachain_communication_hu.Connection.State.{Status}
use lachain_communication_hu.Base.{ℕ}
use lachain_communication_hu.Connection.State.{add_to_queue}
use lachain_communication_hu.Base.{◌⊎◌}
use lachain_communication_hu.Base.{◌≢◌}
use lachain_communication_hu.Base.{false}
use lachain_communication_hu.Connection.State.{is_active}
use lachain_communication_hu.Base.{Bool}
use lachain_communication_hu.Base.{
  ◌≡◌, refl, ap, Option, none, some, List, [], ◌∷◌, arith, if◌then◌else◌, Text, lookup, keys,
  nat_eq, text_keys,
}
use lachain_communication_hu.Utils.Queue.{MessageEnvelop}
use lachain_communication_hu.Connection.State.{Connection, send}
use lachain_communication_hu.PeerService.State.{PeerService}
use lachain_communication_hu.PeerService.Operations.{broadcast, broadcast_message, passed_over}

-- What a broadcast makes of the connection under a key.
abbrev pub broadcast_to : MessageEnvelop → Option Connection → Option Connection
broadcast_to msg none = none
broadcast_to msg (some c) = some (if passed_over c then c else send msg c)

broadcast-keys :
    (msg : MessageEnvelop) (conns : List (Text × Connection))
    → keys (broadcast msg conns) ≡ keys conns
unfolding broadcast
broadcast-keys msg [] = refl
broadcast-keys msg ((id, c) ∷ conns) = ap (◌∷◌ id) (broadcast-keys msg conns)

pub lookup-broadcast :
    (msg : MessageEnvelop) (id : Text) (conns : List (Text × Connection))
    → lookup id (broadcast msg conns) ≡ broadcast_to msg (lookup id conns)
unfolding broadcast lookup
lookup-broadcast msg id [] = refl
lookup-broadcast msg id ((j, c) ∷ conns) = ground (arith, lookup-broadcast msg id conns)

-- A status and streams that make a connection active.
abbrev Active : Connection → Type 0
Active c =
    (c.status ≢ terminated)
    × (c.status ≢ not_connected)
    × ((c.inbound_stream ≢ none) ⊎ (c.outbound_stream ≢ none))

Active-cases :
    (s : Status) (i o : Option ℕ) (c : Connection)
    → (Active (record c { status = s; inbound_stream = i; outbound_stream = o })
        × (is_active (record c { status = s; inbound_stream = i; outbound_stream = o }) ≡ true))
      ⊎ ((¬ Active (record c { status = s; inbound_stream = i; outbound_stream = o }))
          × (is_active (record c { status = s; inbound_stream = i; outbound_stream = o }) ≡ false))
unfolding is_active
Active-cases terminated i o c = inr ((λ a. a.0 refl), refl)
Active-cases not_connected i o c = inr ((λ a. a.1 refl), refl)
Active-cases just_connected none none c =
    inr ((λ a. elim a.2 [ inl x ↦ x refl | inr x ↦ x refl ]), refl)
Active-cases just_connected none (some b) c = inl (((λ e. cc), (λ e. cc), inr (λ e. cc)), refl)
Active-cases just_connected (some b) o c = inl (((λ e. cc), (λ e. cc), inl (λ e. cc)), refl)
Active-cases handshake_complete none none c =
    inr ((λ a. elim a.2 [ inl x ↦ x refl | inr x ↦ x refl ]), refl)
Active-cases handshake_complete none (some b) c = inl (((λ e. cc), (λ e. cc), inr (λ e. cc)), refl)
Active-cases handshake_complete (some b) o c = inl (((λ e. cc), (λ e. cc), inl (λ e. cc)), refl)

-- Who is meant by a broadcast: every active connection, and every one whose peer has no key yet.
abbrev pub Meant : Connection → Type 0
Meant c = (c.peer_public_key ≡ []) ⊎ Active c

meant_by_key :
    (key : Text) (c : Connection) (b : Bool)
    → is_active c ≡ b
    → (Active c × (b ≡ true)) ⊎ ((¬ Active c) × (b ≡ false))
    → (((key ≡ []) ⊎ Active c) × ((not (is_active c) && not (is_empty key)) ≡ false))
      ⊎ ((¬ ((key ≡ []) ⊎ Active c)) × ((not (is_active c) && not (is_empty key)) ≡ true))
meant_by_key key c b e (inl (a, up)) = inl (inr a, rw (e ∙ up) refl)
meant_by_key [] c b e (inr (a, down)) = inl (inl refl, rw (e ∙ down) refl)
meant_by_key (k ∷ ks) c b e (inr (a, down)) =
    inr ((λ m. elim m [ inl x ↦ cc | inr x ↦ a x ]), rw (e ∙ down) refl)

passed_over-cases :
    (c : Connection) → (Meant c × (passed_over c ≡ false)) ⊎ ((¬ Meant c) × (passed_over c ≡ true))
passed_over-cases c =
    meant_by_key c.peer_public_key c (is_active c) refl
      (Active-cases c.status c.inbound_stream c.outbound_stream c)

send-open :
    (msg : MessageEnvelop) (bytes : List ℕ) (c : Connection)
    → msg.payload ≡ some bytes
    → c.is_banned ≡ false
    → send msg c ≡ record c { message_queue = c.message_queue ++ msg ∷ [] }
unfolding send add_to_queue
send-open msg bytes c given free =
    ap
      (λ (o : Option (List ℕ)). elim o [
        | none ↦ c
        | some d ↦ if c.is_banned then c else add_to_queue msg c
      ])
      given
    ∙ ap (λ (b : Bool). if b then c else add_to_queue msg c) free

-- What a broadcast of a message with data makes of a connection that is not banned: it gets the
-- message at the end of its queue if it is active (neither terminated nor without a first
-- connection, and with a stream) or if the key of its peer is not known; otherwise it stays as it
-- is. The keys of the connections and their order stay.
pub broadcast_message_lem :
    (msg : MessageEnvelop) (bytes : List ℕ) (ps : PeerService) (id : Text) (c : Connection)
    → msg.payload ≡ some bytes
    → lookup id ps.connections ≡ some c
    → c.is_banned ≡ false
    → (keys (broadcast_message msg ps).connections ≡ keys ps.connections)
      × ((Meant c
            × (lookup id (broadcast_message msg ps).connections
                ≡ some (record c { message_queue = c.message_queue ++ msg ∷ [] })))
          ⊎ ((¬ Meant c) × (lookup id (broadcast_message msg ps).connections ≡ some c)))
unfolding broadcast_message
broadcast_message_lem msg bytes ps id c given there free =
    let found = lookup-broadcast msg id ps.connections ∙ ap (broadcast_to msg) there in
    let choice = λ (b : Bool). some (if b then c else send msg c) in
    (
      broadcast-keys msg ps.connections,
      elim (passed_over-cases c) [
        | inl (m, e) ↦ inl (m, found ∙ ap choice e ∙ ap some (send-open msg bytes c given free))
        | inr (m, e) ↦ inr (m, found ∙ ap choice e)
      ],
    )
