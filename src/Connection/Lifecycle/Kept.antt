-- ===== src/Connection/Lifecycle/Kept.antt =====
-- What an operation keeps of a connection's status and key.
use lachain_communication_hu.Base.{
  ℕ, ◌≡◌, refl, sym, ◌∙◌, ◌≢◌, ◌⊎◌, inl, inr, false, List, [], arith, Bool-cases, nat_eq, text_keys,
}
use lachain_communication_hu.Utils.Queue.{MessageEnvelop}
use lachain_communication_hu.Connection.State.{
  Connection, Status, not_connected, just_connected, handshake_complete, terminated, status_eq, cas,
  reset_inbound_stream, reset_outbound_stream, send, add_to_queue, set_inbound_stream,
  set_signature, terminate,
}
use lachain_communication_hu.Connection.Outbound.{Network, open_stream, check_outbound_stream}

-- A terminated connection stays so, and a connection that was ever connected does not go back to
-- the start.
abbrev pub Allowed : Status → Status → Type 0
Allowed not_connected s = Unit {0}
Allowed just_connected s = s ≢ not_connected
Allowed handshake_complete s = s ≢ not_connected
Allowed terminated s = s ≡ terminated

-- A complete handshake has the peer's key.
abbrev pub IsKeyed : Connection → Type 0
IsKeyed c = c.status ≡ handshake_complete → c.peer_public_key ≢ []

pub record Kept (c c' : Connection) : Type 0 where
  pub allowed : Allowed c.status c'.status
  pub keyed : IsKeyed c → IsKeyed c'

pub Allowed-refl : (s : Status) → Allowed s s
Allowed-refl not_connected = tt
Allowed-refl just_connected = λ e. cc
Allowed-refl handshake_complete = λ e. cc
Allowed-refl terminated = refl

pub Allowed-trans : (s t u : Status) → Allowed s t → Allowed t u → Allowed s u
Allowed-trans s t u h k = ground arith

pub Kept-trans : (c d e : Connection) → Kept c d → Kept d e → Kept c e
Kept-trans c d e h k = record {
  allowed = Allowed-trans c.status d.status e.status h.allowed k.allowed;
  keyed = λ x. k.keyed (h.keyed x);
}

-- An operation that touches neither.
pub same_fields :
    (c c' : Connection) → c'.status ≡ c.status → c'.peer_public_key ≡ c.peer_public_key → Kept c c'
same_fields c c' s k = record {
  allowed = rw s (Allowed-refl c.status);
  keyed = λ h e z. h (sym s ∙ e) (sym k ∙ z);
}

terminated-Allowed : (s : Status) → Allowed s terminated
terminated-Allowed not_connected = tt
terminated-Allowed just_connected = λ e. cc
terminated-Allowed handshake_complete = λ e. cc
terminated-Allowed terminated = refl

-- A new stream puts the connection back before its handshake.
abbrev pub reopened : Status → Status
reopened s = cas handshake_complete just_connected (cas not_connected just_connected s)

reopened-Allowed : (s : Status) → Allowed s (reopened s)
reopened-Allowed not_connected = tt
reopened-Allowed just_connected = λ e. cc
reopened-Allowed handshake_complete = λ e. cc
reopened-Allowed terminated = refl

reopened-ne : (s : Status) → reopened s ≢ handshake_complete
reopened-ne not_connected = λ e. cc
reopened-ne just_connected = λ e. cc
reopened-ne handshake_complete = λ e. cc
reopened-ne terminated = λ e. cc

pub reopened-Kept : (c c' : Connection) → c'.status ≡ reopened c.status → Kept c c'
reopened-Kept c c' e = record {
  allowed = rw e (reopened-Allowed c.status);
  keyed = λ h x. absurd (reopened-ne c.status (sym e ∙ x));
}

abbrev pub completed : Status → Status
completed s = cas just_connected handshake_complete (cas not_connected handshake_complete s)

completed-Allowed : (s : Status) → Allowed s (completed s)
completed-Allowed not_connected = tt
completed-Allowed just_connected = λ e. cc
completed-Allowed handshake_complete = λ e. cc
completed-Allowed terminated = refl

pub completed-Kept :
    (c c' : Connection) → c'.status ≡ completed c.status → c'.peer_public_key ≢ [] → Kept c c'
completed-Kept c c' e k = record { allowed = rw e (completed-Allowed c.status); keyed = λ h x. k }

pub reset_inbound-Kept : (c : Connection) → Kept c (reset_inbound_stream c).0
unfolding reset_inbound_stream
reset_inbound-Kept c = same_fields c (reset_inbound_stream c).0 (ground arith) (ground arith)

pub send-Kept : (msg : MessageEnvelop) (c : Connection) → Kept c (send msg c)
unfolding send add_to_queue
send-Kept msg c = same_fields c (send msg c) (ground arith) (ground arith)

pub set_inbound-Kept : (stream : ℕ) (c : Connection) → Kept c (set_inbound_stream stream c).0
unfolding set_inbound_stream
set_inbound-Kept stream c = elim (Bool-cases (status_eq c.status terminated)) [
  | inl over ↦ rw over (same_fields c c refl refl)
  | inr live ↦ rw live (reopened-Kept c _ refl)
]

pub set_signature-Kept : (sig : List ℕ) (c : Connection) → Kept c (set_signature sig c).0
unfolding set_signature
set_signature-Kept sig c = same_fields c (set_signature sig c).0 (ground arith) (ground arith)

-- An operation that leaves the status, or puts the connection back before its handshake.
pub maybe_reopened :
    (c c' : Connection)
    → (c'.status ≡ c.status) ⊎ (c'.status ≡ reopened c.status)
    → c'.peer_public_key ≡ c.peer_public_key
    → Kept c c'
maybe_reopened c c' (inl s) k = same_fields c c' s k
maybe_reopened c c' (inr s) k = reopened-Kept c c' s

open_stream-status :
    (net : Network) (c : Connection)
    → ((open_stream net c).1.status ≡ c.status) ⊎ ((open_stream net c).1.status ≡ reopened c.status)
unfolding open_stream
open_stream-status net c = ground arith

open_stream-key :
    (net : Network) (c : Connection) → (open_stream net c).1.peer_public_key ≡ c.peer_public_key
unfolding open_stream
open_stream-key net c = ground arith

reset_outbound-same :
    (c : Connection)
    → ((reset_outbound_stream c).0.status ≡ c.status)
      × ((reset_outbound_stream c).0.peer_public_key ≡ c.peer_public_key)
unfolding reset_outbound_stream
reset_outbound-same c = ground arith

reset_inbound-same :
    (c : Connection)
    → ((reset_inbound_stream c).0.status ≡ c.status)
      × ((reset_inbound_stream c).0.peer_public_key ≡ c.peer_public_key)
unfolding reset_inbound_stream
reset_inbound-same c = ground arith

pub check_outbound_stream-Kept :
    (net : Network) (c : Connection) → Kept c (check_outbound_stream net c).1
unfolding check_outbound_stream
check_outbound_stream-Kept net c =
    let c1 = (reset_inbound_stream c).0 in
    let c2 = (reset_outbound_stream c1).0 in
    let c3 : Connection = record c2 { signature_sent = false } in
    maybe_reopened c (check_outbound_stream net c).1
      (ground (
        arith,
        reset_inbound-same c,
        reset_outbound-same c1,
        open_stream-status net c,
        open_stream-status net c3,
      ))
      (ground (
        arith,
        reset_inbound-same c,
        reset_outbound-same c1,
        open_stream-key net c,
        open_stream-key net c3,
      ))

pub terminate-Kept : (random_id : ℕ) (c : Connection) → Kept c (terminate random_id c).0
unfolding terminate add_to_queue reset_inbound_stream reset_outbound_stream
terminate-Kept random_id c =
    let over : (terminate random_id c).0.status ≡ terminated = ground arith in
    record { allowed = rw over (terminated-Allowed c.status); keyed = λ h e. cc (over, e) }
