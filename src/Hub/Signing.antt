-- ===== src/Hub/Signing.antt =====
-- Init of embedded_hub.go, without its server.
use lachain_communication_hu.Base.{
  ℕ, ◌≤◌, ◌<◌, ◌≡◌, refl, ◌∙◌, Bool, Option, none, some, List, [], ◌∷◌, ◌++◌, arith, length, All,
  ok, if◌then◌else◌, Text, nat_eq, text_keys,
}
use lachain_communication_hu.Utils.Platform.{Platform}
use lachain_communication_hu.Utils.Crypto.{la_sign, ec_recover, recover_with}
use lachain_communication_hu.Utils.Signing.{ec_recover-la_sign}
use lachain_communication_hu.Connection.State.{Connection, set_signature}
use lachain_communication_hu.PeerService.State.{PeerService, Emitted}
use lachain_communication_hu.PeerService.Operations.{sign, sign_all}
use lachain_communication_hu.Hub.Starting.{Hub}

set_signature-signature :
    (sig : List ℕ) (c : Connection) → (set_signature sig c).0.signature ≡ some sig
unfolding set_signature
set_signature-signature sig c = ground arith

sign_all-signature :
    (sig : List ℕ) (conns : List (Text × Connection))
    → All (λ (e : Text × Connection). e.1.signature ≡ some sig) (sign_all sig conns).0
unfolding sign_all set_signature
sign_all-signature sig [] = tt
sign_all-signature sig ((id, c) ∷ conns) =
    (set_signature-signature sig c, sign_all-signature sig conns)

module _ (lib : Platform) where
  abbrev pub code_of : Bool × PeerService × Emitted → ℕ × PeerService × Emitted
  code_of (done, ps, emitted) = (if done then 1 else 0, ps, emitted)

  -- Init without its server: SetSignature's answer as a number. A missing localPeer panics, here and
  -- below.
  unfoldable pub init_hub : List ℕ → Hub → Option (ℕ × Hub × Emitted)
  init_hub signature hub = elim hub.local_peer [
    | none ↦ none
    | some ps ↦ elim (sign lib hub.chain_id signature ps) [
      | none ↦ none
      | some r ↦
          let (code, ps', emitted) = code_of r in
          some (code, record hub { local_peer = some ps' }, emitted)
    ]
  ]

  -- What the hub has after a signature was taken.
  pub record Signed (sig : List ℕ) (r : ℕ × Hub × Emitted) : Type 0 where
    pub code : r.0 ≡ 1
    pub peer : PeerService
    pub running : r.1.local_peer ≡ some peer
    pub own : peer.signature ≡ some sig
    pub all : All (λ (e : Text × Connection). e.1.signature ≡ some sig) peer.connections

  init_hub-ok :
      (hub : Hub) (ps : PeerService) (id sig key : List ℕ)
      → hub.local_peer ≡ some ps
      → lib.marshal ps.host_id ≡ some id
      → ec_recover lib id sig hub.chain_id ≡ ok key
      → (r : ℕ × Hub × Emitted) × (init_hub sig hub ≡ some r) × Signed sig r
  unfolding init_hub sign
  init_hub-ok hub ps id sig key here named got =
      let ps' : PeerService = record ps {
        signature = some sig;
        connections = (sign_all sig ps.connections).0;
      } in
      (
        (1, record hub { local_peer = some ps' }, (sign_all sig ps.connections).1),
        rw (init_hub, here, named, got) refl,
        record {
          code = refl;
          peer = ps';
          running = refl;
          own = refl;
          all = sign_all-signature sig ps.connections;
        },
      )

  -- For a chain id from 1 to 255, and a Sign that returns 64 bytes and a recovery id of 0 or 1, from
  -- which the library recovers a key: on a hub that was started, LaSign signs the host's id, and Init
  -- takes that signature: it returns 1, and the service and each of its connections have it.
  pub init_hub-la_sign :
      (hub : Hub) (ps : PeerService) (id prv rs key : List ℕ) (v : ℕ)
      → 0 < hub.chain_id
      → hub.chain_id < 256
      → v ≤ 1
      → length rs ≡ 64
      → lib.sign (lib.keccak256 id) prv ≡ some (rs ++ v ∷ [])
      → recover_with lib (lib.keccak256 id) (rs ++ v ∷ []) ≡ ok key
      → hub.local_peer ≡ some ps
      → lib.marshal ps.host_id ≡ some id
      → (sig : List ℕ) × (r : ℕ × Hub × Emitted) × (la_sign lib id prv hub.chain_id ≡ ok sig)
        × (init_hub sig hub ≡ some r)
        × Signed sig r
  init_hub-la_sign hub ps id prv rs key v lo hi hv n signed recovered here named =
      let (sig, e, size, same) =
        ec_recover-la_sign lib id prv rs v hub.chain_id lo hi hv n signed in
      let (r, done, after) = init_hub-ok hub ps id sig key here named (same ∙ recovered) in
      (sig, r, e, done, after)
