-- ===== src/PeerService/Steps.antt =====
-- Any sequence of the service's methods before Stop, none of which panics, as a step relation.
use lachain_communication_hu.Base.{
  ℕ, ◌+◌, ◌^◌, ◌<◌, ◌≡◌, refl, ap, ◌∙◌, Bool, Option, some, List, arith, length, Text, lookup,
  nat_eq, text_keys,
}
use lachain_communication_hu.PeerService.Operations.{
  connect, on_connect, update_peer_list, recovered, ban_peer, remove_from_ban_list,
  broadcast_message, sign, set_key_of, set_key_under, set_peer_public_key,
}
use lachain_communication_hu.PeerService.State.{
  PeerService, Emitted, send_message_to_peer, empty_service,
}
use lachain_communication_hu.Utils.Queue.{MessageEnvelop}
use lachain_communication_hu.Utils.Platform.{Platform}
use lachain_communication_hu.Connection.State.{
  Connection, Event, reset, on_message, on_public_key_recovered, on_peer_list_update, started,
  inbound_measured, outbound_measured,
}
use lachain_communication_hu.Connection.Metadata.{Metadata}
use lachain_communication_hu.PeerService.Calls.{
  other_fields, recovered-Numbered, found-Numbered, broadcast-Numbered, send_to-Numbered,
}
use lachain_communication_hu.PeerService.Numbers.{Leads, Numbered}
use lachain_communication_hu.PeerService.Numbering.{
  connect-Numbered, on_connect-Numbered, set_key_of-some, set_key_under-After, sign-After,
  update_peer_list-Numbered,
}
use lachain_communication_hu.Connection.State

-- A call, with room for the numbers that it may give out: they are below 2^32.
pub data Step (lib : Platform) (chain_id : ℕ) (ps : PeerService) : PeerService → Type 0 where
  connects :
      {ps' : PeerService} (id : Text) (address : Option (List ℕ)) (emitted : Emitted)
      → ps.total_peers + 1 < 2 ^ 32
      → connect lib id address ps ≡ some (ps', emitted)
      → Step lib chain_id ps ps'
  accepts :
      (peer : Text) (stream : ℕ) (address : List ℕ)
      → ps.total_peers + 1 < 2 ^ 32
      → Step lib chain_id ps (on_connect lib peer stream address ps).0
  updates :
      {ps' : PeerService} (peers : List Metadata) (emitted : Emitted)
      → ps.total_peers + length peers < 2 ^ 32
      → update_peer_list lib peers ps ≡ some (ps', emitted)
      → Step lib chain_id ps ps'
  recovers : (id key : Text) → Step lib chain_id ps (recovered id key ps)
  sends :
      (key : Text) (msg : MessageEnvelop) → Step lib chain_id ps (send_message_to_peer key msg ps).1
  broadcasts : (msg : MessageEnvelop) → Step lib chain_id ps (broadcast_message msg ps)
  bans : (key : Text) → Step lib chain_id ps (ban_peer key ps).1
  unbans : (key : Text) → Step lib chain_id ps (remove_from_ban_list key ps).1
  signs :
      {ps' : PeerService} (sig : List ℕ) (b : Bool) (emitted : Emitted)
      → sign lib chain_id sig ps ≡ some (b, ps', emitted)
      → Step lib chain_id ps ps'
  sets_key :
      {ps' : PeerService} (key : Text) (u : ℕ) (b : Bool) (emitted : Emitted)
      → set_peer_public_key lib chain_id key u ps ≡ some (b, ps', emitted)
      → Step lib chain_id ps ps'

pub data Run (lib : Platform) (chain_id : ℕ) (ps : PeerService) : PeerService → Type 0 where
  here : Run lib chain_id ps ps
  next : {p q : PeerService} → Run lib chain_id ps p → Step lib chain_id p q → Run lib chain_id ps q

module _ (lib : Platform) (chain_id : ℕ) where
  Step-Numbered : {p q : PeerService} → Step lib chain_id p q → Numbered p → Numbered q
  unfolding send_message_to_peer ban_peer remove_from_ban_list set_peer_public_key State.ban_peer
      State.remove_from_ban_list
  Step-Numbered {p} (connects id address emitted small e) n =
      rw e at (connect-Numbered lib id address p n small)
  Step-Numbered {p} (accepts peer stream address small) n =
      on_connect-Numbered lib peer stream address p n small
  Step-Numbered {p} (updates peers emitted small e) n =
      rw e at (update_peer_list-Numbered lib peers p n small)
  Step-Numbered {p} (recovers id key) n = recovered-Numbered p n id key
  Step-Numbered {p} (sends key msg) n = send_to-Numbered p n _ key msg refl
  Step-Numbered {p} (broadcasts msg) n = broadcast-Numbered p n msg
  Step-Numbered {p} (bans key) n =
      found-Numbered _ (other_fields p _ n refl refl refl) _ key _ refl (λ c. refl)
  Step-Numbered {p} (unbans key) n =
      found-Numbered _ (other_fields p _ n refl refl refl) _ key _ refl (λ c. refl)
  Step-Numbered {p} (signs sig b emitted e) n = rw e at (sign-After lib chain_id sig p n)
  Step-Numbered {p} (sets_key key u b emitted e) n =
      rw e at (set_key_under-After lib chain_id (lookup u p.peer_ids) key p n)

  Run-Numbered : {p q : PeerService} → Run lib chain_id p q → Numbered p → Numbered q
  Run-Numbered here n = n
  Run-Numbered (next run st) n = Step-Numbered st (Run-Numbered run n)

  empty-Numbered :
      (host : Text) (address : List ℕ) (protocol : Text)
      → Numbered (empty_service host address protocol)
  empty-Numbered host address protocol = record {
    leads = λ u lt. absurd (omega arith);
    distinct = tt;
  }

  -- After any sequence of calls other than Stop on a new service, none of which panics, as long as
  -- the numbers of the peers stay below 2^32, every number that was given out leads to the
  -- connection that bears it, and SetPeerPublicKey with that number does not panic.
  pub set_peer_public_key_total :
      (host : Text) (address : List ℕ) (protocol : Text) {ps : PeerService}
      → Run lib chain_id (empty_service host address protocol) ps
      → (key : Text) (u : ℕ) → u < ps.total_peers
      → Leads u ps.peer_ids ps.connections
        × ((r : Bool × PeerService × Emitted) × (set_peer_public_key lib chain_id key u ps
              ≡ some r))
  unfolding set_peer_public_key
  set_peer_public_key_total host address protocol {ps} run key u lt =
      let m = Run-Numbered run (empty-Numbered host address protocol) in
      let l = m.leads u lt in
      let (r, set, after) = set_key_of-some lib chain_id l.connection key l.id ps l.place m in
      (
        l,
        (
          r,
          ap (λ (o : Option Text). set_key_under lib chain_id o key ps) l.peer
              ∙ ap (λ (o : Option Connection). set_key_of lib chain_id o key l.id ps) l.place
              ∙ set,
        ),
      )
