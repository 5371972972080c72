-- ===== src/PeerService/Stored.antt =====
-- Messages for a peer whose key is not known yet: what SendMessageToPeer keeps, and what
-- onPublicKeyRecovered hands over.
use lachain_communication_hu.Base.{
  ◌≡◌, refl, sym, ap, ◌∙◌, ◌≢◌, Bool, true, false, not, Option, none, some, List, [], ◌∷◌, ◌++◌,
  append-nil, append_assoc, arith, All, if◌then◌else◌, Text, text_eq_iff, lookup, insert, nat_eq,
  text_keys, lookup-insert,
}
use lachain_communication_hu.Utils.Queue.{MessageEnvelop}
use lachain_communication_hu.Connection.State.{Connection, send, add_to_queue}
use lachain_communication_hu.Connection.State
use lachain_communication_hu.PeerService.State.{
  PeerService, find_by_public_key, stored, is_banned_key, postpone, store_for, send_to,
  send_message_to_peer, or_nil, is_true,
}
use lachain_communication_hu.PeerService.Operations.{
  send_all, recovered, recover_for, ban_peer, flag_found,
}

-- A message that is not nil.
abbrev pub HasData : MessageEnvelop → Type 0
HasData m = m.payload ≢ none

send-accepted :
    (m : MessageEnvelop) (c : Connection)
    → HasData m
    → c.is_banned ≡ false
    → (send m c).message_queue ≡ c.message_queue ++ m ∷ []
unfolding send add_to_queue
send-accepted m c h free = ground arith

send-ban : (m : MessageEnvelop) (c : Connection) → (send m c).is_banned ≡ c.is_banned
unfolding send add_to_queue
send-ban m c = ground arith

pub send_all-queue :
    (ms : List MessageEnvelop) (c : Connection)
    → All HasData ms
    → c.is_banned ≡ false
    → (send_all ms c).message_queue ≡ c.message_queue ++ ms
unfolding send_all
send_all-queue [] c h free = sym (append-nil c.message_queue)
send_all-queue (m ∷ ms) c (h, hs) free =
    send_all-queue ms (send m c) hs (send-ban m c ∙ free)
    ∙ rw (send-accepted m c h free) (append_assoc c.message_queue (m ∷ []) ms)

pub send_all-ban :
    (ms : List MessageEnvelop) (c : Connection) → (send_all ms c).is_banned ≡ c.is_banned
unfolding send_all
send_all-ban [] c = refl
send_all-ban (m ∷ ms) c = send_all-ban ms (send m c) ∙ send-ban m c

-- What a recovered key leaves behind.
pub record Handed (id key : Text) (c : Connection) (ps after : PeerService) : Type 0 where
  pub connection : Connection
  pub placed : lookup id after.connections ≡ some connection
  pub queue : connection.message_queue ≡ c.message_queue ++ stored key ps
  pub ban : connection.is_banned ≡ (if is_banned_key key ps then true else c.is_banned)
  pub emptied : stored key after ≡ []

pub lookup-insert_self :
    {V : Type 0} (k : Text) (v : V) (m : List (Text × V)) → lookup k (insert k v m) ≡ some v
lookup-insert_self k v m = rw (lookup-insert k k v m, (text_eq_iff k k).1 refl)

pub recovered-running :
    (id key : Text) (c : Connection) (ps : PeerService)
    → ps.running ≡ true
    → lookup id ps.connections ≡ some c
    → recovered id key ps ≡ recover_for (some c) id key ps
unfolding recovered
recovered-running id key c ps up found =
    ap (λ (b : Bool). if not b then ps else recover_for (lookup id ps.connections) id key ps) up
    ∙ ap (λ (o : Option Connection). recover_for o id key ps) found

handed-ban :
    (b : Bool) (ms : List MessageEnvelop) (c : Connection)
    → (if b then State.ban_peer (send_all ms c) else send_all ms c).is_banned
      ≡ (if b then true else c.is_banned)
unfolding State.ban_peer
handed-ban true ms c = refl
handed-ban false ms c = send_all-ban ms c

handed-queue :
    (b : Bool) (ms : List MessageEnvelop) (c : Connection)
    → All HasData ms
    → c.is_banned ≡ false
    → (if b then State.ban_peer (send_all ms c) else send_all ms c).message_queue
      ≡ c.message_queue ++ ms
unfolding State.ban_peer
handed-queue true ms c h free = send_all-queue ms c h free
handed-queue false ms c h free = send_all-queue ms c h free

-- When a running service recovers the key of a connection that is not banned, every message kept
-- under the key, all of which have data, goes to the end of the connection's queue, in order,
-- none is kept any longer, and the connection is banned afterwards if the key is.
pub recovered-Handed :
    (id key : Text) (c : Connection) (ps : PeerService)
    → ps.running ≡ true
    → lookup id ps.connections ≡ some c
    → c.is_banned ≡ false
    → All HasData (stored key ps)
    → Handed id key c ps (recovered id key ps)
unfolding recover_for stored
recovered-Handed id key c ps up found free given =
    rw (recovered-running id key c ps up found) (record {
      connection =
          if is_banned_key key ps
          then State.ban_peer (send_all (stored key ps) c)
          else send_all (stored key ps) c;
      placed = lookup-insert_self id _ ps.connections;
      queue = handed-queue (is_banned_key key ps) (stored key ps) c given free;
      ban = handed-ban (is_banned_key key ps) (stored key ps) c;
      emptied = ap or_nil (lookup-insert_self key [] ps.messages);
    })

-- The sending of messages one after the other.
unfoldable pub send_messages : Text → List MessageEnvelop → PeerService → PeerService
send_messages key [] ps = ps
send_messages key (m ∷ ms) ps = send_messages key ms (send_message_to_peer key m ps).1

-- A message for a key that no connection has and that is not banned is kept under the key.
send-stored :
    (key : Text) (m : MessageEnvelop) (ps : PeerService)
    → find_by_public_key key ps.connections ≡ none
    → is_banned_key key ps ≡ false
    → (send_message_to_peer key m ps).1
      ≡ record ps { messages = insert key (stored key ps ++ m ∷ []) ps.messages }
unfolding send_message_to_peer postpone
send-stored key m ps unknown free =
    ap (λ (o : Option (Text × Connection)). (send_to o key m ps).1) unknown
    ∙ ap (λ (o : Option (Text × Connection)). store_for o key m ps) unknown
    ∙ ap
        (λ (b : Bool).
          if b
          then ps
          else record ps { messages = insert key (stored key ps ++ m ∷ []) ps.messages })
        free

stored-insert :
    (key : Text) (ms : List MessageEnvelop) (ps : PeerService)
    → stored key (record ps { messages = insert key ms ps.messages }) ≡ ms
unfolding stored
stored-insert key ms ps = ap or_nil (lookup-insert_self key ms ps.messages)

-- What the sending of messages to an unknown key leaves alone, and what it keeps.
pub record Kept (key : Text) (ms : List MessageEnvelop) (ps after : PeerService) : Type 0 where
  pub connections : after.connections ≡ ps.connections
  pub running : after.running ≡ ps.running
  pub banned : after.banned_peer ≡ ps.banned_peer
  pub messages : stored key after ≡ stored key ps ++ ms

pub send_messages-Kept :
    (key : Text) (ms : List MessageEnvelop) (ps : PeerService)
    → find_by_public_key key ps.connections ≡ none
    → is_banned_key key ps ≡ false
    → Kept key ms ps (send_messages key ms ps)
unfolding send_messages
send_messages-Kept key [] ps unknown free = record {
  connections = refl;
  running = refl;
  banned = refl;
  messages = sym (append-nil (stored key ps));
}
send_messages-Kept key (m ∷ ms) ps unknown free =
    let ps1 : PeerService = record ps {
      messages = insert key (stored key ps ++ m ∷ []) ps.messages;
    } in
    let rest : Kept key ms ps1 (send_messages key ms ps1) =
      send_messages-Kept key ms ps1 unknown (unfold is_banned_key in free) in
    rw (send-stored key m ps unknown free) (record {
      connections = rest.connections;
      running = rest.running;
      banned = rest.banned;
      messages =
          rest.messages
          ∙ rw (stored-insert key (stored key ps ++ m ∷ []) ps)
              (append_assoc (stored key ps) (m ∷ []) ms);
    })

pub All-append :
    (P : MessageEnvelop → Type 0) (xs ys : List MessageEnvelop)
    → All P xs
    → All P ys
    → All P (xs ++ ys)
All-append P [] ys h k = k
All-append P (x ∷ xs) ys h k = (h.0, All-append P xs ys h.1 k)

-- A ban of a key that no connection has.
ban-unknown :
    (key : Text) (ps : PeerService)
    → find_by_public_key key ps.connections ≡ none
    → (ban_peer key ps).1 ≡ record ps { banned_peer = insert key true ps.banned_peer }
unfolding ban_peer
ban-unknown key ps unknown =
    ap
      (λ (o : Option (Text × Connection)).
        (flag_found o State.ban_peer
          (record ps { banned_peer = insert key true ps.banned_peer })).1)
      unknown

is_banned_key-insert :
    (key : Text) (ps : PeerService)
    → is_banned_key key (record ps { banned_peer = insert key true ps.banned_peer }) ≡ true
unfolding is_banned_key
is_banned_key-insert key ps = ap is_true (lookup-insert_self key true ps.banned_peer)

is_banned_key-kept :
    (key : Text) (ps after : PeerService)
    → after.banned_peer ≡ ps.banned_peer
    → is_banned_key key after ≡ is_banned_key key ps
unfolding is_banned_key
is_banned_key-kept key ps after same = ap (λ (b : List (Text × Bool)). is_true (lookup key b)) same

stored-banned :
    (key : Text) (b : List (Text × Bool)) (ps : PeerService)
    → stored key (record ps { banned_peer = b }) ≡ stored key ps
unfolding stored
stored-banned key b ps = refl

-- The connection under `id` has this queue, and is banned or not.
abbrev pub HasQueue : Text → PeerService → List MessageEnvelop → Bool → Type 0
HasQueue id ps queue banned =
    (c : Connection) × (lookup id ps.connections ≡ some c)
    × (c.message_queue ≡ queue)
    × (c.is_banned ≡ banned)

-- On a running service, messages with data are sent one after the other to a key that no connection
-- has and that is not banned. When the key of a connection that is not banned turns out to be that
-- one, they are in its queue: behind what was queued and kept before, in the order in which they
-- were sent, once each. Without a ban of the key in between the connection stays unbanned; with one
-- the messages are queued all the same, and the connection is banned.
pub recovered-send_messages :
    (id key : Text) (c : Connection) (ms : List MessageEnvelop) (ps : PeerService)
    → ps.running ≡ true
    → lookup id ps.connections ≡ some c
    → c.is_banned ≡ false
    → find_by_public_key key ps.connections ≡ none
    → is_banned_key key ps ≡ false
    → All HasData (stored key ps)
    → All HasData ms
    → HasQueue id
        (recovered id key (send_messages key ms ps))
        (c.message_queue ++ (stored key ps ++ ms))
        false
      × HasQueue id
          (recovered id key (ban_peer key (send_messages key ms ps)).1)
          (c.message_queue ++ (stored key ps ++ ms))
          true
recovered-send_messages id key c ms ps up found open_c unknown free old given =
    let ps1 : PeerService = send_messages key ms ps in
    let k : Kept key ms ps ps1 = send_messages-Kept key ms ps unknown free in
    let ps2 : PeerService = record ps1 { banned_peer = insert key true ps1.banned_peer } in
    let same : stored key ps2 ≡ stored key ps ++ ms = stored-banned key _ ps1 ∙ k.messages in
    let given_all = All-append HasData (stored key ps) ms old given in
    let there = ap (lookup id) k.connections ∙ found in
    let g : Handed id key c ps1 (recovered id key ps1) =
      recovered-Handed id key c ps1 (k.running ∙ up) there open_c (rw k.messages given_all) in
    let h : Handed id key c ps2 (recovered id key ps2) =
      recovered-Handed id key c ps2 (k.running ∙ up) there open_c (rw same given_all) in
    let ban = λ (b : Bool). if b then true else c.is_banned in
    (
      (
        g.connection,
        g.placed,
        g.queue ∙ ap (◌++◌ c.message_queue) k.messages,
        g.ban ∙ ap ban (is_banned_key-kept key ps ps1 k.banned ∙ free) ∙ open_c,
      ),
      rw (ban-unknown key ps1 (ap (find_by_public_key key) k.connections ∙ unknown)) (
        h.connection,
        h.placed,
        h.queue ∙ ap (◌++◌ c.message_queue) same,
        h.ban ∙ ap ban (is_banned_key-insert key ps1),
      ),
    )
