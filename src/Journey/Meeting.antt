-- ===== src/Journey/Meeting.antt =====
-- Messages for a peer whose key is not known yet, before and after its signature comes.
pub mod Signed
use lachain_communication_hu.Base.{
  ℕ, ◌≡◌, refl, ap, ◌∙◌, ◌≢◌, Bool, true, false, Option, none, some, List, [], ◌∷◌, ◌++◌, map, All,
  Text, text_eq, text_eq_iff, lookup, nat_eq, text_keys,
}
use lachain_communication_hu.Utils.Platform.{Platform}
use lachain_communication_hu.Utils.Hex.{bytes_to_hex}
use lachain_communication_hu.Utils.Crypto.{public_key_to_hex_string}
use lachain_communication_hu.Utils.Queue.{MessageQueue}
use lachain_communication_hu.Communication.Frame.{MessageFrame, new_frame_with_id}
use lachain_communication_hu.Connection.State.{
  Connection, Event, terminated, on_public_key_recovered, inbound_measured,
}
use lachain_communication_hu.Connection.Receive.{receive_frame}
use lachain_communication_hu.PeerService.State.{
  PeerService, Emitted, find_by_public_key, send_message_to_peer, stored, is_banned_key, is_true,
  with_connection,
}
use lachain_communication_hu.PeerService.Operations.{recovered, handle_event, handle_events}
use lachain_communication_hu.PeerService.Stored.{
  HasData, All-append, send_messages, Kept, send_messages-Kept, lookup-insert_self,
}
use lachain_communication_hu.PeerService.Found.{find-insert_new, recovered-found}
use lachain_communication_hu.Hub.{send_message, zero_pub}
use lachain_communication_hu.Journey.{Mail, envelope_of, send_mails}
use lachain_communication_hu.Journey.Sending.{queued, send_mails-queued}
use lachain_communication_hu.Journey.Confirming.{IsOpenTo}
use lachain_communication_hu.Journey.Meeting.Signed.{IsSignedBy, receive_frame-signature}

-- SendMessage, for plain messages, is SendMessageToPeer one after the other.
send_mails-send_messages :
    (key : List ℕ) (mails : List Mail) (a : PeerService)
    → text_eq key zero_pub ≡ false
    → send_mails key mails (some a)
      ≡ some (send_messages (bytes_to_hex key) (map envelope_of mails) a)
unfolding send_mails send_messages send_message
send_mails-send_messages key [] a one = refl
send_mails-send_messages key (m ∷ ms) a one = rw one (
    send_mails-send_messages key ms (send_message_to_peer (bytes_to_hex key) (envelope_of m) a).1
      one)

envelopes-HasData : (mails : List Mail) → All HasData (map envelope_of mails)
envelopes-HasData [] = tt
envelopes-HasData (m ∷ ms) = ((λ e. cc), envelopes-HasData ms)

stored-with_connection :
    (key id : Text) (c : Connection) (ps : PeerService)
    → stored key (with_connection id c ps) ≡ stored key ps
unfolding stored
stored-with_connection key id c ps = refl

is_banned_key-same :
    (key id : Text) (c : Connection) (ps ps' : PeerService)
    → ps'.banned_peer ≡ ps.banned_peer
    → is_banned_key key (with_connection id c ps') ≡ is_banned_key key ps
unfolding is_banned_key
is_banned_key-same key id c ps ps' same =
    ap (λ (b : List (Text × Bool)). is_true (lookup key b)) same

abbrev pub send_handled : List ℕ → List Mail → Option (PeerService × Emitted) → Option PeerService
send_handled key after none = none
send_handled key after (some (ps, emitted)) = send_mails key after (some ps)

module _ (lib : Platform) (chain_id : ℕ) where
  abbrev pub answer :
      List ℕ
      → List Mail
      → Text
      → Option (Connection × List Event)
      → PeerService
      → Option PeerService
  answer key after id none ps = none
  answer key after id (some (c, events)) ps =
      send_handled key after (handle_events lib chain_id id events (with_connection id c ps))

  abbrev pub take_frame :
      List ℕ
      → List Mail
      → Text
      → MessageFrame
      → Option Connection
      → PeerService
      → Option PeerService
  take_frame key after id frame none ps = none
  take_frame key after id frame (some c) ps =
      answer key after id (receive_frame lib chain_id frame c) ps

  abbrev pub meet_by :
      List ℕ → List Mail → Text → MessageFrame → Option PeerService → Option PeerService
  meet_by key after id frame none = none
  meet_by key after id frame (some ps) = take_frame key after id frame (lookup id ps.connections) ps

  -- Messages are sent to the key, a frame comes in on the connection under `id`, the service handles
  -- what that connection hands up, and further messages are sent.
  unfoldable pub meet :
      List ℕ → List Mail → List Mail → Text → MessageFrame → PeerService → Option PeerService
  meet key before after id frame ps = meet_by key after id frame (send_mails key before (some ps))

  -- The service takes over the key.
  handle_events-signature :
      (id key : Text) (size : ℕ) (ps : PeerService)
      → handle_events lib chain_id id (inbound_measured size ∷ on_public_key_recovered key ∷ []) ps
        ≡ some (recovered id key ps, [])
  unfolding handle_events handle_event
  handle_events-signature id key size ps = refl

  -- On a running service, plain messages are sent to a key (not the zero key) that no connection has
  -- and that is not banned. Then a frame with the signature of that key's owner comes in on a
  -- connection whose peer has no key yet, which is not banned or terminated and whose filter takes
  -- the frame; multiaddr reads the address in it. Then more are sent. The connection is found by the
  -- key afterwards, and its queue is what it had, then what was kept under the key before, all of it
  -- with data, then the messages from before the signature and those from behind it, in their order.
  pub meet-queued :
      (kb sig address : List ℕ) (frame_id n : ℕ) (before after : List Mail) (id : Text)
      (c : Connection) (ps : PeerService)
      → text_eq (lib.compress_pubkey kb) zero_pub ≡ false
      → ps.running ≡ true
      → lookup id ps.connections ≡ some c
      → find_by_public_key (public_key_to_hex_string lib kb) ps.connections ≡ none
      → is_banned_key (public_key_to_hex_string lib kb) ps ≡ false
      → All HasData (stored (public_key_to_hex_string lib kb) ps)
      → c.is_banned ≡ false
      → c.status ≢ terminated
      → c.peer_public_key ≡ []
      → IsSignedBy lib chain_id kb sig address c
      → IsOpenTo frame_id n c.filter
      → (ps' : PeerService) × (c' : Connection) × (meet
            (lib.compress_pubkey kb)
            before
            after
            id
            (new_frame_with_id 1 (sig ++ address) frame_id)
            ps
          ≡ some ps')
        × (find_by_public_key (public_key_to_hex_string lib kb) ps'.connections ≡ some (id, c'))
        × (c'.message_queue
            ≡ (c.message_queue
                ++ (stored (public_key_to_hex_string lib kb) ps ++ map envelope_of before))
              ++ map envelope_of after)
  unfolding meet public_key_to_hex_string
  meet-queued kb sig address frame_id n before after id c ps one up there unknown allowed old free
        live keyless g o =
      let key = bytes_to_hex (lib.compress_pubkey kb) in
      let ps1 : PeerService = send_messages key (map envelope_of before) ps in
      let k : Kept key (map envelope_of before) ps ps1 =
        send_messages-Kept key (map envelope_of before) ps unknown allowed in
      let frame = new_frame_with_id 1 (sig ++ address) frame_id in
      let (c1, got, named, ban, queue) =
        receive_frame-signature lib chain_id kb sig address frame_id n c g o live keyless in
      let kept_messages : stored key (with_connection id c1 ps1) ≡ stored key ps1 =
        stored-with_connection key id c1 ps1 in
      let r =
        recovered-found id key c1 (with_connection id c1 ps1) (k.running ∙ up)
          (lookup-insert_self id c1 ps1.connections)
          (find-insert_new key id c1 ps1.connections ((text_eq_iff _ _).1 named)
            (ap (find_by_public_key key) k.connections ∙ unknown))
          (ban ∙ free) (is_banned_key-same key id c1 ps ps1 k.banned ∙ allowed)
          (rw (kept_messages ∙ k.messages) (
            All-append HasData (stored key ps) (map envelope_of before) old
              (envelopes-HasData before))) in
      let sent =
        send_mails-queued (lib.compress_pubkey kb) after
          (recovered id key (with_connection id c1 ps1)) id r.0 one r.1 r.3 in
      (
        sent.0,
        queued after r.0,
        ap (meet_by (lib.compress_pubkey kb) after id frame)
              (send_mails-send_messages (lib.compress_pubkey kb) before ps one)
            ∙ ap
                (λ (o : Option Connection).
                  take_frame (lib.compress_pubkey kb) after id frame o ps1)
                (ap (lookup id) k.connections ∙ there)
            ∙ ap
                (λ (x : Option (Connection × List Event)).
                  answer (lib.compress_pubkey kb) after id x ps1)
                got
            ∙ ap (send_handled (lib.compress_pubkey kb) after)
                (handle_events-signature id key _ (with_connection id c1 ps1))
            ∙ sent.1,
        sent.2,
        ap (λ (q : MessageQueue). q ++ map envelope_of after)
            (r.2 ∙ rw (queue, kept_messages, k.messages) refl),
      )
