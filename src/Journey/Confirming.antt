-- ===== src/Journey/Confirming.antt =====
-- A consensus message and its confirmation, between two nodes.
use lachain_communication_hu.Base.{
  ==_self, ℕ, ◌+◌, ◌^◌, ◌<◌, ◌≡◌, refl, ap, ◌∙◌, Bool, true, false, none, some, List, [], ◌∷◌,
  lookup, insert, nat_eq, text_keys, lookup-insert, lookup-delete,
}
use lachain_communication_hu.Utils.Platform.{Platform}
use lachain_communication_hu.Utils.Queue.{
  MessageEnvelop, MessageQueue, consensus, new_envelop_with_id,
}
use lachain_communication_hu.Communication.Frame.{MessageFrame, new_frame_with_id}
use lachain_communication_hu.Connection.Confirm.{
  Confirmations, confirmation_received, add_msg_id_to_confirm, remove_msg_id_from_confirm,
}
use lachain_communication_hu.Connection.Spam.{SpamFilter, admit}
use lachain_communication_hu.Connection.Window.{memb, Tracks, admit-Filtered}
use lachain_communication_hu.Connection.State.{Connection, Event, add_to_queue}
use lachain_communication_hu.Connection.Receive.{receive_frame, dispatch, confirm_reply_to}
use lachain_communication_hu.Connection.Delivery.{delivered}
use lachain_communication_hu.Connection.SendCycle.{Sender}
use lachain_communication_hu.Connection.SendCycle.Round.{Turn, Succeeds, send_round}
use lachain_communication_hu.Connection.SendCycle.Confirming.{
  IsCalm, send_round-Wrote, confirm_reply-Wrote, consensus_new-Wrote, consensus_confirmed-Wrote,
}

-- A filter that has taken `n` frames, fewer than 2^32 with the next one, whose id is new to it.
pub record IsOpenTo (id n : ℕ) (f : SpamFilter) : Type 0 where
  pub counts : n + 1 < 2 ^ 32
  pub tracks : Tracks n f
  pub new : memb id f.received_msg_id ≡ false

abbrev pub envelop_of : List ℕ → ℕ → MessageEnvelop
envelop_of d id = new_envelop_with_id (some d) consensus id

abbrev pub request_of : List ℕ → ℕ → MessageFrame
request_of d id = new_frame_with_id 3 d id

abbrev pub reply_of : ℕ → MessageFrame
reply_of id = new_frame_with_id 4 (0 ∷ []) id

lookup-insert_here : (id : ℕ) (v : Bool) (m : Confirmations) → lookup id (insert id v m) ≡ some v
lookup-insert_here id v m = lookup-insert id id v m ∙ rw (==_self id) refl

-- When the reply has come, the id counts as confirmed, and nothing is kept of it afterwards.
settled_lookup :
    (id : ℕ) (m : Confirmations)
    → lookup id (confirmation_received id (add_msg_id_to_confirm id m)) ≡ some true
unfolding confirmation_received add_msg_id_to_confirm
settled_lookup id m =
    rw (confirmation_received, lookup-insert_here id false m)
      (lookup-insert_here id true (insert id false m))

forgotten_lookup : (id : ℕ) (m : Confirmations) → lookup id (remove_msg_id_from_confirm id m) ≡ none
unfolding remove_msg_id_from_confirm
forgotten_lookup id m = lookup-delete id id m ∙ rw (==_self id) refl

module _ (lib : Platform) (chain_id : ℕ) where
  -- A frame that was received, with what went up, and such a connection.
  abbrev Received :
      MessageFrame
      → List (List ℕ)
      → ℕ
      → MessageQueue
      → Confirmations
      → SpamFilter
      → Connection
      → Sender
      → Type 0
  Received frame ms stream q m f c s =
      (c' : Connection) × (events : List Event) × (receive_frame lib chain_id frame c
        ≡ some (c', events))
      × (delivered events ≡ ms)
      × IsCalm stream q m f c' s

  receive_request :
      (d : List ℕ) (id n stream : ℕ) (m : Confirmations) (f : SpamFilter) (c : Connection)
      (s : Sender)
      → IsOpenTo id n f
      → IsCalm stream [] m f c s
      → Received (request_of d id) (d ∷ []) stream (confirm_reply_to id ∷ []) m (admit id f).1 c s
  unfolding receive_frame dispatch add_to_queue
  receive_request d id n stream m f c s o h =
      let w = admit-Filtered n id f o.counts o.tracks in
      rw (h.filter, w.verdict, o.new)
        (
          _,
          _,
          refl,
          refl,
          record {
            idle = record {
              open_stream = h.idle.open_stream;
              queue = rw h.idle.queue;
              nothing = h.idle.nothing;
              live = h.idle.live;
            };
            confirmations = h.confirmations;
            filter = refl;
          },
        )

  receive_reply :
      (id n stream : ℕ) (q : MessageQueue) (m : Confirmations) (f : SpamFilter) (c : Connection)
      (s : Sender)
      → IsOpenTo id n f
      → IsCalm stream q m f c s
      → Received (reply_of id) [] stream q (confirmation_received id m) (admit id f).1 c s
  unfolding receive_frame dispatch
  receive_reply id n stream q m f c s o h =
      let w = admit-Filtered n id f o.counts o.tracks in
      rw (h.filter, w.verdict, o.new)
        (
          _,
          _,
          refl,
          refl,
          record {
            idle = record {
              open_stream = h.idle.open_stream;
              queue = h.idle.queue;
              nothing = h.idle.nothing;
              live = h.idle.live;
            };
            confirmations = ap (confirmation_received id) h.confirmations;
            filter = refl;
          },
        )

  -- The message goes out, is taken and answered, and the answer comes back: what each step gives.
  pub record Exchange (d : List ℕ) (id : ℕ) (t1 t2 t3 : Turn) (a : Connection) (sa : Sender)
      (b : Connection) (sb : Sender) : Type 0 where
    pub a1 : Connection
    pub sa1 : Sender
    pub b1 : Connection
    pub events : List Event
    pub b2 : Connection
    pub sb2 : Sender
    pub a2 : Connection
    pub back : List Event
    pub a3 : Connection
    pub sa3 : Sender
    pub asked : send_round t1 a sa ≡ some (request_of d id ∷ [], a1, sa1)
    pub taken : receive_frame lib chain_id (request_of d id) b ≡ some (b1, events)
    pub up : delivered events ≡ d ∷ []
    pub replied : send_round t2 b1 sb ≡ some (reply_of id ∷ [], b2, sb2)
    pub settled : receive_frame lib chain_id (reply_of id) a1 ≡ some (a2, back)
    pub quiet : delivered back ≡ []
    pub dropped : send_round t3 a2 sa1 ≡ some ([], a3, sa3)
    pub none_left : a3.message_queue ≡ []
    pub none_at_hand : sa3.msg_to_send ≡ none
    pub forgotten : lookup id a3.confirm_received ≡ none
    pub answered : b2.message_queue ≡ []

  -- Between two nodes whose connections with each other are live, with open outbound streams and
  -- nothing else to send: a consensus message that waits at the one, under an id that is not entered
  -- there and is new to both filters, which have taken fewer than 2^32 - 1 frames, is written by a
  -- round of the send cycle, as a request for confirmation; the other node hands its data up, once,
  -- and its next round writes the reply; this hands nothing up, and the next round of the sender
  -- writes nothing and drops the message and its id. In each round the peer is connected and the
  -- write succeeds.
  pub send_round-Exchange :
      (d : List ℕ) (id n k stream stream' : ℕ) (m m' : Confirmations) (f f' : SpamFilter)
      (t1 t2 t3 : Turn) (a : Connection) (sa : Sender) (b : Connection) (sb : Sender)
      → Succeeds t1
      → Succeeds t2
      → Succeeds t3
      → lookup id m ≡ none
      → IsOpenTo id n f
      → IsOpenTo id k f'
      → IsCalm stream (envelop_of d id ∷ []) m f a sa
      → IsCalm stream' [] m' f' b sb
      → Exchange d id t1 t2 t3 a sa b sb
  send_round-Exchange d id n k stream stream' m m' f f' t1 t2 t3 a sa b sb d1 d2 d3 new o o' h h' =
      let (a1, sa1, asked, h1) =
        send_round-Wrote t1 stream _ _ _ m _ f a sa d1
          (λ c s. consensus_new-Wrote t1 stream d id [] m f d1 c s new) h in
      let (b1, events, taken, up, h1') = receive_request d id k stream' m' f' b sb o' h' in
      let (b2, sb2, replied, h2') =
        send_round-Wrote t2 stream' _ _ _ m' _ _ b1 sb d2
          (confirm_reply-Wrote t2 stream' (0 ∷ []) id [] m' (admit id f').1 d2) h1' in
      let (a2, back, settled, quiet, h2) = receive_reply id n stream _ _ f a1 sa1 o h1 in
      let (a3, sa3, dropped, h3) =
        send_round-Wrote t3 stream _ _ _ _ _ _ a2 sa1 d3
          (λ c s. consensus_confirmed-Wrote t3 stream d id [] _ _ d3 c s (settled_lookup id m))
          h2 in
      record {
        a1 = a1;
        sa1 = sa1;
        b1 = b1;
        events = events;
        b2 = b2;
        sb2 = sb2;
        a2 = a2;
        back = back;
        a3 = a3;
        sa3 = sa3;
        asked = asked;
        taken = taken;
        up = up;
        replied = replied;
        settled = settled;
        quiet = quiet;
        dropped = dropped;
        none_left = h3.idle.queue;
        none_at_hand = h3.idle.nothing;
        forgotten = ap (lookup id) h3.confirmations ∙ forgotten_lookup id _;
        answered = h2'.idle.queue;
      }
