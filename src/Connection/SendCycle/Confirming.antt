-- ===== src/Connection/SendCycle/Confirming.antt =====
-- Rounds of the send cycle with a consensus message and with a confirmation.
use lachain_communication_hu.Base.{
  ℕ, ◌≡◌, refl, ◌∙◌, true, false, Option, none, some, List, [], ◌∷◌, ◌++◌, lookup, nat_eq,
  text_keys,
}
use lachain_communication_hu.Communication.Frame.{MessageFrame, new_frame_with_id}
use lachain_communication_hu.Utils.Queue.{
  MessageQueue, consensus, confirm_reply, new_envelop_with_id, dequeue_or_wait,
}
use lachain_communication_hu.Connection.Confirm.{
  Confirmations, check_confirmation, add_msg_id_to_confirm, remove_msg_id_from_confirm,
}
use lachain_communication_hu.Connection.Spam.{SpamFilter}
use lachain_communication_hu.Connection.State.{Connection, add_to_queue}
use lachain_communication_hu.Connection.SendCycle.{Sender, fetch, deliver, choose, sent}
use lachain_communication_hu.Connection.SendCycle.Round.{
  Turn, IsIdle, Succeeds, deliver_fetched, send_round, prepare-IsIdle,
}

-- An idle connection with these confirmations and this filter.
pub record IsCalm (stream : ℕ) (q : MessageQueue) (m : Confirmations) (f : SpamFilter)
    (c : Connection) (s : Sender) : Type 0 where
  pub idle : IsIdle stream q c s
  pub confirmations : c.confirm_received ≡ m
  pub filter : c.filter ≡ f

-- A result that writes these frames and leaves such a connection.
abbrev pub Wrote :
    ℕ
    → List MessageFrame
    → MessageQueue
    → Confirmations
    → SpamFilter
    → Option (List MessageFrame × Connection × Sender)
    → Type 0
Wrote stream frames q m f r =
    (c' : Connection) × (s' : Sender) × (r ≡ some (frames, c', s')) × IsCalm stream q m f c' s'

-- Behind the first step, the round goes on with a connection of the same kind.
pub send_round-Wrote :
    (turn : Turn) (stream : ℕ) (frames : List MessageFrame) (q q' : MessageQueue)
    (m m' : Confirmations) (f : SpamFilter) (c : Connection) (s : Sender)
    → Succeeds turn
    → ((c1 : Connection) (s1 : Sender)
        → IsCalm stream q m f c1 s1
        → Wrote stream frames q' m' f (deliver_fetched turn (fetch turn.fetched_at c1 s1)))
    → IsCalm stream q m f c s
    → Wrote stream frames q' m' f (send_round turn c s)
unfolding send_round
send_round-Wrote turn stream frames q q' m m' f c s done onward h =
    let p = prepare-IsIdle turn.net stream q c s done.connected h.idle in
    rw (h.idle.live, p.3)
      (onward p.0 p.1
        (record { idle = p.4; confirmations = p.5 ∙ h.confirmations; filter = p.6 ∙ h.filter }))

check_confirmation-none :
    (id : ℕ) (m : Confirmations) → lookup id m ≡ none → check_confirmation id m ≡ (false, false)
unfolding check_confirmation
check_confirmation-none id m h = rw (check_confirmation, h)

check_confirmation-true :
    (id : ℕ) (m : Confirmations) → lookup id m ≡ some true → check_confirmation id m ≡ (true, true)
unfolding check_confirmation
check_confirmation-true id m h = rw (check_confirmation, h)

module _ (turn : Turn) (stream : ℕ) (d : List ℕ) (id : ℕ) (q : MessageQueue) (m : Confirmations)
    (f : SpamFilter) (done : Succeeds turn) where
  pub confirm_reply-Wrote :
      (c1 : Connection) (s1 : Sender)
      → IsCalm stream (new_envelop_with_id (some d) confirm_reply id ∷ q) m f c1 s1
      → Wrote stream
          (new_frame_with_id 4 d id ∷ [])
          q
          m
          f
          (deliver_fetched turn (fetch turn.fetched_at c1 s1))
  unfolding fetch dequeue_or_wait deliver choose sent
  confirm_reply-Wrote c1 s1 h =
      rw (h.idle.nothing, h.idle.queue) rw (h.idle.open_stream, done.done)
        (
          _,
          _,
          refl,
          record {
            idle = record { open_stream = refl; queue = refl; nothing = refl; live = h.idle.live };
            confirmations = h.confirmations;
            filter = h.filter;
          },
        )

  -- A consensus message whose id is not entered is written, enters its id, and goes to the end of
  -- the queue.
  pub consensus_new-Wrote :
      (c1 : Connection) (s1 : Sender)
      → lookup id m ≡ none
      → IsCalm stream (new_envelop_with_id (some d) consensus id ∷ q) m f c1 s1
      → Wrote stream
          (new_frame_with_id 3 d id ∷ [])
          (q ++ new_envelop_with_id (some d) consensus id ∷ [])
          (add_msg_id_to_confirm id m)
          f
          (deliver_fetched turn (fetch turn.fetched_at c1 s1))
  unfolding fetch dequeue_or_wait deliver choose sent add_to_queue
  consensus_new-Wrote c1 s1 new h =
      rw (h.idle.nothing, h.idle.queue) rw
        (h.idle.open_stream, h.confirmations, check_confirmation-none id m new, done.done)
        (
          _,
          _,
          refl,
          record {
            idle = record { open_stream = refl; queue = refl; nothing = refl; live = h.idle.live };
            confirmations = refl;
            filter = h.filter;
          },
        )

  -- One whose confirmation has come is dropped, with its id.
  pub consensus_confirmed-Wrote :
      (c1 : Connection) (s1 : Sender)
      → lookup id m ≡ some true
      → IsCalm stream (new_envelop_with_id (some d) consensus id ∷ q) m f c1 s1
      → Wrote stream [] q
          (remove_msg_id_from_confirm id m)
          f
          (deliver_fetched turn (fetch turn.fetched_at c1 s1))
  unfolding fetch dequeue_or_wait deliver choose
  consensus_confirmed-Wrote c1 s1 known h =
      rw (h.idle.nothing, h.idle.queue) rw
        (h.idle.open_stream, h.confirmations, check_confirmation-true id m known)
        (
          _,
          _,
          refl,
          record {
            idle = record { open_stream = refl; queue = refl; nothing = refl; live = h.idle.live };
            confirmations = refl;
            filter = h.filter;
          },
        )
