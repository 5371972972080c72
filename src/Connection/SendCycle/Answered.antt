-- ===== src/Connection/SendCycle/Answered.antt =====
-- Where the confirmation of a message comes from, and what that says of a run of the cycles.
mod Recorded
use lachain_communication_hu.Connection.SendCycle.Run.{
  Step-Pending, Step, prepares, fetches, delivers, receives, sends, bans, unbans, reconnects, Run,
  here, next,
}
use mathlib.Core.Path.{subst}
use lachain_communication_hu.Base.{
  ℕ, ◌≡◌, refl, sym, ap, ◌∙◌, ◌≢◌, ◌⊎◌, inl, inr, Option, none, some, List, [], arith, length,
  Outcome, ok, err, panic, ltb, Bool-cases, Option-cases, lookup, nat_eq, text_keys,
}
use lachain_communication_hu.Communication.Frame.{
  MessageFrame, FrameKind, message, signature, get_peers_reply, message_confirm_request,
  confirm_reply, unknown, kind_of_byte, ReadError,
}
use lachain_communication_hu.Utils.Platform.{Platform}
use lachain_communication_hu.Utils.Crypto.{CryptoError}
use lachain_communication_hu.Utils.Queue.{MessageEnvelop, MessageQueue, dequeue_or_wait}
use lachain_communication_hu.Connection.Spam.{admit}
use lachain_communication_hu.Connection.Confirm.{
  Confirmations, confirmation_received, add_msg_id_to_confirm, remove_msg_id_from_confirm,
}
use lachain_communication_hu.Connection.State.{
  Connection, Event, terminated, status_eq, send, add_to_queue, ban_peer, remove_from_ban_list,
  set_inbound_stream, reset_inbound_stream, reset_outbound_stream,
}
use lachain_communication_hu.Connection.Handshake.{sig_len, handle_recovered, handle_signature}
use lachain_communication_hu.Connection.Outbound.{Network, check_outbound_stream}
use lachain_communication_hu.Connection.Receive.{
  handle_peers, dispatch, receive_frame, receive_round, measured,
}
use lachain_communication_hu.Connection.SendCycle.{
  Sender, prepare, fetch, fetched, fetch_for, take_payload, take_value, deliver, attempt, choose,
  Choice, confirmed, write, transmit, sent, not_sent, enter_id,
}
use lachain_communication_hu.Connection.SendCycle.Retention.{Pending, Confirmed}
use lachain_communication_hu.Connection.SendCycle.Answered.Recorded.{
  reset_inbound-confirm, send-confirm, set_inbound-confirm, prepare-confirm, fetch_for-confirm,
  confirm_received-Confirmed, deliver-Confirmed, Knows,
}

-- The frame confirms the message with this id.
pub record Confirms (id : ℕ) (f : MessageFrame) : Type 0 where
  pub kind : kind_of_byte f.kind ≡ confirm_reply
  pub number : f.msg_id ≡ id

module _ (lib : Platform) (chain_id : ℕ) where
  handle_recovered-Knows :
      (r : Outcome CryptoError (List ℕ)) (bytes : List ℕ) (c : Connection)
      → Knows c.confirm_received (handle_recovered lib chain_id r bytes c)
  unfolding handle_recovered
  handle_recovered-Knows panic bytes c = tt
  handle_recovered-Knows (err e) bytes c = reset_inbound-confirm c
  handle_recovered-Knows (ok key) bytes c = ground (arith, reset_inbound-confirm c)

  handle_signature-Knows :
      (payload : List ℕ) (c : Connection)
      → Knows c.confirm_received (handle_signature lib chain_id payload c)
  unfolding handle_signature
  handle_signature-Knows payload c = elim (Bool-cases (status_eq c.status terminated)) [
    | inl over ↦ rw over refl
    | inr live ↦ rw live (elim (Bool-cases (ltb (length payload) (sig_len chain_id))) [
      | inl short ↦ rw short tt
      | inr long ↦ rw long (elim (Option-cases (lib.marshal c.peer_id)) [
        | inl failure ↦ rw failure refl
        | inr (id, e) ↦ rw e (handle_recovered-Knows _ _ c)
      ])
    ])
  ]

  -- What a frame of another kind leaves alone.
  dispatch-Knows :
      (k : FrameKind) (f : MessageFrame) (c : Connection)
      → k ≢ confirm_reply
      → Knows c.confirm_received (dispatch lib chain_id k f c)
  unfolding dispatch handle_peers add_to_queue
  dispatch-Knows confirm_reply f c h = absurd (h refl)
  dispatch-Knows message_confirm_request f c h = refl
  dispatch-Knows message f c h = ground arith
  dispatch-Knows signature f c h = handle_signature-Knows f.payload c
  dispatch-Knows get_peers_reply f c h = ground arith
  dispatch-Knows (unknown k) f c h = refl

  abbrev Source : ℕ → MessageFrame → Connection → Option (Connection × List Event) → Type 0
  Source id f c none = Unit {0}
  Source id f c (some (c', events)) = Confirmed id c' → Confirmed id c ⊎ Confirms id f

  Knows-Source :
      (id : ℕ) (f : MessageFrame) (c : Connection) (r : Option (Connection × List Event))
      → Knows c.confirm_received r
      → Source id f c r
  Knows-Source id f c none k = tt
  Knows-Source id f c (some (c', events)) k =
      λ h. inl (sym (ap (λ (m : Confirmations). lookup id m) k) ∙ h)

  measured-Source :
      (id : ℕ) (f g : MessageFrame) (c : Connection) (r : Option (Connection × List Event))
      → Source id f c r
      → Source id f c (measured g r)
  measured-Source id f g c none k = tt
  measured-Source id f g c (some (c', events)) k = k

  dispatch-Source :
      (id : ℕ) (k : FrameKind) (f : MessageFrame) (c : Connection)
      → kind_of_byte f.kind ≡ k
      → Source id f c (dispatch lib chain_id k f c)
  unfolding dispatch
  dispatch-Source id confirm_reply f c e = λ h.
      elim (confirm_received-Confirmed id f.msg_id c.confirm_received h) [
        | inl old ↦ inl old
        | inr same ↦ inr (record { kind = e; number = same })
      ]
  dispatch-Source id k f c e =
      Knows-Source id f c (dispatch lib chain_id k f c) (dispatch-Knows k f c (λ x. cc))

  receive_frame-Source :
      (id : ℕ) (f : MessageFrame) (c : Connection) → Source id f c (receive_frame lib chain_id f c)
  unfolding receive_frame
  receive_frame-Source id f c =
      let c' : Connection = record c { filter = (admit f.msg_id c.filter).1 } in
      measured-Source id f f c _ (elim (Bool-cases (admit f.msg_id c.filter).0) [
        | inl new ↦ rw new (dispatch-Source id (kind_of_byte f.kind) f c' refl)
        | inr old ↦ rw old (λ h. inl h)
      ])

  -- The outcome of a read that confirms the message with this id.
  abbrev pub ConfirmsIn : ℕ → Outcome ReadError MessageFrame → Type 0
  ConfirmsIn id (ok f) = Confirms id f
  ConfirmsIn id (err e) = ⊥
  ConfirmsIn id panic = ⊥

  round-Confirmed :
      (id : ℕ) (o : Outcome ReadError MessageFrame) (c c' : Connection) (events : List Event)
      → receive_round lib chain_id o c ≡ some (c', events)
      → Confirmed id c'
      → Confirmed id c ⊎ ConfirmsIn id o
  unfolding receive_round
  round-Confirmed id (ok f) c c' events e h =
      (subst (λ r. Source id f c r) e (receive_frame-Source id f c)) h
  round-Confirmed id (err x) c c' events e h =
      let last : (reset_inbound_stream c).0 ≡ c' = cc in
      let h' : Confirmed id (reset_inbound_stream c).0 =
        ap (λ (d : Connection). lookup id d.confirm_received) last ∙ h in
      inl (ap (λ (m : Confirmations). lookup id m) (sym (reset_inbound-confirm c)) ∙ h')
  round-Confirmed id panic c c' events e h = cc

  -- The step hands the cycle a confirmation of the message with this id.
  abbrev pub Answers :
      (id : ℕ) {c : Connection} {s : Sender} {c' : Connection} {s' : Sender}
      → Step lib chain_id c s c' s'
      → Type 0
  Answers id (receives o events e) = ConfirmsIn id o
  Answers id _ = ⊥

  abbrev pub Answered :
      (id : ℕ) {c : Connection} {s : Sender} {c' : Connection} {s' : Sender}
      → Run lib chain_id c s c' s'
      → Type 0
  Answered id here = ⊥
  Answered id (next run st) = Answered id run ⊎ Answers id st

  Step-Confirmed :
      (id : ℕ) {c : Connection} {s : Sender} {c' : Connection} {s' : Sender}
      (st : Step lib chain_id c s c' s')
      → Confirmed id c'
      → Confirmed id c ⊎ Answers id st
  unfolding fetch ban_peer remove_from_ban_list
  Step-Confirmed id {c} {s} (prepares net) h =
      inl (ap (λ (m : Confirmations). lookup id m) (sym (prepare-confirm net c s)) ∙ h)
  Step-Confirmed id {c} {s} {c'} {s'} (fetches now e) h = inl (
      ap (λ (m : Confirmations). lookup id m)
        (sym (fetch_for-confirm s.msg_to_send c.message_queue now c c' s s' refl e))
      ∙ h)
  Step-Confirmed id {c} {s} (delivers now written d e early) h =
      inl (deliver-Confirmed now written d c s id h)
  Step-Confirmed id {c} {s} {c'} (receives o events e) h = round-Confirmed id o c c' events e h
  Step-Confirmed id {c} (sends msg) h =
      inl (ap (λ (m : Confirmations). lookup id m) (sym (send-confirm msg c)) ∙ h)
  Step-Confirmed id bans h = inl h
  Step-Confirmed id unbans h = inl h
  Step-Confirmed id {c} (reconnects stream) h =
      inl (ap (λ (m : Confirmations). lookup id m) (sym (set_inbound-confirm stream c)) ∙ h)

  Run-Confirmed :
      (id : ℕ) {c : Connection} {s : Sender} {c' : Connection} {s' : Sender}
      (run : Run lib chain_id c s c' s')
      → Confirmed id c'
      → Confirmed id c ⊎ Answered id run
  Run-Confirmed id here h = inl h
  Run-Confirmed id (next run st) h = elim (Step-Confirmed id st h) [
    | inl old ↦ elim (Run-Confirmed id run old) [
      | inl older ↦ inl older
      | inr known ↦ inr (inl known)
    ]
    | inr now ↦ inr (inr now)
  ]

  -- From a point where a consensus message is at hand or queued and its id is not confirmed, any
  -- interleaving of the send cycle with the receive cycle, Send, bans and new inbound streams, in
  -- which every delivery is in time, leaves the message at hand or queued, unless on the way a frame
  -- with that id came in that confirms it.
  pub Run-Answered :
      (d : List ℕ) (id : ℕ) {c : Connection} {s : Sender} {c' : Connection} {s' : Sender}
      (run : Run lib chain_id c s c' s')
      → ¬ Confirmed id c
      → Pending d id c s
      → Pending d id c' s' ⊎ Answered id run
  Run-Answered d id here fresh p = inl p
  Run-Answered d id (next run st) fresh p = elim (Run-Answered d id run fresh p) [
    | inl q ↦ elim (Step-Pending lib chain_id d id st q) [
      | inl after ↦ inl after
      | inr known ↦ elim (Run-Confirmed id run known) [
        | inl old ↦ absurd (fresh old)
        | inr answer ↦ inr (inl answer)
      ]
    ]
    | inr answer ↦ inr (inl answer)
  ]
