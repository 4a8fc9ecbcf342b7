-- ===== src/World/Channel.antt =====
-- How the threads change the event queue: by API calls, by the callback, by the end of an attempt.
use i3lock.Prelude.{
  ℕ, ◌+◌, ◌≡◌, refl, List, [], ◌∷◌, ◌++◌, Bool, true, false, not, ◌&&◌, ◌||◌, ◌==◌, ltb, Option,
  none, some, if◌then◌else◌, length, arith,
}
use i3lock.Memory.{text_of}
use i3lock.Pam.{
  Event, PamCode, pam_conv_err, pam_buf_err, Style, echo_off, echo_on_style, error_msg, text_info,
  other_style, Message, Response, event_is_terminal, cancelled,
}
use i3lock.Queue.{Channel, post_event_locked}
use i3lock.Controller.{
  Ctrl, wipe_deferred, wipe_pending, stop_waiting, start_auth, submit_answer, cancel_auth,
  ack_terminal, request_shutdown,
}
use i3lock.Controller.Conversation.{
  Outcome, continues, blocks, fails, use_deferred, prompt_event, status_event, ask, on_prompt,
  on_status, on_style, on_message, on_wake, Talk, waits, returns, converse, resume,
  worker_conv_callback, checked_messages, reply_with,
}
use i3lock.Controller.Worker.{simple_event, verdict, finish_attempt, after_ack}
use i3lock.World.{Call, starts, answers, cancels, acknowledges, shuts_down, apply}

-- No API call touches the queue.
pub channel-apply : (f : Call) (c : Ctrl) → (apply f c).channel ≡ c.channel
unfolding apply start_auth submit_answer cancel_auth ack_terminal request_shutdown
channel-apply (starts password) c = ground arith
channel-apply (answers t p answer) c = ground arith
channel-apply (cancels t) c = ground arith
channel-apply (acknowledges t) c = ground arith
channel-apply shuts_down c = ground arith

-- The terminal event of an attempt.
unfoldable pub terminal_event : PamCode → ℕ → Ctrl → Event
terminal_event ret txn c =
    if c.cancellation_requested then simple_event cancelled txn else verdict ret txn

-- The end of an attempt posts just that event.
pub finish-channel :
    (ret : PamCode) (txn : ℕ) (c : Ctrl)
    → (finish_attempt ret txn c).channel
      ≡ (post_event_locked c.channel (terminal_event ret txn c)).1
unfolding finish_attempt terminal_event
finish-channel ret txn c = ground arith

pub ack-channel : (c : Ctrl) → (after_ack c).channel ≡ c.channel
unfolding after_ack
ack-channel c = ground arith

abbrev pub outcome_channel : Outcome → Channel
outcome_channel (continues r c) = c.channel
outcome_channel (blocks c) = c.channel
outcome_channel (fails code c) = c.channel

abbrev pub talk_channel : Talk → Channel
talk_channel (waits ms replies c) = c.channel
talk_channel (returns code reply c) = c.channel

-- A property of the queue that posting what is not terminal keeps.
module _ (P : Channel → Type 0)
    (keep : (ch : Channel) (e : Event)
      → event_is_terminal e.type ≡ false
      → P ch
      → P (post_event_locked ch e).1) where
  ask-keeps :
      (hidden : Bool) (text : Option (List ℕ)) (c : Ctrl)
      → P c.channel
      → P (outcome_channel (ask hidden text c))
  unfolding ask event_is_terminal
  ask-keeps hidden text c h =
      let posted = keep c.channel (prompt_event c c.next_prompt_id hidden text) refl h in
      ground (arith, posted)

  if_keeps :
      (b : Bool) (o o' : Outcome)
      → P (outcome_channel o)
      → P (outcome_channel o')
      → P (outcome_channel (if b then o else o'))
  if_keeps true o o' h h' = h
  if_keeps false o o' h h' = h'

  prompt-keeps :
      (ok hidden : Bool) (text : Option (List ℕ)) (c : Ctrl)
      → P c.channel
      → P (outcome_channel (on_prompt ok hidden text c))
  unfolding on_prompt
  prompt-keeps ok hidden text c h =
      let seen = record c { prompts_seen = c.prompts_seen + 1 } in
      if_keeps (c.prompts_seen + 1 == 1 && (hidden && c.deferred_input_submitted))
        (use_deferred ok seen) (ask hidden text seen)
        (if_keeps ok (continues (some (text_of c.deferred_input)) (wipe_deferred seen))
          (fails pam_buf_err (wipe_deferred seen)) h h)
        (ask-keeps hidden text seen h)

  status-keeps :
      (is_error : Bool) (text : Option (List ℕ)) (c : Ctrl)
      → P c.channel
      → P (outcome_channel (on_status is_error text c))
  unfolding on_status event_is_terminal
  status-keeps is_error text c h = keep c.channel (status_event c is_error text) refl h

  style-keeps :
      (ok : Bool) (style : Style) (text : Option (List ℕ)) (c : Ctrl)
      → P c.channel
      → P (outcome_channel (on_style ok style text c))
  unfolding on_style
  style-keeps ok echo_off text c h = prompt-keeps ok true text c h
  style-keeps ok echo_on_style text c h = prompt-keeps ok false text c h
  style-keeps ok text_info text c h = status-keeps false text c h
  style-keeps ok error_msg text c h = status-keeps true text c h
  style-keeps ok (other_style n) text c h = h

  message-keeps :
      (ok : Bool) (m : Message) (c : Ctrl) → P c.channel → P (outcome_channel (on_message ok m c))
  unfolding on_message
  message-keeps ok m c h =
      if_keeps (c.shutdown_requested || c.cancellation_requested) (fails pam_conv_err c)
        (on_style ok m.msg_style m.msg c) h (style-keeps ok m.msg_style m.msg c h)

  wake-keeps : (ok : Bool) (c : Ctrl) → P c.channel → P (outcome_channel (on_wake ok c))
  unfolding on_wake
  wake-keeps ok c h =
      let answered = stop_waiting (wipe_pending c) in
      if_keeps (c.shutdown_requested || c.cancellation_requested)
        (fails pam_conv_err (wipe_pending (stop_waiting c)))
        (reply_with ok (text_of c.pending_response) answered) h
        (if_keeps ok (continues (some (text_of c.pending_response)) answered)
          (fails pam_buf_err answered) h h)

  converse-keeps :
      (ok : ℕ → Bool) (ms : List Message) (replies : List Response) (c : Ctrl)
      → P c.channel
      → P (talk_channel (converse ok ms replies c))
  unfolding converse
  converse-keeps ok [] replies c h = h
  converse-keeps ok (m ∷ ms) replies c h =
      go (on_message (ok (length replies)) m c) (message-keeps (ok (length replies)) m c h)
        (λ replies' c'. converse-keeps ok ms replies' c')
    where
      go :
          (o : Outcome)
          → P (outcome_channel o)
          → ((rs : List Response) (d : Ctrl) → P d.channel → P (talk_channel (converse ok ms rs d)))
          → P (
              talk_channel (elim o [
                | continues reply c' ↦ converse ok ms (replies ++ (reply ∷ [])) c'
                | blocks c' ↦ waits ms replies c'
                | fails code c' ↦ returns code none c'
              ]))
      go (continues reply c') h rest = rest _ c' h
      go (blocks c') h rest = h
      go (fails code c') h rest = h

  pub resume-keeps :
      (ok : ℕ → Bool) (ms : List Message) (replies : List Response) (c : Ctrl)
      → P c.channel
      → P (talk_channel (resume ok ms replies c))
  unfolding resume
  resume-keeps ok ms replies c h =
      go (on_wake (ok (length replies)) c) (wake-keeps (ok (length replies)) c h)
    where
      go :
          (o : Outcome)
          → P (outcome_channel o)
          → P (
              talk_channel (elim o [
                | continues reply c' ↦ converse ok ms (replies ++ (reply ∷ [])) c'
                | blocks c' ↦ waits ms replies c'
                | fails code c' ↦ returns code none c'
              ]))
      go (continues reply c') h = converse-keeps ok ms _ c' h
      go (blocks c') h = h
      go (fails code c') h = h

  talk-if_keeps :
      (b : Bool) (t t' : Talk)
      → P (talk_channel t)
      → P (talk_channel t')
      → P (talk_channel (if b then t else t'))
  talk-if_keeps true t t' h h' = h
  talk-if_keeps false t t' h h' = h'

  pub callback-keeps :
      (most : ℕ) (msg : Option (List (Option Message))) (given calloc_ok : Bool) (ok : ℕ → Bool)
      (c : Ctrl)
      → P c.channel
      → P (talk_channel (worker_conv_callback most msg given calloc_ok ok c))
  unfolding worker_conv_callback
  callback-keeps most none given calloc_ok ok c h = h
  callback-keeps most (some msg) given calloc_ok ok c h =
      talk-if_keeps (length msg == 0 || (ltb most (length msg) || not given))
        (returns pam_conv_err none c) (checked (checked_messages msg)) h (go (checked_messages msg))
    where
      checked : Option (List Message) → Talk
      checked r = elim r [
        | none ↦ returns pam_conv_err none c
        | some ms ↦ if calloc_ok then converse ok ms [] c else returns pam_buf_err none c
      ]

      go : (r : Option (List Message)) → P (talk_channel (checked r))
      go none = h
      go (some ms) =
          talk-if_keeps calloc_ok (converse ok ms [] c) (returns pam_buf_err none c)
            (converse-keeps ok ms [] c h) h
