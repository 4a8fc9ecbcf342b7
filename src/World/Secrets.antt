-- ===== src/World/Secrets.antt =====
-- Where credentials may lie: `Secrets` relates the flags and buffers of the controller to the worker's
-- place. The calls of the API are here.
pub mod Callback
pub mod Rest
use i3lock.Prelude.{
  ℕ, suc, ◌+◌, ◌-◌, ◌≤◌, ◌<◌, ◌≡◌, refl, ap, ◌⊎◌, inl, inr, List, [], ◌∷◌, ◌++◌, Bool, true, false,
  not, ◌&&◌, ◌||◌, ◌==◌, Option, none, some, if◌then◌else◌, ltb, length, replicate, arith,
  Bool-cases, length-replicate,
}
use i3lock.Memory.{text_of, secure_wipe, stage}
use i3lock.Memory.Strings.{secure_wipe_all, length-stage}
use i3lock.Pam.{
  Event, PamCode, pam_conv_err, pam_buf_err, Style, echo_off, echo_on_style, error_msg, text_info,
  other_style, Message, Response,
}
use i3lock.Controller.{
  Ctrl, secure_buffer_size, wipe_deferred, wipe_pending, stop_waiting, post, is_busy, start_auth,
  accepts_answer, submit_answer, release_terminal, retire, cancel_auth, ack_terminal,
  request_shutdown,
}
use i3lock.Controller.Conversation.{
  Outcome, continues, blocks, fails, use_deferred, ask, begin_wait, prompt_event, on_prompt,
  on_status, on_style, on_message, on_wake, Talk, waits, returns, converse, resume,
  worker_conv_callback, checked_messages, wait_is_over, reply_with,
}
use i3lock.Controller.Worker.{begin_attempt, finish_attempt, after_ack, ack_wait_is_over}
use i3lock.World.{
  Pc, idle, in_pam, waiting, returned, acking, exited, World, Call, starts, answers, cancels,
  acknowledges, shuts_down, apply, settle, Step, call, empty_pipe, snapshot, handle, begin, leave,
  converses, resumes, pam_returns, finish, proceed, Reach, here, next,
}

abbrev pub zeros : List ℕ
zeros = replicate secure_buffer_size 0

-- The worker has an attempt under way; waits for an answer in it; is done with it.
abbrev pub is_active : Pc → Bool
is_active (in_pam _) = true
is_active (waiting _ _ _) = true
is_active (returned _ _) = true
is_active _ = false

abbrev pub is_waiting : Pc → Bool
is_waiting (waiting _ _ _) = true
is_waiting _ = false

abbrev pub is_closing : Pc → Bool
is_closing acking = true
is_closing exited = true
is_closing _ = false

pub record Secrets (c : Ctrl) (pc : Pc) : Type 0 where
  pub deferred_size : length c.deferred_input ≡ secure_buffer_size
  pub pending_size : length c.pending_response ≡ secure_buffer_size
  pub deferred_clean : c.deferred_input_submitted ≡ false → c.deferred_input ≡ zeros
  pub pending_clean : c.waiting_for_answer ≡ false → c.pending_response ≡ zeros
  pub staged : c.deferred_input_submitted ≡ true → (c.auth_requested ≡ true) ⊎ (is_active pc ≡ true)
  pub asked : c.waiting_for_answer ≡ true → is_waiting pc ≡ true
  pub busy : is_active pc ≡ true → c.auth_in_progress ≡ true
  pub closed : c.terminal_ack_pending ≡ true → is_closing pc ≡ true

pub waiting_active : (pc : Pc) → is_waiting pc ≡ true → is_active pc ≡ true
waiting_active (waiting _ _ _) h = refl
waiting_active _ h = cc

closing_inactive : (pc : Pc) → is_closing pc ≡ true → is_active pc ≡ false
closing_inactive acking h = refl
closing_inactive exited h = refl
closing_inactive _ h = cc

pub wiped_length :
    (b : List ℕ)
    → length b ≡ secure_buffer_size
    → length (secure_wipe b secure_buffer_size) ≡ secure_buffer_size
wiped_length b h =
    rw (secure_wipe_all b secure_buffer_size h) (length-replicate secure_buffer_size 0)

start-Secrets :
    (password : List ℕ) (c : Ctrl) (pc : Pc) → Secrets c pc → Secrets (start_auth password c).1 pc
unfolding start_auth is_busy
start-Secrets password c pc s =
    ground (arith, waiting_active pc, length-stage secure_buffer_size c.deferred_input password)

answer-Secrets :
    (t p : ℕ) (answer : List ℕ) (c : Ctrl) (pc : Pc)
    → Secrets c pc
    → Secrets (submit_answer t p answer c).1 pc
unfolding submit_answer accepts_answer
answer-Secrets t p answer c pc s =
    ground (arith, length-stage secure_buffer_size c.pending_response answer)

release-Secrets : (t : ℕ) (c : Ctrl) (pc : Pc) → Secrets c pc → Secrets (release_terminal t c) pc
unfolding release_terminal
release-Secrets t c pc s = ground (arith, closing_inactive pc)

retire-Secrets : (t : ℕ) (c : Ctrl) (pc : Pc) → Secrets c pc → Secrets (retire t c) pc
unfolding retire
retire-Secrets t c pc s = ground (
  arith,
  wiped_length c.deferred_input,
  wiped_length c.pending_response,
  secure_wipe_all c.deferred_input secure_buffer_size,
  secure_wipe_all c.pending_response secure_buffer_size,
)

cancel-Secrets : (t : ℕ) (c : Ctrl) (pc : Pc) → Secrets c pc → Secrets (cancel_auth t c) pc
unfolding cancel_auth
cancel-Secrets t c pc s = elim (Bool-cases (not c.initialised || t == 0)) [
  | inl refused ↦ rw (refused, cancel_auth) s
  | inr taken ↦ rw (taken, cancel_auth) (retire-Secrets t _ pc (release-Secrets t c pc s))
]

pub apply-Secrets : (f : Call) (c : Ctrl) (pc : Pc) → Secrets c pc → Secrets (apply f c) pc
unfolding apply ack_terminal request_shutdown
apply-Secrets (starts password) c pc s = start-Secrets password c pc s
apply-Secrets (answers t p answer) c pc s = answer-Secrets t p answer c pc s
apply-Secrets (cancels t) c pc s = cancel-Secrets t c pc s
apply-Secrets (acknowledges t) c pc s = ground (arith, release-Secrets t c pc s)
apply-Secrets shuts_down c pc s = ground arith

-- Any change of the channel alone.
pub channel-Secrets : (c : Ctrl) (pc : Pc) (e : Event) → Secrets c pc → Secrets (post c e).1 pc
unfolding post
channel-Secrets c pc e s = ground arith
