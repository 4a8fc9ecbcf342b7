-- ===== src/Controller.antt =====
-- The state of pam_controller.c, and the calls of its public API that run under the mutex.
-- A call returns its result beside the new state; each is one atomic step of the main thread.
pub mod Text
pub mod Conversation
pub mod Worker
pub mod Handover
pub mod Cycle
pub mod Lifecycle
use i3lock.Prelude.{
  ℕ, suc, ◌+◌, ◌^◌, ◌%◌, List, Bool, true, false, not, ◌&&◌, ◌||◌, Option, none, some, ◌==◌,
  if◌then◌else◌,
}
use i3lock.Memory.{secure_wipe, stage}
use i3lock.Pam.{Event}
use i3lock.Queue.{Channel, post_event_locked}

abbrev pub secure_buffer_size : ℕ
secure_buffer_size = 512

-- `x++` on a `uint64_t`
abbrev pub next_id : ℕ → ℕ
next_id n = (n + 1) % 2 ^ 64

-- `ctrl`, without the thread objects; `deferred_input` and `pending_response` are the two buffers of
-- `ctrl.secure`.
pub record Ctrl : Type 0 where
  pub channel : Channel
  pub auth_requested : Bool
  pub auth_in_progress : Bool
  pub shutdown_requested : Bool
  pub cancellation_requested : Bool
  pub waiting_for_answer : Bool
  pub answer_submitted : Bool
  pub deferred_input_submitted : Bool
  pub fatal_error : Bool
  pub terminal_ack_pending : Bool
  pub initialised : Bool
  pub next_transaction_id : ℕ
  pub next_prompt_id : ℕ
  pub active_transaction_id : ℕ
  pub terminal_transaction_id : ℕ
  pub waiting_prompt_id : ℕ
  pub prompts_seen : ℕ
  pub deferred_input : List ℕ
  pub pending_response : List ℕ

unfoldable pub wipe_deferred : Ctrl → Ctrl
wipe_deferred c = record c {
  deferred_input = secure_wipe c.deferred_input secure_buffer_size;
  deferred_input_submitted = false;
}

unfoldable pub wipe_pending : Ctrl → Ctrl
wipe_pending c = record c { pending_response = secure_wipe c.pending_response secure_buffer_size }

-- The three assignments that end the wait for an answer.
unfoldable pub stop_waiting : Ctrl → Ctrl
stop_waiting c = record c {
  waiting_for_answer = false;
  answer_submitted = false;
  waiting_prompt_id = 0;
}

unfoldable pub post : Ctrl → Event → Bool × Ctrl
post c e =
    let (posted, channel) = post_event_locked c.channel e in
    (posted, record c { channel = channel })

-- The guard of `pam_controller_start_auth`.
unfoldable pub is_busy : Ctrl → Bool
is_busy c =
    c.auth_requested
    || (c.auth_in_progress || (c.shutdown_requested || (c.fatal_error || c.terminal_ack_pending)))

-- 0 is a refusal.
unfoldable pub start_auth : List ℕ → Ctrl → ℕ × Ctrl
start_auth password c = if not c.initialised || is_busy c then (0, c) else (
  c.next_transaction_id,
  record c {
    deferred_input = stage secure_buffer_size c.deferred_input password;
    deferred_input_submitted = true;
    next_transaction_id = next_id c.next_transaction_id;
    active_transaction_id = c.next_transaction_id;
    auth_requested = true;
    cancellation_requested = false;
    waiting_for_answer = false;
    answer_submitted = false;
    waiting_prompt_id = 0;
    prompts_seen = 0;
  },
)

-- The guard of `pam_controller_submit_answer`.
unfoldable pub accepts_answer : ℕ → ℕ → Ctrl → Bool
accepts_answer transaction_id prompt_id c =
    not c.shutdown_requested
    && (not c.cancellation_requested
        && (c.waiting_for_answer
            && (c.active_transaction_id == transaction_id && c.waiting_prompt_id == prompt_id)))

unfoldable pub submit_answer : ℕ → ℕ → List ℕ → Ctrl → Bool × Ctrl
submit_answer transaction_id prompt_id answer c =
    if c.initialised && accepts_answer transaction_id prompt_id c
    then (
      true,
      record c {
        pending_response = stage secure_buffer_size c.pending_response answer;
        answer_submitted = true;
      },
    )
    else (false, c)

-- The block that `pam_controller_ack_terminal` and `pam_controller_cancel_auth` share.
unfoldable pub release_terminal : ℕ → Ctrl → Ctrl
release_terminal transaction_id c =
    if c.terminal_ack_pending && c.terminal_transaction_id == transaction_id
    then (record c {
      terminal_ack_pending = false;
      terminal_transaction_id = 0;
      auth_in_progress = false;
    })
    else c

-- The second block of `pam_controller_cancel_auth`.
unfoldable pub retire : ℕ → Ctrl → Ctrl
unfolding wipe_deferred wipe_pending
retire transaction_id c =
    if c.active_transaction_id == transaction_id && (c.auth_requested || c.auth_in_progress)
    then wipe_pending
        (wipe_deferred (record c { cancellation_requested = true; auth_requested = false }))
    else c

unfoldable pub cancel_auth : ℕ → Ctrl → Ctrl
unfolding release_terminal retire
cancel_auth transaction_id c =
    if not c.initialised || transaction_id == 0
    then c
    else retire transaction_id (release_terminal transaction_id c)

unfoldable pub ack_terminal : ℕ → Ctrl → Ctrl
unfolding release_terminal
ack_terminal transaction_id c = if c.initialised then release_terminal transaction_id c else c

-- The part of `pam_controller_cleanup` before it joins the worker.
unfoldable pub request_shutdown : Ctrl → Ctrl
request_shutdown c = if c.initialised then (record c { shutdown_requested = true }) else c

-- `cancellation_requested_locked_read`
unfoldable pub cancellation_requested_locked_read : Ctrl → Bool
cancellation_requested_locked_read c = c.cancellation_requested || c.shutdown_requested
