-- ===== src/Tests/Controller.antt =====
-- Tests of the controller's calls and of the worker's callback.
use i3lock.Prelude.{◌≡◌, ◌⊎◌, refl, [], ◌∷◌, true, false, some, replicate, arith}
use i3lock.Pam.{pam_abort, pam_conv_err, Message, echo_off}
use i3lock.Controller.{
  Ctrl, is_busy, start_auth, submit_answer, accepts_answer, cancel_auth, ack_terminal,
}
use i3lock.Controller.Conversation.{
  worker_conv_callback, wait_is_over, on_wake, continues, fails, on_message,
}
use i3lock.Controller.Conversation.Answers.{Aligned, callback-Aligned}
use i3lock.Controller.Worker.{begin_attempt, finish_attempt, is_abort}
use i3lock.Controller.Handover.{
  Delivered, fitted, zeros, first_prompt_gets_password, answer_reaches_pam, cancel_refuses_pam,
}
use i3lock.Controller.Cycle.{acknowledged_restarts}
use i3lock.Controller.Lifecycle.{
  Startup, unstarted, before_thread, all_ok, pam_controller_init, pam_controller_cleanup,
  init_all_or_nothing, restarted_refuses,
}
use i3lock.Tests.{fresh_ctrl, pw}

abbrev hidden_prompt : Message
hidden_prompt = record { msg_style = echo_off; msg = some pw }

-- The worker waits for the answer to prompt 3 of transaction 1.
abbrev asking_ctrl : Ctrl
asking_ctrl = record fresh_ctrl {
  auth_in_progress = true;
  active_transaction_id = 1;
  waiting_for_answer = true;
  waiting_prompt_id = 3;
}

callback-Aligned_example :
    Aligned 1
      (worker_conv_callback 32 (some (some hidden_prompt ∷ [])) true true (λ i. true) asking_ctrl)
callback-Aligned_example =
    callback-Aligned 32 (some hidden_prompt ∷ []) true true (λ i. true) asking_ctrl

first_prompt_gets_password_example :
    Delivered
      (fitted pw)
      (on_message true hidden_prompt (begin_attempt (start_auth pw fresh_ctrl).1))
unfolding is_busy replicate
first_prompt_gets_password_example =
    first_prompt_gets_password fresh_ctrl pw hidden_prompt refl refl refl refl

answer_reaches_pam_example :
    let c' = (submit_answer 1 3 pw asking_ctrl).1 in
    (wait_is_over c' ≡ true)
    × (after : Ctrl) × (on_wake true c' ≡ continues (some (fitted pw)) after)
    × (after.pending_response ≡ zeros)
    × (after.waiting_for_answer ≡ false)
unfolding submit_answer accepts_answer replicate
answer_reaches_pam_example = answer_reaches_pam asking_ctrl 1 3 pw refl refl

cancel_refuses_pam_example :
    let c' = cancel_auth 1 asking_ctrl in
    (wait_is_over c' ≡ true)
    × (after : Ctrl) × (on_wake true c' ≡ fails pam_conv_err after)
    × (after.pending_response ≡ zeros)
    × (after.deferred_input ≡ zeros)
    × (after.cancellation_requested ≡ true)
unfolding replicate
cancel_refuses_pam_example =
    cancel_refuses_pam asking_ctrl 1 true refl (λ e. absurd (omega (arith, e))) refl refl refl refl
      refl

acknowledged_restarts_example :
    let ended = finish_attempt pam_abort 1 asking_ctrl in
    (is_busy ended ≡ true) × (is_busy (ack_terminal 1 ended) ≡ true)
unfolding is_abort
acknowledged_restarts_example = acknowledged_restarts pam_abort 1 asking_ctrl refl refl

-- Every call succeeds but the last, which starts the thread.
abbrev no_thread : Startup
no_thread = record {
  username_ok = true;
  display_given = true;
  display_ok = true;
  calloc_ok = true;
  mlock_ok = true;
  pipe_ok = true;
  nonblocking_read_ok = true;
  nonblocking_write_ok = true;
  mutex_ok = true;
  cond_ok = true;
  thread_ok = false;
}

abbrev good_start : Startup
good_start = record no_thread { thread_ok = true }

init_all_or_nothing_example :
    let (started, p) = pam_controller_init no_thread (unstarted 65536) in
    (started ≡ all_ok no_thread)
    × ((started ≡ true)
        ⊎ (p ≡ record (unstarted 65536) { sigpipe_ignored = before_thread no_thread }))
init_all_or_nothing_example = init_all_or_nothing no_thread 65536

restarted_refuses_example :
    let (started, q) =
      pam_controller_init good_start
        (pam_controller_cleanup (pam_controller_init good_start (unstarted 65536)).1) in
    (started ≡ true) × ((start_auth pw q.ctrl).0 ≡ 0)
unfolding pam_controller_init
restarted_refuses_example =
    restarted_refuses good_start (pam_controller_init good_start (unstarted 65536)).1 pw refl refl
