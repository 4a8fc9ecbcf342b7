-- ===== src/Controller/Worker.antt =====
-- `worker_main`, cut at its waits and at its calls into PAM.
use i3lock.Prelude.{ℕ, List, [], ◌∷◌, Bool, true, false, not, ◌&&◌, ◌||◌, some, if◌then◌else◌}
use i3lock.Pam.{
  EventType, Event, PamCode, pam_success, pam_abort, pam_system_err, pam_service_err, pam_conv_err,
  is_success, ready, success, failure, cancelled, fatal,
}
use i3lock.Controller.{Ctrl, wipe_deferred, wipe_pending, stop_waiting, post}
use i3lock.Controller.Text.{event_set_text}

abbrev pub simple_event : EventType → ℕ → Event
simple_event type txn = record {
  type = type;
  transaction_id = txn;
  prompt_id = 0;
  echo_on = false;
  is_error = false;
  text = [];
}

-- The first event, posted before the loop.
unfoldable pub worker_ready : Ctrl → Ctrl
unfolding post
worker_ready c = (post c (simple_event ready 0)).1

-- The wait for a request ends.
unfoldable pub worker_wakes : Ctrl → Bool
worker_wakes c = c.auth_requested || c.shutdown_requested

-- The start of an attempt, up to the unlock.
unfoldable pub begin_attempt : Ctrl → Ctrl
begin_attempt c = record c {
  auth_requested = false;
  auth_in_progress = true;
  cancellation_requested = false;
  waiting_for_answer = false;
  answer_submitted = false;
  waiting_prompt_id = 0;
  prompts_seen = 0;
}

-- What is passed to `pam_end`: the results of `pam_authenticate`, `pam_acct_mgmt` and `pam_setcred`,
-- and the three reads of the cancellation flags between them.
unfoldable pub terminal_status : PamCode → Bool → PamCode → Bool → PamCode → Bool → PamCode
terminal_status ret cancelled_before_acct acct cancelled_before_setcred setcred cancelled_after =
    if cancelled_after
    then pam_conv_err
    else if is_success ret && (not cancelled_before_setcred && not (is_success setcred))
    then setcred
    else if is_success ret && (not cancelled_before_acct && not (is_success acct))
    then acct
    else ret

-- "Authentication service failed" and "Authentication service error"
abbrev pub service_failed : List ℕ
service_failed =
    65 ∷ 117 ∷ 116 ∷ 104 ∷ 101 ∷ 110 ∷ 116 ∷ 105 ∷ 99 ∷ 97 ∷ 116 ∷ 105 ∷ 111 ∷ 110 ∷ 32 ∷ 115 ∷ 101
    ∷ 114 ∷ 118 ∷ 105 ∷ 99 ∷ 101 ∷ 32 ∷ 102 ∷ 97 ∷ 105 ∷ 108 ∷ 101 ∷ 100 ∷ []

abbrev pub service_error : List ℕ
service_error =
    65 ∷ 117 ∷ 116 ∷ 104 ∷ 101 ∷ 110 ∷ 116 ∷ 105 ∷ 99 ∷ 97 ∷ 116 ∷ 105 ∷ 111 ∷ 110 ∷ 32 ∷ 115 ∷ 101
    ∷ 114 ∷ 118 ∷ 105 ∷ 99 ∷ 101 ∷ 32 ∷ 101 ∷ 114 ∷ 114 ∷ 111 ∷ 114 ∷ []

unfoldable pub error_event : EventType → ℕ → List ℕ → Event
error_event type txn text = record (simple_event type txn) {
  is_error = true;
  text = event_set_text (some text);
}

-- The terminal event by the result of `pam_authenticate`.
unfoldable pub verdict : PamCode → ℕ → Event
unfolding error_event
verdict pam_success txn = simple_event success txn
verdict pam_abort txn = error_event fatal txn service_failed
verdict pam_system_err txn = error_event failure txn service_error
verdict pam_service_err txn = error_event failure txn service_error
verdict _ txn = simple_event failure txn

unfoldable pub is_abort : PamCode → Bool
is_abort pam_abort = true
is_abort _ = false

-- The end of an attempt, from the second lock to the wait for the acknowledgement.
unfoldable pub finish_attempt : PamCode → ℕ → Ctrl → Ctrl
unfolding wipe_deferred wipe_pending stop_waiting verdict is_abort post
finish_attempt ret txn c =
    let clean = stop_waiting (wipe_pending (wipe_deferred c)) in
    let closed = record clean { terminal_ack_pending = true; terminal_transaction_id = txn } in
    if c.cancellation_requested
    then (post (record closed { cancellation_requested = false }) (simple_event cancelled txn)).1
    else (post (record closed { fatal_error = c.fatal_error || is_abort ret }) (verdict ret txn)).1

-- The wait for the acknowledgement ends.
unfoldable pub ack_wait_is_over : Ctrl → Bool
ack_wait_is_over c = not c.terminal_ack_pending || c.shutdown_requested

unfoldable pub after_ack : Ctrl → Ctrl
after_ack c = if c.shutdown_requested then c else (record c { auth_in_progress = false })
