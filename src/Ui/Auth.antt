-- ===== src/Ui/Auth.antt =====
-- The end of an input and of an attempt: `input_done`, `finish_input`, `auth_failed` and
-- `clear_auth_wrong` of i3lock.c. A handler that calls the controller returns its state too.
use i3lock.Prelude.{ℕ, ◌+◌, [], Bool, true, false, not, ltb, ◌==◌, if◌then◌else◌}
use i3lock.Controller.{Ctrl, start_auth, submit_answer}
use i3lock.Ui.{
  Ui, AuthState, auth_idle, auth_verify, auth_wrong, lock_failed, started, key_pressed,
  redraw_screen, start_timer, stop_timer, clear_password_memory, clear_pam_visible_input, terminate,
  clear_input, clear_pam_display_text,
}

unfoldable pub is_verifying : AuthState → Bool
is_verifying auth_verify = true
is_verifying _ = false

unfoldable pub is_wrong : AuthState → Bool
is_wrong auth_wrong = true
is_wrong _ = false

-- Two seconds
abbrev pub wrong_shown_for : ℕ
wrong_shown_for = 2000

unfoldable pub auth_failed : Bool → Ui → Ui
unfolding clear_input redraw_screen start_timer stop_timer
auth_failed calloc_ok u =
    let failed = record u {
      auth_state = auth_wrong;
      failed_attempts =
          if ltb u.failed_attempts 999 then u.failed_attempts + 1 else u.failed_attempts;
    } in
    let cleared = clear_input failed in
    let shown = if u.unlock_indicator then redraw_screen cleared else cleared in
    record shown {
      clear_auth_wrong_timeout = start_timer calloc_ok u.clear_auth_wrong_timeout wrong_shown_for;
      clear_indicator_timeout = stop_timer u.clear_indicator_timeout;
      bells = if u.beep then u.bells + 1 else u.bells;
    }

-- The branch of `input_done` that answers a prompt.
unfoldable pub answer_prompt : Ui → Ctrl → Ui × Ctrl
unfolding clear_pam_visible_input clear_password_memory redraw_screen
answer_prompt u c =
    let shown = record u {
      pam_waiting_for_prompt = false;
      active_pam_prompt_id = 0;
      pam_display = record (u.pam_display) {
        prompt_text = [];
        visible_input = [];
        prompt_echo_on = false;
      };
    } in
    let (accepted, c') =
      submit_answer u.active_pam_transaction_id u.active_pam_prompt_id u.password c in
    let verdict = record shown { auth_state = if accepted then auth_verify else auth_idle } in
    (redraw_screen (clear_password_memory verdict), c')

-- The branch of `input_done` that starts an attempt.
unfoldable pub start_attempt : Ui → Ctrl → Ui × Ctrl
unfolding clear_password_memory redraw_screen clear_pam_display_text
start_attempt u c =
    let (transaction_id, c') = start_auth u.password c in
    let begun = record u { active_pam_transaction_id = transaction_id } in
    if transaction_id == 0
    then (redraw_screen (clear_password_memory (record begun { auth_state = auth_idle })), c')
    else (clear_password_memory (clear_pam_display_text begun), c')

unfoldable pub stop_wrong_timer : Ui → Ui
unfolding stop_timer
stop_wrong_timer u = record u { clear_auth_wrong_timeout = stop_timer u.clear_auth_wrong_timeout }

unfoldable pub show_verifying : Ui → Ui
unfolding redraw_screen
show_verifying u = redraw_screen (record u { auth_state = auth_verify; unlock_state = started })

unfoldable pub input_done : Ui → Ctrl → Ui × Ctrl
unfolding stop_wrong_timer clear_input redraw_screen is_verifying show_verifying answer_prompt
    start_attempt
input_done u₀ c =
    let u = stop_wrong_timer u₀ in
    if u.pam_auth_fatal
    then (redraw_screen (clear_input (record u { auth_state = lock_failed })), c)
    else if is_verifying u.auth_state
    then (u, c)
    else if u.pam_waiting_for_prompt
    then answer_prompt (show_verifying u) c
    else if not u.controller_started
    then (
      redraw_screen
          (let verifying = show_verifying u in record verifying { auth_state = lock_failed }),
      c,
    )
    else start_attempt (show_verifying u) c

unfoldable pub finish_input : Ui → Ctrl → Ui × Ctrl
unfolding terminate redraw_screen input_done
finish_input u c =
    let ended = terminate u in
    input_done (redraw_screen (record ended { unlock_state = key_pressed })) c

-- What the timer's callback does before a retry. It also frees the modifier string, which the next
-- drawing makes anew.
unfoldable pub end_wrong : Ui → Ui
unfolding clear_pam_display_text redraw_screen stop_wrong_timer
end_wrong u =
    let idle = record u { auth_state = auth_idle } in
    stop_wrong_timer (
      redraw_screen
        (if u.pam_status_expires_with_auth_wrong then clear_pam_display_text idle else idle))

unfoldable pub clear_auth_wrong : Ui → Ctrl → Ui × Ctrl
unfolding end_wrong finish_input
clear_auth_wrong u c =
    let shown = end_wrong u in
    if u.retry_verification
    then finish_input (record shown { retry_verification = false }) c
    else (shown, c)
