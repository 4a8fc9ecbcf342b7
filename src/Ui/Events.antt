-- ===== src/Ui/Events.antt =====
-- `handle_pam_event` of i3lock.c: what the main loop does with each event of the worker.
use i3lock.Prelude.{ℕ, List, [], ◌∷◌, Bool, true, false, not, ◌==◌, if◌then◌else◌}
use i3lock.Pam.{EventType, Event, ready, status, prompt, success, failure, cancelled, fatal}
use i3lock.Controller.{Ctrl, ack_terminal}
use i3lock.Ui.{
  Ui, auth_idle, lock_failed, key_pressed, redraw_screen, clear_password_memory, clear_input,
  clear_pam_display_text, shown_text,
}
use i3lock.Ui.Auth.{auth_failed}

-- The attempt is over for the UI.
unfoldable pub forget_transaction : Ui → Ui
forget_transaction u = record u {
  active_pam_transaction_id = 0;
  active_pam_prompt_id = 0;
  pam_waiting_for_prompt = false;
}

unfoldable pub show_status : Event → Ui → Ui
unfolding redraw_screen
show_status e u = redraw_screen (record u {
  pam_display = record (u.pam_display) {
    status_text = shown_text e.text;
    status_is_error = e.is_error;
  };
  pam_status_expires_with_auth_wrong = false;
})

unfoldable pub show_prompt : Event → Ui → Ui
unfolding clear_input redraw_screen
show_prompt e u = redraw_screen (
    clear_input (record u {
      active_pam_prompt_id = e.prompt_id;
      pam_waiting_for_prompt = true;
      pam_display = record (u.pam_display) {
        prompt_text = shown_text e.text;
        visible_input = [];
        prompt_echo_on = e.echo_on;
      };
      auth_state = auth_idle;
      unlock_state = key_pressed;
    }))

-- `text[0] != '\0'`
unfoldable pub has_text : List ℕ → Bool
has_text [] = false
has_text (b ∷ s) = not (b == 0)

-- The display after a failure or a fatal error: the event's text alone, if it has one.
unfoldable pub show_verdict : Event → Bool → Ui → Ui
unfolding clear_pam_display_text has_text
show_verdict e expires u₀ =
    let u = clear_pam_display_text u₀ in
    if has_text e.text
    then (record u {
      pam_display = record (u.pam_display) {
        status_text = shown_text e.text;
        status_is_error = e.is_error;
      };
      pam_status_expires_with_auth_wrong = expires;
    })
    else u

unfoldable pub unlock : Ui → Ui
unfolding forget_transaction clear_pam_display_text clear_password_memory
unlock u =
    let cleared = clear_password_memory (clear_pam_display_text (forget_transaction u)) in
    record cleared { unlocked = true }

unfoldable pub fail_attempt : Bool → Event → Ui → Ui
unfolding forget_transaction show_verdict auth_failed
fail_attempt calloc_ok e u = auth_failed calloc_ok (show_verdict e true (forget_transaction u))

unfoldable pub drop_attempt : Ui → Ui
unfolding forget_transaction clear_pam_display_text redraw_screen
drop_attempt u =
    let cleared = clear_pam_display_text (forget_transaction u) in
    redraw_screen (record cleared { auth_state = auth_idle })

unfoldable pub lock_forever : Event → Ui → Ui
unfolding forget_transaction show_verdict clear_input redraw_screen
lock_forever e u =
    let forgotten = forget_transaction u in
    let shown = show_verdict e false (record forgotten { pam_auth_fatal = true }) in
    redraw_screen (clear_input (record shown { auth_state = lock_failed }))

-- The UI's part of the handler, for an event of the active transaction.
unfoldable pub on_event : Bool → EventType → Event → Ui → Ui
unfolding show_status show_prompt unlock fail_attempt drop_attempt lock_forever
on_event calloc_ok ready e u = u
on_event calloc_ok status e u = show_status e u
on_event calloc_ok prompt e u = show_prompt e u
on_event calloc_ok success e u = unlock u
on_event calloc_ok failure e u = fail_attempt calloc_ok e u
on_event calloc_ok cancelled e u = drop_attempt u
on_event calloc_ok fatal e u = lock_forever e u

-- A terminal event is acknowledged whether or not its transaction is still the active one.
unfoldable pub on_ack : EventType → Event → Ctrl → Ctrl
on_ack ready e c = c
on_ack status e c = c
on_ack prompt e c = c
on_ack _ e c = ack_terminal e.transaction_id c

unfoldable pub handle_pam_event : Bool → Event → Ui → Ctrl → Ui × Ctrl
unfolding on_event on_ack
handle_pam_event calloc_ok e u c = (
  if e.transaction_id == u.active_pam_transaction_id then on_event calloc_ok e.type e u else u,
  on_ack e.type e c,
)
