-- ===== src/Ui/Submit.antt =====
-- The end of an input: what Enter hands to the controller.
use i3lock.Prelude.{
  ◌-◌, ◌≡◌, ap, ◌∙◌, inl, inr, true, false, not, ◌||◌, ◌==◌, length, take, length-take, arith,
  Bool-cases,
}
use i3lock.Memory.{text_of}
use i3lock.Memory.Strings.{NoNul, text_of-stage, take_of_length}
use i3lock.Controller.{Ctrl, secure_buffer_size, is_busy, start_auth}
use i3lock.Ui.{Ui, key_pressed, redraw_screen, terminate}
use i3lock.Ui.Auth.{
  is_verifying, stop_wrong_timer, show_verifying, start_attempt, input_done, finish_input,
}
use i3lock.Ui.Buffer.{Sound}
use i3lock.Ui.Typing.{typed, text_of-terminate}

staged_typed :
    (u : Ui) (c : Ctrl)
    → Sound u
    → NoNul (typed u)
    → c.initialised ≡ true
    → is_busy c ≡ false
    → length c.deferred_input ≡ secure_buffer_size
    → text_of (start_auth (terminate u).password c).1.deferred_input ≡ typed u
unfolding start_auth
staged_typed u c s safe ready free size =
    let runs : (not c.initialised || is_busy c) ≡ false = ground (arith, ready, free) in
    let all = text_of-terminate u s safe in
    let short = length-take u.input_position u.password in
    rw runs (
      text_of-stage secure_buffer_size c.deferred_input (terminate u).password (omega arith) size
      ∙ ap (take (secure_buffer_size - 1)) all
      ∙ take_of_length (secure_buffer_size - 1) (typed u) (omega (arith, short, s.room)))

start_attempt-ctrl : (u : Ui) (c : Ctrl) → (start_attempt u c).1 ≡ (start_auth u.password c).1
unfolding start_attempt
start_attempt-ctrl u c = elim (Bool-cases ((start_auth u.password c).0 == 0)) [
  | inl refused ↦ rw refused
  | inr accepted ↦ rw accepted
]

input_done-starts :
    (u : Ui) (c : Ctrl)
    → u.pam_auth_fatal ≡ false
    → is_verifying u.auth_state ≡ false
    → u.pam_waiting_for_prompt ≡ false
    → u.controller_started ≡ true
    → input_done u c ≡ start_attempt (show_verifying (stop_wrong_timer u)) c
unfolding input_done stop_wrong_timer show_verifying redraw_screen
input_done-starts u c alive quiet unasked started = rw (alive, quiet, unasked, started)

-- When Enter ends a text without NUL bytes, with no attempt under way and the controller free, then the controller
-- stages exactly the typed text.
pub finish_hands_over_typed :
    (u : Ui) (c : Ctrl)
    → Sound u
    → NoNul (typed u)
    → u.pam_auth_fatal ≡ false
    → is_verifying u.auth_state ≡ false
    → u.pam_waiting_for_prompt ≡ false
    → u.controller_started ≡ true
    → c.initialised ≡ true
    → is_busy c ≡ false
    → length c.deferred_input ≡ secure_buffer_size
    → text_of (finish_input u c).1.deferred_input ≡ typed u
unfolding finish_input redraw_screen terminate stop_wrong_timer show_verifying
finish_hands_over_typed u c s safe alive quiet unasked started ready free size =
    let ended = terminate u in
    let shown = redraw_screen (record ended { unlock_state = key_pressed }) in
    ap (λ r. text_of r.1.deferred_input) (input_done-starts shown c alive quiet unasked started)
    ∙ ap (λ d. text_of d.deferred_input)
        (start_attempt-ctrl (show_verifying (stop_wrong_timer shown)) c)
    ∙ staged_typed u c s safe ready free size
