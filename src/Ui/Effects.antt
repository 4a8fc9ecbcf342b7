-- ===== src/Ui/Effects.antt =====
-- What the handlers of i3lock.c change outside the input and the display: they reach the controller
-- through its API alone, and only where the controller was started.
pub mod Keys
use i3lock.Prelude.{
  ℕ, ◌+◌, ◌-◌, ◌≡◌, refl, ap, ◌∙◌, Bool, true, false, not, Option, none, some, List, arith,
  if◌then◌else◌, ◌==◌, ◌||◌, leb, ltb,
}
use i3lock.Utf8.{u8_dec}
use i3lock.Controller.{Ctrl, start_auth}
use i3lock.World.{starts, answers, cancels, apply}
use i3lock.World.Calls.{Calls, no_call, one_more}
use i3lock.Ui.{
  Ui, UnlockState, password_size, redraw_screen, clear_input, clear_pam_visible_input, terminate,
  clear_password_memory, clear_pam_display_text, clear_indicator, update_pam_visible_input,
  skip_without_validation,
}
use i3lock.Ui.Auth.{
  is_verifying, is_wrong, answer_prompt, start_attempt, stop_wrong_timer, show_verifying,
  input_done, finish_input, end_wrong, clear_auth_wrong,
}
use i3lock.Ui.Events.{forget_transaction}
use i3lock.Ui.Keys.{
  Keysym, KeyPress, resolve, first_switch, second_switch, SecondSwitch, FirstSwitch, completes,
  breaks, defaults, clears_line, escapes, ignores, deletes_char, types, handle_key_press, act, edit,
  on_enter, on_escape, hide_input, on_backspace, on_text, cut_input, on_empty_backspace, show_typed,
  store_text, discard_pending, cancel_transaction, with_ctrl, buffer_size,
}

-- Whether the screen is unlocked, whether the controller was started, the failures, the transaction and
-- whether a prompt waits.
abbrev pub core : Ui → Bool × Bool × ℕ × ℕ × Bool
core u = (
  u.unlocked, u.controller_started, u.failed_attempts, u.active_pam_transaction_id,
  u.pam_waiting_for_prompt,
)

-- Before the controller is started there is no transaction.
pub record Dormant (u : Ui) : Type 0 where
  pub off : u.controller_started ≡ false
  pub no_transaction : u.active_pam_transaction_id ≡ 0
  pub no_prompt : u.pam_waiting_for_prompt ≡ false

-- What a handler keeps that is no handler of PAM's events.
pub record Kept (u : Ui) (c : Ctrl) (r : Ui × Ctrl) : Type 0 where
  pub lock : r.0.unlocked ≡ u.unlocked
  pub start : r.0.controller_started ≡ u.controller_started
  pub failures : r.0.failed_attempts ≡ u.failed_attempts
  pub calls : Calls c r.1
  pub sleeps : Dormant u → Dormant r.0 × (r.1 ≡ c)

abbrev pub KeptAll : Ui → Ctrl → Option (Ui × Ctrl) → Type 0
KeptAll u c none = Unit {0}
KeptAll u c (some r) = Kept u c r

pub core-Dormant : (u v : Ui) → core v ≡ core u → Dormant u → Dormant v
core-Dormant u v e d = record {
  off = ap (λ k. k.1) e ∙ d.off;
  no_transaction = ap (λ k. k.3) e ∙ d.no_transaction;
  no_prompt = ap (λ k. k.4) e ∙ d.no_prompt;
}

-- A handler that leaves all of it alone.
pub core-Kept : (u v : Ui) (c : Ctrl) → core v ≡ core u → Kept u c (v, c)
core-Kept u v c e = record {
  lock = ap (λ k. k.0) e;
  start = ap (λ k. k.1) e;
  failures = ap (λ k. k.2) e;
  calls = no_call;
  sleeps = λ d. (core-Dormant u v e d, refl);
}

-- What is done before and behind it.
pub before-Kept : (u v : Ui) (c : Ctrl) (r : Ui × Ctrl) → core v ≡ core u → Kept v c r → Kept u c r
before-Kept u v c r e k = record {
  lock = k.lock ∙ ap (λ k. k.0) e;
  start = k.start ∙ ap (λ k. k.1) e;
  failures = k.failures ∙ ap (λ k. k.2) e;
  calls = k.calls;
  sleeps = λ d. k.sleeps (core-Dormant u v e d);
}

pub after-Kept : (u v w : Ui) (c d : Ctrl) → core w ≡ core v → Kept u c (v, d) → Kept u c (w, d)
after-Kept u v w c d e k = record {
  lock = ap (λ k. k.0) e ∙ k.lock;
  start = ap (λ k. k.1) e ∙ k.start;
  failures = ap (λ k. k.2) e ∙ k.failures;
  calls = k.calls;
  sleeps = λ h. (core-Dormant v w e (k.sleeps h).0, (k.sleeps h).1);
}

pub if-Kept :
    (b : Bool) (u : Ui) (c : Ctrl) (p q : Ui × Ctrl)
    → Kept u c p
    → Kept u c q
    → Kept u c (if b then p else q)
if-Kept true u c p q h k = h
if-Kept false u c p q h k = k

if-core :
    (b : Bool) (u v w : Ui) → core v ≡ core u → core w ≡ core u → core (if b then v else w) ≡ core u
if-core true u v w h k = h
if-core false u v w h k = k

pub clear_input-core : (u : Ui) → core (clear_input u) ≡ core u
unfolding clear_input clear_pam_visible_input terminate clear_password_memory
clear_input-core u = refl

pub hide-core : (u : Ui) → core (hide_input u) ≡ core u
unfolding hide_input clear_indicator redraw_screen
hide-core u =
    if-core u.unlock_indicator u (clear_indicator (clear_input u)) (clear_input u)
      (clear_input-core u) (clear_input-core u)

pub visible-core : (u : Ui) → core (update_pam_visible_input u) ≡ core u
unfolding update_pam_visible_input clear_pam_visible_input
visible-core u = if-core u.pam_display.prompt_echo_on u _ _ refl refl

pub discard-core : (u : Ui) → core (discard_pending u) ≡ core u
unfolding discard_pending
discard-core u =
    if-core u.retry_verification u _ _
      (clear_input-core
        (record u { skip_repeated_empty_password = false; retry_verification = false }))
      refl

pub show_typed-core : (calloc_ok : Bool) (u : Ui) → core (show_typed calloc_ok u) ≡ core u
unfolding show_typed redraw_screen
show_typed-core calloc_ok u = if-core u.unlock_indicator u _ _ refl refl

-- A flag has one value.
pub bool_clash : {b : Bool} → b ≡ false → b ≡ true → ⊥
bool_clash h k = cc

-- The same where each branch knows the condition.
pub split-Kept :
    (b : Bool) (u : Ui) (c : Ctrl) (p q : Ui × Ctrl)
    → (b ≡ true → Kept u c p)
    → (b ≡ false → Kept u c q)
    → Kept u c (if b then p else q)
split-Kept true u c p q h k = h refl
split-Kept false u c p q h k = k refl

negated_false : (b : Bool) → not b ≡ false → b ≡ true
negated_false b h = ground arith

answer_prompt-Kept :
    (u : Ui) (c : Ctrl) → u.pam_waiting_for_prompt ≡ true → Kept u c (answer_prompt u c)
unfolding answer_prompt clear_pam_visible_input clear_password_memory redraw_screen apply
answer_prompt-Kept u c waits = record {
  lock = refl;
  start = refl;
  failures = refl;
  calls = one_more no_call (answers u.active_pam_transaction_id u.active_pam_prompt_id u.password);
  sleeps = λ d. absurd (bool_clash d.no_prompt waits);
}

start_attempt-Kept :
    (u : Ui) (c : Ctrl) → u.controller_started ≡ true → Kept u c (start_attempt u c)
unfolding start_attempt clear_password_memory redraw_screen clear_pam_display_text apply
start_attempt-Kept u c on =
    if-Kept ((start_auth u.password c).0 == 0) u c _ _
      (record {
        lock = refl;
        start = refl;
        failures = refl;
        calls = one_more no_call (starts u.password);
        sleeps = λ d. absurd (bool_clash d.off on);
      })
      (record {
        lock = refl;
        start = refl;
        failures = refl;
        calls = one_more no_call (starts u.password);
        sleeps = λ d. absurd (bool_clash d.off on);
      })

verifying-core : (u : Ui) → core (show_verifying (stop_wrong_timer u)) ≡ core u
unfolding show_verifying stop_wrong_timer redraw_screen
verifying-core u = refl

input_done-Kept : (u : Ui) (c : Ctrl) → Kept u c (input_done u c)
unfolding input_done stop_wrong_timer show_verifying redraw_screen
input_done-Kept u c =
    let v = show_verifying (stop_wrong_timer u) in
    if-Kept u.pam_auth_fatal u c _ _ (core-Kept u _ c (clear_input-core u)) (
      if-Kept (is_verifying u.auth_state) u c _ _ (core-Kept u _ c refl) (
        split-Kept u.pam_waiting_for_prompt u c _ _
          (λ waits. before-Kept u v c _ (verifying-core u) (answer_prompt-Kept v c waits))
          (λ _.
            split-Kept (not u.controller_started) u c _ _ (λ _. core-Kept u _ c refl)
              (λ on.
                before-Kept u v c _ (verifying-core u)
                  (start_attempt-Kept v c (negated_false u.controller_started on))))))

pub finish_input-Kept : (u : Ui) (c : Ctrl) → Kept u c (finish_input u c)
unfolding finish_input terminate redraw_screen
finish_input-Kept u c =
    let ended = redraw_screen (record (terminate u) { unlock_state = UnlockState.key_pressed }) in
    before-Kept u ended c _ refl (input_done-Kept ended c)

end_wrong-core : (u : Ui) → core (end_wrong u) ≡ core u
unfolding end_wrong clear_pam_display_text redraw_screen stop_wrong_timer
end_wrong-core u = if-core u.pam_status_expires_with_auth_wrong u _ _ refl refl

pub clear_auth_wrong-Kept : (u : Ui) (c : Ctrl) → Kept u c (clear_auth_wrong u c)
unfolding clear_auth_wrong
clear_auth_wrong-Kept u c =
    if-Kept u.retry_verification u c _ _
      (before-Kept u (record (end_wrong u) { retry_verification = false }) c _ (end_wrong-core u)
        (finish_input-Kept (record (end_wrong u) { retry_verification = false }) c))
      (core-Kept u _ c (end_wrong-core u))
