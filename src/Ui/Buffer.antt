-- ===== src/Ui/Buffer.antt =====
-- The bounds of the input buffer of i3lock.c: `IsSound` for its size, its position and its first byte.
use i3lock.Prelude.{
  ℕ, zero, suc, ◌<◌, ◌≡◌, refl, ap, List, [], ◌∷◌, Bool, true, false, not, ◌==◌, if◌then◌else◌,
  length, set, replicate, length-set, arith,
}
use i3lock.Memory.{strlen, secure_wipe, byte_at}
use i3lock.Memory.Strings.{length-secure_wipe, strlen-le}
use i3lock.Utf8.{is_utf8_continuation_byte}
use i3lock.Pam.{EventType, Event, ready, status, prompt, success, failure, cancelled, fatal}
use i3lock.Controller.{Ctrl}
use i3lock.Ui.{
  lock_failed, auth_idle, key_pressed, Ui, password_size, index_pattern, wiped_password,
  clear_password_memory, terminate, clear_input, clear_pam_display_text, redraw_screen,
  discard_passwd_cb, clear_indicator_cb,
}
use i3lock.Ui.Auth.{
  end_wrong, stop_wrong_timer, show_verifying, is_verifying, auth_failed, answer_prompt,
  start_attempt, input_done, finish_input, clear_auth_wrong,
}
use i3lock.Ui.Events.{forget_transaction, show_verdict, has_text, handle_pam_event, on_event}

pub record IsSound (password : List ℕ) (position : ℕ) : Type 0 where
  pub size : length password ≡ password_size
  pub room : position < password_size
  pub lead : is_utf8_continuation_byte (byte_at password 0) ≡ false

length-index_pattern : (i n k : ℕ) → length (index_pattern i n k) ≡ n
unfolding index_pattern
length-index_pattern i zero k = refl
length-index_pattern i (suc n) k = ap suc (length-index_pattern (suc i) n k)

wiped_lead :
    (p : List ℕ) (n : ℕ)
    → is_utf8_continuation_byte (byte_at p 0) ≡ false
    → is_utf8_continuation_byte (byte_at (secure_wipe p n) 0) ≡ false
unfolding secure_wipe replicate is_utf8_continuation_byte
wiped_lead p zero h = h
wiped_lead p (suc n) h = refl

pattern_lead :
    (n : ℕ) (beep : Bool)
    → is_utf8_continuation_byte (byte_at (index_pattern 0 n (if beep then 1 else 0)) 0) ≡ false
unfolding index_pattern is_utf8_continuation_byte
pattern_lead zero beep = refl
pattern_lead (suc n) true = refl
pattern_lead (suc n) false = refl

pub wiped-IsSound :
    (bzero beep : Bool) (p : List ℕ) (i j : ℕ)
    → IsSound p i
    → j < password_size
    → IsSound (wiped_password bzero beep p) j
unfolding wiped_password
wiped-IsSound true beep p i j s h = record {
  size = omega (arith, length-secure_wipe p (strlen p) (strlen-le p), s.size);
  room = h;
  lead = wiped_lead p (strlen p) s.lead;
}
wiped-IsSound false beep p i j s h = record {
  size = omega (arith, length-index_pattern 0 (length p) (if beep then 1 else 0), s.size);
  room = h;
  lead = pattern_lead (length p) beep;
}

set_lead :
    (p : List ℕ) (i : ℕ)
    → is_utf8_continuation_byte (byte_at p 0) ≡ false
    → is_utf8_continuation_byte (byte_at (set p i 0) 0) ≡ false
unfolding is_utf8_continuation_byte
set_lead [] i h = h
set_lead (b ∷ p) zero h = refl
set_lead (b ∷ p) (suc i) h = h

pub set-IsSound : (p : List ℕ) (i j : ℕ) → IsSound p i → j < password_size → IsSound (set p j 0) j
set-IsSound p i j s h = record {
  size = omega (arith, length-set p j 0, s.size);
  room = h;
  lead = set_lead p j s.lead;
}

abbrev pub Sound : Ui → Type 0
Sound u = IsSound u.password u.input_position

pub clear_input-Sound : (u : Ui) → Sound u → Sound (clear_input u)
unfolding clear_input
clear_input-Sound u s =
    set-IsSound (wiped_password u.have_explicit_bzero u.beep u.password) 0 0
      (wiped-IsSound u.have_explicit_bzero u.beep u.password u.input_position 0 s (omega arith))
      (omega arith)

wiped-Sound : (u : Ui) → Sound u → Sound (clear_password_memory u)
unfolding clear_password_memory
wiped-Sound u s =
    wiped-IsSound u.have_explicit_bzero u.beep u.password u.input_position u.input_position s s.room

terminate-Sound : (u : Ui) → Sound u → Sound (terminate u)
unfolding terminate
terminate-Sound u s = set-IsSound u.password u.input_position u.input_position s s.room

answer_prompt-Sound : (u : Ui) (c : Ctrl) → Sound u → Sound (answer_prompt u c).0
unfolding answer_prompt
answer_prompt-Sound u c s = wiped-Sound u s

start_attempt-Sound : (u : Ui) (c : Ctrl) → Sound u → Sound (start_attempt u c).0
unfolding start_attempt
start_attempt-Sound u c s = ground (
  arith,
  wiped-IsSound u.have_explicit_bzero u.beep u.password u.input_position u.input_position s s.room,
)

-- A choice between states.
pub if-Sound : (b : Bool) (p q : Ui × Ctrl) → Sound p.0 → Sound q.0 → Sound (if b then p else q).0
if-Sound true p q h k = h
if-Sound false p q h k = k

pub input_done-Sound : (u : Ui) (c : Ctrl) → Sound u → Sound (input_done u c).0
unfolding input_done
input_done-Sound u c s = if-Sound u.pam_auth_fatal _ _ (clear_input-Sound u s) (
    if-Sound (is_verifying u.auth_state) _ _ s (
      if-Sound u.pam_waiting_for_prompt _ _
        (answer_prompt-Sound (show_verifying (stop_wrong_timer u)) c s)
        (if-Sound (not u.controller_started) _ _ s
          (start_attempt-Sound (show_verifying (stop_wrong_timer u)) c s))))

pub finish_input-Sound : (u : Ui) (c : Ctrl) → Sound u → Sound (finish_input u c).0
unfolding finish_input
finish_input-Sound u c s =
    input_done-Sound
      (let ended = terminate u in redraw_screen (record ended { unlock_state = key_pressed })) c
      (terminate-Sound u s)

-- A choice between states with no call of the controller.
pub if_ui-Sound : (b : Bool) (u v : Ui) → Sound u → Sound v → Sound (if b then u else v)
if_ui-Sound true u v h k = h
if_ui-Sound false u v h k = k

end_wrong-Sound : (u : Ui) → Sound u → Sound (end_wrong u)
unfolding end_wrong
end_wrong-Sound u s =
    if_ui-Sound u.pam_status_expires_with_auth_wrong _ (record u { auth_state = auth_idle }) s s

pub clear_auth_wrong-Sound : (u : Ui) (c : Ctrl) → Sound u → Sound (clear_auth_wrong u c).0
unfolding clear_auth_wrong
clear_auth_wrong-Sound u c s =
    let shown = end_wrong u in
    let retry = record shown { retry_verification = false } in
    if-Sound u.retry_verification (finish_input retry c) (shown, c)
      (finish_input-Sound retry c (end_wrong-Sound u s)) (end_wrong-Sound u s)

auth_failed-Sound : (calloc_ok : Bool) (u : Ui) → Sound u → Sound (auth_failed calloc_ok u)
unfolding auth_failed
auth_failed-Sound calloc_ok u s =
    if_ui-Sound u.unlock_indicator _ _ (clear_input-Sound u s) (clear_input-Sound u s)

verdict-Sound : (e : Event) (expires : Bool) (u : Ui) → Sound u → Sound (show_verdict e expires u)
unfolding show_verdict
verdict-Sound e expires u s = if_ui-Sound (has_text e.text) _ (clear_pam_display_text u) s s

on_event-Sound :
    (calloc_ok : Bool) (type : EventType) (e : Event) (u : Ui)
    → Sound u
    → Sound (on_event calloc_ok type e u)
unfolding on_event
on_event-Sound calloc_ok ready e u s = s
on_event-Sound calloc_ok status e u s = s
on_event-Sound calloc_ok prompt e u s = clear_input-Sound u s
on_event-Sound calloc_ok success e u s = wiped-Sound u s
on_event-Sound calloc_ok failure e u s =
    auth_failed-Sound calloc_ok (show_verdict e true (forget_transaction u))
      (verdict-Sound e true (forget_transaction u) s)
on_event-Sound calloc_ok cancelled e u s = s
on_event-Sound calloc_ok fatal e u s =
    let forgotten = forget_transaction u in
    let dead = record forgotten { pam_auth_fatal = true } in
    let shown = show_verdict e false dead in
    clear_input-Sound (record shown { auth_state = lock_failed }) (verdict-Sound e false dead s)

-- From a sound buffer, whatever event arrives, the input position stays inside the password buffer, the buffer keeps its size, and
-- its first byte begins a character.
pub handle_pam_event-Sound :
    (calloc_ok : Bool) (e : Event) (u : Ui) (c : Ctrl)
    → Sound u
    → Sound (handle_pam_event calloc_ok e u c).0
unfolding handle_pam_event
handle_pam_event-Sound calloc_ok e u c s =
    if_ui-Sound (e.transaction_id == u.active_pam_transaction_id) _ u
      (on_event-Sound calloc_ok e.type e u s) s

-- The timers' callbacks.
pub timers-Sound : (u : Ui) → Sound u → Sound (clear_indicator_cb u) × Sound (discard_passwd_cb u)
unfolding clear_indicator_cb discard_passwd_cb
timers-Sound u s = (s, clear_input-Sound u s)
