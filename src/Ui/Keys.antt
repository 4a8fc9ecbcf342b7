-- ===== src/Ui/Keys.antt =====
-- `handle_key_press` of i3lock.c. What libxkbcommon makes of a key (its symbol, the Ctrl modifier, the
-- compose state and the UTF-8 text) comes with the key event. A result of `none` is a read or a write
-- outside `password` or `buffer`.
pub mod Text
use i3lock.Prelude.{
  ℕ, ◌+◌, ◌-◌, List, [], ◌∷◌, ◌++◌, Bool, true, false, not, ◌&&◌, ◌||◌, Option, none, some, leb,
  ltb, ◌==◌, if◌then◌else◌, take, drop,
}
use i3lock.Utf8.{u8_dec}
use i3lock.Controller.{Ctrl, cancel_auth}
use i3lock.Ui.{
  Ui, password_size, auth_idle, key_pressed, key_active, backspace_active, nothing_to_delete,
  redraw_screen, clear_indicator, start_timer, stop_timer, terminate, clear_input,
  clear_pam_display_text, update_pam_visible_input, skip_without_validation,
}
use i3lock.Ui.Auth.{is_wrong, finish_input}
use i3lock.Ui.Events.{forget_transaction}

-- The key symbols that the handler names.
pub data Keysym : Type 0 where
  key_j key_m key_return key_kp_enter key_screen_saver : Keysym
  key_u key_escape key_delete key_kp_delete key_h key_backspace : Keysym
  key_other : ℕ → Keysym

-- What the compose state does with the symbol: not fed or not accepted, or accepted with a status.
-- `composed` has the composed symbol and `xkb_compose_state_get_utf8`: the length of the text, and the
-- buffer that holds as much of it as fits.
pub data Compose : Type 0 where
  not_accepted compose_nothing composing compose_cancelled : Compose
  composed : Keysym → ℕ → List ℕ → Compose

-- `utf8_size` and `utf8_buffer` are the result of `xkb_keysym_to_utf8`, the NUL counted.
pub record KeyPress : Type 0 where
  pub ksym : Keysym
  pub ctrl_active : Bool
  pub compose : Compose
  pub utf8_size : ℕ
  pub utf8_buffer : List ℕ

-- `ksym`, `n` and `buffer`; `none` where the handler returns at once.
unfoldable pub resolve : KeyPress → Compose → Option (Keysym × ℕ × List ℕ)
resolve k composing = none
resolve k compose_cancelled = none
resolve k (composed ksym size buffer) = some (ksym, size + 1, buffer)
resolve k _ = some (k.ksym, k.utf8_size, k.utf8_buffer)

-- The first `switch`: the input is complete; `j` or `m` without Ctrl; any other key.
pub data FirstSwitch : Type 0 where
  completes breaks defaults : FirstSwitch

unfoldable pub first_switch : Keysym → Bool → FirstSwitch
first_switch key_j ctrl = if ctrl then completes else breaks
first_switch key_m ctrl = if ctrl then completes else breaks
first_switch key_return ctrl = completes
first_switch key_kp_enter ctrl = completes
first_switch key_screen_saver ctrl = completes
first_switch _ ctrl = defaults

-- The second `switch`.
pub data SecondSwitch : Type 0 where
  clears_line escapes ignores deletes_char types : SecondSwitch

unfoldable pub second_switch : Keysym → Bool → SecondSwitch
second_switch key_u ctrl = if ctrl then clears_line else types
second_switch key_escape ctrl = escapes
second_switch key_delete ctrl = ignores
second_switch key_kp_delete ctrl = ignores
second_switch key_h ctrl = if ctrl then deletes_char else types
second_switch key_backspace ctrl = deletes_char
second_switch _ ctrl = types

unfoldable pub on_enter : Ui → Ctrl → Ui × Ctrl
unfolding is_wrong skip_without_validation clear_input finish_input
on_enter u c =
    if is_wrong u.auth_state
    then (record u { retry_verification = true }, c)
    else if skip_without_validation u
    then (clear_input u, c)
    else let (done, c') = finish_input u c in
      (record done { skip_repeated_empty_password = true }, c')

-- The `default` of the first `switch`.
unfoldable pub discard_pending : Ui → Ui
unfolding clear_input
discard_pending u =
    let fresh = record u { skip_repeated_empty_password = false } in
    if u.retry_verification
    then clear_input (record fresh { retry_verification = false })
    else fresh

-- Escape, with a transaction under way.
unfoldable pub cancel_transaction : Ui → Ctrl → Ui × Ctrl
unfolding forget_transaction clear_pam_display_text
cancel_transaction u c =
    let dropped = clear_pam_display_text (forget_transaction u) in
    (record dropped { auth_state = auth_idle }, cancel_auth u.active_pam_transaction_id c)

unfoldable pub hide_input : Ui → Ui
unfolding clear_input clear_indicator
hide_input u =
    let cleared = clear_input u in if u.unlock_indicator then clear_indicator cleared else cleared

unfoldable pub on_escape : Ui → Ctrl → Ui × Ctrl
unfolding cancel_transaction hide_input
on_escape u c =
    if u.active_pam_transaction_id == 0
    then (hide_input u, c)
    else let (dropped, c') = cancel_transaction u c in (hide_input dropped, c')

abbrev pub one_second : ℕ
one_second = 1000

unfoldable pub on_empty_backspace : Bool → Ui → Ui
unfolding start_timer redraw_screen
on_empty_backspace calloc_ok u = redraw_screen (record u {
  clear_indicator_timeout = start_timer calloc_ok u.clear_indicator_timeout one_second;
  unlock_state = nothing_to_delete;
})

-- The input without its last character, which began at `position`.
unfoldable pub cut_input : Bool → ℕ → Ui → Ui
unfolding terminate update_pam_visible_input start_timer redraw_screen
cut_input calloc_ok position u =
    let cut = update_pam_visible_input (terminate (record u { input_position = position })) in
    let shown = redraw_screen (record cut {
      clear_indicator_timeout = start_timer calloc_ok u.clear_indicator_timeout one_second;
      unlock_state = backspace_active;
    }) in
    record shown { unlock_state = key_pressed }

unfoldable pub on_backspace : Bool → Ui → Option Ui
unfolding on_empty_backspace cut_input
on_backspace calloc_ok u =
    if u.input_position == 0
    then some (on_empty_backspace calloc_ok u)
    else elim (u8_dec u.password u.input_position) [
      | none ↦ none
      | some position ↦ some (cut_input calloc_ok position u)
    ]

-- `memcpy(password + input_position, buffer, size)` and the terminating NUL behind it.
unfoldable pub store_text : ℕ → List ℕ → Ui → Ui
unfolding terminate
store_text size buffer u = terminate (record u {
  password =
      take u.input_position u.password
      ++ (take size buffer ++ drop (u.input_position + size) u.password);
  input_position = u.input_position + size;
})

abbrev pub three_minutes : ℕ
three_minutes = 180000

-- The timer that redraws after a quarter of a second keeps no state.
unfoldable pub show_typed : Bool → Ui → Ui
unfolding redraw_screen start_timer stop_timer
show_typed calloc_ok u =
    let drawn = redraw_screen (record u { unlock_state = key_active }) in
    let shown =
      if u.unlock_indicator
      then (record drawn {
        unlock_state = key_pressed;
        clear_indicator_timeout = stop_timer u.clear_indicator_timeout;
      })
      else u in
    record shown {
      discard_passwd_timeout = start_timer calloc_ok u.discard_passwd_timeout three_minutes;
    }

abbrev pub buffer_size : ℕ
buffer_size = 128

-- The end of the handler: `n` counts the NUL.
unfoldable pub on_text : Bool → ℕ → List ℕ → Ui → Option Ui
unfolding store_text update_pam_visible_input show_typed
on_text calloc_ok n buffer u =
    if leb password_size (u.input_position + 8) || ltb n 2
    then some u
    else if ltb buffer_size (n - 1) || leb password_size (u.input_position + (n - 1))
    then none
    else some (show_typed calloc_ok (update_pam_visible_input (store_text (n - 1) buffer u)))

abbrev pub with_ctrl : Ctrl → Option Ui → Option (Ui × Ctrl)
with_ctrl c none = none
with_ctrl c (some u) = some (u, c)

unfoldable pub edit : Bool → SecondSwitch → ℕ → List ℕ → Ui → Ctrl → Option (Ui × Ctrl)
unfolding hide_input on_escape on_backspace on_text
edit calloc_ok clears_line n buffer u c = some (hide_input u, c)
edit calloc_ok escapes n buffer u c = some (on_escape u c)
edit calloc_ok ignores n buffer u c = some (u, c)
edit calloc_ok deletes_char n buffer u c = with_ctrl c (on_backspace calloc_ok u)
edit calloc_ok types n buffer u c = with_ctrl c (on_text calloc_ok n buffer u)

unfoldable pub act : Bool → FirstSwitch → SecondSwitch → ℕ → List ℕ → Ui → Ctrl → Option (Ui × Ctrl)
unfolding on_enter discard_pending edit
act calloc_ok completes second n buffer u c = some (on_enter u c)
act calloc_ok breaks second n buffer u c = edit calloc_ok second n buffer u c
act calloc_ok defaults second n buffer u c = edit calloc_ok second n buffer (discard_pending u) c

unfoldable pub handle_key_press : Bool → KeyPress → Ui → Ctrl → Option (Ui × Ctrl)
unfolding resolve first_switch second_switch act
handle_key_press calloc_ok k u c = elim (resolve k k.compose) [
  | none ↦ some (u, c)
  | some (ksym, n, buffer) ↦
      act calloc_ok (first_switch ksym k.ctrl_active) (second_switch ksym k.ctrl_active) n buffer u
        c
]
