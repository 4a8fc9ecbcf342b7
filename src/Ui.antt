-- ===== src/Ui.antt =====
-- The state that i3lock.c keeps for the screen and the keyboard (include/unlock_indicator.h), and the
-- small functions that change it: the input buffer, the PAM display and the timers.
pub mod Auth
pub mod Events
pub mod Keys
pub mod Buffer
pub mod Typing
pub mod Submit
pub mod Unlock
pub mod Refused
pub mod Effects
use i3lock.Prelude.{
  ℕ, zero, suc, ◌+◌, ◌-◌, ◌%◌, ◌<◌, List, [], ◌∷◌, ◌++◌, Bool, true, false, not, ◌&&◌, ◌||◌, Option,
  none, some, leb, ltb, if◌then◌else◌, length, set, take, ◌==◌,
}
use i3lock.Memory.{strlen, text_of, secure_wipe}
use i3lock.Utf8.{utf8_truncate_to_char_boundary}

abbrev pub password_size : ℕ
password_size = 512

abbrev pub visible_input_max : ℕ
visible_input_max = 256

abbrev pub display_text_max : ℕ
display_text_max = 1024

-- `unlock_state_t`
pub data UnlockState : Type 0 where
  started key_pressed key_active backspace_active nothing_to_delete : UnlockState

-- `auth_state_t`
pub data AuthState : Type 0 where
  auth_idle auth_verify auth_lock auth_wrong lock_failed : AuthState

-- `pam_display_state_t`. Its buffers are cleared whole before each write, so a text is the C string
-- that its buffer holds.
pub record Display : Type 0 where
  pub status_text : List ℕ
  pub prompt_text : List ℕ
  pub visible_input : List ℕ
  pub status_is_error : Bool
  pub prompt_echo_on : Bool

-- The variables of i3lock.c. A timer is the timeout that it was started with, in milliseconds.
-- `frames` lists what each `redraw_screen` had to show, the newest first; `bells` counts `xcb_bell`;
-- `unlocked` tells that `ev_break` was called. `have_explicit_bzero` is the build's HAVE_EXPLICIT_BZERO.
pub record Ui : Type 0 where
  pub password : List ℕ
  pub input_position : ℕ
  pub unlock_state : UnlockState
  pub auth_state : AuthState
  pub pam_display : Display
  pub pam_status_expires_with_auth_wrong : Bool
  pub controller_started : Bool
  pub active_pam_transaction_id : ℕ
  pub active_pam_prompt_id : ℕ
  pub pam_waiting_for_prompt : Bool
  pub pam_auth_fatal : Bool
  pub failed_attempts : ℕ
  pub retry_verification : Bool
  pub ignore_empty_password : Bool
  pub skip_repeated_empty_password : Bool
  pub unlock_indicator : Bool
  pub beep : Bool
  pub have_explicit_bzero : Bool
  pub clear_auth_wrong_timeout : Option ℕ
  pub clear_indicator_timeout : Option ℕ
  pub discard_passwd_timeout : Option ℕ
  pub frames : List (UnlockState × AuthState)
  pub bells : ℕ
  pub unlocked : Bool

unfoldable pub redraw_screen : Ui → Ui
redraw_screen u = record u { frames = (u.unlock_state, u.auth_state) ∷ u.frames }

-- `clear_indicator` of unlock_indicator.c
unfoldable pub clear_indicator : Ui → Ui
unfolding redraw_screen
clear_indicator u =
    redraw_screen
      (record u { unlock_state = if u.input_position == 0 then started else key_pressed })

-- `start_timer`: without memory for a new timer there is none.
unfoldable pub start_timer : Bool → Option ℕ → ℕ → Option ℕ
start_timer calloc_ok (some old) timeout = some timeout
start_timer calloc_ok none timeout = if calloc_ok then some timeout else none

unfoldable pub stop_timer : Option ℕ → Option ℕ
stop_timer timer = none

-- The bytes that the build without `explicit_bzero` writes: the index plus `offset`, as a `char`.
unfoldable pub index_pattern : ℕ → ℕ → ℕ → List ℕ
index_pattern index zero offset = []
index_pattern index (suc left) offset =
    (index + offset) % 256 ∷ index_pattern (suc index) left offset

-- The password's bytes after `clear_password_memory`.
unfoldable pub wiped_password : Bool → Bool → List ℕ → List ℕ
wiped_password have_explicit_bzero beep password =
    if have_explicit_bzero
    then secure_wipe password (strlen password)
    else index_pattern 0 (length password) (if beep then 1 else 0)

unfoldable pub clear_password_memory : Ui → Ui
clear_password_memory u = record u {
  password = wiped_password u.have_explicit_bzero u.beep u.password;
}

unfoldable pub clear_pam_visible_input : Ui → Ui
clear_pam_visible_input u = record u { pam_display = record (u.pam_display) { visible_input = [] } }

-- `password[input_position] = '\0'`
unfoldable pub terminate : Ui → Ui
terminate u = record u { password = set u.password u.input_position 0 }

unfoldable pub clear_input : Ui → Ui
unfolding clear_password_memory clear_pam_visible_input terminate
clear_input u =
    clear_pam_visible_input (terminate (clear_password_memory (record u { input_position = 0 })))

-- What `snprintf(destination, destination_size, "%s", text)` leaves in a cleared buffer.
abbrev pub shown_text : List ℕ → List ℕ
shown_text text = take (display_text_max - 1) (text_of text)

unfoldable pub clear_pam_display_text : Ui → Ui
clear_pam_display_text u = record u {
  pam_display = record {
    status_text = [];
    prompt_text = [];
    visible_input = [];
    status_is_error = false;
    prompt_echo_on = false;
  };
  pam_status_expires_with_auth_wrong = false;
}

-- How much of the password is echoed.
unfoldable pub visible_length : List ℕ → ℕ
visible_length password =
    if leb visible_input_max (strlen password)
    then utf8_truncate_to_char_boundary password (visible_input_max - 1)
    else strlen password

unfoldable pub update_pam_visible_input : Ui → Ui
unfolding clear_pam_visible_input visible_length
update_pam_visible_input u =
    if u.pam_display.prompt_echo_on
    then (record u {
      pam_display = record (u.pam_display) {
        visible_input = take (visible_length u.password) u.password;
      };
    })
    else clear_pam_visible_input u

unfoldable pub skip_without_validation : Ui → Bool
skip_without_validation u =
    u.input_position == 0 && (u.skip_repeated_empty_password || u.ignore_empty_password)

-- The callbacks of the indicator's and the password's timers.
unfoldable pub clear_indicator_cb : Ui → Ui
unfolding clear_indicator stop_timer
clear_indicator_cb u =
    let shown = clear_indicator u in
    record shown { clear_indicator_timeout = stop_timer u.clear_indicator_timeout }

unfoldable pub discard_passwd_cb : Ui → Ui
unfolding clear_input stop_timer
discard_passwd_cb u =
    let cleared = clear_input u in
    record cleared { discard_passwd_timeout = stop_timer u.discard_passwd_timeout }
