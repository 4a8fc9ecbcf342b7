-- ===== src/Tests.antt =====
-- Concrete states of the program that the tests of each part start from.
pub mod Queue
pub mod Controller
pub mod World
pub mod Screen
pub mod Panel
pub mod App
pub mod Runs
pub mod Setup
use i3lock.Prelude.{ℕ, List, [], ◌∷◌, true, false, none, replicate}
use i3lock.Pam.{EventType, Event, blank_event}
use i3lock.Queue.{Channel, append_event}
use i3lock.Controller.{Ctrl}
use i3lock.Controller.Lifecycle.{zero_ctrl}
use i3lock.Controller.Worker.{simple_event}
use i3lock.Ui.{Ui, started, auth_idle}

-- A controller that was started.
abbrev pub fresh_ctrl : Ctrl
fresh_ctrl = record (zero_ctrl 65536) {
  initialised = true;
  next_transaction_id = 1;
  next_prompt_id = 1;
}

-- "pw"
abbrev pub pw : List ℕ
pw = 112 ∷ 119 ∷ []

-- The lock screen without input.
abbrev pub fresh_ui : Ui
fresh_ui = record {
  password = replicate 512 0;
  input_position = 0;
  unlock_state = started;
  auth_state = auth_idle;
  pam_display = record {
    status_text = [];
    prompt_text = [];
    visible_input = [];
    status_is_error = false;
    prompt_echo_on = false;
  };
  pam_status_expires_with_auth_wrong = false;
  controller_started = true;
  active_pam_transaction_id = 0;
  active_pam_prompt_id = 0;
  pam_waiting_for_prompt = false;
  pam_auth_fatal = false;
  failed_attempts = 0;
  retry_verification = false;
  ignore_empty_password = false;
  skip_repeated_empty_password = false;
  unlock_indicator = true;
  beep = false;
  have_explicit_bzero = true;
  clear_auth_wrong_timeout = none;
  clear_indicator_timeout = none;
  discard_passwd_timeout = none;
  frames = [];
  bells = 0;
  unlocked = false;
}

-- "pw" typed.
abbrev pub typed_ui : Ui
typed_ui = record fresh_ui { password = 112 ∷ 119 ∷ replicate 510 0; input_position = 2 }
