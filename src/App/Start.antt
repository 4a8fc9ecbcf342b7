-- ===== src/App/Start.antt =====
-- The state in which `main` of i3lock.c enters its event loop: the variables' initial values, the options,
-- and what was asked of the server before.
use i3lock.Prelude.{ℕ, ◌≡◌, ◌⊎◌, refl, List, [], Bool, true, false, Option, none, replicate, arith}
use i3lock.Controller.Lifecycle.{zero_ctrl, nothing}
use i3lock.World.Fresh.{fresh_world}
use i3lock.Utf8.{is_utf8_continuation_byte}
use i3lock.Ui.{Ui, password_size, started, auth_idle, redraw_screen}
use i3lock.Options.{Settings}
use i3lock.Keymap.{Keymap}
use i3lock.Monitors.{Monitors}
use i3lock.App.{App}
use i3lock.App.Run.{Started, AppReach}
use i3lock.App.Refine.{Granted}
use i3lock.App.Unlock.{unlocked_after_pam_success}
use i3lock.App.Safety.{SafeApp}
use i3lock.App.Drawn.{IsThere}
use i3lock.Monitors.Outputs.{visible}

unfoldable pub initial_ui : Bool → Settings → Ui
unfolding redraw_screen
initial_ui have_explicit_bzero s = redraw_screen (record {
  password = replicate password_size 0;
  input_position = 0;
  unlock_state = started;
  auth_state = auth_idle;
  pam_display = record {
    status_text = [];
    prompt_text = [];
    visible_input = [];
    status_is_error = false;
    prompt_echo_on = false;
  };
  pam_status_expires_with_auth_wrong = false;
  controller_started = false;
  active_pam_transaction_id = 0;
  active_pam_prompt_id = 0;
  pam_waiting_for_prompt = false;
  pam_auth_fatal = false;
  failed_attempts = 0;
  retry_verification = false;
  ignore_empty_password = s.ignore_empty_password;
  skip_repeated_empty_password = false;
  unlock_indicator = s.unlock_indicator;
  beep = s.beep;
  have_explicit_bzero = have_explicit_bzero;
  clear_auth_wrong_timeout = none;
  clear_indicator_timeout = none;
  discard_passwd_timeout = none;
  frames = [];
  bells = 0;
  unlocked = false;
})

-- What `main` has found out by then.
pub record Found : Type 0 where
  pub pipe_capacity : ℕ
  pub have_explicit_bzero : Bool
  pub resolution : ℕ × ℕ
  pub monitors : Monitors
  pub keymap : Keymap
  pub randr_base : Option ℕ
  pub xkb_base_event : ℕ

unfoldable pub initial_app : Settings → Found → App
unfolding initial_ui
initial_app s f = record {
  ui = initial_ui f.have_explicit_bzero s;
  world = record (fresh_world f.pipe_capacity) { ctrl = zero_ctrl f.pipe_capacity };
  flags = nothing;
  held = nothing;
  sigpipe_ignored = false;
  pam_watcher = false;
  dont_fork = s.dont_fork;
  forks = 0;
  starts = 0;
  sleep_lock_fd_closed = false;
  closed_fds = [];
  last_resolution = f.resolution;
  requests = [];
  monitors = f.monitors;
  keymap = f.keymap;
  randr_base = f.randr_base;
  xkb_base_event = f.xkb_base_event;
  ended = false;
  over = false;
}

initial_app-Started : (s : Settings) (f : Found) → Started f.pipe_capacity (initial_app s f)
unfolding initial_app initial_ui redraw_screen
initial_app-Started s f = record {
  world = refl;
  locked = refl;
  off = refl;
  no_transaction = refl;
  no_prompt = refl;
  no_failure = refl;
  watcher = refl;
  running = refl;
}

-- Where the monitors come from RandR and each has its area, the program enters its loop in a safe state.
pub initial_app-SafeApp :
    (s : Settings) (f : Found)
    → f.monitors.has_randr ≡ true
    → f.monitors.xinerama_active ≡ false
    → IsThere (visible f.monitors)
    → SafeApp (initial_app s f)
unfolding initial_app initial_ui redraw_screen replicate is_utf8_continuation_byte
initial_app-SafeApp s f randr quiet there = record {
  buffer = record { size = refl; room = omega arith; lead = refl };
  randr = randr;
  quiet = quiet;
  there = there;
}

-- With any options, in every state that the program reaches from the one in which `main` enters the event
-- loop, with any X events, any behaviour of PAM and any interleaving of its two threads: if the screen is
-- unlocked, or `main` is behind the loop, then `pam_authenticate` has returned PAM_SUCCESS.
pub unlock_needs_pam :
    (update_mask : ℕ → List ℕ → ℕ) (screen_change : ℕ) (s : Settings) (f : Found) {a : App}
    → AppReach update_mask screen_change (initial_app s f) a
    → (a.ui.unlocked ≡ true) ⊎ (a.ended ≡ true)
    → Granted a.world
unlock_needs_pam update_mask screen_change s f r opened =
    unlocked_after_pam_success update_mask screen_change f.pipe_capacity (initial_app-Started s f) r
      opened
