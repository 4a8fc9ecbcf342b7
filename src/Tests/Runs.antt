-- ===== src/Tests/Runs.antt =====
-- Tests of the theorems on the whole program's runs.
use i3lock.Prelude.{
  ℕ, ◌≤◌, List, ◌≡◌, ◌⊎◌, refl, inl, [], ◌∷◌, true, false, none, some, replicate, arith,
}
use i3lock.Pam.{Event, PamCode, pam_success, success, ready}
use i3lock.Queue.{take_snapshot, drain_pipe, post_event_locked, append_event, wake}
use i3lock.Controller.{start_auth, is_busy}
use i3lock.Controller.Lifecycle.{pam_controller_init, obtain, launch, obtained}
use i3lock.Controller.Worker.{worker_ready, begin_attempt, finish_attempt, simple_event}
use i3lock.Controller.Handover.{zeros}
use i3lock.World.{attempt_result, grant}
use i3lock.Utf8.{is_utf8_continuation_byte}
use i3lock.Ui.{
  redraw_screen, skip_without_validation, terminate, clear_pam_display_text, clear_password_memory,
}
use i3lock.Ui.Auth.{
  is_verifying, is_wrong, finish_input, input_done, start_attempt, show_verifying, stop_wrong_timer,
}
use i3lock.Ui.Events.{handle_pam_event, on_event, on_ack}
use i3lock.Ui.Keys.{KeyPress, key_other, resolve, on_enter}
use i3lock.Ui.Keys.Text.{Fits}
use i3lock.App.{
  App, key_press, x_event, with_result, maybe_close_sleep_lock_fd, started_with, ensure_controller,
  start_controller, forked,
}
use i3lock.App.Events.{handle_x_event}
use i3lock.App.Run.{on_pam_event, AppReach}
use i3lock.App.Refine.{Asleep, Awake, Granted}
use i3lock.App.Unlock.{program_runs_threads, failures_bounded, quiet_program_is_wiped}
use i3lock.Drawing.{circle_text}
use i3lock.Drawing.{indicator_areas, count}
use i3lock.Drawing.Count.{decimal_value, circle_counts_failures}
use i3lock.App.Drawn.{IsThere}
use i3lock.Ui.{Ui, auth_idle}
use i3lock.App.{runs}
use i3lock.App.Fit.{window_covers_screen}
use i3lock.Monitors.{read_screens}
use i3lock.App.Safety.{SafeApp, SafeOutcome}
use i3lock.App.Bounds.{program_stays_in_bounds}
use i3lock.App.Cover.{window_size}
use i3lock.App.{Resizing, configure_notify}
use i3lock.App.Start.{Found, initial_ui, initial_app, unlock_needs_pam}
use i3lock.Options.{initial_settings}
use i3lock.App.Finish.{success_event_ends}
use i3lock.App.Once.{Once}
use i3lock.App.Loop.{forks_and_starts-Once}
use i3lock.Tests.App.{
  start_app, start-Started, mapped, keep_state, reaches_mapped, return_key, submitted,
  reaches_submitted, noticed, opened, reaches_opened,
}

-- What the test's start is found with.
abbrev found : Found
found = record {
  pipe_capacity = 65536;
  have_explicit_bzero = true;
  resolution = (1920, 1080);
  monitors = start_app.monitors;
  keymap = start_app.keymap;
  randr_base = none;
  xkb_base_event = 85;
}

unlock_needs_pam_example : Granted opened.world
unfolding initial_app initial_ui on_pam_event handle_pam_event with_result on_enter finish_input
    input_done start_attempt show_verifying stop_wrong_timer start_auth is_busy is_verifying
    is_wrong skip_without_validation ensure_controller forked start_controller started_with
    pam_controller_init obtain launch obtained maybe_close_sleep_lock_fd terminate redraw_screen
    clear_pam_display_text clear_password_memory
unlock_needs_pam_example =
    unlock_needs_pam keep_state 0 initial_settings found reaches_opened (inl refl)

program_runs_threads_example : Asleep 65536 submitted ⊎ Awake 65536 submitted
unfolding with_result maybe_close_sleep_lock_fd ensure_controller forked start_controller
    started_with pam_controller_init obtain launch obtained
program_runs_threads_example =
    program_runs_threads keep_state 0 65536 start-Started reaches_submitted refl

quiet_program_is_wiped_example :
    (mapped.world.ctrl.deferred_input ≡ zeros) × (mapped.world.ctrl.pending_response ≡ zeros)
unfolding maybe_close_sleep_lock_fd ensure_controller forked start_controller started_with
    pam_controller_init obtain launch obtained
quiet_program_is_wiped_example =
    quiet_program_is_wiped keep_state 0 65536 start-Started reaches_mapped refl refl refl

-- The key "a"
abbrev letter_key : KeyPress
letter_key = record return_key {
  ksym = key_other 97;
  utf8_size = 2;
  utf8_buffer = 97 ∷ replicate 127 0;
}

letter-Fits : Fits (resolve letter_key letter_key.compose)
unfolding resolve replicate is_utf8_continuation_byte
letter-Fits = record { short = omega arith; held = omega arith; lead = refl }

start-SafeApp : SafeApp start_app
unfolding replicate is_utf8_continuation_byte read_screens
start-SafeApp = record {
  buffer = record { size = refl; room = omega arith; lead = refl };
  randr = refl;
  quiet = refl;
  there = tt;
}

program_stays_in_bounds_example :
    IsThere (indicator_areas mapped.last_resolution mapped.monitors mapped.ui)
    × SafeOutcome (handle_x_event keep_state 0 true (x_event false (key_press letter_key)) mapped)
unfolding reaches_mapped
program_stays_in_bounds_example =
    program_stays_in_bounds keep_state 0 true (x_event false (key_press letter_key)) start-SafeApp
      reaches_mapped (tt, tt) letter-Fits

forks_and_starts-Once_example : Once start_app submitted
forks_and_starts-Once_example = forks_and_starts-Once keep_state 0 reaches_submitted

failures_bounded_example : submitted.ui.failed_attempts ≤ 999
failures_bounded_example = failures_bounded keep_state 0 65536 start-Started reaches_submitted

-- After 42 failures.
abbrev failed_ui : Ui
failed_ui = record (start_app.ui) { failed_attempts = 42 }

circle_counts_failures_example :
    (text : List ℕ) × (circle_text true auth_idle failed_ui ≡ some (count text))
    × (decimal_value 0 text ≡ 42)
circle_counts_failures_example = circle_counts_failures failed_ui refl (omega arith) (omega arith)

success_event_ends_example : (c : App) × AppReach keep_state 0 noticed c × (c.over ≡ true)
unfolding on_enter finish_input input_done start_attempt show_verifying stop_wrong_timer start_auth
    is_busy is_verifying is_wrong skip_without_validation attempt_result grant i3lock.Pam.is_success
    maybe_close_sleep_lock_fd ensure_controller forked start_controller started_with
    pam_controller_init obtain launch obtained with_result terminate redraw_screen
    clear_pam_display_text clear_password_memory finish_attempt begin_attempt drain_pipe
    take_snapshot post_event_locked wake append_event replicate worker_ready i3lock.Controller.post
    on_pam_event handle_pam_event on_event on_ack
success_event_ends_example =
    success_event_ends keep_state 0 noticed (simple_event success 1) [] refl refl refl refl refl
      refl refl

-- The screen changes its resolution, and the server tells nothing of its monitors.
abbrev resizing : Resizing
resizing = record {
  geometry = some (800, 600);
  replies = record {
    built_with_1_5 = true;
    monitors = none;
    outputs = none;
    xinerama_screens = none;
    malloc_ok = true;
  };
}

window_covers_screen_example :
    (b : App) × (handle_x_event keep_state 0 true (x_event false (configure_notify resizing)) mapped
      ≡ runs b)
    × (window_size (1920, 1080) b.requests ≡ (800, 600))
    × (b.last_resolution ≡ (800, 600))
unfolding reaches_mapped
window_covers_screen_example =
    window_covers_screen (1920, 1080) keep_state 0 true false resizing (800, 600) start-SafeApp refl
      reaches_mapped (tt, tt) refl
