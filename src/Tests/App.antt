-- ===== src/Tests/App.antt =====
-- Tests of the whole program's runs.
use i3lock.Prelude.{ℕ, refl, List, [], ◌∷◌, true, false, none, some, replicate}
use i3lock.Pam.{Event, PamCode, pam_success, success, ready}
use i3lock.Queue.{take_snapshot, drain_pipe, post_event_locked, append_event, wake}
use i3lock.Controller.{start_auth, is_busy}
use i3lock.Controller.Lifecycle.{
  Startup, zero_ctrl, nothing, pam_controller_init, obtain, launch, obtained, take_username,
  take_display, take_secure, take_mlock, take_pipe, take_mutex, take_cond,
}
use i3lock.Controller.Worker.{worker_ready, begin_attempt, finish_attempt, simple_event}
use i3lock.World.{
  idle, boots, World, in_pam, returned, acking, attempt_result, grant, begin, pam_returns, finish,
  empty_pipe, snapshot,
}
use i3lock.World.Fresh.{fresh_world}
use i3lock.Ui.{
  started, auth_idle, redraw_screen, skip_without_validation, terminate, clear_pam_display_text,
  clear_password_memory,
}
use i3lock.Ui.Auth.{
  is_verifying, is_wrong, finish_input, input_done, start_attempt, show_verifying, stop_wrong_timer,
}
use i3lock.Ui.Events.{handle_pam_event}
use i3lock.Ui.Keys.{
  KeyPress, key_return, not_accepted, resolve, first_switch, second_switch, handle_key_press, act,
  on_enter,
}
use i3lock.Monitors.{initial_monitors}
use i3lock.App.{
  App, Mapping, map_notify, key_press, x_event, with_result, on_map_notify,
  maybe_close_sleep_lock_fd, started_with, ensure_controller, start_controller, forked,
  on_key_press,
}
use i3lock.App.Events.{handle_x_event}
use i3lock.App.Run.{
  Waits, on_pam_event, AppReach, at_start, and_then, x_arrives, background, pam_arrives, Started,
}
use i3lock.Tests.{fresh_ui}

abbrev all_ok : Startup
all_ok = record {
  username_ok = true;
  display_given = true;
  display_ok = true;
  calloc_ok = true;
  mlock_ok = true;
  pipe_ok = true;
  nonblocking_read_ok = true;
  nonblocking_write_ok = true;
  mutex_ok = true;
  cond_ok = true;
  thread_ok = true;
}

-- The program before its event loop.
abbrev pub start_app : App
start_app = record {
  ui = record fresh_ui { controller_started = false; frames = (started, auth_idle) ∷ [] };
  world = record (fresh_world 65536) { ctrl = zero_ctrl 65536 };
  flags = nothing;
  held = nothing;
  sigpipe_ignored = false;
  pam_watcher = false;
  dont_fork = false;
  forks = 0;
  starts = 0;
  sleep_lock_fd_closed = false;
  closed_fds = [];
  last_resolution = (1920, 1080);
  requests = [];
  monitors = record initial_monitors {
    has_randr = true;
    xr_screens = 1;
    xr_resolutions = some (record { x = 0; y = 0; width = 1920; height = 1080 }) ∷ [];
  };
  keymap = record {
    xkb_context = true;
    xkb_keymap = some 1;
    xkb_state = some 1;
    xkb_compose_table = none;
    xkb_compose_state = none;
  };
  randr_base = none;
  xkb_base_event = 85;
  ended = false;
  over = false;
}

pub start-Started : Started 65536 start_app
start-Started = record {
  world = refl;
  locked = refl;
  off = refl;
  no_transaction = refl;
  no_prompt = refl;
  no_failure = refl;
  watcher = refl;
  running = refl;
}

-- The window is mapped: the program forks, and starts its controller.
abbrev mapping : Mapping
mapping = record { sleep_lock_fd = none; in_parent = false; calloc_ok = true; startup = all_ok }

abbrev pub mapped : App
mapped = ensure_controller mapping (forked (maybe_close_sleep_lock_fd none start_app))

-- The masks of the keyboard's state change nothing here.
abbrev pub keep_state : ℕ → List ℕ → ℕ
keep_state state masks = state

unfoldable pub reaches_mapped : AppReach keep_state 0 start_app mapped
unfolding handle_x_event on_map_notify maybe_close_sleep_lock_fd ensure_controller forked
    start_controller started_with pam_controller_init obtain launch obtained take_username
    take_display take_secure take_mlock take_pipe take_mutex take_cond
reaches_mapped = and_then at_start (
    x_arrives true (x_event false (map_notify mapping)) start_app mapped
      (record { goes_on = refl; drained = refl; unread = refl }) refl)

pub mapped-Waits : Waits mapped
unfolding maybe_close_sleep_lock_fd ensure_controller forked start_controller started_with
    pam_controller_init obtain launch obtained
mapped-Waits = record { goes_on = refl; drained = refl; unread = refl }

-- The return key, which asks for an attempt with the empty password.
abbrev pub return_key : KeyPress
return_key = record {
  ksym = key_return;
  ctrl_active = false;
  compose = not_accepted;
  utf8_size = 0;
  utf8_buffer = [];
}

abbrev pub submitted : App
submitted = with_result mapped (on_enter mapped.ui mapped.world.ctrl)

pub reaches_submitted : AppReach keep_state 0 start_app submitted
unfolding handle_x_event on_key_press handle_key_press resolve first_switch second_switch act
    start_auth is_busy
reaches_submitted =
    and_then reaches_mapped
      (x_arrives true (x_event false (key_press return_key)) mapped submitted mapped-Waits refl)

abbrev in_world : World → App → App
in_world w a = record a { world = w }

-- The worker starts, PAM grants the attempt, and the main thread takes the events.
abbrev booted : World
booted = record (submitted.world) { ctrl = worker_ready submitted.world.ctrl; worker = idle }

abbrev begun : World
begun = record booted { ctrl = begin_attempt booted.ctrl; worker = in_pam 1 }

abbrev granted_world : World
granted_world = record begun { worker = returned 1 pam_success; granted = 1 ∷ [] }

abbrev finished : World
finished = record granted_world {
  ctrl = finish_attempt pam_success 1 granted_world.ctrl;
  worker = acking;
}

abbrev emptied : World
emptied = record finished {
  ctrl = record (finished.ctrl) { channel = drain_pipe finished.ctrl.channel };
  draining = true;
}

abbrev taken : World
taken = record emptied {
  ctrl = record (emptied.ctrl) { channel = (take_snapshot emptied.ctrl.channel).1 };
  inbox = (take_snapshot emptied.ctrl.channel).0;
  draining = false;
}

reaches_finished : AppReach keep_state 0 start_app (in_world finished submitted)
unfolding worker_ready on_enter finish_input input_done start_attempt show_verifying
    stop_wrong_timer start_auth is_busy is_verifying is_wrong skip_without_validation attempt_result
    grant i3lock.Pam.is_success maybe_close_sleep_lock_fd ensure_controller forked start_controller
    started_with pam_controller_init obtain launch obtained with_result terminate redraw_screen
    clear_pam_display_text clear_password_memory
reaches_finished =
    and_then
      (and_then
        (and_then
          (and_then reaches_submitted
            (background submitted (boots submitted.world refl) refl refl refl))
          (background (in_world booted submitted) (begin booted refl refl refl) refl refl refl))
        (background (in_world begun submitted) (pam_returns begun 1 refl pam_success pam_success)
          refl refl refl))
      (background (in_world granted_world submitted) (finish granted_world 1 pam_success refl) refl
        refl refl)

reaches_taken : AppReach keep_state 0 start_app (in_world taken submitted)
unfolding on_enter finish_input input_done start_attempt show_verifying stop_wrong_timer start_auth
    is_busy is_verifying is_wrong skip_without_validation attempt_result grant i3lock.Pam.is_success
    maybe_close_sleep_lock_fd ensure_controller forked start_controller started_with
    pam_controller_init obtain launch obtained with_result terminate redraw_screen
    clear_pam_display_text clear_password_memory finish_attempt begin_attempt drain_pipe
reaches_taken =
    and_then
      (and_then reaches_finished
        (background (in_world finished submitted) (empty_pipe finished refl refl) refl refl refl))
      (background (in_world emptied submitted) (snapshot emptied refl) refl refl refl)

abbrev pub noticed : App
noticed =
    on_pam_event true (simple_event ready 0) (simple_event success 1 ∷ [])
      (in_world taken submitted)

abbrev pub opened : App
opened = on_pam_event true (simple_event success 1) [] noticed

reaches_noticed : AppReach keep_state 0 start_app noticed
unfolding on_enter finish_input input_done start_attempt show_verifying stop_wrong_timer start_auth
    is_busy is_verifying is_wrong skip_without_validation attempt_result grant i3lock.Pam.is_success
    maybe_close_sleep_lock_fd ensure_controller forked start_controller started_with
    pam_controller_init obtain launch obtained with_result terminate redraw_screen
    clear_pam_display_text clear_password_memory finish_attempt begin_attempt drain_pipe
    take_snapshot post_event_locked wake append_event replicate worker_ready i3lock.Controller.post
    on_pam_event handle_pam_event
reaches_noticed = and_then reaches_taken (
    pam_arrives true (simple_event ready 0) (simple_event success 1 ∷ []) (in_world taken submitted)
      refl refl)

pub reaches_opened : AppReach keep_state 0 start_app opened
unfolding on_enter finish_input input_done start_attempt show_verifying stop_wrong_timer start_auth
    is_busy is_verifying is_wrong skip_without_validation attempt_result grant i3lock.Pam.is_success
    maybe_close_sleep_lock_fd ensure_controller forked start_controller started_with
    pam_controller_init obtain launch obtained with_result terminate redraw_screen
    clear_pam_display_text clear_password_memory finish_attempt begin_attempt drain_pipe
    take_snapshot post_event_locked wake append_event replicate worker_ready i3lock.Controller.post
    on_pam_event handle_pam_event
reaches_opened =
    and_then reaches_noticed (pam_arrives true (simple_event success 1) [] noticed refl refl)
