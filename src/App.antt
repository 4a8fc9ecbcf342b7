-- ===== src/App.antt =====
-- The program as a whole: the lock screen of i3lock.c with its event loop (`xcb_check_cb`, `pam_event_cb`,
-- the timers and the end of `main`) above the controller of pam_controller.c and its worker. What the X
-- server and the system answer comes with the event.
pub mod Run
pub mod Events
pub mod Refine
pub mod Drawn
pub mod Screen
pub mod Handlers
pub mod PamEvents
pub mod Unlock
pub mod Safety
pub mod EventSafety
pub mod Bounds
pub mod Once
pub mod Loop
pub mod Join
pub mod Finish
pub mod Cover
pub mod Fit
pub mod Start
use i3lock.Prelude.{
  ℕ, ◌+◌, ◌-◌, length, take, ◌≡◌, List, [], ◌∷◌, Bool, true, false, not, ◌&&◌, Option, none, some,
  ◌==◌, if◌then◌else◌,
}
use i3lock.Pam.{Event}
use i3lock.Controller.{Ctrl}
use i3lock.Controller.Lifecycle.{Resources, Process, Startup, pam_controller_init}
use i3lock.World.{World}
use i3lock.Drawing.{indicator_areas}
use i3lock.Ui.{Ui, UnlockState, AuthState, lock_failed, redraw_screen}
use i3lock.Ui.Keys.{KeyPress, handle_key_press}
use i3lock.Keymap.{Keymap, Loading, XkbEvent, process_xkb_event}
use i3lock.Monitors.{Monitors, Replies, randr_query}

-- What is asked of the X server: the window above the others; the window as large as the screen.
pub data Request : Type 0 where
  raises : ℕ → Request
  resizes : ℕ → ℕ → Request

-- `flags`, `held` and `sigpipe_ignored` are of the controller's start. `forks` counts the forks of the event loop and
-- `starts` the calls of `pam_controller_init`; `closed_fds` are the descriptors that
-- `maybe_close_sleep_lock_fd` closed; `requests` has the newest first. `ended` tells that `main` is
-- behind `ev_loop`, and `over` that it is behind `pam_controller_cleanup` too.
pub record App : Type 0 where
  pub ui : Ui
  pub world : World
  pub flags : Resources
  pub held : Resources
  pub sigpipe_ignored : Bool
  pub pam_watcher : Bool
  pub dont_fork : Bool
  pub forks : ℕ
  pub starts : ℕ
  pub sleep_lock_fd_closed : Bool
  pub closed_fds : List ℕ
  pub last_resolution : ℕ × ℕ
  pub requests : List Request
  pub monitors : Monitors
  pub keymap : Keymap
  pub randr_base : Option ℕ
  pub xkb_base_event : ℕ
  pub ended : Bool
  pub over : Bool

-- What the system answers on the way of a MapNotify: what `strtol` makes of XSS_SLEEP_LOCK_FD, if it is
-- set and not empty, with whether all of it was read; the fork; the memory; the controller's start.
pub record Mapping : Type 0 where
  pub sleep_lock_fd : Option (ℕ × Bool)
  pub in_parent : Bool
  pub calloc_ok : Bool
  pub startup : Startup

-- What the server answers to a change of the screen.
pub record Resizing : Type 0 where
  pub geometry : Option (ℕ × ℕ)
  pub replies : Replies

-- An event type that the handler names, or another with its number and what its handlers ask for.
pub data XEventType : Type 0 where
  key_press : KeyPress → XEventType
  visibility_notify : ℕ → Bool → XEventType
  map_notify : Mapping → XEventType
  configure_notify : Resizing → XEventType
  other_event : ℕ → XkbEvent → Loading → Replies → Resizing → XEventType

-- `response_type`: an error, or a type with the bit of a generated event.
pub data XEvent : Type 0 where
  x_error : XEvent
  x_event : Bool → XEventType → XEvent

-- What becomes of the process: it goes on; as the parent of a fork it exits; its connection is broken;
-- it accesses an array beyond its end.
pub data Outcome : Type 0 where
  runs : App → Outcome
  parent_exits : App → Outcome
  connection_broken : Outcome
  out_of_bounds : Outcome

abbrev pub or_fault : Option App → Outcome
or_fault none = out_of_bounds
or_fault (some a) = runs a

unfoldable pub with_ui : (Ui → Ui) → App → App
with_ui f a = record a { ui = f a.ui }

-- A handler of the UI, with what it does to the controller.
unfoldable pub with_result : App → Ui × Ctrl → App
with_result a (u, c) = record a { ui = u; world = record (a.world) { ctrl = c } }

unfoldable pub on_key_press : Bool → KeyPress → App → Outcome
unfolding handle_key_press with_result
on_key_press calloc_ok k a = elim (handle_key_press calloc_ok k a.ui a.world.ctrl) [
  | none ↦ out_of_bounds
  | some r ↦ runs (with_result a r)
]

-- Whether a `redraw_screen` of the given states reads no monitor that is not there.
unfoldable pub draws : App → UnlockState × AuthState → Bool
unfolding indicator_areas
draws a (unlock_state, auth_state) =
    elim (indicator_areas a.last_resolution a.monitors
      (record (a.ui) { unlock_state = unlock_state; auth_state = auth_state })) [
        | none ↦ false
        | some areas ↦ true
      ]

unfoldable pub draws_all : App → List (UnlockState × AuthState) → Bool
unfolding draws
draws_all a [] = true
draws_all a (frame ∷ frames) = draws a frame && draws_all a frames

-- A handler that leaves the monitors as they are, with the reads of each `redraw_screen` in it.
unfoldable pub drawn_from : App → Outcome → Outcome
unfolding draws_all
drawn_from a (runs b) =
    if draws_all a (take (length b.ui.frames - length a.ui.frames) b.ui.frames)
    then runs b
    else out_of_bounds
drawn_from a (parent_exits b) = parent_exits b
drawn_from a connection_broken = connection_broken
drawn_from a out_of_bounds = out_of_bounds

-- `redraw_screen` with what it reads.
unfoldable pub redraw : App → Option App
unfolding draws with_ui redraw_screen
redraw a =
    if draws a (a.ui.unlock_state, a.ui.auth_state) then some (with_ui redraw_screen a) else none

unfoldable pub handle_visibility_notify : ℕ → Bool → App → App
handle_visibility_notify window unobscured a =
    if unobscured then a else record a { requests = raises window ∷ a.requests }

unfoldable pub close_sleep_lock_fd : Option (ℕ × Bool) → List ℕ → List ℕ
close_sleep_lock_fd none closed = closed
close_sleep_lock_fd (some (fd, all_read)) closed = if all_read then fd ∷ closed else closed

unfoldable pub maybe_close_sleep_lock_fd : Option (ℕ × Bool) → App → App
unfolding close_sleep_lock_fd
maybe_close_sleep_lock_fd sleep_lock_fd a = if a.sleep_lock_fd_closed then a else (record a {
  sleep_lock_fd_closed = true;
  closed_fds = close_sleep_lock_fd sleep_lock_fd a.closed_fds;
})

-- The screen stays locked for good.
unfoldable pub fail_to_lock : App → App
unfolding with_ui redraw_screen
fail_to_lock a = with_ui (λ u. redraw_screen (record u { auth_state = lock_failed })) a

-- What follows `pam_controller_init`.
unfoldable pub started_with : Bool × Process → App → App
unfolding fail_to_lock
started_with (ok, p) a =
    let called = record a {
      world = record (a.world) { ctrl = p.ctrl };
      flags = p.flags;
      held = p.held;
      sigpipe_ignored = p.sigpipe_ignored;
      starts = a.starts + 1;
    } in
    if not ok
    then fail_to_lock called
    else (record called { pam_watcher = true; ui = record (a.ui) { controller_started = true } })

unfoldable pub start_controller : Mapping → App → App
unfolding fail_to_lock pam_controller_init started_with
start_controller m a =
    if not m.calloc_ok
    then fail_to_lock a
    else started_with
        (pam_controller_init m.startup (record {
          ctrl = a.world.ctrl;
          flags = a.flags;
          held = a.held;
          sigpipe_ignored = a.sigpipe_ignored;
        }))
        a

unfoldable pub ensure_controller : Mapping → App → App
unfolding start_controller
ensure_controller m a = if a.ui.controller_started then a else start_controller m a

unfoldable pub forked : App → App
forked a = record a { dont_fork = true; forks = a.forks + 1 }

unfoldable pub on_map_notify : Mapping → App → Outcome
unfolding maybe_close_sleep_lock_fd forked ensure_controller
on_map_notify m a₀ =
    let a = maybe_close_sleep_lock_fd m.sleep_lock_fd a₀ in
    if a.dont_fork
    then runs (ensure_controller m a)
    else if m.in_parent
    then parent_exits (forked a)
    else runs (ensure_controller m (forked a))
