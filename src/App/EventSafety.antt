-- ===== src/App/EventSafety.antt =====
-- The X events of i3lock.c one by one: the accesses to the password buffer and to the array of monitors.
use i3lock.Prelude.{ℕ, ◌≡◌, refl, List, Bool, true, false, not, Option, none, some, if◌then◌else◌}
use i3lock.Controller.{Ctrl}
use i3lock.Controller.Lifecycle.{Process, pam_controller_init}
use i3lock.Ui.{Ui, redraw_screen}
use i3lock.Ui.Keys.{KeyPress, resolve, handle_key_press}
use i3lock.Ui.Keys.Text.{Safe, Fits, handle_key_press-Safe}
use i3lock.App.{
  App, Mapping, key_press, visibility_notify, map_notify, configure_notify, other_event, XEvent,
  x_error, x_event, runs, parent_exits, out_of_bounds, with_ui, with_result, on_key_press,
  handle_visibility_notify, maybe_close_sleep_lock_fd, close_sleep_lock_fd, fail_to_lock,
  started_with, start_controller, ensure_controller, forked, on_map_notify,
}
use i3lock.App.Drawn.{drawn_there}
use i3lock.App.Events.{handle_screen_resize, on_other_event, handle_x_event}
use i3lock.App.Safety.{SafeApp, SafeOutcome, fault-Safe, resize-SafeAll, other-SafeAll}

key-Safe :
    (calloc_ok : Bool) (k : KeyPress) (a : App)
    → Fits (resolve k k.compose)
    → SafeApp a
    → SafeOutcome (on_key_press calloc_ok k a)
unfolding on_key_press with_result
key-Safe calloc_ok k a fit s =
    go (handle_key_press calloc_ok k a.ui a.world.ctrl)
      (handle_key_press-Safe calloc_ok k a.ui a.world.ctrl fit s.buffer)
  where
    go :
        (r : Option (Ui × Ctrl))
        → Safe r
        → SafeOutcome (elim r [ none ↦ out_of_bounds | some r' ↦ runs (with_result a r') ])
    go none h = h
    go (some (u, c)) h = record { buffer = h; randr = s.randr; quiet = s.quiet; there = s.there }

-- Neither the password nor the monitors change.
pub record Untouched (a b : App) : Type 0 where
  pub password : b.ui.password ≡ a.ui.password
  pub position : b.ui.input_position ≡ a.ui.input_position
  pub monitors : b.monitors ≡ a.monitors

Untouched-Safe : (a b : App) → Untouched a b → SafeApp a → SafeApp b
Untouched-Safe a b u s = record {
  buffer = rw (u.password, u.position) s.buffer;
  randr = rw u.monitors s.randr;
  quiet = rw u.monitors s.quiet;
  there = rw u.monitors s.there;
}

visibility-Safe :
    (window : ℕ) (unobscured : Bool) (a : App)
    → SafeApp a
    → SafeApp (handle_visibility_notify window unobscured a)
unfolding handle_visibility_notify
visibility-Safe window true a s = s
visibility-Safe window false a s =
    Untouched-Safe a _ (record { password = refl; position = refl; monitors = refl }) s

if-Safe : (b : Bool) (p q : App) → SafeApp p → SafeApp q → SafeApp (if b then p else q)
if-Safe true p q h k = h
if-Safe false p q h k = k

fail-Safe : (a : App) → SafeApp a → SafeApp (fail_to_lock a)
unfolding fail_to_lock with_ui redraw_screen
fail-Safe a s = record { buffer = s.buffer; randr = s.randr; quiet = s.quiet; there = s.there }

started-Safe : (ok : Bool) (p : Process) (a : App) → SafeApp a → SafeApp (started_with (ok, p) a)
unfolding started_with fail_to_lock with_ui redraw_screen
started-Safe true p a s = record {
  buffer = s.buffer;
  randr = s.randr;
  quiet = s.quiet;
  there = s.there;
}
started-Safe false p a s = record {
  buffer = s.buffer;
  randr = s.randr;
  quiet = s.quiet;
  there = s.there;
}

ensure-Safe : (m : Mapping) (a : App) → SafeApp a → SafeApp (ensure_controller m a)
unfolding ensure_controller start_controller
ensure-Safe m a s =
    let (ok, p) = pam_controller_init m.startup (record {
      ctrl = a.world.ctrl;
      flags = a.flags;
      held = a.held;
      sigpipe_ignored = a.sigpipe_ignored;
    }) in
    if-Safe a.ui.controller_started a (start_controller m a) s (
      if-Safe (not m.calloc_ok) (fail_to_lock a) (started_with (ok, p) a) (fail-Safe a s)
        (started-Safe ok p a s))

close-Safe :
    (fd : Option (ℕ × Bool)) (a : App) → SafeApp a → SafeApp (maybe_close_sleep_lock_fd fd a)
unfolding maybe_close_sleep_lock_fd
close-Safe fd a s =
    if-Safe a.sleep_lock_fd_closed a
      (record a { sleep_lock_fd_closed = true; closed_fds = close_sleep_lock_fd fd a.closed_fds }) s
      (record { buffer = s.buffer; randr = s.randr; quiet = s.quiet; there = s.there })

map-Safe : (m : Mapping) (a : App) → SafeApp a → SafeOutcome (on_map_notify m a)
unfolding on_map_notify forked
map-Safe m a₀ s₀ = go a.dont_fork m.in_parent
  where
    a : App
    a = maybe_close_sleep_lock_fd m.sleep_lock_fd a₀

    s : SafeApp a
    s = close-Safe m.sleep_lock_fd a₀ s₀

    go :
        (d p : Bool)
        → SafeOutcome (
            if d
            then runs (ensure_controller m a)
            else if p
            then parent_exits (forked a)
            else runs (ensure_controller m (forked a)))
    go true p = ensure-Safe m a s
    go false true = tt
    go false false =
        ensure-Safe m (forked a)
          (record { buffer = s.buffer; randr = s.randr; quiet = s.quiet; there = s.there })

-- The text of a key press fits the buffer's margin.
abbrev pub FitsEvent : XEvent → Type 0
FitsEvent (x_event synthetic (key_press k)) = Fits (resolve k k.compose)
FitsEvent _ = Unit {0}

pub x_event-Safe :
    (update_mask : ℕ → List ℕ → ℕ) (screen_change : ℕ) (calloc_ok : Bool) (e : XEvent) (a : App)
    → FitsEvent e
    → SafeApp a
    → SafeOutcome (handle_x_event update_mask screen_change calloc_ok e a)
unfolding handle_x_event
x_event-Safe update_mask screen_change calloc_ok x_error a fit s = s
x_event-Safe update_mask screen_change calloc_ok (x_event synthetic (key_press k)) a fit s =
    rw (drawn_there a (on_key_press calloc_ok k a) s.there) (key-Safe calloc_ok k a fit s)
x_event-Safe update_mask screen_change calloc_ok
      (x_event synthetic (visibility_notify window unobscured)) a fit s =
    visibility-Safe window unobscured a s
x_event-Safe update_mask screen_change calloc_ok (x_event true (map_notify m)) a fit s = s
x_event-Safe update_mask screen_change calloc_ok (x_event false (map_notify m)) a fit s =
    rw (drawn_there a (on_map_notify m a) s.there) (map-Safe m a s)
x_event-Safe update_mask screen_change calloc_ok (x_event synthetic (configure_notify r)) a fit s =
    fault-Safe (handle_screen_resize r a) (resize-SafeAll r a s)
x_event-Safe update_mask screen_change calloc_ok
      (x_event synthetic (other_event type e l replies r)) a fit s =
    fault-Safe (on_other_event update_mask screen_change type e l replies r a)
      (other-SafeAll update_mask screen_change type e l replies r a s)
