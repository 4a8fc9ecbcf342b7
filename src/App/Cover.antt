-- ===== src/App/Cover.antt =====
-- The size of the lock's window over the program's runs.
use i3lock.Prelude.{
  ℕ, ◌≡◌, refl, sym, List, [], ◌∷◌, Bool, true, false, not, Option, none, some, if◌then◌else◌, ◌==◌,
}
use i3lock.Controller.{Ctrl}
use i3lock.Controller.Lifecycle.{Process, pam_controller_init}
use i3lock.Ui.{Ui}
use i3lock.Ui.Keys.{KeyPress, handle_key_press}
use i3lock.Keymap.{Loading, XkbEvent, process_xkb_event}
use i3lock.Monitors.{Monitors, Replies, randr_query}
use i3lock.App.{
  App, Request, raises, resizes, Mapping, Resizing, key_press, visibility_notify, map_notify,
  configure_notify, other_event, XEvent, x_error, x_event, Outcome, runs, parent_exits,
  out_of_bounds, or_fault, with_ui, redraw, with_result, on_key_press, handle_visibility_notify,
  maybe_close_sleep_lock_fd, close_sleep_lock_fd, fail_to_lock, started_with, start_controller,
  ensure_controller, forked, on_map_notify,
}
use i3lock.App.Drawn.{redraw-keeps, drawn_from-keeps}
use i3lock.App.Events.{
  same_resolution, redraw_monitors, resize_drawn, then_screen_change, resize_to,
  handle_screen_resize, on_xkb_event, on_screen_change, is_screen_change, on_other_event,
  handle_x_event,
}
use i3lock.App.Run.{
  on_pam_event, on_wrong_timer, leave_loop, join_worker, AppStep, background, x_arrives,
  pam_arrives, wrong_timer, indicator_timer, password_timer, redraw_timer, leaves, works, joins,
  AppReach, at_start, and_then,
}

-- The window's size behind the requests, from the one that it was opened with.
abbrev pub window_size : ℕ × ℕ → List Request → ℕ × ℕ
window_size opened [] = opened
window_size opened (raises window ∷ requests) = window_size opened requests
window_size opened (resizes width height ∷ requests) = (width, height)

module _ (opened : ℕ × ℕ) where
  -- The window is as large as the screen was at last.
  abbrev pub Covers : App → Type 0
  Covers a = window_size opened a.requests ≡ a.last_resolution

  abbrev CoversAll : Option App → Type 0
  CoversAll none = Unit {0}
  CoversAll (some a) = Covers a

  abbrev CoversOutcome : Outcome → Type 0
  CoversOutcome (runs a) = Covers a
  CoversOutcome _ = Unit {0}

  if-Covers : (b : Bool) (p q : App) → Covers p → Covers q → Covers (if b then p else q)
  if-Covers true p q h k = h
  if-Covers false p q h k = k

  if-CoversAll :
      (b : Bool) (p q : Option App) → CoversAll p → CoversAll q → CoversAll (if b then p else q)
  if-CoversAll true p q h k = h
  if-CoversAll false p q h k = k

  fault-Covers : (r : Option App) → CoversAll r → CoversOutcome (or_fault r)
  fault-Covers none h = tt
  fault-Covers (some a) h = h

  key-Covers :
      (calloc_ok : Bool) (k : KeyPress) (a : App)
      → Covers a
      → CoversOutcome (on_key_press calloc_ok k a)
  unfolding on_key_press with_result
  key-Covers calloc_ok k a h = go (handle_key_press calloc_ok k a.ui a.world.ctrl)
    where
      go :
          (r : Option (Ui × Ctrl))
          → CoversOutcome (elim r [ none ↦ out_of_bounds | some r' ↦ runs (with_result a r') ])
      go none = tt
      go (some r) = h

  visibility-Covers :
      (window : ℕ) (unobscured : Bool) (a : App)
      → Covers a
      → Covers (handle_visibility_notify window unobscured a)
  unfolding handle_visibility_notify
  visibility-Covers window true a h = h
  visibility-Covers window false a h = h

  redraw-CoversAll : (a : App) (m : Option Monitors) → Covers a → CoversAll (redraw_monitors a m)
  unfolding redraw_monitors with_ui
  redraw-CoversAll a none h = tt
  redraw-CoversAll a (some m) h = redraw-keeps CoversAll tt (record a { monitors = m }) h

  -- The resolution is the size that the window is resized to.
  abbrev pub Resolved : ℕ × ℕ → Option App → Type 0
  Resolved size none = Unit {0}
  Resolved size (some a) = a.last_resolution ≡ size

  drawn-CoversAll :
      (replies : Replies) (size : ℕ × ℕ) (r : Option App)
      → Resolved size r
      → CoversAll (resize_drawn replies size r)
  unfolding resize_drawn
  drawn-CoversAll replies size none h = tt
  drawn-CoversAll replies size (some a) h =
      let asked = record a { requests = resizes size.0 size.1 ∷ a.requests } in
      redraw-CoversAll asked (randr_query replies asked.monitors) (sym h)

  resize_to-CoversAll :
      (replies : Replies) (size : ℕ × ℕ) (a : App) → CoversAll (resize_to replies size a)
  unfolding resize_to with_ui
  resize_to-CoversAll replies size a =
      drawn-CoversAll replies size (redraw (record a { last_resolution = size }))
        (redraw-keeps (Resolved size) tt (record a { last_resolution = size }) refl)

  resize-CoversAll : (r : Resizing) (a : App) → Covers a → CoversAll (handle_screen_resize r a)
  unfolding handle_screen_resize
  resize-CoversAll r a h = go r.geometry
    where
      go :
          (g : Option (ℕ × ℕ))
          → CoversAll (elim g [
            | none ↦ some a
            | some size ↦
                if same_resolution a.last_resolution size
                then some a
                else resize_to r.replies size a
          ])
      go none = h
      go (some size) =
          if-CoversAll (same_resolution a.last_resolution size) (some a)
            (resize_to r.replies size a) h (resize_to-CoversAll r.replies size a)

  change-CoversAll :
      (replies : Replies) (r : Resizing) (a : App)
      → Covers a
      → CoversAll (on_screen_change replies r a)
  unfolding on_screen_change
  change-CoversAll replies r a h = go (randr_query replies a.monitors)
    where
      go :
          (q : Option Monitors)
          → CoversAll (elim q [
            | none ↦ none
            | some monitors ↦ handle_screen_resize r (record a { monitors = monitors })
          ])
      go none = tt
      go (some monitors) = resize-CoversAll r (record a { monitors = monitors }) h

  then-CoversAll :
      (screen_change type : ℕ) (replies : Replies) (r : Resizing) (o : Option App)
      → CoversAll o
      → CoversAll (then_screen_change screen_change type replies r o)
  unfolding then_screen_change
  then-CoversAll screen_change type replies r none h = tt
  then-CoversAll screen_change type replies r (some a) h =
      if-CoversAll (is_screen_change screen_change a.randr_base type) (on_screen_change replies r a)
        (some a) (change-CoversAll replies r a h) h

  other-CoversAll :
      (update_mask : ℕ → List ℕ → ℕ) (screen_change type : ℕ) (e : XkbEvent) (l : Loading)
      (replies : Replies) (r : Resizing) (a : App)
      → Covers a
      → CoversAll (on_other_event update_mask screen_change type e l replies r a)
  unfolding on_other_event on_xkb_event with_ui
  other-CoversAll update_mask screen_change type e l replies r a h =
      then-CoversAll screen_change type replies r _ (
        if-CoversAll (type == a.xkb_base_event) (on_xkb_event update_mask l e a) (some a)
          (redraw-keeps CoversAll tt
            (record a { keymap = process_xkb_event update_mask l e a.keymap }) h)
          h)

  started-Covers : (ok : Bool) (p : Process) (a : App) → Covers a → Covers (started_with (ok, p) a)
  unfolding started_with fail_to_lock with_ui
  started-Covers true p a h = h
  started-Covers false p a h = h

  fail-Covers : (a : App) → Covers a → Covers (fail_to_lock a)
  unfolding fail_to_lock with_ui
  fail-Covers a h = h

  ensure-Covers : (m : Mapping) (a : App) → Covers a → Covers (ensure_controller m a)
  unfolding ensure_controller start_controller
  ensure-Covers m a h =
      let (ok, p) = pam_controller_init m.startup (record {
        ctrl = a.world.ctrl;
        flags = a.flags;
        held = a.held;
        sigpipe_ignored = a.sigpipe_ignored;
      }) in
      if-Covers a.ui.controller_started a (start_controller m a) h (
        if-Covers (not m.calloc_ok) (fail_to_lock a) (started_with (ok, p) a) (fail-Covers a h)
          (started-Covers ok p a h))

  close-Covers :
      (fd : Option (ℕ × Bool)) (a : App) → Covers a → Covers (maybe_close_sleep_lock_fd fd a)
  unfolding maybe_close_sleep_lock_fd
  close-Covers fd a h =
      if-Covers a.sleep_lock_fd_closed a
        (record a { sleep_lock_fd_closed = true; closed_fds = close_sleep_lock_fd fd a.closed_fds })
        h h

  map-Covers : (m : Mapping) (a : App) → Covers a → CoversOutcome (on_map_notify m a)
  unfolding on_map_notify forked
  map-Covers m a₀ h = go a.dont_fork m.in_parent
    where
      a : App
      a = maybe_close_sleep_lock_fd m.sleep_lock_fd a₀

      closed : Covers a
      closed = close-Covers m.sleep_lock_fd a₀ h

      go :
          (d p : Bool)
          → CoversOutcome (
              if d
              then runs (ensure_controller m a)
              else if p
              then parent_exits (forked a)
              else runs (ensure_controller m (forked a)))
      go true p = ensure-Covers m a closed
      go false true = tt
      go false false = ensure-Covers m (forked a) closed

  x_event-Covers :
      (update_mask : ℕ → List ℕ → ℕ) (screen_change : ℕ) (calloc_ok : Bool) (e : XEvent) (a : App)
      → Covers a
      → CoversOutcome (handle_x_event update_mask screen_change calloc_ok e a)
  unfolding handle_x_event
  x_event-Covers update_mask screen_change calloc_ok x_error a h = h
  x_event-Covers update_mask screen_change calloc_ok (x_event synthetic (key_press k)) a h =
      drawn_from-keeps CoversOutcome tt a (on_key_press calloc_ok k a) (key-Covers calloc_ok k a h)
  x_event-Covers update_mask screen_change calloc_ok
        (x_event synthetic (visibility_notify window unobscured)) a h =
      visibility-Covers window unobscured a h
  x_event-Covers update_mask screen_change calloc_ok (x_event true (map_notify m)) a h = h
  x_event-Covers update_mask screen_change calloc_ok (x_event false (map_notify m)) a h =
      drawn_from-keeps CoversOutcome tt a (on_map_notify m a) (map-Covers m a h)
  x_event-Covers update_mask screen_change calloc_ok (x_event synthetic (configure_notify r)) a h =
      fault-Covers (handle_screen_resize r a) (resize-CoversAll r a h)
  x_event-Covers update_mask screen_change calloc_ok
        (x_event synthetic (other_event type e l replies r)) a h =
      fault-Covers (on_other_event update_mask screen_change type e l replies r a)
        (other-CoversAll update_mask screen_change type e l replies r a h)

  AppStep-Covers :
      (update_mask : ℕ → List ℕ → ℕ) (screen_change : ℕ) {a b : App}
      → AppStep update_mask screen_change a b
      → Covers a
      → Covers b
  unfolding on_pam_event on_wrong_timer leave_loop join_worker with_ui with_result
  AppStep-Covers update_mask screen_change (background a st going watched silent) h = h
  AppStep-Covers update_mask screen_change (x_arrives calloc_ok e a b waiting ran) h =
      rw ran at (x_event-Covers update_mask screen_change calloc_ok e a h)
  AppStep-Covers update_mask screen_change (pam_arrives calloc_ok e rest a going at) h = h
  AppStep-Covers update_mask screen_change (wrong_timer a timeout waiting set) h = h
  AppStep-Covers update_mask screen_change (indicator_timer a timeout waiting set) h = h
  AppStep-Covers update_mask screen_change (password_timer a timeout waiting set) h = h
  AppStep-Covers update_mask screen_change (redraw_timer a waiting) h = h
  AppStep-Covers update_mask screen_change (leaves a waiting unlocked) h = h
  AppStep-Covers update_mask screen_change (works a st ended unfinished on own) h = h
  AppStep-Covers update_mask screen_change (joins a ended unfinished done) h = h

  pub AppReach-Covers :
      (update_mask : ℕ → List ℕ → ℕ) (screen_change : ℕ) {s a : App}
      → window_size opened s.requests ≡ s.last_resolution
      → AppReach update_mask screen_change s a
      → window_size opened a.requests ≡ a.last_resolution
  AppReach-Covers update_mask screen_change h at_start = h
  AppReach-Covers update_mask screen_change h (and_then r st) =
      AppStep-Covers update_mask screen_change st (AppReach-Covers update_mask screen_change h r)
