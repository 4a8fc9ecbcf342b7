-- ===== src/App/Once.antt =====
-- What the event loop of i3lock.c does at most once: the fork, the descriptor of the sleep lock, the
-- start of the controller.
use i3lock.Prelude.{
  ℕ, ◌+◌, ◌≤◌, ◌≡◌, refl, ap, ◌∙◌, List, Bool, true, false, not, Option, none, some, if◌then◌else◌,
  length, arith,
}
use i3lock.Controller.{Ctrl}
use i3lock.Controller.Lifecycle.{Process, pam_controller_init}
use i3lock.Ui.{Ui, redraw_screen}
use i3lock.Ui.Keys.{KeyPress, handle_key_press}
use i3lock.Ui.Effects.{KeptAll, bool_clash}
use i3lock.Ui.Effects.Keys.{handle_key_press-KeptAll}
use i3lock.App.{
  App, Mapping, key_press, visibility_notify, map_notify, configure_notify, other_event, XEvent,
  x_error, x_event, Outcome, runs, parent_exits, out_of_bounds, or_fault, with_ui, with_result,
  on_key_press, maybe_close_sleep_lock_fd, close_sleep_lock_fd, fail_to_lock, started_with,
  start_controller, ensure_controller, forked, on_map_notify,
}
use i3lock.App.Events.{handle_screen_resize, on_other_event, handle_x_event}
use i3lock.App.Drawn.{drawn_from-keeps}
use i3lock.App.Screen.{
  OnlyScreen, ScreenAll, visibility-OnlyScreen, resize-ScreenAll, other-ScreenAll,
}

-- What is still to be done, if a flag is not set.
abbrev pub spare : Bool → ℕ
spare true = 0
spare false = 1

-- From the first state to the second: a fork uses up the flag for it; so does the closing of the
-- descriptor, if it is closed; a controller that was started is not started again.
pub record Once (a b : App) : Type 0 where
  pub fork : b.forks + spare b.dont_fork ≡ a.forks + spare a.dont_fork
  pub close :
      length b.closed_fds + spare b.sleep_lock_fd_closed
      ≤ length a.closed_fds + spare a.sleep_lock_fd_closed
  pub start :
      a.ui.controller_started ≡ true → (b.ui.controller_started ≡ true) × (b.starts ≡ a.starts)

-- The same, for a handler that leaves the loop between two callbacks.
pub record Frame (a b : App) : Type 0 where
  pub once : Once a b
  pub end : b.ended ≡ a.ended
  pub inbox : b.world.inbox ≡ a.world.inbox
  pub unread : b.world.draining ≡ a.world.draining

pub Once-refl : (a : App) → Once a a
Once-refl a = record { fork = refl; close = omega arith; start = λ on. (on, refl) }

pub Once-trans : (a b c : App) → Once a b → Once b c → Once a c
Once-trans a b c h k = record {
  fork = k.fork ∙ h.fork;
  close = omega (arith, h.close, k.close);
  start = λ on.
      let (still, same) = h.start on in let (yet, same') = k.start still in (yet, same' ∙ same);
}

pub Frame-refl : (a : App) → Frame a a
Frame-refl a = record { once = Once-refl a; end = refl; inbox = refl; unread = refl }

pub Frame-trans : (a b c : App) → Frame a b → Frame b c → Frame a c
Frame-trans a b c h k = record {
  once = Once-trans a b c h.once k.once;
  end = k.end ∙ h.end;
  inbox = k.inbox ∙ h.inbox;
  unread = k.unread ∙ h.unread;
}

-- A change of the UI and of the controller's state alone.
pub result-Frame :
    (a : App) (r : Ui × Ctrl)
    → r.0.controller_started ≡ a.ui.controller_started
    → Frame a (with_result a r)
unfolding with_result
result-Frame a r e = record {
  once = record { fork = refl; close = omega arith; start = λ on. (e ∙ on, refl) };
  end = refl;
  inbox = refl;
  unread = refl;
}

screen-Frame : (a b : App) → OnlyScreen a b → Frame a b
screen-Frame a b s = record {
  once = record {
    fork = ap (λ x. x.forks + spare x.dont_fork) s;
    close = omega (arith, ap (λ x. length x.closed_fds + spare x.sleep_lock_fd_closed) s);
    start = λ on. (ap (λ x. x.ui.controller_started) s ∙ on, ap (λ x. x.starts) s);
  };
  end = ap (λ x. x.ended) s;
  inbox = ap (λ x. x.world.inbox) s;
  unread = ap (λ x. x.world.draining) s;
}

-- Where the process goes on, or leaves as the parent.
abbrev pub FrameAll : App → Outcome → Type 0
FrameAll a (runs b) = Frame a b
FrameAll a (parent_exits b) = Frame a b
FrameAll a _ = Unit {0}

screen-FrameAll : (a : App) (r : Option App) → ScreenAll a r → FrameAll a (or_fault r)
screen-FrameAll a none s = tt
screen-FrameAll a (some b) s = screen-Frame a b s

key-FrameAll : (calloc_ok : Bool) (k : KeyPress) (a : App) → FrameAll a (on_key_press calloc_ok k a)
unfolding on_key_press
key-FrameAll calloc_ok k a =
    go (handle_key_press calloc_ok k a.ui a.world.ctrl)
      (handle_key_press-KeptAll calloc_ok k a.ui a.world.ctrl)
  where
    go :
        (r : Option (Ui × Ctrl))
        → KeptAll a.ui a.world.ctrl r
        → FrameAll a (elim r [ none ↦ out_of_bounds | some r' ↦ runs (with_result a r') ])
    go none k = tt
    go (some r) k = result-Frame a r k.start

close-Frame : (fd : Option (ℕ × Bool)) (a : App) → Frame a (maybe_close_sleep_lock_fd fd a)
unfolding maybe_close_sleep_lock_fd close_sleep_lock_fd
close-Frame fd a = go a.sleep_lock_fd_closed refl fd
  where
    go :
        (b : Bool)
        → a.sleep_lock_fd_closed ≡ b
        → (f : Option (ℕ × Bool))
        → Frame a (
            if b then a else (record a {
              sleep_lock_fd_closed = true;
              closed_fds = close_sleep_lock_fd f a.closed_fds;
            }))
    go true e f = Frame-refl a
    go false e none = record {
      once = record { fork = refl; close = omega arith; start = λ on. (on, refl) };
      end = refl;
      inbox = refl;
      unread = refl;
    }
    go false e (some (fd, true)) = record {
      once = record { fork = refl; close = rw e (omega arith); start = λ on. (on, refl) };
      end = refl;
      inbox = refl;
      unread = refl;
    }
    go false e (some (fd, false)) = record {
      once = record { fork = refl; close = omega arith; start = λ on. (on, refl) };
      end = refl;
      inbox = refl;
      unread = refl;
    }

forked-Frame : (a : App) → a.dont_fork ≡ false → Frame a (forked a)
unfolding forked
forked-Frame a e = record {
  once = record { fork = rw e (omega arith); close = omega arith; start = λ on. (on, refl) };
  end = refl;
  inbox = refl;
  unread = refl;
}

-- The start of a controller that is not started.
started-Frame :
    (ok : Bool) (p : Process) (a : App)
    → a.ui.controller_started ≡ false
    → Frame a (started_with (ok, p) a)
unfolding started_with fail_to_lock with_ui redraw_screen
started-Frame true p a off = record {
  once = record { fork = refl; close = omega arith; start = λ on. absurd (bool_clash off on) };
  end = refl;
  inbox = refl;
  unread = refl;
}
started-Frame false p a off = record {
  once = record { fork = refl; close = omega arith; start = λ on. absurd (bool_clash off on) };
  end = refl;
  inbox = refl;
  unread = refl;
}

ensure-Frame : (m : Mapping) (a : App) → Frame a (ensure_controller m a)
unfolding ensure_controller start_controller fail_to_lock with_ui redraw_screen
ensure-Frame m a = go a.ui.controller_started refl m.calloc_ok
  where
    result : Bool × Process
    result = pam_controller_init m.startup (record {
      ctrl = a.world.ctrl;
      flags = a.flags;
      held = a.held;
      sigpipe_ignored = a.sigpipe_ignored;
    })

    go :
        (b : Bool)
        → a.ui.controller_started ≡ b
        → (calloc_ok : Bool)
        → Frame a (if b then a else if not calloc_ok then fail_to_lock a else started_with result a)
    go true e ok = Frame-refl a
    go false off true = started-Frame result.0 result.1 a off
    go false off false = record {
      once = record { fork = refl; close = omega arith; start = λ on. (on, refl) };
      end = refl;
      inbox = refl;
      unread = refl;
    }

map-FrameAll : (m : Mapping) (a : App) → FrameAll a (on_map_notify m a)
unfolding on_map_notify
map-FrameAll m a₀ = go a.dont_fork refl m.in_parent
  where
    a : App
    a = maybe_close_sleep_lock_fd m.sleep_lock_fd a₀

    closed : Frame a₀ a
    closed = close-Frame m.sleep_lock_fd a₀

    go :
        (d : Bool)
        → a.dont_fork ≡ d
        → (p : Bool)
        → FrameAll a₀ (
            if d
            then runs (ensure_controller m a)
            else if p
            then parent_exits (forked a)
            else runs (ensure_controller m (forked a)))
    go true e p = Frame-trans a₀ a _ closed (ensure-Frame m a)
    go false e true = Frame-trans a₀ a _ closed (forked-Frame a e)
    go false e false =
        Frame-trans a₀ (forked a) _ (Frame-trans a₀ a (forked a) closed (forked-Frame a e))
          (ensure-Frame m (forked a))

pub x_event-FrameAll :
    (update_mask : ℕ → List ℕ → ℕ) (screen_change : ℕ) (calloc_ok : Bool) (e : XEvent) (a : App)
    → FrameAll a (handle_x_event update_mask screen_change calloc_ok e a)
unfolding handle_x_event
x_event-FrameAll update_mask screen_change calloc_ok x_error a = Frame-refl a
x_event-FrameAll update_mask screen_change calloc_ok (x_event synthetic (key_press k)) a =
    drawn_from-keeps (FrameAll a) tt a (on_key_press calloc_ok k a) (key-FrameAll calloc_ok k a)
x_event-FrameAll update_mask screen_change calloc_ok
      (x_event synthetic (visibility_notify window unobscured)) a =
    screen-Frame a _ (visibility-OnlyScreen window unobscured a)
x_event-FrameAll update_mask screen_change calloc_ok (x_event true (map_notify m)) a = Frame-refl a
x_event-FrameAll update_mask screen_change calloc_ok (x_event false (map_notify m)) a =
    drawn_from-keeps (FrameAll a) tt a (on_map_notify m a) (map-FrameAll m a)
x_event-FrameAll update_mask screen_change calloc_ok (x_event synthetic (configure_notify r)) a =
    screen-FrameAll a (handle_screen_resize r a) (resize-ScreenAll r a)
x_event-FrameAll update_mask screen_change calloc_ok
      (x_event synthetic (other_event type e l replies r)) a =
    screen-FrameAll a (on_other_event update_mask screen_change type e l replies r a)
      (other-ScreenAll update_mask screen_change type e l replies r a)
