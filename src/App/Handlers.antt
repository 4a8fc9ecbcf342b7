-- ===== src/App/Handlers.antt =====
-- What the handlers of X events keep of the program's invariant.
use i3lock.Prelude.{
  ℕ, ◌≡◌, refl, ap, ◌∙◌, ◌⊎◌, inl, inr, List, Bool, true, false, not, Option, none, some,
  if◌then◌else◌, arith,
}
use i3lock.Controller.{Ctrl}
use i3lock.Controller.Lifecycle.{
  Resources, Process, Startup, zero_ctrl, pam_controller_init, obtain, launch, give_up, obtained,
  reset_controller_init_state,
}
use i3lock.World.{World, here}
use i3lock.World.Fresh.{fresh_world}
use i3lock.Ui.{Ui, redraw_screen}
use i3lock.Ui.Keys.{KeyPress, handle_key_press}
use i3lock.Ui.Effects.{KeptAll, core, bool_clash}
use i3lock.Ui.Effects.Keys.{handle_key_press-KeptAll}
use i3lock.App.{
  App, Mapping, key_press, visibility_notify, map_notify, configure_notify, other_event, XEvent,
  x_error, x_event, Outcome, runs, parent_exits, out_of_bounds, or_fault, with_ui, with_result,
  on_key_press, maybe_close_sleep_lock_fd, close_sleep_lock_fd, fail_to_lock, started_with,
  start_controller, ensure_controller, forked, on_map_notify,
}
use i3lock.App.Events.{handle_screen_resize, on_other_event, handle_x_event}
use i3lock.App.Drawn.{drawn_from-keeps}
use i3lock.App.Screen.{
  OnlyScreen, ScreenAll, visibility-OnlyScreen, resize-ScreenAll, other-ScreenAll,
}
use i3lock.App.Refine.{Invariant, Asleep, start_world, Same, Same-Invariant, Kept-Invariant}

-- An outcome in which the process goes on keeps the invariant.
abbrev pub Keeps : ℕ → Outcome → Type 0
Keeps n (runs b) = Invariant n b
Keeps n _ = Unit {0}

-- Where nothing but the screen changes.
screen-Same : (a b : App) → OnlyScreen a b → Same a b
screen-Same a b s = record {
  world = ap (λ x. x.world) s;
  core = ap (λ x. core x.ui) s;
  watcher = ap (λ x. x.pam_watcher) s;
  end = ap (λ x. x.ended) s;
}

screen-Keeps :
    (n : ℕ) (a : App) (r : Option App) → ScreenAll a r → Invariant n a → Keeps n (or_fault r)
screen-Keeps n a none s i = tt
screen-Keeps n a (some b) s i = Same-Invariant n a b (screen-Same a b s) i

key-Keeps :
    (n : ℕ) (calloc_ok : Bool) (k : KeyPress) (a : App)
    → Invariant n a
    → Keeps n (on_key_press calloc_ok k a)
unfolding on_key_press
key-Keeps n calloc_ok k a i =
    go (handle_key_press calloc_ok k a.ui a.world.ctrl)
      (handle_key_press-KeptAll calloc_ok k a.ui a.world.ctrl)
  where
    go :
        (r : Option (Ui × Ctrl))
        → KeptAll a.ui a.world.ctrl r
        → Keeps n (elim r [ none ↦ out_of_bounds | some r' ↦ runs (with_result a r') ])
    go none k = tt
    go (some r) k = Kept-Invariant n a r k i

-- Of a controller that is all zeros, the start makes a fresh one or leaves it so.
init_cases :
    (s : Startup) (n : ℕ) (flags held : Resources) (sigpipe_ignored : Bool)
    → let (started, p) = pam_controller_init s (record {
      ctrl = zero_ctrl n;
      flags = flags;
      held = held;
      sigpipe_ignored = sigpipe_ignored;
    }) in
      ((started ≡ true) × (p.ctrl ≡ (fresh_world n).ctrl))
      ⊎ ((started ≡ false) × (p.ctrl ≡ zero_ctrl n))
unfolding pam_controller_init obtain launch give_up reset_controller_init_state obtained
init_cases s n flags held sigpipe_ignored = ground arith

fail_to_lock-Same : (a : App) → Same a (fail_to_lock a)
unfolding fail_to_lock with_ui redraw_screen
fail_to_lock-Same a = record { world = refl; core = refl; watcher = refl; end = refl }

with_ctrl-cong :
    (w v : World) (c d : Ctrl) → w ≡ v → c ≡ d → (record w { ctrl = c }) ≡ (record v { ctrl = d })
with_ctrl-cong w v c d h k = cc

started-Invariant :
    (n : ℕ) (ok : Bool) (p : Process) (a : App)
    → Asleep n a
    → Invariant n a
    → ((ok ≡ true) × (p.ctrl ≡ (fresh_world n).ctrl)) ⊎ ((ok ≡ false) × (p.ctrl ≡ zero_ctrl n))
    → Invariant n (started_with (ok, p) a)
unfolding started_with fail_to_lock with_ui redraw_screen
started-Invariant n ok p a s i (inl (up, fresh)) = rw up (record {
  behaves = λ _. inr (record {
    on = refl;
    run = rw (with_ctrl-cong a.world (start_world n) p.ctrl _ s.untouched fresh) here;
  });
  paid = i.paid;
  closes = i.closes;
  bounded = i.bounded;
})
started-Invariant n ok p a s i (inr (failed, zeros)) = rw failed (record {
  behaves = λ _. inl (record {
    dormant = record {
      off = s.dormant.off;
      no_transaction = s.dormant.no_transaction;
      no_prompt = s.dormant.no_prompt;
    };
    untouched = with_ctrl-cong a.world (start_world n) p.ctrl _ s.untouched zeros;
    unwatched = s.unwatched;
  });
  paid = i.paid;
  closes = i.closes;
  bounded = i.bounded;
})

start-Invariant :
    (n : ℕ) (m : Mapping) (a : App)
    → Asleep n a
    → Invariant n a
    → Invariant n (start_controller m a)
unfolding start_controller
start-Invariant n m a s i = go m.calloc_ok
  where
    zeros : a.world.ctrl ≡ zero_ctrl n
    zeros = ap (λ w. w.ctrl) s.untouched

    result : Bool × Process
    result = pam_controller_init m.startup (record {
      ctrl = a.world.ctrl;
      flags = a.flags;
      held = a.held;
      sigpipe_ignored = a.sigpipe_ignored;
    })

    go : (b : Bool) → Invariant n (if not b then fail_to_lock a else started_with result a)
    go false = Same-Invariant n a (fail_to_lock a) (fail_to_lock-Same a) i
    go true =
        started-Invariant n result.0 result.1 a s i
          (rw zeros (init_cases m.startup n a.flags a.held a.sigpipe_ignored))

ensure-Invariant :
    (n : ℕ) (m : Mapping) (a : App)
    → a.ended ≡ false
    → Invariant n a
    → Invariant n (ensure_controller m a)
unfolding ensure_controller
ensure-Invariant n m a going i = go a.ui.controller_started refl
  where
    go :
        (b : Bool)
        → a.ui.controller_started ≡ b
        → Invariant n (if b then a else start_controller m a)
    go true on = i
    go false off = elim (i.behaves going) [
      | inl s ↦ start-Invariant n m a s i
      | inr w ↦ absurd (bool_clash off w.on)
    ]

sleep_lock-Same : (fd : Option (ℕ × Bool)) (a : App) → Same a (maybe_close_sleep_lock_fd fd a)
unfolding maybe_close_sleep_lock_fd
sleep_lock-Same fd a = go a.sleep_lock_fd_closed
  where
    go :
        (b : Bool)
        → Same a (
            if b then a else (record a {
              sleep_lock_fd_closed = true;
              closed_fds = close_sleep_lock_fd fd a.closed_fds;
            }))
    go true = record { world = refl; core = refl; watcher = refl; end = refl }
    go false = record { world = refl; core = refl; watcher = refl; end = refl }

map-Keeps :
    (n : ℕ) (m : Mapping) (a : App) → a.ended ≡ false → Invariant n a → Keeps n (on_map_notify m a)
unfolding on_map_notify forked
map-Keeps n m a₀ going i₀ = go a.dont_fork m.in_parent
  where
    a : App
    a = maybe_close_sleep_lock_fd m.sleep_lock_fd a₀

    closed : Same a₀ a
    closed = sleep_lock-Same m.sleep_lock_fd a₀

    go :
        (d p : Bool)
        → Keeps n (
            if d
            then runs (ensure_controller m a)
            else if p
            then parent_exits (forked a)
            else runs (ensure_controller m (forked a)))
    go true p = ensure-Invariant n m a (closed.end ∙ going) (Same-Invariant n a₀ a closed i₀)
    go false true = tt
    go false false = ensure-Invariant n m (forked a) (closed.end ∙ going) (
        Same-Invariant n a₀ (forked a)
          (record {
            world = closed.world;
            core = closed.core;
            watcher = closed.watcher;
            end = closed.end;
          })
          i₀)

-- Each X event keeps the invariant, where the process goes on.
pub x_event-Keeps :
    (update_mask : ℕ → List ℕ → ℕ) (screen_change n : ℕ) (calloc_ok : Bool) (e : XEvent) (a : App)
    → a.ended ≡ false
    → Invariant n a
    → Keeps n (handle_x_event update_mask screen_change calloc_ok e a)
unfolding handle_x_event
x_event-Keeps update_mask screen_change n calloc_ok x_error a going i = i
x_event-Keeps update_mask screen_change n calloc_ok (x_event synthetic (key_press k)) a going i =
    drawn_from-keeps (Keeps n) tt a (on_key_press calloc_ok k a) (key-Keeps n calloc_ok k a i)
x_event-Keeps update_mask screen_change n calloc_ok
      (x_event synthetic (visibility_notify window unobscured)) a going i =
    Same-Invariant n a _ (screen-Same a _ (visibility-OnlyScreen window unobscured a)) i
x_event-Keeps update_mask screen_change n calloc_ok (x_event true (map_notify m)) a going i = i
x_event-Keeps update_mask screen_change n calloc_ok (x_event false (map_notify m)) a going i =
    drawn_from-keeps (Keeps n) tt a (on_map_notify m a) (map-Keeps n m a going i)
x_event-Keeps update_mask screen_change n calloc_ok (x_event synthetic (configure_notify r)) a going
      i =
    screen-Keeps n a (handle_screen_resize r a) (resize-ScreenAll r a) i
x_event-Keeps update_mask screen_change n calloc_ok
      (x_event synthetic (other_event type e l replies r)) a going i =
    screen-Keeps n a (on_other_event update_mask screen_change type e l replies r a)
      (other-ScreenAll update_mask screen_change type e l replies r a) i
