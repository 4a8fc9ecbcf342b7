-- ===== src/App/Run.antt =====
-- The runs of the whole program: each step is what one thread does without the other in between. The
-- event loop runs one callback at a time: it handles one X event, one event of the controller, or the
-- end of a timer, and behind the loop `main` waits for the worker's end.
use i3lock.Prelude.{ℕ, ◌≡◌, ◌⊎◌, List, [], ◌∷◌, Bool, true, false, some}
use i3lock.Pam.{Event}
use i3lock.Controller.Lifecycle.{request_join, after_join, zero_ctrl}
use i3lock.World.{World, exited, Step, call, handle, empty_pipe, snapshot}
use i3lock.World.Fresh.{fresh_world}
use i3lock.Ui.{clear_indicator_cb, discard_passwd_cb, redraw_screen}
use i3lock.Ui.Auth.{clear_auth_wrong}
use i3lock.Ui.Events.{handle_pam_event}
use i3lock.App.{App, XEvent, runs, with_ui, with_result}
use i3lock.App.Events.{handle_x_event}

-- The steps of `World` without the API calls and without the handler of an event, which are the UI's.
abbrev pub in_background : {s t : World} → Step s t → Bool
in_background (call w f) = false
in_background (handle w e rest i) = false
in_background _ = true

-- The steps of the worker.
abbrev pub by_worker : {s t : World} → Step s t → Bool
by_worker (call w f) = false
by_worker (handle w e rest i) = false
by_worker (empty_pipe w d i) = false
by_worker (snapshot w d) = false
by_worker _ = true

-- The loop is between two callbacks.
pub record Waits (a : App) : Type 0 where
  pub goes_on : a.ended ≡ false
  pub drained : a.world.inbox ≡ []
  pub unread : a.world.draining ≡ false

unfoldable pub on_pam_event : Bool → Event → List Event → App → App
unfolding handle_pam_event with_result
on_pam_event calloc_ok e rest a =
    with_result (record a { world = record (a.world) { inbox = rest } })
      (handle_pam_event calloc_ok e a.ui a.world.ctrl)

unfoldable pub on_wrong_timer : App → App
unfolding clear_auth_wrong with_result
on_wrong_timer a = with_result a (clear_auth_wrong a.ui a.world.ctrl)

-- Behind `ev_loop`, up to the join in `pam_controller_cleanup`.
unfoldable pub leave_loop : App → App
unfolding request_join
leave_loop a = record a {
  world = record (a.world) { ctrl = request_join a.world.ctrl };
  ended = true;
}

-- Behind the join.
unfoldable pub join_worker : App → App
unfolding after_join
join_worker a =
    let p = after_join (record {
      ctrl = a.world.ctrl;
      flags = a.flags;
      held = a.held;
      sigpipe_ignored = a.sigpipe_ignored;
    }) in
    record a {
      world = record (a.world) { ctrl = p.ctrl };
      flags = p.flags;
      held = p.held;
      sigpipe_ignored = p.sigpipe_ignored;
      over = true;
    }

-- `update_mask` and `screen_change` are as in `handle_x_event`.
module _ (update_mask : ℕ → List ℕ → ℕ) (screen_change : ℕ) where
  pub data AppStep : App → App → Type 0 where
    background :
        (a : App) {w : World} (st : Step a.world w)
        → a.ended ≡ false
        → a.pam_watcher ≡ true
        → in_background st ≡ true
        → AppStep a (record a { world = w })
    x_arrives :
        (calloc_ok : Bool) (e : XEvent) (a b : App)
        → Waits a
        → handle_x_event update_mask screen_change calloc_ok e a ≡ runs b
        → AppStep a b
    pam_arrives :
        (calloc_ok : Bool) (e : Event) (rest : List Event) (a : App)
        → a.ended ≡ false
        → a.world.inbox ≡ e ∷ rest
        → AppStep a (on_pam_event calloc_ok e rest a)
    wrong_timer :
        (a : App) (timeout : ℕ)
        → Waits a
        → a.ui.clear_auth_wrong_timeout ≡ some timeout
        → AppStep a (on_wrong_timer a)
    indicator_timer :
        (a : App) (timeout : ℕ)
        → Waits a
        → a.ui.clear_indicator_timeout ≡ some timeout
        → AppStep a (with_ui clear_indicator_cb a)
    password_timer :
        (a : App) (timeout : ℕ)
        → Waits a
        → a.ui.discard_passwd_timeout ≡ some timeout
        → AppStep a (with_ui discard_passwd_cb a)
    redraw_timer : (a : App) → Waits a → AppStep a (with_ui redraw_screen a)
    leaves : (a : App) → Waits a → a.ui.unlocked ≡ true → AppStep a (leave_loop a)
    -- The worker goes on while `main` waits for it.
    works :
        (a : App) {w : World} (st : Step a.world w)
        → a.ended ≡ true
        → a.over ≡ false
        → a.world.ctrl.initialised ≡ true
        → by_worker st ≡ true
        → AppStep a (record a { world = w })
    -- The join is over when the worker is, or if there is none.
    joins :
        (a : App)
        → a.ended ≡ true
        → a.over ≡ false
        → (a.world.ctrl.initialised ≡ false) ⊎ (a.world.worker ≡ exited)
        → AppStep a (join_worker a)

  pub data AppReach (s : App) : App → Type 0 where
    at_start : AppReach s s
    and_then : {t u : App} → AppReach s t → AppStep t u → AppReach s u

-- The event loop's start: nothing is unlocked, and the controller is all zeros, with a pipe of the given
-- capacity to come.
pub record Started (pipe_capacity : ℕ) (a : App) : Type 0 where
  pub world : a.world ≡ record (fresh_world pipe_capacity) { ctrl = zero_ctrl pipe_capacity }
  pub locked : a.ui.unlocked ≡ false
  pub off : a.ui.controller_started ≡ false
  pub no_transaction : a.ui.active_pam_transaction_id ≡ 0
  pub no_prompt : a.ui.pam_waiting_for_prompt ≡ false
  pub no_failure : a.ui.failed_attempts ≡ 0
  pub watcher : a.pam_watcher ≡ false
  pub running : a.ended ≡ false
