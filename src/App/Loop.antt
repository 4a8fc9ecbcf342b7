-- ===== src/App/Loop.antt =====
-- `xcb_check_cb` and the runs of the whole program.
use i3lock.Prelude.{ℕ, refl, ◌∙◌, List, arith}
use i3lock.Ui.{
  redraw_screen, clear_indicator, clear_indicator_cb, discard_passwd_cb, clear_input,
  clear_pam_visible_input, terminate, clear_password_memory,
}
use i3lock.Ui.Auth.{clear_auth_wrong}
use i3lock.Ui.Effects.{clear_auth_wrong-Kept}
use i3lock.App.{App, with_ui, with_result}
use i3lock.App.Run.{
  on_pam_event, on_wrong_timer, leave_loop, join_worker, AppStep, background, x_arrives,
  pam_arrives, wrong_timer, indicator_timer, password_timer, redraw_timer, leaves, works, joins,
  AppReach, at_start, and_then,
}
use i3lock.App.Once.{Once, Once-refl, Once-trans, result-Frame, x_event-FrameAll}
use i3lock.App.PamEvents.{pam-Counts}

module _ (update_mask : ℕ → List ℕ → ℕ) (screen_change : ℕ) where
  AppStep-Once : {a b : App} → AppStep update_mask screen_change a b → Once a b
  unfolding on_pam_event on_wrong_timer leave_loop join_worker with_ui with_result redraw_screen
      clear_indicator_cb discard_passwd_cb clear_input clear_indicator clear_pam_visible_input
      terminate clear_password_memory
  AppStep-Once (background a st going watched silent) = record {
    fork = refl;
    close = omega arith;
    start = λ on. (on, refl);
  }
  AppStep-Once (x_arrives calloc_ok e a b waiting ran) =
      (rw ran at (x_event-FrameAll update_mask screen_change calloc_ok e a)).once
  AppStep-Once (pam_arrives calloc_ok e rest a going at) = record {
    fork = refl;
    close = omega arith;
    start = λ on. ((pam-Counts calloc_ok e a.ui a.world.ctrl).0 ∙ on, refl);
  }
  AppStep-Once (wrong_timer a timeout waiting set) =
      (result-Frame a (clear_auth_wrong a.ui a.world.ctrl)
        (clear_auth_wrong-Kept a.ui a.world.ctrl).start).once
  AppStep-Once (indicator_timer a timeout waiting set) = record {
    fork = refl;
    close = omega arith;
    start = λ on. (on, refl);
  }
  AppStep-Once (password_timer a timeout waiting set) = record {
    fork = refl;
    close = omega arith;
    start = λ on. (on, refl);
  }
  AppStep-Once (redraw_timer a waiting) = record {
    fork = refl;
    close = omega arith;
    start = λ on. (on, refl);
  }
  AppStep-Once (leaves a waiting opened) = record {
    fork = refl;
    close = omega arith;
    start = λ on. (on, refl);
  }
  AppStep-Once (works a st ended unfinished on own) = record {
    fork = refl;
    close = omega arith;
    start = λ on. (on, refl);
  }
  AppStep-Once (joins a ended unfinished done) = record {
    fork = refl;
    close = omega arith;
    start = λ on. (on, refl);
  }

  -- Over any run of the program: the event loop forks at most once, just if it was to fork and now is
  -- not any more; it closes at most one descriptor for the sleep lock; and a controller that was started
  -- is never started again.
  pub forks_and_starts-Once : {a b : App} → AppReach update_mask screen_change a b → Once a b
  forks_and_starts-Once {a = a} at_start = Once-refl a
  forks_and_starts-Once {a = a} {b = c} (and_then {t = b} r st) =
      Once-trans a b c (forks_and_starts-Once r) (AppStep-Once st)
