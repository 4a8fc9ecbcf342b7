-- ===== src/App/Bounds.antt =====
-- The whole program's runs, for the accesses outside its arrays.
use i3lock.Prelude.{ℕ, List, Bool}
use i3lock.Ui.{redraw_screen}
use i3lock.Ui.Buffer.{clear_auth_wrong-Sound, handle_pam_event-Sound, timers-Sound}
use i3lock.App.{App, XEvent, with_ui, with_result}
use i3lock.App.Events.{handle_x_event}
use i3lock.Drawing.{indicator_areas}
use i3lock.App.Drawn.{IsThere, areas-IsThere}
use i3lock.App.Run.{
  on_pam_event, on_wrong_timer, leave_loop, join_worker, AppStep, background, x_arrives,
  pam_arrives, wrong_timer, indicator_timer, password_timer, redraw_timer, leaves, works, joins,
  AppReach, at_start, and_then,
}
use i3lock.App.Safety.{SafeApp, SafeOutcome}
use i3lock.App.EventSafety.{FitsEvent, x_event-Safe}

module _ (update_mask : ℕ → List ℕ → ℕ) (screen_change : ℕ) where
  -- The X event of a step, if it is one, fits.
  abbrev pub FitsStep : {a b : App} → AppStep update_mask screen_change a b → Type 0
  FitsStep (x_arrives calloc_ok e a b waiting ran) = FitsEvent e
  FitsStep _ = Unit {0}

  -- All key presses of a run fit.
  abbrev pub FitsRun : {a b : App} → AppReach update_mask screen_change a b → Type 0
  FitsRun at_start = Unit {0}
  FitsRun (and_then r st) = FitsRun r × FitsStep st

  AppStep-Safe :
      {a b : App} (st : AppStep update_mask screen_change a b) → FitsStep st → SafeApp a → SafeApp b
  unfolding on_pam_event on_wrong_timer leave_loop join_worker with_ui with_result redraw_screen
  AppStep-Safe (background a st going watched silent) fit s = record {
    buffer = s.buffer;
    randr = s.randr;
    quiet = s.quiet;
    there = s.there;
  }
  AppStep-Safe (x_arrives calloc_ok e a b waiting ran) fit s =
      rw ran at (x_event-Safe update_mask screen_change calloc_ok e a fit s)
  AppStep-Safe (pam_arrives calloc_ok e rest a going at) fit s = record {
    buffer = handle_pam_event-Sound calloc_ok e a.ui a.world.ctrl s.buffer;
    randr = s.randr;
    quiet = s.quiet;
    there = s.there;
  }
  AppStep-Safe (wrong_timer a timeout waiting set) fit s = record {
    buffer = clear_auth_wrong-Sound a.ui a.world.ctrl s.buffer;
    randr = s.randr;
    quiet = s.quiet;
    there = s.there;
  }
  AppStep-Safe (indicator_timer a timeout waiting set) fit s = record {
    buffer = (timers-Sound a.ui s.buffer).0;
    randr = s.randr;
    quiet = s.quiet;
    there = s.there;
  }
  AppStep-Safe (password_timer a timeout waiting set) fit s = record {
    buffer = (timers-Sound a.ui s.buffer).1;
    randr = s.randr;
    quiet = s.quiet;
    there = s.there;
  }
  AppStep-Safe (redraw_timer a waiting) fit s = record {
    buffer = s.buffer;
    randr = s.randr;
    quiet = s.quiet;
    there = s.there;
  }
  AppStep-Safe (leaves a waiting opened) fit s = record {
    buffer = s.buffer;
    randr = s.randr;
    quiet = s.quiet;
    there = s.there;
  }
  AppStep-Safe (works a st ended unfinished on own) fit s = record {
    buffer = s.buffer;
    randr = s.randr;
    quiet = s.quiet;
    there = s.there;
  }
  AppStep-Safe (joins a ended unfinished done) fit s = record {
    buffer = s.buffer;
    randr = s.randr;
    quiet = s.quiet;
    there = s.there;
  }

  pub AppReach-Safe :
      {s a : App} (r : AppReach update_mask screen_change s a) → FitsRun r → SafeApp s → SafeApp a
  AppReach-Safe at_start fit s = s
  AppReach-Safe (and_then r st) fit s = AppStep-Safe st fit.1 (AppReach-Safe r fit.0 s)

  -- From a sound password buffer, with RandR and with the area of each counted monitor in the array: in
  -- every state that the program reaches by key presses whose texts have at most eight bytes and begin with a
  -- character, and by any other events, each area that a redraw reads is in the array and was written; and the
  -- next X event that fits makes no access outside the password buffer, the key's buffer or the array of
  -- monitors, the reads of its redraws among them.
  pub program_stays_in_bounds :
      (calloc_ok : Bool) (e : XEvent) {s a : App}
      → SafeApp s
      → (r : AppReach update_mask screen_change s a) → FitsRun r
      → FitsEvent e
      → IsThere (indicator_areas a.last_resolution a.monitors a.ui)
        × SafeOutcome (handle_x_event update_mask screen_change calloc_ok e a)
  program_stays_in_bounds calloc_ok e {a = a} safe r fits fit =
      let reached = AppReach-Safe r fits safe in
      (
        areas-IsThere a.last_resolution a.monitors a.ui reached.there,
        x_event-Safe update_mask screen_change calloc_ok e a fit reached,
      )
