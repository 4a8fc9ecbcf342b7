-- ===== src/App/Unlock.antt =====
-- The whole program's runs: what has happened when the screen is unlocked.
use i3lock.Prelude.{ℕ, ◌≤◌, ◌≡◌, refl, ◌⊎◌, inl, inr, List, true, false}
use i3lock.Controller.Handover.{zeros}
use i3lock.World.{World, next, Step}
use i3lock.World.Calls.{Step-In}
use i3lock.World.Fresh.{idle_controller_is_wiped}
use i3lock.Ui.{
  Ui, redraw_screen, clear_input, clear_pam_visible_input, terminate, clear_password_memory,
  clear_indicator, clear_indicator_cb, discard_passwd_cb,
}
use i3lock.Ui.Auth.{clear_auth_wrong}
use i3lock.Ui.Effects.{core, clear_auth_wrong-Kept, bool_clash}
use i3lock.App.{App}
use i3lock.App.Run.{
  on_wrong_timer, leave_loop, join_worker, AppStep, background, x_arrives, pam_arrives, wrong_timer,
  indicator_timer, password_timer, redraw_timer, leaves, works, joins, AppReach, at_start, and_then,
  Started,
}
use i3lock.App.Refine.{
  Invariant, Asleep, Awake, Granted, start-Invariant, ui-Invariant, Kept-Invariant,
}
use i3lock.App.Handlers.{x_event-Keeps}
use i3lock.App.PamEvents.{pam-Invariant}

background-Invariant :
    (n : ℕ) (a : App) {w : World} (st : Step a.world w)
    → a.ended ≡ false
    → a.pam_watcher ≡ true
    → Invariant n a
    → Invariant n (record a { world = w })
background-Invariant n a {w = w} st going watched i = record {
  behaves = λ _. go (i.behaves going);
  paid = λ h. let (txn, granted) = i.paid h in (txn, Step-In txn st granted);
  closes = i.closes;
  bounded = i.bounded;
}
  where
    go :
        Asleep n a ⊎ Awake n a
        → Asleep n (record a { world = w }) ⊎ Awake n (record a { world = w })
    go (inl s) = absurd (bool_clash s.unwatched watched)
    go (inr k) = inr (record { on = k.on; run = next k.run st })

leave-Invariant :
    (n : ℕ) (a : App) → a.ui.unlocked ≡ true → Invariant n a → Invariant n (leave_loop a)
unfolding leave_loop
leave-Invariant n a opened i = record {
  behaves = λ h. absurd (bool_clash h refl);
  paid = i.paid;
  closes = λ _. opened;
  bounded = i.bounded;
}

-- The steps of the worker that `main` waits for.
works-Invariant :
    (n : ℕ) (a : App) {w : World} (st : Step a.world w)
    → a.ended ≡ true
    → Invariant n a
    → Invariant n (record a { world = w })
works-Invariant n a st ended i = record {
  behaves = λ h. absurd (bool_clash h ended);
  paid = λ h. let (txn, granted) = i.paid h in (txn, Step-In txn st granted);
  closes = i.closes;
  bounded = i.bounded;
}

joins-Invariant : (n : ℕ) (a : App) → a.ended ≡ true → Invariant n a → Invariant n (join_worker a)
unfolding join_worker
joins-Invariant n a ended i = record {
  behaves = λ h. absurd (bool_clash h ended);
  paid = i.paid;
  closes = i.closes;
  bounded = i.bounded;
}

indicator-core : (u : Ui) → core (clear_indicator_cb u) ≡ core u
unfolding clear_indicator_cb clear_indicator redraw_screen
indicator-core u = refl

password-core : (u : Ui) → core (discard_passwd_cb u) ≡ core u
unfolding discard_passwd_cb clear_input clear_pam_visible_input terminate clear_password_memory
password-core u = refl

redraw-core : (u : Ui) → core (redraw_screen u) ≡ core u
unfolding redraw_screen
redraw-core u = refl

module _ (update_mask : ℕ → List ℕ → ℕ) (screen_change : ℕ) where
  AppStep-Invariant :
      (n : ℕ) {a b : App} → AppStep update_mask screen_change a b → Invariant n a → Invariant n b
  unfolding on_wrong_timer
  AppStep-Invariant n (background a st going watched silent) i =
      background-Invariant n a st going watched i
  AppStep-Invariant n (x_arrives calloc_ok e a b waiting ran) i =
      rw ran at (x_event-Keeps update_mask screen_change n calloc_ok e a waiting.goes_on i)
  AppStep-Invariant n (pam_arrives calloc_ok e rest a going at) i =
      pam-Invariant n calloc_ok e rest a going at i
  AppStep-Invariant n (wrong_timer a timeout waiting set) i =
      Kept-Invariant n a (clear_auth_wrong a.ui a.world.ctrl)
        (clear_auth_wrong-Kept a.ui a.world.ctrl) i
  AppStep-Invariant n (indicator_timer a timeout waiting set) i =
      ui-Invariant n a clear_indicator_cb (indicator-core a.ui) i
  AppStep-Invariant n (password_timer a timeout waiting set) i =
      ui-Invariant n a discard_passwd_cb (password-core a.ui) i
  AppStep-Invariant n (redraw_timer a waiting) i =
      ui-Invariant n a redraw_screen (redraw-core a.ui) i
  AppStep-Invariant n (leaves a waiting opened) i = leave-Invariant n a opened i
  AppStep-Invariant n (works a st ended unfinished on own) i = works-Invariant n a st ended i
  AppStep-Invariant n (joins a ended unfinished done) i = joins-Invariant n a ended i

  AppReach-Invariant :
      (n : ℕ) {s a : App} → Started n s → AppReach update_mask screen_change s a → Invariant n a
  AppReach-Invariant n {s = s} start at_start = start-Invariant n s start
  AppReach-Invariant n start (and_then r st) = AppStep-Invariant n st (AppReach-Invariant n start r)

  -- In every state that the program reaches from the start of its event loop, with any X events, any
  -- behaviour of PAM and any interleaving of its two threads: if the screen is unlocked, or `main` is
  -- behind the loop, then `pam_authenticate` has returned PAM_SUCCESS.
  pub unlocked_after_pam_success :
      (pipe_capacity : ℕ) {s a : App}
      → Started pipe_capacity s
      → AppReach update_mask screen_change s a
      → (a.ui.unlocked ≡ true) ⊎ (a.ended ≡ true)
      → Granted a.world
  unlocked_after_pam_success n start r (inl opened) = (AppReach-Invariant n start r).paid opened
  unlocked_after_pam_success n start r (inr over) =
      let i = AppReach-Invariant n start r in i.paid (i.closes over)

  -- In every state that the program reaches while its event loop goes on: either the controller is not
  -- started and still all zeros, with no transaction in the UI, or what the program did to it is a run of
  -- the controller's two threads from its start.
  pub program_runs_threads :
      (pipe_capacity : ℕ) {s a : App}
      → Started pipe_capacity s
      → AppReach update_mask screen_change s a
      → a.ended ≡ false
      → Asleep pipe_capacity a ⊎ Awake pipe_capacity a
  program_runs_threads n start r going = (AppReach-Invariant n start r).behaves going

  -- In every state that the program reaches, the count of failed attempts is at most 999.
  pub failures_bounded :
      (pipe_capacity : ℕ) {s a : App}
      → Started pipe_capacity s
      → AppReach update_mask screen_change s a
      → a.ui.failed_attempts ≤ 999
  failures_bounded n start r = (AppReach-Invariant n start r).bounded

  -- In every state that the program reaches while its event loop goes on, if no attempt is requested or
  -- in progress then both credential buffers of the controller hold nothing but zeros.
  pub quiet_program_is_wiped :
      (pipe_capacity : ℕ) {s a : App}
      → Started pipe_capacity s
      → AppReach update_mask screen_change s a
      → a.ended ≡ false
      → a.world.ctrl.auth_requested ≡ false
      → a.world.ctrl.auth_in_progress ≡ false
      → (a.world.ctrl.deferred_input ≡ zeros) × (a.world.ctrl.pending_response ≡ zeros)
  quiet_program_is_wiped n start r going quiet done = elim (program_runs_threads n start r going) [
    | inl asleep ↦ rw asleep.untouched (refl, refl)
    | inr k ↦ idle_controller_is_wiped n k.run quiet done
  ]
