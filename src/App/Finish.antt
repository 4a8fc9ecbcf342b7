-- ===== src/App/Finish.antt =====
-- The end of the program behind a success event of PAM.
use i3lock.Prelude.{ℕ, ◌≡◌, refl, ◌∙◌, List, [], ◌∷◌, Bool, true, false, ◌==◌, if◌then◌else◌}
use i3lock.Pam.{EventType, Event, ready, status, prompt, success, failure, cancelled, fatal}
use i3lock.Controller.{Ctrl}
use i3lock.Ui.{
  Ui, redraw_screen, clear_input, clear_pam_visible_input, terminate, clear_password_memory,
  clear_pam_display_text,
}
use i3lock.Ui.Events.{
  handle_pam_event, on_event, show_status, show_prompt, unlock, fail_attempt, drop_attempt,
  lock_forever, forget_transaction, show_verdict,
}
use i3lock.Ui.Unlock.{show_verdict-unlocked, auth_failed-unlocked, unlocks_iff}
use i3lock.App.{App, with_result}
use i3lock.App.Join.{left-GetsOver}
use i3lock.App.Run.{on_pam_event, pam_arrives, leaves, AppReach, at_start, and_then}

-- No event locks the screen again.
on_event-unlocked :
    (calloc_ok : Bool) (type : EventType) (e : Event) (u : Ui)
    → u.unlocked ≡ true
    → (on_event calloc_ok type e u).unlocked ≡ true
unfolding on_event show_status show_prompt unlock fail_attempt drop_attempt lock_forever
    redraw_screen clear_input clear_pam_visible_input terminate clear_password_memory
    clear_pam_display_text forget_transaction
on_event-unlocked calloc_ok ready e u h = h
on_event-unlocked calloc_ok status e u h = h
on_event-unlocked calloc_ok prompt e u h = h
on_event-unlocked calloc_ok success e u h = refl
on_event-unlocked calloc_ok failure e u h =
    auth_failed-unlocked calloc_ok (show_verdict e true (forget_transaction u))
    ∙ (show_verdict-unlocked e true (forget_transaction u) ∙ h)
on_event-unlocked calloc_ok cancelled e u h = h
on_event-unlocked calloc_ok fatal e u h =
    show_verdict-unlocked e false (record (forget_transaction u) { pam_auth_fatal = true }) ∙ h

handle-unlocked :
    (calloc_ok : Bool) (e : Event) (u : Ui) (c : Ctrl)
    → u.unlocked ≡ true
    → (handle_pam_event calloc_ok e u c).0.unlocked ≡ true
unfolding handle_pam_event
handle-unlocked calloc_ok e u c h = go (e.transaction_id == u.active_pam_transaction_id)
  where
    go : (b : Bool) → (if b then on_event calloc_ok e.type e u else u).unlocked ≡ true
    go true = on_event-unlocked calloc_ok e.type e u h
    go false = h

module _ (update_mask : ℕ → List ℕ → ℕ) (screen_change : ℕ) where
  -- With the screen unlocked, the events that are left are handled, the loop is left and the worker stops.
  drains :
      (a b : App) (events : List Event)
      → AppReach update_mask screen_change a b
      → b.ended ≡ false
      → b.over ≡ false
      → b.world.draining ≡ false
      → b.world.inbox ≡ events
      → b.ui.unlocked ≡ true
      → (c : App) × AppReach update_mask screen_change a c × (c.over ≡ true)
  unfolding on_pam_event with_result
  drains a b [] r going unfinished quiet left opened =
      left-GetsOver update_mask screen_change a b unfinished
        (and_then r (leaves b (record { goes_on = going; drained = left; unread = quiet }) opened))
  drains a b (e ∷ rest) r going unfinished quiet left opened =
      drains a (on_pam_event true e rest b) rest (and_then r (pam_arrives true e rest b going left))
        going unfinished quiet refl (handle-unlocked true e b.ui b.world.ctrl opened)

  -- While the event loop goes on and the screen is locked, with a success event of the active transaction as the
  -- next one of those that were taken from the queue: whatever the other ones are, and wherever the worker
  -- stands, the program can reach its end, with the clean-up of the controller behind the join of the worker
  -- done.
  pub success_event_ends :
      (a : App) (e : Event) (rest : List Event)
      → a.ended ≡ false
      → a.over ≡ false
      → a.world.draining ≡ false
      → a.world.inbox ≡ e ∷ rest
      → a.ui.unlocked ≡ false
      → e.type ≡ success
      → e.transaction_id ≡ a.ui.active_pam_transaction_id
      → (c : App) × AppReach update_mask screen_change a c × (c.over ≡ true)
  unfolding on_pam_event with_result
  success_event_ends a e rest going unfinished quiet next locked won own =
      drains a (on_pam_event true e rest a) rest
        (and_then at_start (pam_arrives true e rest a going next)) going unfinished quiet refl
        ((unlocks_iff true e a.ui a.world.ctrl locked).1 (won, own))
