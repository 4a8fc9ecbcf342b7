-- ===== src/Controller/Cycle.antt =====
-- From attempt to attempt: when the controller is busy, and how the main thread frees it again.
use i3lock.Prelude.{ℕ, ◌≡◌, true, false, not, ◌&&◌, ◌||◌, arith, Bool-cases, inl, inr}
use i3lock.Pam.{PamCode}
use i3lock.Controller.{
  Ctrl, is_busy, ack_terminal, release_terminal, wipe_deferred, wipe_pending, stop_waiting, post,
}
use i3lock.Controller.Worker.{finish_attempt, is_abort}

-- After an attempt, the acknowledgement of its terminal event frees the controller for the next one,
-- unless PAM aborted, now or earlier, or the controller is shutting down; and without the
-- acknowledgement it stays busy.
pub acknowledged_restarts :
    (ret : PamCode) (txn : ℕ) (c : Ctrl)
    → c.initialised ≡ true
    → c.auth_requested ≡ false
    → let ended = finish_attempt ret txn c in
      (is_busy ended ≡ true)
      × (is_busy (ack_terminal txn ended) ≡ (
          c.shutdown_requested
          || (c.fatal_error || (is_abort ret && not c.cancellation_requested))))
unfolding is_busy ack_terminal release_terminal finish_attempt wipe_deferred wipe_pending
    stop_waiting post
acknowledged_restarts ret txn c ready none_asked = elim (Bool-cases c.cancellation_requested) [
  | inl stopped ↦ ground (arith, stopped)
  | inr runs ↦ ground (arith, runs)
]
