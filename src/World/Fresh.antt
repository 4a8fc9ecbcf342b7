-- ===== src/World/Fresh.antt =====
-- The runs of the two threads from the start of the controller.
use i3lock.Prelude.{
  ℕ, ◌≡◌, ◌<◌, ◌⊎◌, refl, List, inl, inr, Bool-cases, [], true, false, length, replicate,
  length-replicate, arith,
}
use i3lock.Queue.Delivery.{IsValid, pending}
use i3lock.Controller.{Ctrl, secure_buffer_size, start_auth, is_busy}
use i3lock.Controller.Lifecycle.{zero_ctrl}
use i3lock.Controller.Handover.{zeros}
use i3lock.World.{World, booting, Reach}
use i3lock.World.Secrets.{Secrets, is_active}
use i3lock.World.Secrets.Rest.{Reach-Secrets, idle_holds_no_secret}
use i3lock.World.Delivery.{Delivers, no_lost_wakeup}
use i3lock.World.Provenance.{Provenance}

-- The controller as `pam_controller_init` leaves it, with a pipe of the given capacity, before either
-- thread does anything.
abbrev pub fresh_world : ℕ → World
fresh_world pipe_capacity = record {
  ctrl = record (zero_ctrl pipe_capacity) {
    initialised = true;
    next_transaction_id = 1;
    next_prompt_id = 1;
  };
  worker = booting;
  inbox = [];
  draining = false;
  granted = [];
}

fresh-IsValid : (n : ℕ) → IsValid (fresh_world n).ctrl.channel
unfolding replicate
fresh-IsValid n = record { slots = refl; counted = refl; fits = omega arith }

pub fresh-Provenance : (n : ℕ) → Provenance (fresh_world n)
fresh-Provenance n = record {
  honest = record { ordered = fresh-IsValid n; earned = tt };
  drained = tt;
  told = tt;
}

fresh-Delivers : (n : ℕ) → 0 < n → Delivers false (fresh_world n).ctrl.channel
fresh-Delivers n h = record {
  ordered = fresh-IsValid n;
  capacity = h;
  woken = λ d k. absurd (omega (arith, k));
}

fresh-Secrets : (n : ℕ) → Secrets (fresh_world n).ctrl booting
fresh-Secrets n = record {
  deferred_size = length-replicate secure_buffer_size 0;
  pending_size = length-replicate secure_buffer_size 0;
  deferred_clean = λ h. refl;
  pending_clean = λ h. refl;
  staged = λ h. ground arith;
  asked = λ h. ground arith;
  busy = λ h. ground arith;
  closed = λ h. ground arith;
}

-- In every state that the two threads reach from the start, if no attempt is requested or in progress
-- then both credential buffers hold nothing but zeros.
pub idle_controller_is_wiped :
    {t : World} (pipe_capacity : ℕ)
    → Reach (fresh_world pipe_capacity) t
    → t.ctrl.auth_requested ≡ false
    → t.ctrl.auth_in_progress ≡ false
    → (t.ctrl.deferred_input ≡ zeros) × (t.ctrl.pending_response ≡ zeros)
idle_controller_is_wiped n r quiet done = idle_holds_no_secret (fresh-Secrets n) r quiet done

refused_in_attempt :
    (password : List ℕ) (c : Ctrl) → c.auth_in_progress ≡ true → start_auth password c ≡ (0, c)
unfolding start_auth is_busy
refused_in_attempt password c runs = elim (Bool-cases c.auth_requested) [
  | inl asked ↦ rw (asked, start_auth) (ground (arith, c.initialised))
  | inr quiet ↦ rw (quiet, runs, start_auth) (ground (arith, c.initialised))
]

-- In every state that the two threads reach from the start, whatever the main thread cancelled or acknowledged:
-- while the worker has an attempt under way, in PAM, in the wait for an answer or behind PAM up to the terminal
-- event, a further attempt is refused and changes nothing.
pub one_attempt_at_a_time :
    {t : World} (pipe_capacity : ℕ) (password : List ℕ)
    → Reach (fresh_world pipe_capacity) t
    → is_active t.worker ≡ true
    → start_auth password t.ctrl ≡ (0, t.ctrl)
one_attempt_at_a_time {t = t} n password r active =
    refused_in_attempt password t.ctrl ((Reach-Secrets (fresh-Secrets n) r).busy active)

-- In every state that the two threads reach from the start, with a pipe that holds a byte at least, while
-- an event waits either the pipe has a byte to read, or the main thread has emptied it and is about to
-- take the events.
pub waiting_event_wakes :
    {t : World} (pipe_capacity : ℕ)
    → 0 < pipe_capacity
    → Reach (fresh_world pipe_capacity) t
    → 0 < length (pending t.ctrl.channel)
    → (t.draining ≡ true) ⊎ (0 < t.ctrl.channel.pipe_bytes)
waiting_event_wakes n h r some_wait = no_lost_wakeup (fresh-Delivers n h) r some_wait
