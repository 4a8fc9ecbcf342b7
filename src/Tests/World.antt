-- ===== src/Tests/World.antt =====
-- Tests of the two threads' runs.
use i3lock.Prelude.{◌≡◌, ◌<◌, ◌⊎◌, refl, [], ◌∷◌, true, replicate, arith}
use i3lock.Pam.{Event, PamCode, pam_success, success}
use i3lock.Queue.{post_event_locked, append_event, wake}
use i3lock.Controller.{start_auth, is_busy}
use i3lock.Controller.Worker.{worker_ready, begin_attempt, finish_attempt}
use i3lock.World.{
  idle, boots, World, in_pam, returned, acking, apply, starts, cancels, attempt_result, grant, call,
  begin, pam_returns, finish, Reach, here, next,
}
use i3lock.World.Fresh.{fresh_world, waiting_event_wakes, one_attempt_at_a_time}
use i3lock.Tests.{fresh_ctrl, pw}

-- The worker posts its first event.
abbrev booted : World
booted = record (fresh_world 65536) { ctrl = worker_ready fresh_ctrl; worker = idle }

-- An attempt is asked for, begun, granted by PAM and finished.
abbrev asked : World
asked = record booted { ctrl = apply (starts pw) booted.ctrl }

abbrev begun : World
begun = record asked { ctrl = begin_attempt asked.ctrl; worker = in_pam 1 }

abbrev granted_world : World
granted_world = record begun { worker = returned 1 pam_success; granted = 1 ∷ [] }

abbrev finished : World
finished = record granted_world {
  ctrl = finish_attempt pam_success 1 granted_world.ctrl;
  worker = acking;
}

reaches_finished : Reach (fresh_world 65536) finished
unfolding apply attempt_result grant start_auth is_busy i3lock.Pam.is_success worker_ready
reaches_finished =
    next
      (next
        (next (next (next here (boots (fresh_world 65536) refl)) (call booted (starts pw)))
          (begin asked refl refl refl))
        (pam_returns begun 1 refl pam_success pam_success))
      (finish granted_world 1 pam_success refl)

waiting_event_wakes_example : (finished.draining ≡ true) ⊎ (0 < finished.ctrl.channel.pipe_bytes)
unfolding finish_attempt apply start_auth is_busy begin_attempt worker_ready i3lock.Controller.post
    post_event_locked wake append_event replicate
waiting_event_wakes_example = waiting_event_wakes 65536 (omega arith) reaches_finished (omega arith)

-- The user cancels the attempt while PAM runs.
abbrev called_off : World
called_off = record begun { ctrl = apply (cancels 1) begun.ctrl }

reaches_called_off : Reach (fresh_world 65536) called_off
unfolding apply start_auth is_busy worker_ready
reaches_called_off =
    next
      (next (next (next here (boots (fresh_world 65536) refl)) (call booted (starts pw)))
        (begin asked refl refl refl))
      (call begun (cancels 1))

one_attempt_at_a_time_example : start_auth pw called_off.ctrl ≡ (0, called_off.ctrl)
one_attempt_at_a_time_example = one_attempt_at_a_time 65536 pw reaches_called_off refl
