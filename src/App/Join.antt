-- ===== src/App/Join.antt =====
-- The end of the program behind its event loop: the worker of pam_controller.c stops, wherever it stands when
-- the shutdown is requested, and `pthread_join` returns.
use i3lock.Prelude.{
  ℕ, ◌≡◌, refl, ◌∙◌, inl, inr, List, Bool, true, false, if◌then◌else◌, Bool-cases, none, arith,
}
use i3lock.Pam.{PamCode, pam_success, pam_conv_err, Message, Response}
use i3lock.Controller.{Ctrl, wipe_deferred, wipe_pending, stop_waiting, post, request_shutdown}
use i3lock.Controller.Conversation.{returns, on_wake, resume, wait_is_over}
use i3lock.Controller.Worker.{worker_ready, finish_attempt, ack_wait_is_over, after_ack}
use i3lock.Controller.Lifecycle.{request_join}
use i3lock.World.{
  World, Pc, booting, idle, in_pam, waiting, returned, acking, exited, settle, attempt_result,
  boots, leave, resumes, pam_returns, finish, proceed,
}
use i3lock.App.{App}
use i3lock.App.Run.{leave_loop, join_worker, AppReach, and_then, works, joins}

-- `main` waits for a worker that is asked to stop.
record Joining (a : App) : Type 0 where
  ended : a.ended ≡ true
  unfinished : a.over ≡ false
  on : a.world.ctrl.initialised ≡ true
  asked : a.world.ctrl.shutdown_requested ≡ true

-- The flags that the worker leaves alone.
abbrev SameFlags : Ctrl → Ctrl → Type 0
SameFlags c d = (d.initialised ≡ c.initialised) × (d.shutdown_requested ≡ c.shutdown_requested)

ready-SameFlags : (c : Ctrl) → SameFlags c (worker_ready c)
unfolding worker_ready post
ready-SameFlags c = (refl, refl)

finish-SameFlags : (ret : PamCode) (txn : ℕ) (c : Ctrl) → SameFlags c (finish_attempt ret txn c)
unfolding finish_attempt wipe_deferred wipe_pending stop_waiting post
finish-SameFlags ret txn c = elim (Bool-cases c.cancellation_requested) [
  | inl called_off ↦ rw (called_off, finish_attempt) (refl, refl)
  | inr held ↦ rw (held, finish_attempt) (refl, refl)
]

-- Under a shutdown the wait for an answer fails.
resume_fails :
    (strdup_ok : ℕ → Bool) (ms : List Message) (replies : List Response) (c : Ctrl)
    → c.shutdown_requested ≡ true
    → resume strdup_ok ms replies c ≡ returns pam_conv_err none (wipe_pending (stop_waiting c))
unfolding resume on_wake
resume_fails strdup_ok ms replies c asked = rw (asked, resume) refl

moved :
    (a : App) (w : World)
    → Joining a
    → SameFlags a.world.ctrl w.ctrl
    → Joining (record a { world = w })
moved a w j same = record {
  ended = j.ended;
  unfinished = j.unfinished;
  on = same.0 ∙ j.on;
  asked = same.1 ∙ j.asked;
}

module _ (update_mask : ℕ → List ℕ → ℕ) (screen_change : ℕ) where
  abbrev pub Reaches : App → App → Type 0
  Reaches = AppReach update_mask screen_change

  -- The program gets to its end.
  abbrev pub GetsOver : App → Type 0
  GetsOver s = (c : App) × Reaches s c × (c.over ≡ true)

  from_exited : (s a : App) → Reaches s a → Joining a → a.world.worker ≡ exited → GetsOver s
  unfolding join_worker
  from_exited s a r j at = (join_worker a, and_then r (joins a j.ended j.unfinished (inr at)), refl)

  from_idle : (s a : App) → Reaches s a → Joining a → a.world.worker ≡ idle → GetsOver s
  from_idle s a r j at =
      let w = record (a.world) { worker = exited } in
      from_exited s (record a { world = w })
        (and_then r (works a (leave a.world at j.asked) j.ended j.unfinished j.on refl))
        (moved a w j (refl, refl)) refl

  from_booting : (s a : App) → Reaches s a → Joining a → a.world.worker ≡ booting → GetsOver s
  from_booting s a r j at =
      let w = record (a.world) { ctrl = worker_ready a.world.ctrl; worker = idle } in
      from_idle s (record a { world = w })
        (and_then r (works a (boots a.world at) j.ended j.unfinished j.on refl))
        (moved a w j (ready-SameFlags a.world.ctrl)) refl

  from_acking : (s a : App) → Reaches s a → Joining a → a.world.worker ≡ acking → GetsOver s
  unfolding after_ack ack_wait_is_over
  from_acking s a r j at =
      let w = record (a.world) {
        ctrl = after_ack a.world.ctrl;
        worker = if a.world.ctrl.shutdown_requested then exited else idle;
      } in
      let same : SameFlags a.world.ctrl w.ctrl = rw j.asked (refl, refl) in
      let stops : w.worker ≡ exited = rw j.asked refl in
      from_exited s (record a { world = w })
        (and_then r
          (works a (proceed a.world at (ground (arith, j.asked))) j.ended j.unfinished j.on refl))
        (moved a w j same) stops

  from_returned :
      (s a : App) (txn : ℕ) (ret : PamCode)
      → Reaches s a
      → Joining a
      → a.world.worker ≡ returned txn ret
      → GetsOver s
  from_returned s a txn ret r j at =
      let w = record (a.world) { ctrl = finish_attempt ret txn a.world.ctrl; worker = acking } in
      from_acking s (record a { world = w })
        (and_then r (works a (finish a.world txn ret at) j.ended j.unfinished j.on refl))
        (moved a w j (finish-SameFlags ret txn a.world.ctrl)) refl

  from_pam :
      (s a : App) (txn : ℕ) → Reaches s a → Joining a → a.world.worker ≡ in_pam txn → GetsOver s
  from_pam s a txn r j at =
      let st = pam_returns a.world txn at pam_success pam_conv_err in
      from_returned s _ txn (attempt_result pam_success pam_conv_err)
        (and_then r (works a st j.ended j.unfinished j.on refl)) (moved a _ j (refl, refl)) refl

  from_waiting :
      (s a : App) (txn : ℕ) (ms : List Message) (replies : List Response)
      → Reaches s a
      → Joining a
      → a.world.worker ≡ waiting txn ms replies
      → GetsOver s
  unfolding wait_is_over settle wipe_pending stop_waiting
  from_waiting s a txn ms replies r j at =
      let over : wait_is_over a.world.ctrl ≡ true = ground (arith, j.asked) in
      let w = settle a.world txn (resume (λ i. true) ms replies a.world.ctrl) in
      let fails = resume_fails (λ i. true) ms replies a.world.ctrl j.asked in
      let same : SameFlags a.world.ctrl w.ctrl = rw (fails, settle) (refl, refl) in
      let inside : w.worker ≡ in_pam txn = rw (fails, settle) refl in
      from_pam s (record a { world = w }) txn
        (and_then r (
          works a (resumes a.world txn ms replies at over (λ i. true)) j.ended j.unfinished j.on
            refl))
        (moved a w j same) inside

  joined_from : (s a : App) (at : Pc) → Reaches s a → Joining a → a.world.worker ≡ at → GetsOver s
  joined_from s a booting r j e = from_booting s a r j e
  joined_from s a idle r j e = from_idle s a r j e
  joined_from s a (in_pam txn) r j e = from_pam s a txn r j e
  joined_from s a (waiting txn ms replies) r j e = from_waiting s a txn ms replies r j e
  joined_from s a (returned txn ret) r j e = from_returned s a txn ret r j e
  joined_from s a acking r j e = from_acking s a r j e
  joined_from s a exited r j e = from_exited s a r j e

  -- Behind the loop the join returns, wherever the worker stands, or there is no worker.
  pub left-GetsOver : (s a : App) → a.over ≡ false → Reaches s (leave_loop a) → GetsOver s
  unfolding leave_loop request_join request_shutdown join_worker
  left-GetsOver s a unfinished r = elim (Bool-cases a.world.ctrl.initialised) [
    | inl on ↦
        let b = leave_loop a in
        let still : b.world.ctrl.initialised ≡ true = rw on refl in
        let asked : b.world.ctrl.shutdown_requested ≡ true = rw on refl in
        joined_from s b b.world.worker r
          (record { ended = refl; unfinished = unfinished; on = still; asked = asked }) refl
    | inr off ↦
        let b = leave_loop a in
        let still : b.world.ctrl.initialised ≡ false = rw off refl in
        (join_worker b, and_then r (joins b refl unfinished (inl still)), refl)
  ]
