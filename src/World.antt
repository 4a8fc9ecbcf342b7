-- ===== src/World.antt =====
-- The two threads of the PAM controller, interleaved: the main thread calls the API of
-- pam_controller.c in any order, and the worker runs `worker_main`. A step is what one thread does
-- while it holds the mutex, or one result that PAM gives.
pub mod Channel
pub mod Secrets
pub mod Delivery
pub mod Provenance
pub mod Fresh
pub mod Calls
use i3lock.Prelude.{
  ℕ, ◌≡◌, List, [], ◌∷◌, Bool, true, false, not, ◌&&◌, Option, none, some, if◌then◌else◌,
}
use i3lock.Pam.{Event, PamCode, pam_success, is_success, Message, Response}
use i3lock.Queue.{drain_pipe, take_snapshot}
use i3lock.Controller.{Ctrl, start_auth, submit_answer, cancel_auth, ack_terminal, request_shutdown}
use i3lock.Controller.Conversation.{
  Talk, waits, returns, worker_conv_callback, resume, wait_is_over,
}
use i3lock.Controller.Worker.{
  worker_ready, begin_attempt, worker_wakes, finish_attempt, ack_wait_is_over, after_ack,
}

-- Where the worker stands: before its first event; in the wait for a request; inside PAM; in the wait for an answer, with the
-- messages left and the replies so far; behind PAM, with its result; in the wait for the
-- acknowledgement; behind the loop.
pub data Pc : Type 0 where
  booting : Pc
  idle : Pc
  in_pam : ℕ → Pc
  waiting : ℕ → List Message → List Response → Pc
  returned : ℕ → PamCode → Pc
  acking : Pc
  exited : Pc

-- `inbox` is what is left of the snapshot of `pam_controller_drain_events`, and `draining` tells that
-- the main thread stands between the read of the pipe and the lock. `granted` is no state of the
-- program: it records the transactions for which `pam_authenticate` returned PAM_SUCCESS.
pub record World : Type 0 where
  pub ctrl : Ctrl
  pub worker : Pc
  pub inbox : List Event
  pub draining : Bool
  pub granted : List ℕ

-- The API calls of the main thread.
pub data Call : Type 0 where
  starts : List ℕ → Call
  answers : ℕ → ℕ → List ℕ → Call
  cancels : ℕ → Call
  acknowledges : ℕ → Call
  shuts_down : Call

unfoldable pub apply : Call → Ctrl → Ctrl
apply (starts password) c = (start_auth password c).1
apply (answers transaction_id prompt_id answer) c =
    (submit_answer transaction_id prompt_id answer c).1
apply (cancels transaction_id) c = cancel_auth transaction_id c
apply (acknowledges transaction_id) c = ack_terminal transaction_id c
apply shuts_down c = request_shutdown c

-- Where the callback leaves the worker.
unfoldable pub settle : World → ℕ → Talk → World
settle w txn (waits ms replies c) = record w { ctrl = c; worker = waiting txn ms replies }
settle w txn (returns code reply c) = record w { ctrl = c; worker = in_pam txn }

-- `start_pam_handle` by the results of `pam_start` and of `pam_set_item`; a display is given or not.
-- The second part tells that a handle is left to be ended.
unfoldable pub start_pam_handle : PamCode → Bool → PamCode → PamCode × Bool
start_pam_handle start display_given set_item =
    if not (is_success start)
    then (start, false)
    else if display_given && not (is_success set_item)
    then (set_item, false)
    else (pam_success, true)

-- `ret` in `worker_main`: `pam_authenticate` runs only on a handle.
unfoldable pub attempt_result : PamCode → PamCode → PamCode
attempt_result started authenticated = if is_success started then authenticated else started

unfoldable pub grant : List ℕ → ℕ → PamCode → PamCode → List ℕ
grant granted txn started authenticated =
    if is_success started && is_success authenticated then txn ∷ granted else granted

pub data Step : World → World → Type 0 where
  call : (w : World) (f : Call) → Step w (record w { ctrl = apply f w.ctrl })
  empty_pipe :
      (w : World)
      → w.draining ≡ false
      → w.inbox ≡ []
      → Step w (record w {
        ctrl = record (w.ctrl) { channel = drain_pipe w.ctrl.channel };
        draining = true;
      })
  snapshot :
      (w : World)
      → w.draining ≡ true
      → Step w (record w {
        ctrl = record (w.ctrl) { channel = (take_snapshot w.ctrl.channel).1 };
        inbox = (take_snapshot w.ctrl.channel).0;
        draining = false;
      })
  handle :
      (w : World) (e : Event) (rest : List Event)
      → w.inbox ≡ e ∷ rest
      → Step w (record w { inbox = rest })
  boots :
      (w : World)
      → w.worker ≡ booting
      → Step w (record w { ctrl = worker_ready w.ctrl; worker = idle })
  begin :
      (w : World)
      → w.worker ≡ idle
      → w.ctrl.shutdown_requested ≡ false
      → w.ctrl.auth_requested ≡ true
      → Step w
          (record w { ctrl = begin_attempt w.ctrl; worker = in_pam w.ctrl.active_transaction_id })
  leave :
      (w : World)
      → w.worker ≡ idle
      → w.ctrl.shutdown_requested ≡ true
      → Step w (record w { worker = exited })
  converses :
      (w : World) (txn : ℕ)
      → w.worker ≡ in_pam txn
      → (pam_max_num_msg : ℕ) (msg : Option (List (Option Message))) (resp_given calloc_ok : Bool)
        (strdup_ok : ℕ → Bool)
      → Step w (
          settle w txn
            (worker_conv_callback pam_max_num_msg msg resp_given calloc_ok strdup_ok w.ctrl))
  resumes :
      (w : World) (txn : ℕ) (ms : List Message) (replies : List Response)
      → w.worker ≡ waiting txn ms replies
      → wait_is_over w.ctrl ≡ true
      → (strdup_ok : ℕ → Bool) → Step w (settle w txn (resume strdup_ok ms replies w.ctrl))
  pam_returns :
      (w : World) (txn : ℕ)
      → w.worker ≡ in_pam txn
      → (started authenticated : PamCode)
      → Step w (record w {
        worker = returned txn (attempt_result started authenticated);
        granted = grant w.granted txn started authenticated;
      })
  finish :
      (w : World) (txn : ℕ) (ret : PamCode)
      → w.worker ≡ returned txn ret
      → Step w (record w { ctrl = finish_attempt ret txn w.ctrl; worker = acking })
  proceed :
      (w : World)
      → w.worker ≡ acking
      → ack_wait_is_over w.ctrl ≡ true
      → Step w (record w {
        ctrl = after_ack w.ctrl;
        worker = if w.ctrl.shutdown_requested then exited else idle;
      })

pub data Reach (s : World) : World → Type 0 where
  here : Reach s s
  next : {t u : World} → Reach s t → Step t u → Reach s u

pub Reach-trans : {s t u : World} → Reach s t → Reach t u → Reach s u
Reach-trans r here = r
Reach-trans r (next q st) = next (Reach-trans r q) st
