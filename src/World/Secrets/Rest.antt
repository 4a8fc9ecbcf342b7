-- ===== src/World/Secrets/Rest.antt =====
-- `Secrets` along the runs of the two threads, and the buffers of an idle controller.
use i3lock.Prelude.{ℕ, ◌≡◌, true, false, if◌then◌else◌, arith}
use i3lock.Memory.Strings.{secure_wipe_all}
use i3lock.Pam.{PamCode}
use i3lock.Controller.{Ctrl, secure_buffer_size, post}
use i3lock.Controller.Conversation.{Talk, waits, returns}
use i3lock.Controller.Worker.{
  worker_ready, begin_attempt, finish_attempt, after_ack, ack_wait_is_over,
}
use i3lock.World.{
  idle, in_pam, returned, acking, exited, World, settle, Step, call, empty_pipe, snapshot, handle,
  booting, boots, begin, leave, converses, resumes, pam_returns, finish, proceed, Reach, here, next,
}
use i3lock.World.Secrets.{Secrets, zeros, wiped_length, apply-Secrets, waiting_active}
use i3lock.World.Secrets.Callback.{Settled, callback-Settled, resume-Settled}

ready-Secrets : (c : Ctrl) → Secrets c booting → Secrets (worker_ready c) idle
unfolding worker_ready post
ready-Secrets c s = ground arith

begin-Secrets : (c : Ctrl) (txn : ℕ) → Secrets c idle → Secrets (begin_attempt c) (in_pam txn)
unfolding begin_attempt
begin-Secrets c txn s = ground arith

finish-Secrets :
    (ret : PamCode) (txn : ℕ) (c : Ctrl)
    → Secrets c (returned txn ret)
    → Secrets (finish_attempt ret txn c) acking
unfolding finish_attempt
finish-Secrets ret txn c s = ground (
  arith,
  wiped_length c.deferred_input s.deferred_size,
  wiped_length c.pending_response s.pending_size,
  secure_wipe_all c.deferred_input secure_buffer_size s.deferred_size,
  secure_wipe_all c.pending_response secure_buffer_size s.pending_size,
)

ack-Secrets :
    (c : Ctrl)
    → ack_wait_is_over c ≡ true
    → Secrets c acking
    → Secrets (after_ack c) (if c.shutdown_requested then exited else idle)
unfolding after_ack ack_wait_is_over
ack-Secrets c over s = ground arith

settle-Secrets :
    (w : World) (txn : ℕ) (t : Talk)
    → Settled txn t
    → Secrets (settle w txn t).ctrl (settle w txn t).worker
unfolding settle
settle-Secrets w txn (waits ms replies c) s = s
settle-Secrets w txn (returns code reply c) s = s

-- Every step of either thread keeps the buffers and flags in agreement with the worker's place.
pub Step-Secrets : {s t : World} → Step s t → Secrets s.ctrl s.worker → Secrets t.ctrl t.worker
Step-Secrets (call w f) s = apply-Secrets f w.ctrl w.worker s
Step-Secrets (empty_pipe w d i) s = ground arith
Step-Secrets (snapshot w d) s = ground arith
Step-Secrets (handle w e rest i) s = s
Step-Secrets (boots w at) s = ready-Secrets w.ctrl (rw at at s)
Step-Secrets (begin w at up asked) s = begin-Secrets w.ctrl _ (rw at at s)
Step-Secrets (leave w at down) s = ground arith
Step-Secrets (converses w txn at most msg given calloc_ok ok) s =
    settle-Secrets w txn _ (callback-Settled txn most msg given calloc_ok ok w.ctrl (rw at at s))
Step-Secrets (resumes w txn ms replies at over ok) s =
    settle-Secrets w txn _ (resume-Settled txn ok ms replies w.ctrl (rw at at s))
Step-Secrets (pam_returns w txn at started authenticated) s = ground arith
Step-Secrets (finish w txn ret at) s = finish-Secrets ret txn w.ctrl (rw at at s)
Step-Secrets (proceed w at over) s = ack-Secrets w.ctrl over (rw at at s)

pub Reach-Secrets : {s t : World} → Secrets s.ctrl s.worker → Reach s t → Secrets t.ctrl t.worker
Reach-Secrets h here = h
Reach-Secrets h (next r st) = Step-Secrets st (Reach-Secrets h r)

-- In every state that the threads reach from such a state, if no attempt is requested or in progress then both
-- credential buffers hold nothing but zeros.
pub idle_holds_no_secret :
    {s t : World}
    → Secrets s.ctrl s.worker
    → Reach s t
    → t.ctrl.auth_requested ≡ false
    → t.ctrl.auth_in_progress ≡ false
    → (t.ctrl.deferred_input ≡ zeros) × (t.ctrl.pending_response ≡ zeros)
idle_holds_no_secret {t = t} h r quiet done =
    let s = Reach-Secrets h r in ground (arith, waiting_active t.worker)
