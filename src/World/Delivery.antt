-- ===== src/World/Delivery.antt =====
-- The event queue and the pipe between the threads, along their runs.
use i3lock.Prelude.{ℕ, ◌<◌, ◌≡◌, refl, ◌⊎◌, length, Bool, true, false, arith}
use i3lock.Pam.{Event}
use i3lock.Queue.{Channel, post_event_locked, drain_pipe, take_snapshot}
use i3lock.Queue.Delivery.{
  IsValid, post-capacity, pending, post-IsValid, post-IsAwake, snapshot-IsValid,
}
use i3lock.Controller.Conversation.{Talk, waits, returns}
use i3lock.Controller.Worker.{begin_attempt, worker_ready}
use i3lock.World.{
  boots, World, settle, Step, call, empty_pipe, snapshot, handle, begin, leave, converses, resumes,
  pam_returns, finish, proceed, Reach, here, next,
}
use i3lock.World.Channel.{
  channel-apply, finish-channel, ack-channel, talk_channel, callback-keeps, resume-keeps,
}

-- The queue's array is in order, and while an event waits there is a byte in the pipe; only between
-- the read of the pipe and the lock of a drain may it be missing.
pub record Delivers (draining : Bool) (ch : Channel) : Type 0 where
  pub ordered : IsValid ch
  pub capacity : 0 < ch.pipe_capacity
  pub woken : draining ≡ false → 0 < ch.event_count → 0 < ch.pipe_bytes

post-Delivers :
    (draining : Bool) (ch : Channel) (e : Event)
    → Delivers draining ch
    → Delivers draining (post_event_locked ch e).1
post-Delivers false ch e d =
    let awake = post-IsAwake ch e (record { has_room = d.capacity; signalled = d.woken refl }) in
    record {
      ordered = post-IsValid ch e d.ordered;
      capacity = awake.has_room;
      woken = λ _. awake.signalled;
    }
post-Delivers true ch e d = record {
  ordered = post-IsValid ch e d.ordered;
  capacity = post-capacity ch e d.capacity;
  woken = λ h. cc;
}

settle-Delivers :
    (w : World) (txn : ℕ) (t : Talk)
    → Delivers w.draining (talk_channel t)
    → Delivers (settle w txn t).draining (settle w txn t).ctrl.channel
unfolding settle
settle-Delivers w txn (waits ms replies c) d = d
settle-Delivers w txn (returns code reply c) d = d

emptied-Delivers : (ch : Channel) → Delivers false ch → Delivers true (drain_pipe ch)
unfolding drain_pipe
emptied-Delivers ch d = record {
  ordered = record { slots = d.ordered.slots; counted = d.ordered.counted; fits = d.ordered.fits };
  capacity = d.capacity;
  woken = λ h. cc;
}

snapshot-Delivers : (ch : Channel) → Delivers true ch → Delivers false (take_snapshot ch).1
snapshot-Delivers ch d = record {
  ordered = snapshot-IsValid ch d.ordered;
  capacity = unfold take_snapshot in ground (arith, d.capacity);
  woken = unfold take_snapshot in λ h k. ground arith;
}

-- Every step of either thread keeps the queue in order and the main loop awake.
pub Step-Delivers :
    {s t : World}
    → Step s t
    → Delivers s.draining s.ctrl.channel
    → Delivers t.draining t.ctrl.channel
Step-Delivers (call w f) d = rw (channel-apply f w.ctrl) d
Step-Delivers (empty_pipe w at i) d = emptied-Delivers _ (rw at at d)
Step-Delivers (snapshot w at) d = snapshot-Delivers _ (rw at at d)
Step-Delivers (handle w e rest i) d = d
Step-Delivers (boots w at) d = unfold worker_ready in post-Delivers w.draining w.ctrl.channel _ d
Step-Delivers (begin w at up asked) d = unfold begin_attempt in d
Step-Delivers (leave w at down) d = d
Step-Delivers (converses w txn at most msg given calloc_ok ok) d = settle-Delivers w txn _ (
    callback-keeps (Delivers w.draining) (λ ch e _. post-Delivers w.draining ch e) most msg given
      calloc_ok ok w.ctrl d)
Step-Delivers (resumes w txn ms replies at over ok) d = settle-Delivers w txn _ (
    resume-keeps (Delivers w.draining) (λ ch e _. post-Delivers w.draining ch e) ok ms replies
      w.ctrl d)
Step-Delivers (pam_returns w txn at started authenticated) d = d
Step-Delivers (finish w txn ret at) d =
    rw (finish-channel ret txn w.ctrl) (post-Delivers w.draining w.ctrl.channel _ d)
Step-Delivers (proceed w at over) d = rw (ack-channel w.ctrl) d

pub Reach-Delivers :
    {s t : World}
    → Delivers s.draining s.ctrl.channel
    → Reach s t
    → Delivers t.draining t.ctrl.channel
Reach-Delivers d here = d
Reach-Delivers d (next r st) = Step-Delivers st (Reach-Delivers d r)

-- No wake-up is lost: in every reachable state in which an event waits, either the pipe has a byte to
-- read, or the main thread has read it and is about to take the events.
pub no_lost_wakeup :
    {s t : World}
    → Delivers s.draining s.ctrl.channel
    → Reach s t
    → 0 < length (pending t.ctrl.channel)
    → (t.draining ≡ true) ⊎ (0 < t.ctrl.channel.pipe_bytes)
no_lost_wakeup {t = t} d r some_wait =
    let now = Reach-Delivers d r in ground (arith, now.ordered.counted, now.woken)
