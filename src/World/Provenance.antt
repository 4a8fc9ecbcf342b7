-- ===== src/World/Provenance.antt =====
-- Where a success event comes from: what PAM told the worker, along the runs of the two threads.
use i3lock.Prelude.{
  ◌↔◌, zero, ℕ, suc, ◌≡◌, refl, ◌⊎◌, inl, inr, List, [], ◌∷◌, ◌++◌, Bool, true, false, arith,
  Bool-cases, if◌then◌else◌, ◌&&◌,
}
use i3lock.Pam.{Event, PamCode, event_is_terminal, is_success, success, ready}
use i3lock.Queue.{Channel, post_event_locked, drain_pipe, take_snapshot}
use i3lock.Queue.Refine.{delete_at, snapshot_refines, pending_slots}
use i3lock.Queue.Delivery.{IsValid, Queued, pending, post-Queued, post-IsValid, snapshot-IsValid}
use i3lock.Controller.{Ctrl, post}
use i3lock.Controller.Conversation.{Talk, waits, returns}
use i3lock.Controller.Worker.{verdict, begin_attempt, worker_ready, simple_event}
use i3lock.World.{
  Pc, idle, returned, exited, World, settle, attempt_result, grant, Step, call, empty_pipe,
  snapshot, handle, boots, begin, leave, converses, resumes, pam_returns, finish, proceed, Reach,
  here, next,
}
use i3lock.World.Channel.{
  channel-apply, finish-channel, terminal_event, ack-channel, talk_channel, callback-keeps,
  resume-keeps,
}

abbrev pub In : ℕ → List ℕ → Type 0
In x [] = ⊥
In x (y ∷ ys) = (x ≡ y) ⊎ In x ys

-- A success event names a transaction that was granted.
abbrev pub Earned : List ℕ → Event → Type 0
Earned granted e = e.type ≡ success → In e.transaction_id granted

abbrev pub AllEarned : List ℕ → List Event → Type 0
AllEarned granted [] = Unit {0}
AllEarned granted (e ∷ q) = Earned granted e × AllEarned granted q

-- The result that the worker carries out of PAM.
abbrev pub Told : List ℕ → Pc → Type 0
Told granted (returned txn ret) = is_success ret ≡ true → In txn granted
Told granted _ = Unit {0}

AllEarned-append :
    (g : List ℕ) (q : List Event) (e : Event)
    → AllEarned g q
    → Earned g e
    → AllEarned g (q ++ (e ∷ []))
AllEarned-append g [] e h k = (k, tt)
AllEarned-append g (x ∷ q) e h k = (h.0, AllEarned-append g q e h.1 k)

AllEarned-delete_at :
    (g : List ℕ) (i : ℕ) (q : List Event) → AllEarned g q → AllEarned g (delete_at i q)
AllEarned-delete_at g i [] h = tt
AllEarned-delete_at g zero (x ∷ q) h = h.1
AllEarned-delete_at g (suc i) (x ∷ q) h = (h.0, AllEarned-delete_at g i q h.1)

AllEarned-grow : (g : List ℕ) (txn : ℕ) (q : List Event) → AllEarned g q → AllEarned (txn ∷ g) q
AllEarned-grow g txn [] h = tt
AllEarned-grow g txn (e ∷ q) h = (λ s. inr (h.0 s), AllEarned-grow g txn q h.1)

-- The queue is in order, and its success events are earned.
pub record Honest (g : List ℕ) (ch : Channel) : Type 0 where
  pub ordered : IsValid ch
  pub earned : AllEarned g (pending ch)

post-Honest :
    (g : List ℕ) (ch : Channel) (e : Event)
    → Earned g e
    → Honest g ch
    → Honest g (post_event_locked ch e).1
post-Honest g ch e k h = record {
  ordered = post-IsValid ch e h.ordered;
  earned = go (post-Queued ch e h.ordered);
}
  where
    go :
        Queued (pending ch) e ((post_event_locked ch e).0, pending (post_event_locked ch e).1)
        → AllEarned g (pending (post_event_locked ch e).1)
    go (inl (_, q)) = rw q (AllEarned-append g _ e h.earned k)
    go (inr (inl (_, i, _, q))) =
        rw q (AllEarned-append g _ e (AllEarned-delete_at g i (pending ch) h.earned) k)
    go (inr (inr (_, q))) = rw q h.earned

quiet-Earned : (g : List ℕ) (e : Event) → event_is_terminal e.type ≡ false → Earned g e
unfolding event_is_terminal
quiet-Earned g e quiet s = ground arith

-- The whole of what is known in a state.
pub record Provenance (w : World) : Type 0 where
  pub honest : Honest w.granted w.ctrl.channel
  pub drained : AllEarned w.granted w.inbox
  pub told : Told w.granted w.worker

-- The terminal event names the attempt's transaction.
pub terminal-transaction :
    (ret : PamCode) (txn : ℕ) (c : Ctrl) → (terminal_event ret txn c).transaction_id ≡ txn
unfolding terminal_event verdict
terminal-transaction ret txn c = ground arith

-- It reports success exactly if `pam_authenticate` did and the attempt was not cancelled.
pub terminal_success_iff :
    (ret : PamCode) (txn : ℕ) (c : Ctrl)
    → ((terminal_event ret txn c).type ≡ success)
      ↔ ((is_success ret ≡ true) × (c.cancellation_requested ≡ false))
unfolding terminal_event verdict is_success
terminal_success_iff ret txn c = (λ h. (ground arith, ground arith), λ h. ground arith)

terminal-Earned :
    (g : List ℕ) (ret : PamCode) (txn : ℕ) (c : Ctrl)
    → (is_success ret ≡ true → In txn g)
    → Earned g (terminal_event ret txn c)
terminal-Earned g ret txn c h s =
    rw (terminal-transaction ret txn c) (h ((terminal_success_iff ret txn c).0 s).0)

settle-Provenance :
    (w : World) (txn : ℕ) (t : Talk)
    → AllEarned w.granted w.inbox
    → Honest w.granted (talk_channel t)
    → Provenance (settle w txn t)
unfolding settle
settle-Provenance w txn (waits ms replies c) d h = record { honest = h; drained = d; told = tt }
settle-Provenance w txn (returns code reply c) d h = record { honest = h; drained = d; told = tt }

ack-Told : (g : List ℕ) (down : Bool) → Told g (if down then exited else idle)
ack-Told g true = tt
ack-Told g false = tt

snapshot-Honest :
    (g : List ℕ) (ch : Channel)
    → Honest g ch
    → Honest g (take_snapshot ch).1 × AllEarned g (take_snapshot ch).0
snapshot-Honest g ch h =
    let (all, empty) = snapshot_refines ch (pending ch) h.ordered in
    (
      record { ordered = snapshot-IsValid ch h.ordered; earned = rw (pending_slots _ _ empty) tt },
      rw all h.earned,
    )

emptied-Honest : (g : List ℕ) (ch : Channel) → Honest g ch → Honest g (drain_pipe ch)
unfolding drain_pipe
emptied-Honest g ch h = record {
  ordered = record { slots = h.ordered.slots; counted = h.ordered.counted; fits = h.ordered.fits };
  earned = h.earned;
}

grant_grows :
    (w : World) (txn : ℕ) (started authenticated : PamCode)
    → Provenance w
    → Provenance (record w {
      worker = returned txn (attempt_result started authenticated);
      granted = grant w.granted txn started authenticated;
    })
unfolding grant attempt_result
grant_grows w txn started authenticated p =
    elim (Bool-cases (is_success started && is_success authenticated)) [
      | inl both ↦ rw both (record {
        honest = record {
          ordered = p.honest.ordered;
          earned = AllEarned-grow w.granted txn _ p.honest.earned;
        };
        drained = AllEarned-grow w.granted txn w.inbox p.drained;
        told = λ _. inl refl;
      })
      | inr failed ↦
          rw failed (record { honest = p.honest; drained = p.drained; told = λ h. ground arith })
    ]

ready-Honest : (g : List ℕ) (c : Ctrl) → Honest g c.channel → Honest g (worker_ready c).channel
unfolding worker_ready post event_is_terminal
ready-Honest g c h =
    post-Honest g c.channel (simple_event ready 0) (quiet-Earned g (simple_event ready 0) refl) h

-- Every step of either thread keeps what is known of success events.
pub Step-Provenance : {s t : World} → Step s t → Provenance s → Provenance t
Step-Provenance (call w f) p = record {
  honest = rw (channel-apply f w.ctrl) p.honest;
  drained = p.drained;
  told = p.told;
}
Step-Provenance (empty_pipe w at i) p = record {
  honest = emptied-Honest w.granted _ p.honest;
  drained = p.drained;
  told = p.told;
}
Step-Provenance (snapshot w at) p =
    let (rest, taken) = snapshot-Honest w.granted _ p.honest in
    record { honest = rest; drained = taken; told = p.told }
Step-Provenance (handle w e rest i) p = record {
  honest = p.honest;
  drained = (rw i at p.drained).1;
  told = p.told;
}
Step-Provenance (boots w at) p = record {
  honest = ready-Honest w.granted w.ctrl p.honest;
  drained = p.drained;
  told = tt;
}
Step-Provenance (begin w at up asked) p =
    unfold begin_attempt in record { honest = p.honest; drained = p.drained; told = tt }
Step-Provenance (leave w at down) p = record { honest = p.honest; drained = p.drained; told = tt }
Step-Provenance (converses w txn at most msg given calloc_ok ok) p =
    settle-Provenance w txn _ p.drained (
      callback-keeps (Honest w.granted)
        (λ ch e quiet. post-Honest w.granted ch e (quiet-Earned w.granted e quiet)) most msg given
        calloc_ok ok w.ctrl p.honest)
Step-Provenance (resumes w txn ms replies at over ok) p = settle-Provenance w txn _ p.drained (
    resume-keeps (Honest w.granted)
      (λ ch e quiet. post-Honest w.granted ch e (quiet-Earned w.granted e quiet)) ok ms replies
      w.ctrl p.honest)
Step-Provenance (pam_returns w txn at started authenticated) p =
    grant_grows w txn started authenticated p
Step-Provenance (finish w txn ret at) p = record {
  honest = rw (finish-channel ret txn w.ctrl) (
      post-Honest w.granted _ _ (terminal-Earned w.granted ret txn w.ctrl (rw at at p.told))
        p.honest);
  drained = p.drained;
  told = tt;
}
Step-Provenance (proceed w at over) p = record {
  honest = rw (ack-channel w.ctrl) p.honest;
  drained = p.drained;
  told = ack-Told w.granted w.ctrl.shutdown_requested;
}

pub Reach-Provenance : {s t : World} → Provenance s → Reach s t → Provenance t
Reach-Provenance p here = p
Reach-Provenance p (next r st) = Step-Provenance st (Reach-Provenance p r)
