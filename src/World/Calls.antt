-- ===== src/World/Calls.antt =====
-- Calls of the controller's API, one after the other, by the main thread.
use i3lock.Prelude.{ℕ, List, ◌∷◌, inr, Bool, true, false, ◌&&◌, if◌then◌else◌}
use i3lock.Pam.{PamCode, is_success}
use i3lock.Controller.{Ctrl}
use i3lock.Controller.Conversation.{Talk, waits, returns}
use i3lock.World.{
  World, Call, apply, settle, grant, Step, call, empty_pipe, snapshot, handle, boots, begin, leave,
  converses, resumes, pam_returns, finish, proceed, Reach, here, next,
}
use i3lock.World.Provenance.{In}

-- The second controller is the first behind some calls.
pub data Calls (c : Ctrl) : Ctrl → Type 0 where
  no_call : Calls c c
  one_more : {d : Ctrl} → Calls c d → (f : Call) → Calls c (apply f d)

pub Calls-Reach : (w : World) {d : Ctrl} → Calls w.ctrl d → Reach w (record w { ctrl = d })
Calls-Reach w no_call = here
Calls-Reach w (one_more {d = d} calls f) =
    next (Calls-Reach w calls) (call (record w { ctrl = d }) f)

-- What PAM has granted stays granted.
grant-In :
    (x : ℕ) (granted : List ℕ) (txn : ℕ) (started authenticated : PamCode)
    → In x granted
    → In x (grant granted txn started authenticated)
unfolding grant
grant-In x granted txn started authenticated h = go (is_success started && is_success authenticated)
  where
    go : (b : Bool) → In x (if b then txn ∷ granted else granted)
    go true = inr h
    go false = h

settle-In :
    (x : ℕ) (w : World) (txn : ℕ) (t : Talk) → In x w.granted → In x (settle w txn t).granted
unfolding settle
settle-In x w txn (waits ms replies c) h = h
settle-In x w txn (returns code reply c) h = h

pub Step-In : {s t : World} (x : ℕ) → Step s t → In x s.granted → In x t.granted
Step-In x (call w f) h = h
Step-In x (empty_pipe w at i) h = h
Step-In x (snapshot w at) h = h
Step-In x (handle w e rest i) h = h
Step-In x (boots w at) h = h
Step-In x (begin w at up asked) h = h
Step-In x (leave w at down) h = h
Step-In x (converses w txn at most msg given calloc_ok ok) h = settle-In x w txn _ h
Step-In x (resumes w txn ms replies at over ok) h = settle-In x w txn _ h
Step-In x (pam_returns w txn at started authenticated) h =
    grant-In x w.granted txn started authenticated h
Step-In x (finish w txn ret at) h = h
Step-In x (proceed w at over) h = h
