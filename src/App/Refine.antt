-- ===== src/App/Refine.antt =====
-- The runs of the whole program as runs of the controller's two threads.
use i3lock.Prelude.{ℕ, ◌≤◌, ◌≡◌, sym, ap, ◌∙◌, ◌⊎◌, inl, inr, Bool, true, false, arith}
use i3lock.Controller.{Ctrl}
use i3lock.Controller.Lifecycle.{zero_ctrl}
use i3lock.World.{World, Reach, Reach-trans}
use i3lock.World.Calls.{Calls-Reach}
use i3lock.World.Fresh.{fresh_world}
use i3lock.World.Provenance.{In}
use i3lock.Ui.{Ui}
use i3lock.Ui.Effects.{core, Dormant, Kept, core-Kept, core-Dormant}
use i3lock.App.{App, with_ui, with_result}
use i3lock.App.Run.{Started}

abbrev pub start_world : ℕ → World
start_world pipe_capacity = record (fresh_world pipe_capacity) { ctrl = zero_ctrl pipe_capacity }

-- The controller is not started: nothing has happened to it, and the UI has no transaction.
pub record Asleep (n : ℕ) (a : App) : Type 0 where
  pub dormant : Dormant a.ui
  pub untouched : a.world ≡ start_world n
  pub unwatched : a.pam_watcher ≡ false

-- It is started, and what it does is a run of the two threads.
pub record Awake (n : ℕ) (a : App) : Type 0 where
  pub on : a.ui.controller_started ≡ true
  pub run : Reach (fresh_world n) a.world

abbrev pub Granted : World → Type 0
Granted w = (txn : ℕ) × In txn w.granted

pub record Invariant (n : ℕ) (a : App) : Type 0 where
  pub behaves : a.ended ≡ false → Asleep n a ⊎ Awake n a
  pub paid : a.ui.unlocked ≡ true → Granted a.world
  pub closes : a.ended ≡ true → a.ui.unlocked ≡ true
  pub bounded : a.ui.failed_attempts ≤ 999

pub start-Invariant : (n : ℕ) (a : App) → Started n a → Invariant n a
start-Invariant n a s = record {
  behaves = λ _. inl (record {
    dormant = record { off = s.off; no_transaction = s.no_transaction; no_prompt = s.no_prompt };
    untouched = s.world;
    unwatched = s.watcher;
  });
  paid = λ h. absurd (clash s.locked h);
  closes = λ h. absurd (clash s.running h);
  bounded = omega (arith, s.no_failure);
}
  where
    clash : {b : Bool} → b ≡ false → b ≡ true → ⊥
    clash h k = cc

-- A handler that reaches the controller through its API.
pub Kept-Invariant :
    (n : ℕ) (a : App) (r : Ui × Ctrl)
    → Kept a.ui a.world.ctrl r
    → Invariant n a
    → Invariant n (with_result a r)
unfolding with_result
Kept-Invariant n a r k i = record {
  behaves = λ going. go (i.behaves going);
  paid = λ h. i.paid (sym k.lock ∙ h);
  closes = λ h. k.lock ∙ i.closes h;
  bounded = rw k.failures i.bounded;
}
  where
    go : Asleep n a ⊎ Awake n a → Asleep n (with_result a r) ⊎ Awake n (with_result a r)
    go (inl s) =
        let (asleep, same) = k.sleeps s.dormant in
        inl (record {
          dormant = asleep;
          untouched = ap (λ c. record (a.world) { ctrl = c }) same ∙ s.untouched;
          unwatched = s.unwatched;
        })
    go (inr w) =
        inr (record { on = k.start ∙ w.on; run = Reach-trans w.run (Calls-Reach a.world k.calls) })

pub ui-Invariant :
    (n : ℕ) (a : App) (f : Ui → Ui)
    → core (f a.ui) ≡ core a.ui
    → Invariant n a
    → Invariant n (with_ui f a)
unfolding with_ui with_result
ui-Invariant n a f e i =
    Kept-Invariant n a (f a.ui, a.world.ctrl) (core-Kept a.ui (f a.ui) a.world.ctrl e) i

-- What the handlers of X events leave alone.
pub record Same (a b : App) : Type 0 where
  pub world : b.world ≡ a.world
  pub core : core b.ui ≡ core a.ui
  pub watcher : b.pam_watcher ≡ a.pam_watcher
  pub end : b.ended ≡ a.ended

pub Same-Invariant : (n : ℕ) (a b : App) → Same a b → Invariant n a → Invariant n b
Same-Invariant n a b s i = record {
  behaves = λ going. go (i.behaves (sym s.end ∙ going));
  paid = λ h. rw s.world (i.paid (sym (ap (λ k. k.0) s.core) ∙ h));
  closes = λ h. ap (λ k. k.0) s.core ∙ i.closes (sym s.end ∙ h);
  bounded = omega (arith, ap (λ k. k.2) s.core, i.bounded);
}
  where
    go : Asleep n a ⊎ Awake n a → Asleep n b ⊎ Awake n b
    go (inl h) = inl (record {
      dormant = core-Dormant a.ui b.ui s.core h.dormant;
      untouched = s.world ∙ h.untouched;
      unwatched = s.watcher ∙ h.unwatched;
    })
    go (inr h) = inr (record { on = ap (λ k. k.1) s.core ∙ h.on; run = rw s.world h.run })
