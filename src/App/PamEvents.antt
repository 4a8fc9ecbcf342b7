-- ===== src/App/PamEvents.antt =====
-- The events of PAM in the program's runs: what `pam_event_cb` keeps of the invariant.
use i3lock.Prelude.{
  ℕ, ◌≤◌, ◌≡◌, refl, sym, ap, ◌∙◌, ◌⊎◌, inl, inr, List, [], ◌∷◌, Bool, true, false, if◌then◌else◌,
  ◌==◌, Bool-cases, arith,
}
use i3lock.Pam.{EventType, Event, ready, status, prompt, success, failure, cancelled, fatal}
use i3lock.Controller.{Ctrl}
use i3lock.World.{Reach-trans, next, handle, acknowledges, apply}
use i3lock.World.Calls.{Calls, Calls-Reach, no_call, one_more}
use i3lock.Ui.{
  Ui, redraw_screen, clear_input, clear_pam_visible_input, terminate, clear_password_memory,
  clear_pam_display_text,
}
use i3lock.Ui.Auth.{auth_failed}
use i3lock.Ui.Events.{
  handle_pam_event, on_event, on_ack, show_status, show_prompt, unlock, fail_attempt, drop_attempt,
  lock_forever, forget_transaction, show_verdict,
}
use i3lock.Ui.Effects.{bool_clash}
use i3lock.Ui.Unlock.{unlock_needs_pam_success}
use i3lock.App.{App, with_result}
use i3lock.App.Run.{on_pam_event}
use i3lock.App.Refine.{Invariant, Asleep, Awake}

-- The events of PAM leave the controller's start alone, and count no failure beyond 999.
abbrev Counts : Ui → Ui → Type 0
Counts u v =
    (v.controller_started ≡ u.controller_started)
    × (u.failed_attempts ≤ 999 → v.failed_attempts ≤ 999)

auth_failed-Counts : (calloc_ok : Bool) (u : Ui) → Counts u (auth_failed calloc_ok u)
unfolding auth_failed clear_input redraw_screen clear_pam_visible_input terminate
    clear_password_memory
auth_failed-Counts calloc_ok u = ground arith

show_verdict-Counts : (e : Event) (expires : Bool) (u : Ui) → Counts u (show_verdict e expires u)
unfolding show_verdict clear_pam_display_text
show_verdict-Counts e expires u = ground arith

Counts-trans : (u v w : Ui) → Counts u v → Counts v w → Counts u w
Counts-trans u v w h k = (k.0 ∙ h.0, λ b. k.1 (h.1 b))

event-Counts :
    (calloc_ok : Bool) (type : EventType) (e : Event) (u : Ui)
    → Counts u (on_event calloc_ok type e u)
unfolding on_event show_status show_prompt unlock fail_attempt drop_attempt lock_forever
    redraw_screen clear_input clear_pam_visible_input terminate clear_password_memory
    clear_pam_display_text forget_transaction
event-Counts calloc_ok ready e u = (refl, λ h. h)
event-Counts calloc_ok status e u = (refl, λ h. h)
event-Counts calloc_ok prompt e u = (refl, λ h. h)
event-Counts calloc_ok success e u = (refl, λ h. h)
event-Counts calloc_ok failure e u =
    let shown = show_verdict e true (forget_transaction u) in
    Counts-trans u shown (auth_failed calloc_ok shown)
      (show_verdict-Counts e true (forget_transaction u)) (auth_failed-Counts calloc_ok shown)
event-Counts calloc_ok cancelled e u = (refl, λ h. h)
event-Counts calloc_ok fatal e u =
    show_verdict-Counts e false (record (forget_transaction u) { pam_auth_fatal = true })

pub pam-Counts :
    (calloc_ok : Bool) (e : Event) (u : Ui) (c : Ctrl)
    → Counts u (handle_pam_event calloc_ok e u c).0
unfolding handle_pam_event
pam-Counts calloc_ok e u c = go (e.transaction_id == u.active_pam_transaction_id)
  where
    go : (b : Bool) → Counts u (if b then on_event calloc_ok e.type e u else u)
    go true = event-Counts calloc_ok e.type e u
    go false = (refl, λ h. h)

ack-Calls : (type : EventType) (e : Event) (c : Ctrl) → Calls c (on_ack type e c)
unfolding on_ack apply
ack-Calls ready e c = no_call
ack-Calls status e c = no_call
ack-Calls prompt e c = no_call
ack-Calls success e c = one_more no_call (acknowledges e.transaction_id)
ack-Calls failure e c = one_more no_call (acknowledges e.transaction_id)
ack-Calls cancelled e c = one_more no_call (acknowledges e.transaction_id)
ack-Calls fatal e c = one_more no_call (acknowledges e.transaction_id)

-- The controller was started before its first event.
awake :
    (n : ℕ) (e : Event) (rest : List Event) (a : App)
    → a.world.inbox ≡ e ∷ rest
    → Asleep n a ⊎ Awake n a
    → Awake n a
awake n e rest a at (inl s) = absurd (no_event (sym at ∙ ap (λ w. w.inbox) s.untouched))
  where
    no_event : e ∷ rest ≡ [] → ⊥
    no_event h = cc
awake n e rest a at (inr w) = w

pub pam-Invariant :
    (n : ℕ) (calloc_ok : Bool) (e : Event) (rest : List Event) (a : App)
    → a.ended ≡ false
    → a.world.inbox ≡ e ∷ rest
    → Invariant n a
    → Invariant n (on_pam_event calloc_ok e rest a)
unfolding on_pam_event with_result handle_pam_event
pam-Invariant n calloc_ok e rest a going at i = record {
  behaves = λ _. inr (record {
    on = counted.0 ∙ w.on;
    run =
        Reach-trans (next w.run (handle a.world e rest at))
          (Calls-Reach (record (a.world) { inbox = rest }) (ack-Calls e.type e a.world.ctrl));
  });
  paid = λ opens. elim (Bool-cases a.ui.unlocked) [
    | inl opened ↦ i.paid opened
    | inr locked ↦ (
      a.ui.active_pam_transaction_id,
      unlock_needs_pam_success n calloc_ok e rest a.ui w.run at locked opens,
    )
  ];
  closes = λ h. absurd (bool_clash going h);
  bounded = counted.1 i.bounded;
}
  where
    w : Awake n a
    w = awake n e rest a at (i.behaves going)

    counted : Counts a.ui (handle_pam_event calloc_ok e a.ui a.world.ctrl).0
    counted = pam-Counts calloc_ok e a.ui a.world.ctrl
