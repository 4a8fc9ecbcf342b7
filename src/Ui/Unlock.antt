-- ===== src/Ui/Unlock.antt =====
-- What unlocks the screen in i3lock.c, and what does not.
use i3lock.Prelude.{
  ℕ, ◌≡◌, refl, ◌↔◌, Bool, true, false, Option, none, some, List, ◌∷◌, ◌==◌, ◌∙◌, ◌+◌, ◌-◌, leb,
  ltb, Option-cases, arith, ◌||◌, Bool-cases, inl, inr,
}
use i3lock.Pam.{EventType, Event, ready, status, prompt, success, failure, cancelled, fatal}
use i3lock.Controller.{Ctrl}
use i3lock.World.{World, Reach}
use i3lock.World.Fresh.{fresh_world, fresh-Provenance}
use i3lock.World.Provenance.{In, Reach-Provenance}
use i3lock.Utf8.{u8_dec}
use i3lock.Ui.{
  UnlockState, password_size, Ui, redraw_screen, clear_input, clear_pam_visible_input, terminate,
  clear_password_memory, clear_pam_display_text, clear_indicator, update_pam_visible_input,
}
use i3lock.Ui.Auth.{
  auth_failed, finish_input, input_done, answer_prompt, start_attempt, stop_wrong_timer,
  show_verifying,
}
use i3lock.Ui.Events.{
  show_verdict, on_event, handle_pam_event, forget_transaction, show_status, show_prompt, unlock,
  fail_attempt, drop_attempt, lock_forever,
}
use i3lock.Ui.Keys.{
  Keysym, resolve, first_switch, second_switch, SecondSwitch, FirstSwitch, completes, breaks,
  defaults, clears_line, escapes, ignores, deletes_char, types, KeyPress, handle_key_press, act,
  edit, on_enter, on_escape, hide_input, on_backspace, on_text, cut_input, on_empty_backspace,
  show_typed, store_text, discard_pending, cancel_transaction, with_ctrl, buffer_size,
}

pub show_verdict-unlocked :
    (e : Event) (expires : Bool) (u : Ui) → (show_verdict e expires u).unlocked ≡ u.unlocked
unfolding show_verdict clear_pam_display_text
show_verdict-unlocked e expires u = ground arith

pub auth_failed-unlocked :
    (calloc_ok : Bool) (u : Ui) → (auth_failed calloc_ok u).unlocked ≡ u.unlocked
unfolding auth_failed clear_input redraw_screen clear_pam_visible_input terminate
    clear_password_memory
auth_failed-unlocked calloc_ok u = ground arith

stays_locked : {b : Bool} {A : Type 0} → b ≡ false → b ≡ true → A
stays_locked h k = cc

on_event_unlocks :
    (calloc_ok : Bool) (type : EventType) (e : Event) (u : Ui)
    → u.unlocked ≡ false
    → ((on_event calloc_ok type e u).unlocked ≡ true) ↔ (type ≡ success)
unfolding on_event show_status show_prompt unlock fail_attempt drop_attempt lock_forever
    redraw_screen clear_input clear_pam_visible_input terminate clear_password_memory
    clear_pam_display_text forget_transaction
on_event_unlocks calloc_ok ready e u locked = (stays_locked locked, λ h. ground arith)
on_event_unlocks calloc_ok status e u locked = (stays_locked locked, λ h. ground arith)
on_event_unlocks calloc_ok prompt e u locked = (stays_locked locked, λ h. ground arith)
on_event_unlocks calloc_ok success e u locked = (λ h. refl, λ h. refl)
on_event_unlocks calloc_ok failure e u locked = (
  stays_locked (
      auth_failed-unlocked calloc_ok (show_verdict e true (forget_transaction u))
      ∙ (show_verdict-unlocked e true (forget_transaction u) ∙ locked)),
  λ h. ground arith,
)
on_event_unlocks calloc_ok cancelled e u locked = (stays_locked locked, λ h. ground arith)
on_event_unlocks calloc_ok fatal e u locked =
    let dead = record (forget_transaction u) { pam_auth_fatal = true } in
    (stays_locked (show_verdict-unlocked e false dead ∙ locked), λ h. ground arith)

-- The main loop unlocks the screen on an event exactly if it is a success event of the transaction that is
-- active in the UI.
pub unlocks_iff :
    (calloc_ok : Bool) (e : Event) (u : Ui) (c : Ctrl)
    → u.unlocked ≡ false
    → ((handle_pam_event calloc_ok e u c).0.unlocked ≡ true)
      ↔ ((e.type ≡ success) × (e.transaction_id ≡ u.active_pam_transaction_id))
unfolding handle_pam_event
unlocks_iff calloc_ok e u c locked =
    elim (Bool-cases (e.transaction_id == u.active_pam_transaction_id)) [
      | inl own ↦ (
        λ h. (
          (on_event_unlocks calloc_ok e.type e u locked).0 (ground (arith, own, h)),
          ground arith,
        ),
        λ h. rw (own, handle_pam_event) ((on_event_unlocks calloc_ok e.type e u locked).1 h.0),
      )
      | inr other ↦ (λ h. ground (arith, other), λ h. ground (arith, other))
    ]

-- In every state that the two threads reach from the start: if the event that the main loop handles
-- next unlocks the screen, then `pam_authenticate` has returned PAM_SUCCESS for the transaction that is
-- active in the UI.
pub unlock_needs_pam_success :
    {t : World} (pipe_capacity : ℕ) (calloc_ok : Bool) (e : Event) (rest : List Event) (u : Ui)
    → Reach (fresh_world pipe_capacity) t
    → t.inbox ≡ e ∷ rest
    → u.unlocked ≡ false
    → (handle_pam_event calloc_ok e u t.ctrl).0.unlocked ≡ true
    → In u.active_pam_transaction_id t.granted
unlock_needs_pam_success {t = t} n calloc_ok e rest u reached next locked opens =
    let (won, own) = (unlocks_iff calloc_ok e u t.ctrl locked).0 opens in
    rw (← own) ((rw next at (Reach-Provenance (fresh-Provenance n) reached).drained).0 won)

-- The state of `unlocked` behind a handler that may fault.
abbrev pub IsLocked : Option (Ui × Ctrl) → Type 0
IsLocked none = Unit {0}
IsLocked (some (u, c)) = u.unlocked ≡ false

input_done-unlocked : (u : Ui) (c : Ctrl) → u.unlocked ≡ false → (input_done u c).0.unlocked ≡ false
unfolding input_done stop_wrong_timer show_verifying answer_prompt start_attempt redraw_screen
    clear_input clear_pam_visible_input terminate clear_password_memory clear_pam_display_text
input_done-unlocked u c h = ground (arith, h)

enter-unlocked : (u : Ui) (c : Ctrl) → u.unlocked ≡ false → (on_enter u c).0.unlocked ≡ false
unfolding on_enter finish_input redraw_screen clear_input clear_pam_visible_input terminate
    clear_password_memory
enter-unlocked u c h = ground (
  arith,
  h,
  input_done-unlocked
      (redraw_screen (record (terminate u) { unlock_state = UnlockState.key_pressed })) c h,
)

hide-unlocked : (u : Ui) → (hide_input u).unlocked ≡ u.unlocked
unfolding hide_input clear_indicator redraw_screen clear_input clear_pam_visible_input terminate
    clear_password_memory
hide-unlocked u = ground arith

escape-unlocked : (u : Ui) (c : Ctrl) → (on_escape u c).0.unlocked ≡ u.unlocked
unfolding on_escape cancel_transaction forget_transaction clear_pam_display_text
escape-unlocked u c = ground (arith, hide-unlocked u, hide-unlocked (cancel_transaction u c).0)

visible-unlocked : (u : Ui) → (update_pam_visible_input u).unlocked ≡ u.unlocked
unfolding update_pam_visible_input clear_pam_visible_input
visible-unlocked u = ground arith

cut-unlocked :
    (calloc_ok : Bool) (position : ℕ) (u : Ui)
    → (cut_input calloc_ok position u).unlocked ≡ u.unlocked
unfolding cut_input redraw_screen terminate
cut-unlocked calloc_ok position u =
    visible-unlocked (terminate (record u { input_position = position }))

backspace-IsLocked :
    (calloc_ok : Bool) (u : Ui) (c : Ctrl)
    → u.unlocked ≡ false
    → IsLocked (with_ctrl c (on_backspace calloc_ok u))
unfolding on_backspace on_empty_backspace redraw_screen
backspace-IsLocked calloc_ok u c h = elim (Bool-cases (u.input_position == 0)) [
  | inl empty ↦ rw (empty, on_backspace) h
  | inr filled ↦ elim (Option-cases (u8_dec u.password u.input_position)) [
    | inl outside ↦ rw (filled, outside, on_backspace) tt
    | inr (position, at) ↦ rw (filled, at, on_backspace) (cut-unlocked calloc_ok position u ∙ h)
  ]
]

show_typed-unlocked : (calloc_ok : Bool) (u : Ui) → (show_typed calloc_ok u).unlocked ≡ u.unlocked
unfolding show_typed redraw_screen
show_typed-unlocked calloc_ok u = ground arith

text-IsLocked :
    (calloc_ok : Bool) (n : ℕ) (buffer : List ℕ) (u : Ui) (c : Ctrl)
    → u.unlocked ≡ false
    → IsLocked (with_ctrl c (on_text calloc_ok n buffer u))
unfolding on_text store_text terminate
text-IsLocked calloc_ok n buffer u c h =
    elim (Bool-cases (leb password_size (u.input_position + 8) || ltb n 2)) [
      | inl full ↦ rw (full, on_text) h
      | inr room ↦
          elim (Bool-cases
            (ltb buffer_size (n - 1) || leb password_size (u.input_position + (n - 1)))) [
              | inl outside ↦ rw (room, outside, on_text) tt
              | inr inside ↦
                  rw (room, inside, on_text)
                    (show_typed-unlocked calloc_ok
                        (update_pam_visible_input (store_text (n - 1) buffer u))
                      ∙ (visible-unlocked (store_text (n - 1) buffer u) ∙ h))
            ]
    ]

edit-IsLocked :
    (calloc_ok : Bool) (second : SecondSwitch) (n : ℕ) (buffer : List ℕ) (u : Ui) (c : Ctrl)
    → u.unlocked ≡ false
    → IsLocked (edit calloc_ok second n buffer u c)
unfolding edit
edit-IsLocked calloc_ok clears_line n buffer u c h = hide-unlocked u ∙ h
edit-IsLocked calloc_ok escapes n buffer u c h = escape-unlocked u c ∙ h
edit-IsLocked calloc_ok ignores n buffer u c h = h
edit-IsLocked calloc_ok deletes_char n buffer u c h = backspace-IsLocked calloc_ok u c h
edit-IsLocked calloc_ok types n buffer u c h = text-IsLocked calloc_ok n buffer u c h

discard-unlocked : (u : Ui) → (discard_pending u).unlocked ≡ u.unlocked
unfolding discard_pending clear_input clear_pam_visible_input terminate clear_password_memory
discard-unlocked u = ground arith

act-IsLocked :
    (calloc_ok : Bool) (first : FirstSwitch) (second : SecondSwitch) (n : ℕ) (buffer : List ℕ)
    (u : Ui) (c : Ctrl)
    → u.unlocked ≡ false
    → IsLocked (act calloc_ok first second n buffer u c)
unfolding act
act-IsLocked calloc_ok completes second n buffer u c h = enter-unlocked u c h
act-IsLocked calloc_ok breaks second n buffer u c h = edit-IsLocked calloc_ok second n buffer u c h
act-IsLocked calloc_ok defaults second n buffer u c h =
    edit-IsLocked calloc_ok second n buffer (discard_pending u) c (discard-unlocked u ∙ h)

-- No key press unlocks the screen.
pub handle_key_press-IsLocked :
    (calloc_ok : Bool) (k : KeyPress) (u : Ui) (c : Ctrl)
    → u.unlocked ≡ false
    → IsLocked (handle_key_press calloc_ok k u c)
unfolding handle_key_press
handle_key_press-IsLocked calloc_ok k u c h = go (resolve k k.compose)
  where
    go :
        (r : Option (Keysym × ℕ × List ℕ))
        → IsLocked (elim r [
          | none ↦ some (u, c)
          | some (ksym, n, buffer) ↦
              act calloc_ok
                (first_switch ksym k.ctrl_active)
                (second_switch ksym k.ctrl_active)
                n
                buffer
                u
                c
        ])
    go none = h
    go (some (ksym, n, buffer)) =
        act-IsLocked calloc_ok (first_switch ksym k.ctrl_active) (second_switch ksym k.ctrl_active)
          n buffer u c h
