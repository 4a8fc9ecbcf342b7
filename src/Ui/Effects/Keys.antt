-- ===== src/Ui/Effects/Keys.antt =====
-- `handle_key_press` of i3lock.c, for what it changes outside the input and the display.
use i3lock.Prelude.{
  ℕ, ◌+◌, ◌-◌, ◌≡◌, refl, ◌∙◌, Bool, true, false, Option, none, some, List, if◌then◌else◌, ◌==◌,
  ◌||◌, leb, ltb,
}
use i3lock.Utf8.{u8_dec}
use i3lock.Controller.{Ctrl}
use i3lock.World.{cancels, apply}
use i3lock.World.Calls.{no_call, one_more}
use i3lock.Ui.{
  Ui, password_size, redraw_screen, terminate, clear_pam_display_text, update_pam_visible_input,
  skip_without_validation,
}
use i3lock.Ui.Auth.{is_wrong, finish_input}
use i3lock.Ui.Events.{forget_transaction}
use i3lock.Ui.Keys.{
  Keysym, KeyPress, resolve, first_switch, second_switch, SecondSwitch, FirstSwitch, completes,
  breaks, defaults, clears_line, escapes, ignores, deletes_char, types, handle_key_press, act, edit,
  on_enter, on_escape, hide_input, on_backspace, on_text, cut_input, on_empty_backspace, show_typed,
  store_text, discard_pending, cancel_transaction, with_ctrl, buffer_size,
}
use i3lock.Ui.Effects.{
  core, Kept, KeptAll, core-Kept, before-Kept, after-Kept, if-Kept, clear_input-core, hide-core,
  visible-core, discard-core, show_typed-core, bool_clash, split-Kept, finish_input-Kept,
}

on_enter-Kept : (u : Ui) (c : Ctrl) → Kept u c (on_enter u c)
unfolding on_enter
on_enter-Kept u c = if-Kept (is_wrong u.auth_state) u c _ _ (core-Kept u _ c refl) (
    if-Kept (skip_without_validation u) u c _ _ (core-Kept u _ c (clear_input-core u))
      (after-Kept u (finish_input u c).0 _ c (finish_input u c).1 refl (finish_input-Kept u c)))

cancel-Kept :
    (u : Ui) (c : Ctrl)
    → (u.active_pam_transaction_id == 0) ≡ false
    → Kept u c (cancel_transaction u c)
unfolding cancel_transaction forget_transaction clear_pam_display_text apply
cancel-Kept u c busy = record {
  lock = refl;
  start = refl;
  failures = refl;
  calls = one_more no_call (cancels u.active_pam_transaction_id);
  sleeps = λ d. absurd (bool_clash busy (rw d.no_transaction refl));
}

on_escape-Kept : (u : Ui) (c : Ctrl) → Kept u c (on_escape u c)
unfolding on_escape
on_escape-Kept u c =
    let (dropped, d) = cancel_transaction u c in
    split-Kept (u.active_pam_transaction_id == 0) u c _ _
      (λ _. core-Kept u (hide_input u) c (hide-core u))
      (λ busy.
        after-Kept u dropped (hide_input dropped) c d (hide-core dropped) (cancel-Kept u c busy))

backspace-KeptAll :
    (calloc_ok : Bool) (u : Ui) (c : Ctrl) → KeptAll u c (with_ctrl c (on_backspace calloc_ok u))
unfolding on_backspace on_empty_backspace redraw_screen cut_input terminate
backspace-KeptAll calloc_ok u c = go (u.input_position == 0) (u8_dec u.password u.input_position)
  where
    go :
        (b : Bool) (o : Option ℕ)
        → KeptAll u c (
            with_ctrl c (
              if b
              then some (on_empty_backspace calloc_ok u)
              else elim o [ none ↦ none | some position ↦ some (cut_input calloc_ok position u) ]))
    go true o = core-Kept u _ c refl
    go false none = tt
    go false (some position) =
        core-Kept u (cut_input calloc_ok position u) c
          (visible-core (terminate (record u { input_position = position })))

text-KeptAll :
    (calloc_ok : Bool) (n : ℕ) (buffer : List ℕ) (u : Ui) (c : Ctrl)
    → KeptAll u c (with_ctrl c (on_text calloc_ok n buffer u))
unfolding on_text store_text terminate
text-KeptAll calloc_ok n buffer u c =
    go (leb password_size (u.input_position + 8) || ltb n 2)
      (ltb buffer_size (n - 1) || leb password_size (u.input_position + (n - 1)))
  where
    go :
        (full outside : Bool)
        → KeptAll u c (
            with_ctrl c (
              if full
              then some u
              else if outside
              then none
              else some
                  (show_typed calloc_ok (update_pam_visible_input (store_text (n - 1) buffer u)))))
    go true outside = core-Kept u u c refl
    go false true = tt
    go false false =
        let stored = store_text (n - 1) buffer u in
        core-Kept u _ c
          (show_typed-core calloc_ok (update_pam_visible_input stored) ∙ visible-core stored)

edit-KeptAll :
    (calloc_ok : Bool) (second : SecondSwitch) (n : ℕ) (buffer : List ℕ) (u : Ui) (c : Ctrl)
    → KeptAll u c (edit calloc_ok second n buffer u c)
unfolding edit
edit-KeptAll calloc_ok clears_line n buffer u c = core-Kept u (hide_input u) c (hide-core u)
edit-KeptAll calloc_ok escapes n buffer u c = on_escape-Kept u c
edit-KeptAll calloc_ok ignores n buffer u c = core-Kept u u c refl
edit-KeptAll calloc_ok deletes_char n buffer u c = backspace-KeptAll calloc_ok u c
edit-KeptAll calloc_ok types n buffer u c = text-KeptAll calloc_ok n buffer u c

before-KeptAll :
    (u v : Ui) (c : Ctrl) (r : Option (Ui × Ctrl)) → core v ≡ core u → KeptAll v c r → KeptAll u c r
before-KeptAll u v c none e k = tt
before-KeptAll u v c (some r) e k = before-Kept u v c r e k

act-KeptAll :
    (calloc_ok : Bool) (first : FirstSwitch) (second : SecondSwitch) (n : ℕ) (buffer : List ℕ)
    (u : Ui) (c : Ctrl)
    → KeptAll u c (act calloc_ok first second n buffer u c)
unfolding act
act-KeptAll calloc_ok completes second n buffer u c = on_enter-Kept u c
act-KeptAll calloc_ok breaks second n buffer u c = edit-KeptAll calloc_ok second n buffer u c
act-KeptAll calloc_ok defaults second n buffer u c =
    before-KeptAll u (discard_pending u) c _ (discard-core u)
      (edit-KeptAll calloc_ok second n buffer (discard_pending u) c)

pub handle_key_press-KeptAll :
    (calloc_ok : Bool) (k : KeyPress) (u : Ui) (c : Ctrl)
    → KeptAll u c (handle_key_press calloc_ok k u c)
unfolding handle_key_press
handle_key_press-KeptAll calloc_ok k u c = go (resolve k k.compose)
  where
    go :
        (r : Option (Keysym × ℕ × List ℕ))
        → KeptAll u c (elim r [
          | none ↦ some (u, c)
          | some (ksym, n, buffer) ↦
              act calloc_ok
                (first_switch ksym k.ctrl_active)
                (second_switch ksym k.ctrl_active)
                n
                buffer
                u
                c
        ])
    go none = core-Kept u u c refl
    go (some (ksym, n, buffer)) =
        act-KeptAll calloc_ok (first_switch ksym k.ctrl_active) (second_switch ksym k.ctrl_active) n
          buffer u c
