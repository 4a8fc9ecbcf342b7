-- ===== src/Ui/Keys/Text.antt =====
-- The accesses of `handle_key_press` of i3lock.c to its buffers, for texts that fit the margin.
use i3lock.Prelude.{
  ℕ, zero, suc, ◌+◌, ◌-◌, ◌≤◌, ◌<◌, ◌≡◌, ◌≢◌, refl, inl, inr, List, [], ◌∷◌, ◌++◌, Bool, true,
  false, ◌||◌, Option, none, some, leb, ltb, ◌==◌, length, take, drop, length-append, length-take,
  length-drop, arith, Bool-cases,
}
use i3lock.Memory.{byte_at}
use i3lock.Utf8.{is_utf8_continuation_byte, isutf, u8_back, u8_dec}
use i3lock.Controller.{Ctrl}
use i3lock.Ui.{
  Ui, skip_without_validation, password_size, terminate, clear_input, clear_indicator,
  clear_pam_visible_input, update_pam_visible_input,
}
use i3lock.Ui.Auth.{is_wrong, finish_input}
use i3lock.Ui.Buffer.{
  IsSound, Sound, set-IsSound, clear_input-Sound, finish_input-Sound, if-Sound, if_ui-Sound,
}
use i3lock.Ui.Keys.{
  Keysym, KeyPress, resolve, FirstSwitch, completes, breaks, defaults, first_switch, SecondSwitch,
  clears_line, escapes, ignores, deletes_char, types, second_switch, on_enter, discard_pending,
  cancel_transaction, hide_input, on_escape, cut_input, on_backspace, store_text, show_typed,
  buffer_size, on_text, with_ctrl, edit, act, handle_key_press,
}

-- The handler returned, with the buffer in order.
abbrev pub Safe : Option (Ui × Ctrl) → Type 0
Safe none = ⊥
Safe (some (u, c)) = Sound u

abbrev SafeUi : Option Ui → Type 0
SafeUi none = ⊥
SafeUi (some u) = Sound u

-- A text of `n - 1` bytes that fits the margin of eight bytes, and begins with a character.
pub record IsFitting (n : ℕ) (buffer : List ℕ) : Type 0 where
  pub short : n ≤ 9
  pub held : n - 1 ≤ length buffer
  pub lead : is_utf8_continuation_byte (byte_at buffer 0) ≡ false

back_bounds :
    (tries : ℕ) (p : List ℕ) (i : ℕ)
    → is_utf8_continuation_byte (byte_at p 0) ≡ false
    → (j : ℕ) × (u8_back (suc tries) p (suc i) ≡ some j) × (j ≤ i)
unfolding u8_back isutf
back_bounds tries p zero h = (0, rw h, omega arith)
back_bounds zero p (suc i) h = elim (Bool-cases (is_utf8_continuation_byte (byte_at p (suc i)))) [
  | inr lead ↦ (suc i, rw lead, omega arith)
  | inl inner ↦ (i, rw inner, omega arith)
]
back_bounds (suc tries) p (suc i) h =
    elim (Bool-cases (is_utf8_continuation_byte (byte_at p (suc i)))) [
      | inr lead ↦ (suc i, rw lead, omega arith)
      | inl inner ↦ let (j, e, le) = back_bounds tries p i h in (j, rw inner e, omega arith)
    ]

-- On a sound buffer stepping back from a position stays inside.
pub u8_dec_bounds :
    (p : List ℕ) (i : ℕ)
    → is_utf8_continuation_byte (byte_at p 0) ≡ false
    → i ≢ 0
    → (j : ℕ) × (u8_dec p i ≡ some j) × (j < i)
unfolding u8_dec
u8_dec_bounds p zero h k = absurd (k refl)
u8_dec_bounds p (suc i) h k = let (j, e, le) = back_bounds 2 p i h in (j, e, omega arith)

spliced_lead :
    (p buffer : List ℕ) (i size : ℕ)
    → is_utf8_continuation_byte (byte_at p 0) ≡ false
    → is_utf8_continuation_byte (byte_at buffer 0) ≡ false
    → 0 < size
    → size ≤ length buffer
    → i < length p
    → is_utf8_continuation_byte (byte_at (take i p ++ (take size buffer ++ drop (i + size) p)) 0)
      ≡ false
spliced_lead [] buffer i size h k pos le lt = absurd (omega arith)
spliced_lead (b ∷ p) buffer (suc i) size h k pos le lt = h
spliced_lead (b ∷ p) buffer zero zero h k pos le lt = absurd (omega arith)
spliced_lead (b ∷ p) [] zero (suc size) h k pos le lt = absurd (omega arith)
spliced_lead (b ∷ p) (x ∷ buffer) zero (suc size) h k pos le lt = k

store-Sound :
    (size : ℕ) (buffer : List ℕ) (u : Ui)
    → Sound u
    → 0 < size
    → size ≤ length buffer
    → u.input_position + size < password_size
    → is_utf8_continuation_byte (byte_at buffer 0) ≡ false
    → Sound (store_text size buffer u)
unfolding store_text
store-Sound size buffer u s pos le lt lead = set-IsSound spliced at at whole lt
  where
    at : ℕ
    at = u.input_position + size

    spliced : List ℕ
    spliced = take u.input_position u.password ++ (take size buffer ++ drop at u.password)

    whole : IsSound spliced at
    whole = record {
      size = omega (
        arith,
        s.size,
        length-append (take u.input_position u.password) (take size buffer ++ drop at u.password),
        length-append (take size buffer) (drop at u.password),
        length-take u.input_position u.password,
        length-take size buffer,
        length-drop at u.password,
      );
      room = lt;
      lead =
          spliced_lead u.password buffer u.input_position size s.lead lead pos le
            (omega (arith, s.size, s.room));
    }

visible-Sound : (u : Ui) → Sound u → Sound (update_pam_visible_input u)
unfolding update_pam_visible_input
visible-Sound u s = if_ui-Sound u.pam_display.prompt_echo_on _ (clear_pam_visible_input u) s s

typed-Sound : (calloc_ok : Bool) (u : Ui) → Sound u → Sound (show_typed calloc_ok u)
unfolding show_typed
typed-Sound calloc_ok u s = if_ui-Sound u.unlock_indicator _ u s s

text-Safe :
    (calloc_ok : Bool) (n : ℕ) (buffer : List ℕ) (u : Ui)
    → IsFitting n buffer
    → Sound u
    → SafeUi (on_text calloc_ok n buffer u)
unfolding on_text
text-Safe calloc_ok n buffer u fit s =
    elim (Bool-cases (leb password_size (u.input_position + 8) || ltb n 2)) [
      | inl full ↦ rw (full, on_text) s
      | inr room ↦
          let inside : (ltb buffer_size (n - 1) || leb password_size (u.input_position + (n - 1)))
              ≡ false =
            ground (arith, fit.short, s.room) in
          rw (room, inside, on_text)
            (typed-Sound calloc_ok (update_pam_visible_input (store_text (n - 1) buffer u)) (
              visible-Sound (store_text (n - 1) buffer u) (
                store-Sound (n - 1) buffer u s (ground arith) fit.held (ground (arith, fit.short))
                  fit.lead)))
    ]

cut-Sound :
    (calloc_ok : Bool) (position : ℕ) (u : Ui)
    → Sound u
    → position < password_size
    → Sound (cut_input calloc_ok position u)
unfolding cut_input
cut-Sound calloc_ok position u s lt =
    visible-Sound (terminate (record u { input_position = position }))
      (unfold terminate in set-IsSound u.password u.input_position position s lt)

backspace-Safe : (calloc_ok : Bool) (u : Ui) → Sound u → SafeUi (on_backspace calloc_ok u)
unfolding on_backspace
backspace-Safe calloc_ok u s = elim (Bool-cases (u.input_position == 0)) [
  | inl empty ↦ rw (empty, on_backspace) s
  | inr some_text ↦
      let (j, e, lt) = u8_dec_bounds u.password u.input_position s.lead (ground arith) in
      rw (some_text, e, on_backspace) (cut-Sound calloc_ok j u s (omega (arith, s.room)))
]

hide-Sound : (u : Ui) → Sound u → Sound (hide_input u)
unfolding hide_input
hide-Sound u s =
    if_ui-Sound u.unlock_indicator (clear_indicator (clear_input u)) (clear_input u)
      (clear_input-Sound u s) (clear_input-Sound u s)

escape-Sound : (u : Ui) (c : Ctrl) → Sound u → Sound (on_escape u c).0
unfolding on_escape
escape-Sound u c s =
    if-Sound (u.active_pam_transaction_id == 0) (hide_input u, c)
      (hide_input (cancel_transaction u c).0, (cancel_transaction u c).1) (hide-Sound u s)
      (hide-Sound (cancel_transaction u c).0 s)

enter-Sound : (u : Ui) (c : Ctrl) → Sound u → Sound (on_enter u c).0
unfolding on_enter
enter-Sound u c s =
    let done = (finish_input u c).0 in
    if-Sound (is_wrong u.auth_state) (record u { retry_verification = true }, c) _ s
      (if-Sound (skip_without_validation u) (clear_input u, c)
        (record done { skip_repeated_empty_password = true }, (finish_input u c).1)
        (clear_input-Sound u s) (finish_input-Sound u c s))

discard-Sound : (u : Ui) → Sound u → Sound (discard_pending u)
unfolding discard_pending
discard-Sound u s =
    let fresh = record u { skip_repeated_empty_password = false } in
    let dropped = record fresh { retry_verification = false } in
    if_ui-Sound u.retry_verification (clear_input dropped) fresh (clear_input-Sound dropped s) s

ctrl-Safe : (c : Ctrl) (r : Option Ui) → SafeUi r → Safe (with_ctrl c r)
ctrl-Safe c none h = h
ctrl-Safe c (some u) h = h

edit-Safe :
    (calloc_ok : Bool) (second : SecondSwitch) (n : ℕ) (buffer : List ℕ) (u : Ui) (c : Ctrl)
    → IsFitting n buffer
    → Sound u
    → Safe (edit calloc_ok second n buffer u c)
unfolding edit
edit-Safe calloc_ok clears_line n buffer u c fit s = hide-Sound u s
edit-Safe calloc_ok escapes n buffer u c fit s = escape-Sound u c s
edit-Safe calloc_ok ignores n buffer u c fit s = s
edit-Safe calloc_ok deletes_char n buffer u c fit s = ctrl-Safe c _ (backspace-Safe calloc_ok u s)
edit-Safe calloc_ok types n buffer u c fit s = ctrl-Safe c _ (text-Safe calloc_ok n buffer u fit s)

act-Safe :
    (calloc_ok : Bool) (first : FirstSwitch) (second : SecondSwitch) (n : ℕ) (buffer : List ℕ)
    (u : Ui) (c : Ctrl)
    → IsFitting n buffer
    → Sound u
    → Safe (act calloc_ok first second n buffer u c)
unfolding act
act-Safe calloc_ok completes second n buffer u c fit s = enter-Sound u c s
act-Safe calloc_ok breaks second n buffer u c fit s = edit-Safe calloc_ok second n buffer u c fit s
act-Safe calloc_ok defaults second n buffer u c fit s =
    edit-Safe calloc_ok second n buffer (discard_pending u) c fit (discard-Sound u s)

-- The text that the handler would store for the key press, if any.
abbrev pub Fits : Option (Keysym × ℕ × List ℕ) → Type 0
Fits none = Unit {0}
Fits (some (_, n, buffer)) = IsFitting n buffer

-- From a sound buffer, a key press whose text has at most eight bytes and begins with a character makes no access outside
-- the buffers, and leaves the input position inside the password buffer.
pub handle_key_press-Safe :
    (calloc_ok : Bool) (k : KeyPress) (u : Ui) (c : Ctrl)
    → Fits (resolve k k.compose)
    → Sound u
    → Safe (handle_key_press calloc_ok k u c)
unfolding handle_key_press
handle_key_press-Safe calloc_ok k u c fit s = go (resolve k k.compose) fit
  where
    go :
        (r : Option (Keysym × ℕ × List ℕ))
        → Fits r
        → Safe (elim r [
          | none ↦ some (u, c)
          | some (ksym, n, buffer) ↦
              act calloc_ok
                (first_switch ksym k.ctrl_active)
                (second_switch ksym k.ctrl_active)
                n
                buffer
                u
                c
        ])
    go none h = s
    go (some (ksym, n, buffer)) h =
        act-Safe calloc_ok (first_switch ksym k.ctrl_active) (second_switch ksym k.ctrl_active) n
          buffer u c h s
