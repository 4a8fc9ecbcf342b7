-- ===== src/Tests/Screen.antt =====
-- Tests of the lock screen's handlers.
use i3lock.Prelude.{◌≡◌, ◌↔◌, refl, [], ◌∷◌, true, false, some, replicate, arith}
use i3lock.Memory.{text_of}
use i3lock.Pam.{success}
use i3lock.Controller.{is_busy, start_auth}
use i3lock.Controller.Worker.{simple_event}
use i3lock.Utf8.{is_utf8_continuation_byte}
use i3lock.Utf8.Back.{IsChar}
use i3lock.Ui.{Ui}
use i3lock.Ui.Submit.{finish_hands_over_typed}
use i3lock.Ui.Auth.{is_verifying, start_attempt, finish_input}
use i3lock.Ui.Events.{handle_pam_event}
use i3lock.Ui.Keys.{KeyPress, key_other, not_accepted, resolve, on_text, on_backspace, store_text}
use i3lock.Ui.Buffer.{Sound}
use i3lock.Ui.Keys.Text.{Fits}
use i3lock.Ui.Typing.{typed, typed_then_erased}
use i3lock.Ui.Unlock.{unlocks_iff}
use i3lock.Ui.Refused.{refused_start_mutes_input}
use i3lock.Tests.{fresh_ctrl, fresh_ui, typed_ui, pw}

typed-Sound : Sound typed_ui
unfolding replicate is_utf8_continuation_byte
typed-Sound = record { size = refl; room = omega arith; lead = refl }

-- The key "a"
abbrev a_key : KeyPress
a_key = record {
  ksym = key_other 97;
  ctrl_active = false;
  compose = not_accepted;
  utf8_size = 2;
  utf8_buffer = 97 ∷ replicate 127 0;
}

unlocks_iff_example :
    ((handle_pam_event true (simple_event success 0) fresh_ui fresh_ctrl).0.unlocked ≡ true) ↔ (
      ((simple_event success 0).type ≡ success)
      × ((simple_event success 0).transaction_id ≡ fresh_ui.active_pam_transaction_id))
unlocks_iff_example = unlocks_iff true (simple_event success 0) fresh_ui fresh_ctrl refl

a_key-Fits : Fits (resolve a_key a_key.compose)
unfolding resolve replicate is_utf8_continuation_byte
a_key-Fits = record { short = omega arith; held = omega arith; lead = refl }

acute-IsChar : IsChar 195 (169 ∷ [])
unfolding is_utf8_continuation_byte
acute-IsChar = record { leads = refl; continues = (refl, tt); short = omega arith }

typed_then_erased_example :
    (v : Ui) × (w : Ui) × (on_text true 3 (195 ∷ (169 ∷ [])) typed_ui ≡ some v)
    × (on_backspace true v ≡ some w)
    × (typed w ≡ pw)
typed_then_erased_example =
    typed_then_erased true 195 (169 ∷ []) [] typed_ui typed-Sound acute-IsChar (omega arith)

finish_hands_over_typed_example : text_of (finish_input typed_ui fresh_ctrl).1.deferred_input ≡ pw
unfolding is_busy is_verifying replicate
finish_hands_over_typed_example =
    finish_hands_over_typed typed_ui fresh_ctrl typed-Sound (omega arith, (omega arith, tt)) refl
      refl refl refl refl refl refl

refused_start_mutes_input_example :
    ((start_attempt typed_ui (record fresh_ctrl { fatal_error = true })).0.input_position
      ≡ typed_ui.input_position)
    × (text_of
          (store_text 2 pw
            (start_attempt typed_ui (record fresh_ctrl { fatal_error = true })).0).password
        ≡ [])
unfolding start_auth is_busy
refused_start_mutes_input_example =
    refused_start_mutes_input typed_ui (record fresh_ctrl { fatal_error = true }) 2 pw refl
      (omega arith) (omega arith) refl
