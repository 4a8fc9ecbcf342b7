-- ===== src/Drawing/Count.antt =====
-- The texts in the circle of unlock_indicator.c.
use i3lock.Prelude.{
  ℕ, suc, ◌+◌, ◌*◌, ◌/◌, ◌%◌, ◌-◌, ◌≤◌, ◌<◌, ◌≡◌, refl, ◌⊎◌, inl, inr, List, [], ◌∷◌, ◌++◌, Bool,
  true, false, ◌&&◌, Option, some, take, lt→ltb, le→ltb, arith,
}
use i3lock.Ui.{Ui, AuthState, auth_idle, auth_verify, auth_lock, auth_wrong, lock_failed}
use i3lock.Ui.Events.{has_text}
use i3lock.Drawing.{count, decimal, count_text, idle_text, circle_text, draw_unlock_circle}

-- The number that decimal digits write, behind the value of those before them.
abbrev pub decimal_value : ℕ → List ℕ → ℕ
decimal_value value [] = value
decimal_value value (b ∷ text) = decimal_value (10 * value + (b - 48)) text

decimal_small : (width n : ℕ) → n < 10 → decimal (suc width) n ≡ (48 + n) ∷ []
unfolding decimal
decimal_small width n h = rw (lt→ltb n 10 h) refl

decimal_large :
    (width n : ℕ) → 10 ≤ n → decimal (suc width) n ≡ decimal width (n / 10) ++ ((48 + n % 10) ∷ [])
unfolding decimal
decimal_large width n h = rw (le→ltb n 10 h) refl

decimal-three : (n : ℕ) → n ≤ 999 → decimal_value 0 (take 3 (decimal 10 n)) ≡ n
decimal-three n h =
    let one : (n < 10) ⊎ (10 ≤ n) = omega arith in
    let two : (n / 10 < 10) ⊎ (10 ≤ n / 10) = omega arith in
    elim one [
      | inl small ↦ rw (decimal_small 9 n small) (omega arith)
      | inr large ↦ elim two [
        | inl small ↦ rw (decimal_large 9 n large, decimal_small 8 (n / 10) small) (omega arith)
        | inr larger ↦
            let small : n / 10 / 10 < 10 = omega (arith, h) in
            rw
              (
                decimal_large 9 n large,
                decimal_large 8 (n / 10) larger,
                decimal_small 7 (n / 10 / 10) small,
              )
              (omega arith)
      ]
    ]

-- Where failures are shown, the indicator is idle and no input is echoed: for a count of failed attempts from 1
-- to 999, where the variable stops, the circle shows a text whose digits read as that count.
pub circle_counts_failures :
    (u : Ui)
    → u.pam_display.prompt_echo_on && has_text u.pam_display.visible_input ≡ false
    → 0 < u.failed_attempts
    → u.failed_attempts ≤ 999
    → (text : List ℕ) × (circle_text true auth_idle u ≡ some (count text))
      × (decimal_value 0 text ≡ u.failed_attempts)
unfolding circle_text idle_text count_text
circle_counts_failures u quiet some_failed few = (
  take 3 (decimal 10 u.failed_attempts),
  rw (quiet, lt→ltb 0 u.failed_attempts some_failed, le→ltb 999 u.failed_attempts few) refl,
  decimal-three u.failed_attempts few,
)

text_hidden :
    (show_failed_attempts : Bool) (state : AuthState) (u : Ui) (password visible_input : List ℕ)
    (input_position : ℕ)
    → u.pam_display.prompt_echo_on ≡ false
    → circle_text show_failed_attempts state (record u {
      password = password;
      input_position = input_position;
      pam_display = record (u.pam_display) { visible_input = visible_input };
    })
      ≡ circle_text show_failed_attempts state u
unfolding circle_text idle_text
text_hidden shows auth_verify u p v i quiet = refl
text_hidden shows auth_lock u p v i quiet = refl
text_hidden shows auth_wrong u p v i quiet = refl
text_hidden shows lock_failed u p v i quiet = refl
text_hidden shows auth_idle u p v i quiet = rw quiet refl

-- Without echo the circle is the same whatever the password, its length and the echoed input are, if the
-- state of the indicator is.
pub circle_hides_input :
    (show_failed_attempts show_keyboard_layout panel_visible : Bool)
    (modifier_string layout_string : Option (List ℕ)) (u : Ui) (password visible_input : List ℕ)
    (input_position : ℕ)
    → u.pam_display.prompt_echo_on ≡ false
    → draw_unlock_circle show_failed_attempts show_keyboard_layout panel_visible modifier_string
        layout_string
        (record u {
          password = password;
          input_position = input_position;
          pam_display = record (u.pam_display) { visible_input = visible_input };
        })
      ≡ draw_unlock_circle show_failed_attempts show_keyboard_layout panel_visible modifier_string
          layout_string u
unfolding draw_unlock_circle
circle_hides_input shows layout panel modifiers string u p v i quiet =
    rw (text_hidden shows u.auth_state u p v i quiet) refl
