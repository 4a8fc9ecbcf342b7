-- ===== src/Tests/Panel.antt =====
-- Tests of the panel, the keyboard's texts and the image reader. A text fits here if it has at most four bytes.
use i3lock.Prelude.{
  ℕ, ◌≡◌, ◌≤◌, ◌<◌, refl, List, [], ◌∷◌, Bool, true, Option, none, some, leb, length, arith,
}
use i3lock.Ui.{Display}
use i3lock.Panel.{measure, truncate_text_to_width, wrap_next_text_line}
use i3lock.Panel.Progress.{wrap_progress, HasEnded, measure_ends}
use i3lock.Panel.Truncated.{IsNarrow, truncate_text_to_width-IsNarrow}
use i3lock.Keyboard.{check_modifier_keys}
use i3lock.Keyboard.Modifiers.{locks, check_modifier_keys-locks}
use i3lock.Tests.{fresh_ui}

abbrev four_fit : List ℕ → Bool
four_fit text = leb (length text) 4

-- "pw pw"
abbrev two_words : List ℕ
two_words = 112 ∷ 119 ∷ 32 ∷ 112 ∷ 119 ∷ []

wrap_progress_example :
    (0 < (wrap_next_text_line four_fit two_words 5 0 1028).0)
    × ((wrap_next_text_line four_fit two_words 5 0 1028).0 ≤ 5)
wrap_progress_example = wrap_progress four_fit two_words 5 0 1028 (omega arith)

measure_ends_example : HasEnded four_fit two_words 0 5 (measure four_fit 6 two_words 0 5 0 0)
measure_ends_example = measure_ends four_fit 6 two_words 0 5 0 0 (omega arith) (omega arith)

abbrev asking : Display
asking = record (fresh_ui.pam_display) { status_text = two_words; prompt_text = two_words }

truncate_text_to_width-IsNarrow_example :
    IsNarrow four_fit 259 (truncate_text_to_width four_fit [] 260 two_words)
truncate_text_to_width-IsNarrow_example =
    truncate_text_to_width-IsNarrow four_fit [] 260 two_words refl (omega arith)

-- "éé"
abbrev acutes : List ℕ
acutes = 195 ∷ 169 ∷ 195 ∷ 169 ∷ []

-- "Shift" is active, and so is "Lock".
abbrev mods : List (Bool × Option (List ℕ))
mods = (true, some (83 ∷ 104 ∷ 105 ∷ 102 ∷ 116 ∷ [])) ∷ (true, some (76 ∷ 111 ∷ 99 ∷ 107 ∷ [])) ∷ []

check_modifier_keys-locks_example :
    check_modifier_keys true (76 ∷ 111 ∷ 99 ∷ 107 ∷ []) [] mods none
    ≡ check_modifier_keys true
        (76 ∷ 111 ∷ 99 ∷ 107 ∷ [])
        []
        (locks (76 ∷ 111 ∷ 99 ∷ 107 ∷ []) [] mods)
        none
check_modifier_keys-locks_example =
    check_modifier_keys-locks true (76 ∷ 111 ∷ 99 ∷ 107 ∷ []) [] mods none
