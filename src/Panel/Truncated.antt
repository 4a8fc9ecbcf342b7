-- ===== src/Panel/Truncated.antt =====
-- `truncate_text_to_width` of unlock_indicator.c: its loop ends with a text that fits.

use i3lock.Prelude.{
  ℕ, zero, suc, ◌+◌, ◌-◌, ◌≤◌, ◌<◌, ◌≡◌, inl, inr, List, ◌++◌, Bool, true, false, Option, none,
  some, leb, ltb, ◌==◌, if◌then◌else◌, length, take, length-append, length-take, arith, Bool-cases,
}
use i3lock.Memory.{strlen, text_of}
use i3lock.Utf8.{utf8_truncate_to_char_boundary}
use i3lock.Utf8.Boundary.{truncate-le}
use i3lock.Panel.{ellipsis, shorten, truncate_text_to_width}

-- A result that is there, fits, and has at most `most` bytes.
abbrev pub IsNarrow : (List ℕ → Bool) → ℕ → Option (List ℕ) → Type 0
IsNarrow fits most none = ⊥
IsNarrow fits most (some out) = (fits out ≡ true) × (length out ≤ most)

wider :
    (fits : List ℕ → Bool) (r : Option (List ℕ)) (n m : ℕ)
    → n ≤ m
    → IsNarrow fits n r
    → IsNarrow fits m r
wider fits none n m h k = k
wider fits (some out) n m h k = (k.0, omega (arith, k.1))

module _ (fits : List ℕ → Bool) where
  shorten-IsNarrow :
      (fuel : ℕ) (text : List ℕ) (len : ℕ)
      → fits ellipsis ≡ true
      → len < fuel
      → IsNarrow fits (len + 3) (shorten fits fuel text len)
  unfolding shorten
  shorten-IsNarrow zero text len dots h = absurd (omega arith)
  shorten-IsNarrow (suc fuel) text zero dots h = (dots, omega arith)
  shorten-IsNarrow (suc fuel) text (suc len) dots h =
      let cut = utf8_truncate_to_char_boundary text (suc len) in
      let within = truncate-le text (suc len) in
      let some_text : (suc len == 0) ≡ false = ground arith in
      elim (Bool-cases (fits (take cut text ++ ellipsis))) [
        | inl narrow ↦
            rw (some_text, narrow)
              (
                narrow,
                omega (arith, length-append (take cut text) ellipsis, length-take cut text, within),
              )
        | inr wide ↦ elim (Bool-cases (cut == 0)) [
          | inl empty ↦
              let none_kept : cut ≡ 0 = ground (arith, empty) in
              let same : fits ellipsis ≡ false = rw none_kept at wide in absurd (cc (same, dots))
          | inr more ↦
              rw (some_text, wide, more)
                (wider fits _ (cut - 1 + 3) (suc len + 3) (omega (arith, within))
                  (shorten-IsNarrow fuel text (cut - 1) dots (omega (arith, within))))
        ]
      ]

  -- If the ellipsis fits, then for a buffer of more than four bytes the loop ends, the result fits both the
  -- width and the buffer, and no access is outside the text.
  pub truncate_text_to_width-IsNarrow :
      (output : List ℕ) (output_size : ℕ) (text : List ℕ)
      → fits ellipsis ≡ true
      → 4 < output_size
      → IsNarrow fits (output_size - 1) (truncate_text_to_width fits output output_size text)
  unfolding truncate_text_to_width
  truncate_text_to_width-IsNarrow output size text dots room =
      let some_room : (size == 0) ≡ false = ground arith in
      let enough : leb size 4 ≡ false = ground arith in
      let len : ℕ = if ltb (size - 4) (strlen text) then size - 4 else strlen text in
      let short : len + 3 ≤ size - 1 = ground arith in
      elim (Bool-cases (fits (take (size - 1) (text_of text)))) [
        | inl narrow ↦
            rw (some_room, narrow) (narrow, omega (arith, length-take (size - 1) (text_of text)))
        | inr wide ↦
            rw (some_room, wide, enough)
              (wider fits _ (len + 3) (size - 1) short
                (shorten-IsNarrow (len + 1) text len dots (omega arith)))
      ]
