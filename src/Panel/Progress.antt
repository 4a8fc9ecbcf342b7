-- ===== src/Panel/Progress.antt =====
-- How far `wrap_next_text_line` of unlock_indicator.c gets with each line.
use i3lock.Prelude.{
  ℕ, zero, suc, ◌+◌, ◌-◌, ◌≤◌, ◌<◌, ◌≡◌, inl, inr, ◌⊎◌, List, Bool, false, leb, ◌==◌, if◌then◌else◌,
  arith, lt→ltb, Bool-cases, Option, none, some,
}
use i3lock.Memory.{byte_at}
use i3lock.Utf8.{utf8_next_char_boundary}
use i3lock.Utf8.Boundary.{next_bounds}
use i3lock.Panel.{
  newline, find_newline, skip_spaces, measure, break_line, text_range_fits, wrap_next_text_line,
  wrapped, is_ascii_wrap_space,
}

find_bounds :
    (text : List ℕ) (pos left : ℕ)
    → (pos ≤ find_newline text pos left) × (find_newline text pos left ≤ pos + left)
unfolding find_newline
find_bounds text pos zero = omega arith
find_bounds text pos (suc left) = ground (arith, find_bounds text (suc pos) left)

find_further :
    (text : List ℕ) (pos left : ℕ)
    → 0 < left
    → (byte_at text pos == newline) ≡ false
    → pos < find_newline text pos left
unfolding find_newline
find_further text pos zero h k = absurd (omega arith)
find_further text pos (suc left) h k =
    rw (k, find_newline) (omega (arith, find_bounds text (suc pos) left))

skip_bounds :
    (text : List ℕ) (pos left : ℕ)
    → (pos ≤ skip_spaces text pos left) × (skip_spaces text pos left ≤ pos + left)
unfolding skip_spaces
skip_bounds text pos zero = omega arith
skip_bounds text pos (suc left) = ground (arith, skip_bounds text (suc pos) left)

module _ (fits : List ℕ → Bool) where
  -- What the measuring loop finds lies in the paragraph.
  abbrev IsMeasured : ℕ → ℕ → ℕ × ℕ → Type 0
  IsMeasured start end (fitting, break) =
      (start ≤ fitting) × (fitting ≤ end) × (start ≤ break) × (break < end)

  -- The same of a measurement that ends, if it does.
  AllMeasured : ℕ → ℕ → Option (ℕ × ℕ) → Type 0
  AllMeasured start end none = Unit
  AllMeasured start end (some m) = IsMeasured start end m

  measure-AllMeasured :
      (fuel : ℕ) (text : List ℕ) (start end pos break : ℕ)
      → IsMeasured start end (pos, break)
      → AllMeasured start end (measure fits fuel text start end pos break)
  unfolding measure AllMeasured
  measure-AllMeasured zero text start end pos break h = tt
  measure-AllMeasured (suc fuel) text start end pos break h = elim (Bool-cases (leb end pos)) [
    | inl done ↦ rw (done, measure) h
    | inr more ↦
        elim (Bool-cases (text_range_fits fits text start (utf8_next_char_boundary text pos end))) [
          | inr wide ↦ rw (more, wide, measure) h
          | inl narrow ↦
              rw (more, narrow, measure)
                (measure-AllMeasured fuel text start end (utf8_next_char_boundary text pos end)
                  (if is_ascii_wrap_space (byte_at text pos) then pos else break)
                  (ground (arith, h, next_bounds text pos end)))
        ]
  ]

  break_progress :
      (text : List ℕ) (len start end : ℕ) (m : ℕ × ℕ)
      → start < end
      → end ≤ len
      → IsMeasured start end m
      → (start < (break_line text len start end m).1) × ((break_line text len start end m).1 ≤ len)
  unfolding break_line
  break_progress text len start end (fitting, break) h k m = ground (
    arith,
    m,
    h,
    k,
    skip_bounds text (break + 1) (end - (break + 1)),
    next_bounds text start end h,
  )

  -- A loop that has ended, because it has reached the end or because one character more does not fit.
  unfoldable pub HasEnded : List ℕ → ℕ → ℕ → Option (ℕ × ℕ) → Type 0
  HasEnded text start end none = ⊥
  HasEnded text start end (some (fitting, break)) =
      (end ≤ fitting)
      ⊎ (text_range_fits fits text start (utf8_next_char_boundary text fitting end) ≡ false)

  -- With more fuel than bytes are left, the measuring loop ends because the paragraph does or because one
  -- character more does not fit.
  pub measure_ends :
      (fuel : ℕ) (text : List ℕ) (start end pos break : ℕ)
      → pos ≤ end
      → end < pos + fuel
      → HasEnded text start end (measure fits fuel text start end pos break)
  unfolding measure HasEnded
  measure_ends zero text start end pos break k h = absurd (omega arith)
  measure_ends (suc fuel) text start end pos break k h = elim (Bool-cases (leb end pos)) [
    | inl done ↦ rw (done, measure) (inl (ground (arith, done)))
    | inr more ↦
        let next = utf8_next_char_boundary text pos end in
        let inside : pos < end = ground (arith, more) in
        elim (Bool-cases (text_range_fits fits text start next)) [
          | inr wide ↦ rw (more, wide, measure) (inr wide)
          | inl narrow ↦
              rw (more, narrow, measure)
                (measure_ends fuel text start end next
                  (if is_ascii_wrap_space (byte_at text pos) then pos else break)
                  (omega (arith, next_bounds text pos end inside))
                  (omega (arith, next_bounds text pos end inside)))
        ]
  ]

  wrapped_progress :
      (text : List ℕ) (len start size end : ℕ) (m : Option (ℕ × ℕ))
      → start < end
      → end ≤ len
      → AllMeasured start end m
      → HasEnded text start end m
      → (start < (wrapped fits text len start size end m).0)
        × ((wrapped fits text len start size end m).0 ≤ len)
  unfolding wrapped AllMeasured HasEnded
  wrapped_progress text len start size end none h k m ends = absurd ends
  wrapped_progress text len start size end (some m) h k bounded ends =
      break_progress text len start end m h k bounded

  -- Wherever in the text a line begins, the next one begins further on and not past the end.
  pub wrap_progress :
      (text : List ℕ) (len start size : ℕ)
      → start < len
      → (start < (wrap_next_text_line fits text len start size).0)
        × ((wrap_next_text_line fits text len start size).0 ≤ len)
  unfolding wrap_next_text_line
  wrap_progress text len start size h = elim (Bool-cases (byte_at text start == newline)) [
    | inl empty ↦ rw (lt→ltb start len h, empty) (omega arith)
    | inr filled ↦
        let end = find_newline text start (len - start) in
        let found = find_bounds text start (len - start) in
        let further = find_further text start (len - start) (omega arith) filled in
        rw (lt→ltb start len h, filled)
          (wrapped_progress text len start size end
            (measure fits (end - start + 1) text start end start start) further
            (omega (arith, found))
            (measure-AllMeasured (end - start + 1) text start end start start
              (omega arith, omega (arith, further), omega arith, further))
            (measure_ends (end - start + 1) text start end start start (omega (arith, further))
              (omega (arith, further))))
  ]
