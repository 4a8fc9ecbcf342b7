-- ===== src/Utf8/Boundary.antt =====
-- Where `utf8_truncate_to_char_boundary` and `utf8_next_char_boundary` stop.
use i3lock.Prelude.{
  ℕ, zero, suc, ◌+◌, ◌-◌, ◌≤◌, ◌<◌, ◌≡◌, refl, ◌⊎◌, inl, inr, List, true, false, arith, Bool-cases,
}
use native.Mathlib.Decide.{dec_le}
use i3lock.Memory.{byte_at}
use i3lock.Utf8.{
  is_utf8_continuation_byte, utf8_truncate_to_char_boundary, skip_continuation,
  utf8_next_char_boundary,
}

-- A position where a character may begin.
abbrev pub IsBoundary : List ℕ → ℕ → Type 0
IsBoundary text i = is_utf8_continuation_byte (byte_at text i) ≡ false

-- The cut is at most `len`, is 0 or a boundary, and no boundary between it and `len` is passed over.
pub record IsCut (text : List ℕ) (len cut : ℕ) : Type 0 where
  pub within : cut ≤ len
  pub starts : (cut ≡ 0) ⊎ IsBoundary text cut
  pub largest : (i : ℕ) → cut < i → i ≤ len → is_utf8_continuation_byte (byte_at text i) ≡ true

-- The truncation cuts at the largest character boundary up to `len`, or at 0.
pub truncate-IsCut :
    (text : List ℕ) (len : ℕ) → IsCut text len (utf8_truncate_to_char_boundary text len)
unfolding utf8_truncate_to_char_boundary
truncate-IsCut text zero = record {
  within = omega arith;
  starts = inl refl;
  largest = λ i h k. absurd (omega arith);
}
truncate-IsCut text (suc len) =
    elim (Bool-cases (is_utf8_continuation_byte (byte_at text (suc len)))) [
      | inl more ↦
          let shorter = truncate-IsCut text len in
          rw more (record {
            within = omega (arith, shorter.within);
            starts = shorter.starts;
            largest = λ i h k. elim (dec_le i len) [
              | yes below ↦ shorter.largest i h below
              | no above ↦ let e : i ≡ suc len = omega arith in rw e more
            ];
          })
      | inr stop ↦ rw stop (record {
        within = omega arith;
        starts = inr stop;
        largest = λ i h k. absurd (omega arith);
      })
    ]

pub truncate-le : (text : List ℕ) (len : ℕ) → utf8_truncate_to_char_boundary text len ≤ len
truncate-le text len = (truncate-IsCut text len).within

skip_bounds :
    (text : List ℕ) (pos left : ℕ)
    → (pos ≤ skip_continuation text pos left) × (skip_continuation text pos left ≤ pos + left)
unfolding skip_continuation
skip_bounds text pos zero = omega arith
skip_bounds text pos (suc left) = ground (arith, skip_bounds text (suc pos) left)

-- Inside the text the next boundary lies further on, and not past the end.
pub next_bounds :
    (text : List ℕ) (pos len : ℕ)
    → pos < len
    → (pos < utf8_next_char_boundary text pos len) × (utf8_next_char_boundary text pos len ≤ len)
unfolding utf8_next_char_boundary
next_bounds text pos len h = ground (arith, skip_bounds text (suc pos) (len - suc pos))
