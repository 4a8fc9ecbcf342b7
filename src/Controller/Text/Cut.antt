-- ===== src/Controller/Text/Cut.antt =====
-- What text an event carries.
use i3lock.Prelude.{
  ℕ, ◌-◌, ◌≤◌, ◌<◌, ◌≡◌, ◌∙◌, ap, List, ◌++◌, true, false, Option, none, some, leb, length, take,
  length-append, length-take, min, arith,
}
use native.Mathlib.Decide.{dec_lt}
use i3lock.Memory.{strlen, text_of}
use i3lock.Memory.Strings.{length-text_of, take-text_of, take_of_length}
use i3lock.Utf8.{utf8_truncate_to_char_boundary}
use i3lock.Utf8.Boundary.{IsCut, truncate-IsCut, truncate-le}
use i3lock.Controller.Text.{event_text_max, ellipsis, event_set_text}

-- The text that an event shows for a message: the whole of it if it fits the buffer, and else as many
-- whole characters as fit before an ellipsis.
pub data Shows (text : List ℕ) : List ℕ → Type 0 where
  whole : strlen text < event_text_max → Shows text (text_of text)
  elided :
      event_text_max ≤ strlen text
      → (cut : ℕ) → IsCut text (event_text_max - 4) cut
      → Shows text (take cut (text_of text) ++ ellipsis)

abbrev at_most : ℕ
at_most = event_text_max - 4

set_text_whole :
    (text : List ℕ) → strlen text < event_text_max → event_set_text (some text) ≡ text_of text
unfolding event_set_text
set_text_whole text h =
    let fits : leb (min 4096 (strlen text)) 1023 ≡ true = ground arith in
    let all : min 4096 (strlen text) ≡ strlen text = omega arith in
    rw (fits, all)
      (take-text_of (strlen text) text (omega arith)
        ∙ take_of_length (strlen text) (text_of text) (omega (arith, length-text_of text)))

set_text_elided :
    (text : List ℕ)
    → event_text_max ≤ strlen text
    → event_set_text (some text)
      ≡ take (utf8_truncate_to_char_boundary text at_most) (text_of text) ++ ellipsis
unfolding event_set_text
set_text_elided text h =
    let long : leb (min 4096 (strlen text)) 1023 ≡ false = ground arith in
    rw long (
      ap (λ t. t ++ ellipsis)
        (take-text_of (utf8_truncate_to_char_boundary text at_most) text
          (omega (arith, truncate-le text at_most))))

-- A text that is not NULL is shown whole if it fits, and otherwise cut at the last character boundary that
-- leaves room for the ellipsis.
pub event_set_text-Shows : (text : List ℕ) → Shows text (event_set_text (some text))
event_set_text-Shows text = elim (dec_lt (strlen text) event_text_max) [
  | yes short ↦ rw (set_text_whole text short) (whole short)
  | no long ↦ rw (set_text_elided text (omega arith)) (
      elided (omega arith) (utf8_truncate_to_char_boundary text at_most)
        (truncate-IsCut text at_most))
]

-- With its NUL the text of an event fits the event's buffer, whatever the message.
pub length-event_set_text : (text : Option (List ℕ)) → length (event_set_text text) < event_text_max
length-event_set_text none = unfold event_set_text in omega arith
length-event_set_text (some text) = go (event_set_text (some text)) (event_set_text-Shows text)
  where
    go : (shown : List ℕ) → Shows text shown → length shown < event_text_max
    go _ (whole short) = omega (arith, length-text_of text)
    go _ (elided long cut at) = omega (
      arith,
      length-append (take cut (text_of text)) ellipsis,
      length-take cut (text_of text),
      at.within,
    )
