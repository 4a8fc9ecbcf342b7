-- ===== src/Panel.antt =====
-- The text of the PAM panel in unlock_indicator.c: cut to a width and wrapped into lines. Whether a
-- text is at most as wide as the panel allows is cairo's answer, the parameter `fits`.
pub mod Layout
pub mod Progress
pub mod Lines
pub mod Truncated
use i3lock.Prelude.{
  ℕ, zero, suc, ◌+◌, ◌-◌, List, [], ◌∷◌, ◌++◌, Bool, true, false, not, ◌||◌, ◌&&◌, Option, none,
  some, leb, ltb, ◌==◌, if◌then◌else◌, length, take, drop,
}
use i3lock.Memory.{strlen, text_of, byte_at}
use i3lock.Utf8.{utf8_truncate_to_char_boundary, utf8_next_char_boundary}
use i3lock.Ui.{display_text_max}

-- `PAM_TEXT_ELLIPSIS`
abbrev pub ellipsis : List ℕ
ellipsis = b'.' ∷ b'.' ∷ b'.' ∷ []

-- `sizeof` a panel line's text, which has room for an ellipsis behind a full text.
abbrev pub line_size : ℕ
line_size = display_text_max + 4

unfoldable pub is_ascii_wrap_space : ℕ → Bool
is_ascii_wrap_space character = character == 32 || character == 9

abbrev pub newline : ℕ
newline = 10

-- The string left in `output`, whose contents before are `output`.
unfoldable pub copy_text_range : List ℕ → ℕ → List ℕ → ℕ → ℕ → List ℕ
copy_text_range output output_size text start end =
    if output_size == 0
    then output
    else if leb output_size (end - start)
    then take (utf8_truncate_to_char_boundary (drop start text) (output_size - 1)) (drop start text)
    else take (end - start) (drop start text)

-- `paragraph_end`: the first newline from `pos` on, or `len`; `left` is `len - pos`.
unfoldable pub find_newline : List ℕ → ℕ → ℕ → ℕ
find_newline text pos zero = pos
find_newline text pos (suc left) =
    let rest = find_newline text (suc pos) left in if byte_at text pos == newline then pos else rest

-- `while (next_start < paragraph_end && is_ascii_wrap_space(text[next_start])) next_start++`
unfoldable pub skip_spaces : List ℕ → ℕ → ℕ → ℕ
unfolding is_ascii_wrap_space
skip_spaces text pos zero = pos
skip_spaces text pos (suc left) =
    let rest = skip_spaces text (suc pos) left in
    if is_ascii_wrap_space (byte_at text pos) then rest else pos

-- `while (line_end > start && is_ascii_wrap_space(text[line_end - 1])) line_end--`; `above` is
-- `line_end - start`.
unfoldable pub trim_spaces : List ℕ → ℕ → ℕ → ℕ
unfolding is_ascii_wrap_space
trim_spaces text start zero = start
trim_spaces text start (suc above) =
    let rest = trim_spaces text start above in
    if is_ascii_wrap_space (byte_at text (start + above)) then rest else start + suc above

-- `line_end`, before it is trimmed, and `next_start`.
unfoldable pub break_line : List ℕ → ℕ → ℕ → ℕ → ℕ × ℕ → ℕ × ℕ
unfolding skip_spaces
break_line text len start paragraph_end (fitting_end, word_break) =
    if fitting_end == paragraph_end
    then (paragraph_end, if ltb paragraph_end len then paragraph_end + 1 else paragraph_end)
    else if ltb start word_break
    then (word_break, skip_spaces text (word_break + 1) (paragraph_end - (word_break + 1)))
    else let line_end =
        if fitting_end == start
        then utf8_next_char_boundary text start paragraph_end
        else fitting_end in
      (line_end, line_end)

module _ (fits : List ℕ → Bool) where
  -- The loop of `truncate_text_to_width`. Its `len--` on 0 gives SIZE_MAX, with which it goes on to copy
  -- outside the text: `none`, which is also what a loop gives that has not ended when the fuel has. The fuel
  -- is more than `len`.
  unfoldable pub shorten : ℕ → List ℕ → ℕ → Option (List ℕ)
  shorten zero text len = none
  shorten (suc fuel) text len =
      let cut = utf8_truncate_to_char_boundary text len in
      let rest = shorten fuel text (cut - 1) in
      if len == 0
      then some ellipsis
      else if fits (take cut text ++ ellipsis)
      then some (take cut text ++ ellipsis)
      else if cut == 0
      then none
      else rest

  -- The string left in `output`, which holds `output` before.
  unfoldable pub truncate_text_to_width : List ℕ → ℕ → List ℕ → Option (List ℕ)
  unfolding shorten
  truncate_text_to_width output output_size text =
      if output_size == 0
      then some output
      else if fits (take (output_size - 1) (text_of text))
      then some (take (output_size - 1) (text_of text))
      else if leb output_size 4
      then some []
      else let len = if ltb (output_size - 4) (strlen text) then output_size - 4 else strlen text in
        shorten (len + 1) text len

  unfoldable pub text_range_fits : List ℕ → ℕ → ℕ → Bool
  unfolding copy_text_range
  text_range_fits text start end = fits (copy_text_range [] display_text_max text start end)

  -- The loop that measures: `fitting_end` and `word_break`. `pos` equals `fitting_end` throughout.
  -- `none` if the fuel ends before the loop does.
  unfoldable pub measure : ℕ → List ℕ → ℕ → ℕ → ℕ → ℕ → Option (ℕ × ℕ)
  unfolding text_range_fits is_ascii_wrap_space
  measure zero text start paragraph_end pos word_break = none
  measure (suc fuel) text start paragraph_end pos word_break =
      let next = utf8_next_char_boundary text pos paragraph_end in
      let break = if is_ascii_wrap_space (byte_at text pos) then pos else word_break in
      let rest = measure fuel text start paragraph_end next break in
      if leb paragraph_end pos
      then some (pos, word_break)
      else if text_range_fits text start next
      then rest
      else some (pos, word_break)

  -- What `wrap_next_text_line` does with what is measured. If that has not ended the line does not either: the
  -- next byte is the first.
  unfoldable pub wrapped : List ℕ → ℕ → ℕ → ℕ → ℕ → Option (ℕ × ℕ) → ℕ × List ℕ
  unfolding break_line trim_spaces copy_text_range
  wrapped text len start output_size paragraph_end none = (start, [])
  wrapped text len start output_size paragraph_end (some measured) =
      let (line_end, next_start) = break_line text len start paragraph_end measured in
      (
        next_start,
        copy_text_range [] output_size text start (trim_spaces text start (line_end - start)),
      )

  -- The next byte to process, and the line.
  unfoldable pub wrap_next_text_line : List ℕ → ℕ → ℕ → ℕ → ℕ × List ℕ
  unfolding find_newline measure wrapped
  wrap_next_text_line text len start output_size =
      if ltb start len && byte_at text start == newline
      then (start + 1, [])
      else let paragraph_end = find_newline text start (len - start) in
        wrapped text len start output_size paragraph_end
          (measure (paragraph_end - start + 1) text start paragraph_end start start)

  -- `snprintf` cuts the candidate to the size of the line. The fuel is more than
  -- `len`; without it the line is empty.
  unfoldable pub shrink_line : ℕ → List ℕ → ℕ → List ℕ
  shrink_line zero original len = []
  shrink_line (suc fuel) original len =
      let prefix_len = utf8_truncate_to_char_boundary original len in
      let candidate = take (line_size - 1) (take prefix_len original ++ ellipsis) in
      let rest = shrink_line fuel original (prefix_len - 1) in
      if fits candidate || prefix_len == 0 then candidate else rest

  unfoldable pub append_ellipsis_to_line : List ℕ → List ℕ
  unfolding shrink_line
  append_ellipsis_to_line line =
      let original = take (line_size - 1) line in
      shrink_line (length original + 1) original (length original)
