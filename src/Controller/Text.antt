-- ===== src/Controller/Text.antt =====
-- The text of an event: `pam_message_text_is_valid` and `event_set_text`.
pub mod Cut
use i3lock.Prelude.{
  ℕ, ◌-◌, List, [], ◌∷◌, ◌++◌, Bool, true, Option, none, some, ltb, leb, if◌then◌else◌, take, min,
}
use i3lock.Memory.{strlen}
use i3lock.Utf8.{utf8_truncate_to_char_boundary}

abbrev pub pam_message_source_max : ℕ
pam_message_source_max = 4096

-- `sizeof(event->text)`
abbrev pub event_text_max : ℕ
event_text_max = 1024

-- `strnlen`
unfoldable pub strnlen : List ℕ → ℕ → ℕ
strnlen s n = min n (strlen s)

unfoldable pub pam_message_text_is_valid : Option (List ℕ) → Bool
unfolding strnlen
pam_message_text_is_valid none = true
pam_message_text_is_valid (some text) =
    ltb (strnlen text pam_message_source_max) pam_message_source_max

abbrev pub ellipsis : List ℕ
ellipsis = b'.' ∷ b'.' ∷ b'.' ∷ []

-- The C string left in `event->text`.
unfoldable pub event_set_text : Option (List ℕ) → List ℕ
unfolding strnlen
event_set_text none = []
event_set_text (some text) =
    let source_length = strnlen text pam_message_source_max in
    let maximum_length : ℕ = event_text_max - 1 in
    if leb source_length maximum_length
    then take source_length text
    else take (utf8_truncate_to_char_boundary text (maximum_length - 3)) text ++ ellipsis
