-- ===== src/Utf8.antt =====
-- The UTF-8 helpers: `isutf` and `u8_dec` of i3lock.c, `utf8_truncate_to_char_boundary` (one copy each
-- in i3lock.c, pam_controller.c and unlock_indicator.c) and `utf8_next_char_boundary` of
-- unlock_indicator.c.
pub mod Boundary
pub mod Back
use Prim.Native.Nat.{bit_and}
use i3lock.Prelude.{
  ℕ, zero, suc, ◌+◌, ◌-◌, List, Bool, Option, none, some, not, ◌==◌, leb, if◌then◌else◌, true,
  false,
}
use i3lock.Memory.{byte_at}

-- `(byte & 0xC0) == 0x80`
unfoldable pub is_utf8_continuation_byte : ℕ → Bool
is_utf8_continuation_byte byte = bit_and byte 0xc0 == 0x80

unfoldable pub isutf : ℕ → Bool
isutf c = not (is_utf8_continuation_byte c)

unfoldable pub utf8_truncate_to_char_boundary : List ℕ → ℕ → ℕ
utf8_truncate_to_char_boundary text zero = 0
utf8_truncate_to_char_boundary text (suc len) =
    if is_utf8_continuation_byte (byte_at text (suc len))
    then utf8_truncate_to_char_boundary text len
    else suc len

-- The loop of `utf8_next_char_boundary`: `left` is `len - pos`.
unfoldable pub skip_continuation : List ℕ → ℕ → ℕ → ℕ
skip_continuation text pos zero = pos
skip_continuation text pos (suc left) =
    let rest = skip_continuation text (suc pos) left in
    if is_utf8_continuation_byte (byte_at text pos) then rest else pos

-- `isutf(s[--(*i)]) || …` with `tries` reads left, then the last `--(*i)`, which reads nothing.
-- `none` is a position before the start of the text.
unfoldable pub u8_back : ℕ → List ℕ → ℕ → Option ℕ
u8_back tries s zero = none
u8_back zero s (suc i) = some i
u8_back (suc tries) s (suc i) = if isutf (byte_at s i) then some i else u8_back tries s i

unfoldable pub u8_dec : List ℕ → ℕ → Option ℕ
unfolding u8_back
u8_dec s i = u8_back 3 s i

unfoldable pub utf8_next_char_boundary : List ℕ → ℕ → ℕ → ℕ
unfolding skip_continuation
utf8_next_char_boundary text pos len =
    if leb len pos then len else skip_continuation text (suc pos) (len - suc pos)
