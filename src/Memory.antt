-- ===== src/Memory.antt =====
-- Bytes in fixed buffers: what the C library's string and memory calls do to them.
-- A `char` buffer is the list of its bytes, and a pointer to a C string the list of the bytes from
-- there on; the end of the list stands for a NUL.
pub mod Strings
use i3lock.Prelude.{
  ℕ, suc, ◌+◌, ◌-◌, List, [], ◌∷◌, ◌++◌, leb, ltb, ◌==◌, if◌then◌else◌, length, set, take, drop,
  replicate, get_or,
}

-- `strlen`: the bytes before the first NUL.
unfoldable pub strlen : List ℕ → ℕ
strlen [] = 0
strlen (b ∷ s) = if b == 0 then 0 else suc (strlen s)

-- The characters that a C string holds.
unfoldable pub text_of : List ℕ → List ℕ
text_of [] = []
text_of (b ∷ s) = if b == 0 then [] else b ∷ text_of s

-- `memcpy(buffer, bytes, length bytes)` at the start of a buffer.
abbrev pub copy_to_start : List ℕ → List ℕ → List ℕ
copy_to_start buffer bytes = bytes ++ drop (length bytes) buffer

-- `text[i]`, with the terminating NUL read at the end.
abbrev pub byte_at : List ℕ → ℕ → ℕ
byte_at text i = get_or text i 0

-- `secure_wipe(buf, len)` and `explicit_bzero`: the first `len` bytes become 0, and none beyond.
unfoldable pub secure_wipe : List ℕ → ℕ → List ℕ
secure_wipe buf len = replicate len 0 ++ drop len buf

-- The copy into secure storage of `pam_controller_start_auth` and `pam_controller_submit_answer`:
-- at most `size - 1` bytes of a C string, then a NUL.
unfoldable pub stage : ℕ → List ℕ → List ℕ → List ℕ
stage size buffer source =
    let len = strlen source in
    let kept = if leb size len then size - 1 else len in
    set (copy_to_start buffer (take kept source)) kept 0
