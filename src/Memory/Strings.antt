-- ===== src/Memory/Strings.antt =====
-- What a C string read back from a buffer is.
use i3lock.Prelude.{
  ℕ, zero, suc, ◌-◌, ◌≤◌, ◌<◌, ◌≡◌, refl, ap, ◌∙◌, sym, List, [], ◌∷◌, ◌++◌, leb, if◌then◌else◌,
  length, set, take, drop, replicate, length-append, length-take, length-drop, length-set,
  length-replicate, set-length_append, min, arith, append-nil,
}
use native.Mathlib.Decide.{dec_le}
use i3lock.Memory.{strlen, text_of, secure_wipe, stage, copy_to_start}

-- No byte of a text is NUL.
abbrev pub NoNul : List ℕ → Type 0
NoNul [] = Unit {0}
NoNul (b ∷ s) = (0 < b) × NoNul s

pub text_of-NoNul : (s : List ℕ) → NoNul (text_of s)
unfolding text_of
text_of-NoNul [] = tt
text_of-NoNul (b ∷ s) = ground (arith, text_of-NoNul s)

pub length-text_of : (s : List ℕ) → length (text_of s) ≡ strlen s
unfolding text_of strlen
length-text_of [] = refl
length-text_of (b ∷ s) = ground (arith, length-text_of s)

pub strlen-le : (s : List ℕ) → strlen s ≤ length s
unfolding strlen
strlen-le [] = omega arith
strlen-le (b ∷ s) = ground (arith, strlen-le s)

-- A prefix that stops before the NUL holds the same text, cut.
pub take-text_of : (n : ℕ) (s : List ℕ) → n ≤ strlen s → take n s ≡ take n (text_of s)
unfolding text_of strlen
take-text_of zero s h = refl
take-text_of (suc n) [] h = refl
take-text_of (suc n) (b ∷ s) h = ground (arith, take-text_of n s)

pub take-NoNul : (n : ℕ) (s : List ℕ) → NoNul s → NoNul (take n s)
take-NoNul zero s h = tt
take-NoNul (suc n) [] h = tt
take-NoNul (suc n) (b ∷ s) h = (h.0, take-NoNul n s h.1)

pub take_of_length : (n : ℕ) (s : List ℕ) → length s ≤ n → take n s ≡ s
take_of_length zero [] h = refl
take_of_length (suc n) [] h = refl
take_of_length zero (b ∷ s) h = absurd (omega arith)
take_of_length (suc n) (b ∷ s) h = ap (◌∷◌ b) (take_of_length n s (omega arith))

take-min-length : (n : ℕ) (s : List ℕ) → take (min n (length s)) s ≡ take n s
take-min-length n s = elim (dec_le (length s) n) [
  | yes h ↦
      ap (λ k. take k s) (let e : min n (length s) ≡ length s = omega arith in e)
      ∙ take_of_length (length s) s (omega arith)
      ∙ sym (take_of_length n s h)
  | no h ↦ ap (λ k. take k s) (omega arith)
]

-- A text with a NUL behind it reads back as itself, whatever follows.
pub text_of_terminated : (t r : List ℕ) → NoNul t → text_of (t ++ 0 ∷ r) ≡ t
unfolding text_of
text_of_terminated [] r h = refl
text_of_terminated (b ∷ t) r h = ground (arith, text_of_terminated t r h.1)

pub text_of_self : (t : List ℕ) → NoNul t → text_of t ≡ t
unfolding text_of
text_of_self [] h = refl
text_of_self (b ∷ t) h = ground (arith, text_of_self t h.1)

pub length-secure_wipe :
    (buf : List ℕ) (n : ℕ) → n ≤ length buf → length (secure_wipe buf n) ≡ length buf
unfolding secure_wipe
length-secure_wipe buf n h = omega (
  arith,
  length-append (replicate n 0) (drop n buf),
  length-drop n buf,
  length-replicate {A = ℕ} n 0,
)

drop_of_length : (n : ℕ) (xs : List ℕ) → length xs ≤ n → drop n xs ≡ []
drop_of_length zero [] h = refl
drop_of_length (suc n) [] h = refl
drop_of_length zero (x ∷ xs) h = absurd (omega arith)
drop_of_length (suc n) (x ∷ xs) h = drop_of_length n xs (omega arith)

-- Wiping a whole buffer leaves nothing but zeros.
pub secure_wipe_all : (buf : List ℕ) (n : ℕ) → length buf ≡ n → secure_wipe buf n ≡ replicate n 0
unfolding secure_wipe
secure_wipe_all buf n h = rw (drop_of_length n buf (omega arith)) (append-nil (replicate n 0))

drop-cons :
    (n : ℕ) (xs : List ℕ) → n < length xs → (x : ℕ) × (rest : List ℕ) × (drop n xs ≡ x ∷ rest)
drop-cons zero [] h = absurd (omega arith)
drop-cons (suc n) [] h = absurd (omega arith)
drop-cons zero (x ∷ xs) h = (x, xs, refl)
drop-cons (suc n) (x ∷ xs) h = drop-cons n xs (omega arith)

-- A copy that leaves room for the NUL reads back as the bytes copied.
pub text_of-copy :
    (buffer t : List ℕ)
    → NoNul t
    → length t < length buffer
    → text_of (set (copy_to_start buffer t) (length t) 0) ≡ t
text_of-copy buffer t safe room =
    let (x, rest, e) = drop-cons (length t) buffer room in
    rw (e, set-length_append t x rest 0) (text_of_terminated t rest safe)

stage_kept :
    (size : ℕ) (s : List ℕ)
    → 0 < size
    → (if leb size (strlen s) then size - 1 else strlen s) ≡ min (size - 1) (strlen s)
stage_kept size s pos = ground arith

stage_source :
    (size : ℕ) (s : List ℕ) → take (min (size - 1) (strlen s)) s ≡ take (size - 1) (text_of s)
stage_source size s =
    take-text_of (min (size - 1) (strlen s)) s (omega arith)
    ∙ rw (← length-text_of s) (take-min-length (size - 1) (text_of s))

-- What PAM reads back from staged storage: the caller's text, cut to the storage.
pub text_of-stage :
    (size : ℕ) (buffer source : List ℕ)
    → 0 < size
    → length buffer ≡ size
    → text_of (stage size buffer source) ≡ take (size - 1) (text_of source)
unfolding stage
text_of-stage size buffer source pos full =
    rw (stage_kept size source pos, stage_source size source, ← cut)
      (text_of-copy buffer _ (take-NoNul (size - 1) (text_of source) (text_of-NoNul source))
        (omega (arith, cut)))
  where
    cut : length (take (size - 1) (text_of source)) ≡ min (size - 1) (strlen source)
    cut = omega (arith, length-take (size - 1) (text_of source), length-text_of source)

pub length-stage :
    (size : ℕ) (buffer source : List ℕ)
    → 0 < size
    → length buffer ≡ size
    → length (stage size buffer source) ≡ size
unfolding stage
length-stage size buffer source pos full =
    rw (stage_kept size source pos, stage_source size source)
      (omega (
        arith,
        length-set (copy_to_start buffer kept) (min (size - 1) (strlen source)) 0,
        length-append kept (drop (length kept) buffer),
        length-drop (length kept) buffer,
        length-take (size - 1) (text_of source),
      ))
  where
    kept : List ℕ
    kept = take (size - 1) (text_of source)
