-- ===== src/Utf8/Back.antt =====
-- Stepping back over the last character of a text.
use i3lock.Prelude.{
  ℕ, zero, suc, ◌+◌, ◌≤◌, ◌<◌, ◌≡◌, ap, List, [], ◌∷◌, ◌++◌, true, false, some, length, arith,
}
use i3lock.Memory.{byte_at}
use i3lock.Utf8.{is_utf8_continuation_byte, isutf, u8_back, u8_dec}

abbrev pub AllContinuation : List ℕ → Type 0
AllContinuation [] = Unit {0}
AllContinuation (b ∷ s) = (is_utf8_continuation_byte b ≡ true) × AllContinuation s

-- One encoded character: a lead byte and at most three continuation bytes.
pub record IsChar (lead : ℕ) (tail : List ℕ) : Type 0 where
  pub leads : is_utf8_continuation_byte lead ≡ false
  pub continues : AllContinuation tail
  pub short : length tail ≤ 3

byte_at-append : (p s : List ℕ) (i : ℕ) → byte_at (p ++ s) (length p + i) ≡ byte_at s i
byte_at-append [] s i = ap (byte_at s) (omega arith)
byte_at-append (b ∷ p) s i =
    rw (let e : suc (length p) + i ≡ suc (length p + i) = omega arith in e) (byte_at-append p s i)

byte_at_tail :
    (tail r : List ℕ) (i : ℕ)
    → AllContinuation tail
    → i < length tail
    → is_utf8_continuation_byte (byte_at (tail ++ r) i) ≡ true
byte_at_tail [] r i h k = absurd (omega arith)
byte_at_tail (b ∷ tail) r zero h k = h.0
byte_at_tail (b ∷ tail) r (suc i) h k = byte_at_tail tail r i h.1 (omega arith)

module _ (p : List ℕ) (lead : ℕ) (tail r : List ℕ) (char : IsChar lead tail) where
  abbrev whole : List ℕ
  whole = p ++ lead ∷ (tail ++ r)

  at_lead : is_utf8_continuation_byte (byte_at whole (length p)) ≡ false
  at_lead =
      rw (let e : length p ≡ length p + 0 = omega arith in e)
        (rw (byte_at-append p (lead ∷ (tail ++ r)) 0) char.leads)

  at_tail :
      (k : ℕ)
      → k < length tail
      → is_utf8_continuation_byte (byte_at whole (length p + suc k)) ≡ true
  at_tail k h =
      rw (byte_at-append p (lead ∷ (tail ++ r)) (suc k)) (byte_at_tail tail r k char.continues h)

  back :
      (k tries : ℕ)
      → k ≤ length tail
      → k ≤ tries
      → u8_back tries whole (suc (length p + k)) ≡ some (length p)
  unfolding u8_back isutf
  back zero zero h t = ap some (omega arith)
  back (suc k) zero h t = absurd (omega arith)
  back zero (suc tries) h t = rw (let e : length p + 0 ≡ length p = omega arith in e) (rw at_lead)
  back (suc k) (suc tries) h t = rw (at_tail k (omega arith)) (
      rw (let e : length p + suc k ≡ suc (length p + k) = omega arith in e)
        (back k tries (omega arith) (omega arith)))

  -- From behind a character `u8_dec` goes to its first byte.
  pub u8_dec_char : u8_dec whole (suc (length p + length tail)) ≡ some (length p)
  unfolding u8_dec
  u8_dec_char = back (length tail) 3 (omega arith) char.short
