-- ===== src/Options/Color.antt =====
-- The color of the command line as a pixel value.
use i3lock.Prelude.{
  ℕ, suc, ◌+◌, ◌*◌, ◌%◌, ◌^◌, ◌<◌, ◌≡◌, refl, ◌↔◌, inl, inr, List, [], ◌∷◌, ◌++◌, Option, none,
  some, ◌==◌, length, drop, get_or, Bool-cases, Option-cases, arith,
}
use i3lock.Options.{
  Settings, hex_value, scan_hex, skip_hash, scanned_color, set_color, settles, Opt, take_option,
}

-- `get_colorpixel` of xcb.c, with `strtol` to base 16 as a parameter, for a text of two bytes. The sum
-- is one of 32 bits.
unfoldable pub get_colorpixel : (List ℕ → ℕ) → List ℕ → ℕ
get_colorpixel strtol hex =
    let red = strtol (get_or hex 0 0 ∷ get_or hex 1 0 ∷ []) in
    let green = strtol (get_or hex 2 0 ∷ get_or hex 3 0 ∷ []) in
    let blue = strtol (get_or hex 4 0 ∷ get_or hex 5 0 ∷ []) in
    (red * 2 ^ 16 + green * 2 ^ 8 + blue) % 2 ^ 32

-- Two hexadecimal digits are read as the number that they write.
abbrev pub ReadsHex : (List ℕ → ℕ) → Type 0
ReadsHex strtol =
    (a b x y : ℕ) → hex_value a ≡ some x → hex_value b ≡ some y → strtol (a ∷ b ∷ []) ≡ 16 * x + y

-- The number that a text of hexadecimal digits writes, behind the value of those before it.
unfoldable pub hex_number : ℕ → List ℕ → Option ℕ
hex_number value [] = some value
hex_number value (b ∷ text) = elim (hex_value b) [
  | none ↦ none
  | some digit ↦ hex_number (16 * value + digit) text
]

hex_value-bound : (b x : ℕ) → hex_value b ≡ some x → x < 16
unfolding hex_value
hex_value-bound b x h = ground (arith, h)

hex_number-cons :
    (value b n : ℕ) (text : List ℕ)
    → hex_number value (b ∷ text) ≡ some n
    → (x : ℕ) × (hex_value b ≡ some x) × (hex_number (16 * value + x) text ≡ some n)
unfolding hex_number
hex_number-cons value b n text h = elim (Option-cases (hex_value b)) [
  | inl failed ↦ absurd (nothing (rw (failed, hex_number) at h))
  | inr (x, read) ↦ (x, read, rw (read, hex_number) at h)
]
  where
    nothing : none ≡ some n → ⊥
    nothing k = cc

hex_number-nil : (value n : ℕ) → hex_number value [] ≡ some n → value ≡ n
unfolding hex_number
hex_number-nil value n h = cc

-- The digits of a text of six that all are hexadecimal, and the number.
pub record SixDigits (a b c d e f n : ℕ) : Type 0 where
  pub digit₀ : (x : ℕ) × (hex_value a ≡ some x)
  pub digit₁ : (x : ℕ) × (hex_value b ≡ some x)
  pub digit₂ : (x : ℕ) × (hex_value c ≡ some x)
  pub digit₃ : (x : ℕ) × (hex_value d ≡ some x)
  pub digit₄ : (x : ℕ) × (hex_value e ≡ some x)
  pub digit₅ : (x : ℕ) × (hex_value f ≡ some x)
  pub total :
      16 * (16 * (16 * (16 * (16 * digit₀.0 + digit₁.0) + digit₂.0) + digit₃.0) + digit₄.0)
        + digit₅.0
      ≡ n

six_digits :
    (a b c d e f n : ℕ)
    → hex_number 0 (a ∷ b ∷ c ∷ d ∷ e ∷ f ∷ []) ≡ some n
    → SixDigits a b c d e f n
six_digits a b c d e f n h =
    let (x₀, r₀, h₀) = hex_number-cons _ a n _ h in
    let (x₁, r₁, h₁) = hex_number-cons _ b n _ h₀ in
    let (x₂, r₂, h₂) = hex_number-cons _ c n _ h₁ in
    let (x₃, r₃, h₃) = hex_number-cons _ d n _ h₂ in
    let (x₄, r₄, h₄) = hex_number-cons _ e n _ h₃ in
    let (x₅, r₅, h₅) = hex_number-cons _ f n _ h₄ in
    let sum = hex_number-nil _ n h₅ in
    record {
      digit₀ = (x₀, r₀);
      digit₁ = (x₁, r₁);
      digit₂ = (x₂, r₂);
      digit₃ = (x₃, r₃);
      digit₄ = (x₄, r₄);
      digit₅ = (x₅, r₅);
      total = omega (arith, sum);
    }

-- For six hexadecimal digits, the pixel value is the number that they write.
pub get_colorpixel-hex :
    (strtol : List ℕ → ℕ) (a b c d e f n : ℕ) (rest : List ℕ)
    → ReadsHex strtol
    → hex_number 0 (a ∷ b ∷ c ∷ d ∷ e ∷ f ∷ []) ≡ some n
    → get_colorpixel strtol (a ∷ b ∷ c ∷ d ∷ e ∷ f ∷ rest) ≡ n
unfolding get_colorpixel
get_colorpixel-hex strtol a b c d e f n rest reads h =
    let s = six_digits a b c d e f n h in
    rw
      (
        reads a b s.digit₀.0 s.digit₁.0 s.digit₀.1 s.digit₁.1,
        reads c d s.digit₂.0 s.digit₃.0 s.digit₂.1 s.digit₃.1,
        reads e f s.digit₄.0 s.digit₅.0 s.digit₄.1 s.digit₅.1,
      )
      (omega (
        arith,
        s.total,
        hex_value-bound a s.digit₀.0 s.digit₀.1,
        hex_value-bound b s.digit₁.0 s.digit₁.1,
        hex_value-bound c s.digit₂.0 s.digit₂.1,
        hex_value-bound d s.digit₃.0 s.digit₃.1,
        hex_value-bound e s.digit₄.0 s.digit₄.1,
        hex_value-bound f s.digit₅.0 s.digit₅.1,
      ))

scan-six :
    (a b c d e f n : ℕ)
    → SixDigits a b c d e f n
    → scan_hex 6 (a ∷ b ∷ c ∷ d ∷ e ∷ f ∷ []) ≡ a ∷ b ∷ c ∷ d ∷ e ∷ f ∷ []
unfolding scan_hex
scan-six a b c d e f n s =
    rw (s.digit₀.1, s.digit₁.1, s.digit₂.1, s.digit₃.1, s.digit₄.1, s.digit₅.1, scan_hex) refl

-- The option for the color, with six hexadecimal digits behind an optional `#`, is accepted, changes
-- nothing but the color, and makes the pixel value of the color the number that the digits write.
pub color_option-pixel :
    (strtol : List ℕ → ℕ) (optarg : List ℕ) (a b c d e f n : ℕ) (s : Settings)
    → ReadsHex strtol
    → skip_hash optarg ≡ a ∷ b ∷ c ∷ d ∷ e ∷ f ∷ []
    → hex_number 0 (a ∷ b ∷ c ∷ d ∷ e ∷ f ∷ []) ≡ some n
    → (color : List ℕ) × (take_option (Opt.colors optarg) s ≡ settles (record s { color = color }))
      × (get_colorpixel strtol color ≡ n)
unfolding take_option set_color scanned_color
color_option-pixel strtol optarg a b c d e f n s reads arg h =
    let digits = six_digits a b c d e f n h in
    (
      a ∷ b ∷ c ∷ d ∷ e ∷ f ∷ 0 ∷ drop 7 s.color,
      rw (arg, scan-six a b c d e f n digits) refl,
      get_colorpixel-hex strtol a b c d e f n (0 ∷ drop 7 s.color) reads h,
    )

-- The first byte is a hexadecimal digit.
abbrev pub StartsHex : List ℕ → Type 0
StartsHex [] = ⊥
StartsHex (b ∷ text) = (x : ℕ) × (hex_value b ≡ some x)

abbrev Accepted : Option (List ℕ) → Type 0
Accepted r = (color : List ℕ) × (r ≡ some color)

scanned_iff :
    (text color : List ℕ) → Accepted (scanned_color (scan_hex 6 text) color) ↔ StartsHex text
unfolding scan_hex scanned_color
scanned_iff [] color = (λ h. nothing h.1, λ h. absurd h)
  where
    nothing : {c : List ℕ} → none ≡ some c → ⊥
    nothing k = cc
scanned_iff (b ∷ rest) color = go (hex_value b) (scan_hex 5 rest)
  where
    go :
        (v : Option ℕ) (digits : List ℕ)
        → Accepted (scanned_color (elim v [ none ↦ [] | some value ↦ b ∷ digits ]) color)
          ↔ ((x : ℕ) × (v ≡ some x))
    go none digits = (λ h. (0, cc (h.1)), λ h. absurd (clash h.1))
      where
        clash : {y : ℕ} → none ≡ some y → ⊥
        clash k = cc
    go (some x) digits =
        (λ h. (x, refl), λ h. ((b ∷ digits) ++ (0 ∷ drop (suc (length (b ∷ digits))) color), refl))

-- The option for the color is accepted exactly if its text, without a `#` in front, has six bytes of
-- which the first is a hexadecimal digit.
pub color_accepted_iff :
    (optarg color : List ℕ)
    → ((color' : List ℕ) × (set_color optarg color ≡ some color'))
      ↔ ((length (skip_hash optarg) ≡ 6) × StartsHex (skip_hash optarg))
unfolding set_color
color_accepted_iff optarg color = elim (Bool-cases (length (skip_hash optarg) == 6)) [
  | inl six ↦ rw six (
    λ h. (ground (arith, six), (scanned_iff (skip_hash optarg) color).0 h),
    λ h. (scanned_iff (skip_hash optarg) color).1 h.1,
  )
  | inr other ↦ rw other (λ h. absurd (nothing h.1), λ h. ground (arith, other, h.0))
]
  where
    nothing : {c : List ℕ} → none ≡ some c → ⊥
    nothing k = cc
