-- ===== src/Dpi.antt =====
-- The scale of the screen: dpi.c. What `strtod` and `round` make of the resource, the value guessed from
-- the screen's size, and the scaling in floating-point numbers are arguments.
use i3lock.Prelude.{
  ℕ, ◌≡◌, refl, ◌<◌, ◌⊎◌, inl, inr, Bool, true, false, not, ◌&&◌, Option, none, some, ltb, ◌==◌,
  if◌then◌else◌, arith,
}

-- The resource "Xft.dpi": its rounded number, or `none` where it is no number in full, negative or too
-- large.
abbrev pub Resource : Type 0
Resource = Option ℕ

abbrev parsed : Resource → ℕ
parsed none = 0
parsed (some dpi) = dpi

abbrev read_resource : Option Resource → ℕ → ℕ
read_resource none dpi = dpi
read_resource (some resource) dpi = parsed resource

-- Whether there is a connection and a database; the resource, if it is given; the guess.
unfoldable pub init_dpi : Bool → Bool → Option Resource → ℕ → ℕ → ℕ
init_dpi conn_ok database_ok resource fallback dpi =
    let found = if conn_ok && database_ok then read_resource resource dpi else dpi in
    if found == 0 then fallback else found

-- `dpi / 96.0 < 1.25` holds just below 120.
unfoldable pub logical_px : Bool → (ℕ → ℕ → ℕ) → ℕ → ℕ → ℕ
logical_px screen_ok scaled dpi logical =
    if not screen_ok then logical else if ltb dpi 120 then logical else scaled dpi logical

-- From an unset value, the scale is the resource's number if that is given, valid and not 0, and the
-- guess in all other cases.
pub init_dpi-resource :
    (conn_ok database_ok : Bool) (resource : Option Resource) (fallback : ℕ)
    → ((n : ℕ) × (conn_ok ≡ true)
        × (database_ok ≡ true)
        × (resource ≡ some (some n))
        × (0 < n)
        × (init_dpi conn_ok database_ok resource fallback 0 ≡ n))
      ⊎ (init_dpi conn_ok database_ok resource fallback 0 ≡ fallback)
unfolding init_dpi
init_dpi-resource false database_ok resource fallback = inr refl
init_dpi-resource true false resource fallback = inr refl
init_dpi-resource true true none fallback = inr refl
init_dpi-resource true true (some none) fallback = inr refl
init_dpi-resource true true (some (some n)) fallback =
    let split : (n ≡ 0) ⊎ (0 < n) = omega arith in
    elim split [
      | inl zero_dpi ↦ inr (rw zero_dpi refl)
      | inr positive ↦ inl (n, refl, refl, refl, positive, ground (arith, positive))
    ]
