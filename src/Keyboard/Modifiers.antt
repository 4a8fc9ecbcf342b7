-- ===== src/Keyboard/Modifiers.antt =====
-- What the modifier string depends on.
use i3lock.Prelude.{
  ℕ, ◌≡◌, refl, List, [], ◌∷◌, Bool, true, false, Option, none, some, if◌then◌else◌, inl, inr,
  Bool-cases, arith, ◌||◌,
}
use i3lock.Image.{same_text}
use i3lock.Keyboard.{shown_name, append_shown, check_modifier_keys}

-- The modifiers that may be shown.
abbrev pub is_lock : List ℕ → List ℕ → Bool × Option (List ℕ) → Bool
is_lock caps num (active, none) = false
is_lock caps num (active, some name) = same_text name caps || same_text name num

abbrev pub locks : List ℕ → List ℕ → List (Bool × Option (List ℕ)) → List (Bool × Option (List ℕ))
locks caps num [] = []
locks caps num (m ∷ mods) =
    if is_lock caps num m then m ∷ locks caps num mods else locks caps num mods

-- The string is the same with and without all other modifiers, active or not: Shift, for instance, leaves no trace.
pub check_modifier_keys-locks :
    (asprintf_ok : Bool) (caps num : List ℕ) (mods : List (Bool × Option (List ℕ)))
    (string : Option (List ℕ))
    → check_modifier_keys asprintf_ok caps num mods string
      ≡ check_modifier_keys asprintf_ok caps num (locks caps num mods) string
unfolding check_modifier_keys shown_name
check_modifier_keys-locks ok caps num [] string = refl
check_modifier_keys-locks ok caps num ((true, none) ∷ mods) string =
    check_modifier_keys-locks ok caps num mods string
check_modifier_keys-locks ok caps num ((false, none) ∷ mods) string =
    check_modifier_keys-locks ok caps num mods string
check_modifier_keys-locks ok caps num ((false, some name) ∷ mods) string =
    let rest = check_modifier_keys-locks ok caps num mods string in
    elim (Bool-cases (same_text name caps || same_text name num)) [
      | inl kept ↦ rw kept rest
      | inr left_out ↦ rw left_out rest
    ]
check_modifier_keys-locks ok caps num ((true, some name) ∷ mods) string =
    let rest = check_modifier_keys-locks ok caps num mods in
    elim (Bool-cases (same_text name caps || same_text name num)) [
      | inl kept ↦ rw kept (rest (append_shown ok string (shown_name caps num name)))
      | inr left_out ↦
          rw
            (
              left_out,
              let hidden : shown_name caps num name ≡ none = ground (arith, left_out) in hidden,
            )
            (rest string)
    ]
