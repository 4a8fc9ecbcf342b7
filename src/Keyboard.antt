-- ===== src/Keyboard.antt =====
-- What the indicator says of the keyboard: `string_append`, `update_layout_string` and `check_modifier_keys` of
-- unlock_indicator.c. What libxkbcommon knows of each layout and each modifier is a list of pairs: whether it is active, and
-- its name, if it has one.
pub mod Modifiers
use i3lock.Prelude.{ℕ, List, [], ◌∷◌, ◌++◌, Bool, true, false, Option, none, some, if◌then◌else◌}
use i3lock.Image.{same_text}

-- `none` is NULL; without memory the string stays as it is.
unfoldable pub string_append : Bool → Option (List ℕ) → List ℕ → Option (List ℕ)
string_append asprintf_ok none appended = if asprintf_ok then some appended else none
string_append asprintf_ok (some string) appended =
    if asprintf_ok then some (string ++ (b',' ∷ 32 ∷ []) ++ appended) else some string

-- The loop over the layouts, from the string so far.
unfoldable pub layout_names :
    Bool → List (Bool × Option (List ℕ)) → Option (List ℕ) → Option (List ℕ)
unfolding string_append
layout_names asprintf_ok [] string = string
layout_names asprintf_ok ((active, none) ∷ layouts) string = layout_names asprintf_ok layouts string
layout_names asprintf_ok ((active, some name) ∷ layouts) string =
    layout_names asprintf_ok layouts
      (if active then string_append asprintf_ok string name else string)

-- The old string is freed first.
unfoldable pub update_layout_string : Bool → List (Bool × Option (List ℕ)) → Option (List ℕ)
unfolding layout_names
update_layout_string asprintf_ok layouts = layout_names asprintf_ok layouts none

-- "Caps Lock" and "Num Lock"
abbrev pub caps_lock : List ℕ
caps_lock = 67 ∷ 97 ∷ 112 ∷ 115 ∷ 32 ∷ 76 ∷ 111 ∷ 99 ∷ 107 ∷ []

abbrev pub num_lock : List ℕ
num_lock = 78 ∷ 117 ∷ 109 ∷ 32 ∷ 76 ∷ 111 ∷ 99 ∷ 107 ∷ []

-- The name that is shown for a modifier, if any; `caps` and `num` are XKB_MOD_NAME_CAPS and XKB_MOD_NAME_NUM.
unfoldable pub shown_name : List ℕ → List ℕ → List ℕ → Option (List ℕ)
unfolding same_text
shown_name caps num mod_name =
    if same_text mod_name caps
    then some caps_lock
    else if same_text mod_name num
    then some num_lock
    else none

abbrev pub append_shown : Bool → Option (List ℕ) → Option (List ℕ) → Option (List ℕ)
append_shown asprintf_ok string none = string
append_shown asprintf_ok string (some name) = string_append asprintf_ok string name

-- The modifiers in their order, from the string so far.
unfoldable pub check_modifier_keys :
    Bool → List ℕ → List ℕ → List (Bool × Option (List ℕ)) → Option (List ℕ) → Option (List ℕ)
unfolding string_append shown_name
check_modifier_keys asprintf_ok caps num [] string = string
check_modifier_keys asprintf_ok caps num ((false, name) ∷ mods) string =
    check_modifier_keys asprintf_ok caps num mods string
check_modifier_keys asprintf_ok caps num ((true, none) ∷ mods) string =
    check_modifier_keys asprintf_ok caps num mods string
check_modifier_keys asprintf_ok caps num ((true, some name) ∷ mods) string =
    check_modifier_keys asprintf_ok caps num mods
      (append_shown asprintf_ok string (shown_name caps num name))
