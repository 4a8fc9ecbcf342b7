-- ===== src/Options.antt =====
-- The command line of i3lock.c: the loop over `getopt_long` in `main`, and the color that it reads, up
-- to the pixel value of `get_colorpixel` (xcb.c). A text is a C string's bytes without the NUL.
pub mod Color
use i3lock.Prelude.{
  ℕ, zero, suc, ◌+◌, ◌-◌, List, [], ◌∷◌, ◌++◌, Bool, true, false, not, ◌&&◌, ◌||◌, Option, none,
  some, leb, ltb, ◌==◌, if◌then◌else◌, length, drop,
}

-- The cursors of include/cursors.h
pub data Cursor : Type 0 where
  curs_none curs_win curs_default : Cursor

-- The variables that the options set. `color` is the whole buffer of seven bytes.
pub record Settings : Type 0 where
  pub dont_fork : Bool
  pub beep : Bool
  pub debug_mode : Bool
  pub unlock_indicator : Bool
  pub tile : Bool
  pub ignore_empty_password : Bool
  pub show_failed_attempts : Bool
  pub show_keyboard_layout : Bool
  pub color : List ℕ
  pub image_path : Option (List ℕ)
  pub image_raw_format : Option (List ℕ)
  pub curs_choice : Cursor

-- `color` is "a3a3a3" with its NUL.
abbrev pub initial_settings : Settings
initial_settings = record {
  dont_fork = false;
  beep = false;
  debug_mode = false;
  unlock_indicator = true;
  tile = false;
  ignore_empty_password = false;
  show_failed_attempts = false;
  show_keyboard_layout = false;
  color = 97 ∷ 51 ∷ 97 ∷ 51 ∷ 97 ∷ 51 ∷ 0 ∷ [];
  image_path = none;
  image_raw_format = none;
  curs_choice = curs_none;
}

-- What `getopt_long` gives, with `optarg`. `win_pointer` and `default_pointer` are the two texts that
-- the program compares with, and any other is `other_pointer`.
pub data Pointer : Type 0 where
  win_pointer default_pointer other_pointer : Pointer

pub data Opt : Type 0 where
  version nofork beeps dpms inactivity no_indicator tiles ignores_empty failed_attempts_shown : Opt
  layout_shown help unknown debug : Opt
  colors : List ℕ → Opt
  image : List ℕ → Opt
  raw : List ℕ → Opt
  pointer : Pointer → Opt

-- A byte of "0123456789abcdefABCDEF", with its value.
unfoldable pub hex_value : ℕ → Option ℕ
hex_value b =
    if leb 48 b && leb b 57
    then some (b - 48)
    else if leb 97 b && leb b 102
    then some (b - 87)
    else if leb 65 b && leb b 70
    then some (b - 55)
    else none

-- What `sscanf(arg, "%06[0-9a-fA-F]", color)` reads: at most `width` hexadecimal digits.
unfoldable pub scan_hex : ℕ → List ℕ → List ℕ
unfolding hex_value
scan_hex zero arg = []
scan_hex (suc width) [] = []
scan_hex (suc width) (b ∷ arg) =
    let rest = scan_hex width arg in elim (hex_value b) [ none ↦ [] | some value ↦ b ∷ rest ]

-- `arg` without a leading `#`, whose byte is 35.
unfoldable pub skip_hash : List ℕ → List ℕ
skip_hash [] = []
skip_hash (b ∷ arg) = if b == 35 then arg else b ∷ arg

-- The digits take the place of the first bytes of `color`, with a NUL behind them. `none` is the error.
unfoldable pub scanned_color : List ℕ → List ℕ → Option (List ℕ)
scanned_color [] color = none
scanned_color (b ∷ digits) color =
    some ((b ∷ digits) ++ (0 ∷ drop (suc (length (b ∷ digits))) color))

unfoldable pub set_color : List ℕ → List ℕ → Option (List ℕ)
unfolding skip_hash scan_hex scanned_color
set_color optarg color =
    let arg = skip_hash optarg in
    if not (length arg == 6) then none else scanned_color (scan_hex 6 arg) color

-- The loop goes on with the settings, or the program exits, with success or with failure.
pub data Parsed : Type 0 where
  settles : Settings → Parsed
  exits : Bool → Parsed

abbrev pub settles_color : Settings → Option (List ℕ) → Parsed
settles_color s none = exits false
settles_color s (some color) = settles (record s { color = color })

-- The `switch` of the loop.
unfoldable pub take_option : Opt → Settings → Parsed
unfolding set_color
take_option version s = exits true
take_option nofork s = settles (record s { dont_fork = true })
take_option beeps s = settles (record s { beep = true })
take_option dpms s = settles s
take_option inactivity s = settles s
take_option (colors optarg) s = settles_color s (set_color optarg s.color)
take_option no_indicator s = settles (record s { unlock_indicator = false })
take_option (image optarg) s = settles (record s { image_path = some optarg })
take_option tiles s = settles (record s { tile = true })
take_option (pointer win_pointer) s = settles (record s { curs_choice = curs_win })
take_option (pointer default_pointer) s = settles (record s { curs_choice = curs_default })
take_option (pointer other_pointer) s = exits false
take_option ignores_empty s = settles (record s { ignore_empty_password = true })
take_option debug s = settles (record s { debug_mode = true })
take_option (raw optarg) s = settles (record s { image_raw_format = some optarg })
take_option failed_attempts_shown s = settles (record s { show_failed_attempts = true })
take_option layout_shown s = settles (record s { show_keyboard_layout = true })
take_option help s = exits true
take_option unknown s = exits false

unfoldable pub take_options : List Opt → Settings → Parsed
unfolding take_option
take_options [] s = settles s
take_options (o ∷ options) s = elim (take_option o s) [
  | settles t ↦ take_options options t
  | exits ok ↦ exits ok
]
