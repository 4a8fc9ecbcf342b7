-- ===== src/Tests/Setup.antt =====
-- Tests of what the program does before its event loop, and of the monitors.
use i3lock.Prelude.{
  ℕ, ◌+◌, ◌*◌, ◌-◌, ◌≡◌, ◌<◌, ◌≤◌, ◌↔◌, ◌⊎◌, refl, List, [], ◌∷◌, ◌++◌, Bool, true, false, Option,
  none, some, length, take, ◌==◌, get_or,
}
use i3lock.Monitors.{
  Rect, Monitors, initial_monitors, Replies, no_output, no_crtc, shows, fresh_array, randr_query,
  _xinerama_query_screens,
}
use i3lock.Monitors.Outputs.{Shows, visible, latest, renewed, written, randr_query-Shows}
use i3lock.Monitors.Xinerama.{xinerama_by_old_count}
use i3lock.Grab.{grab_pointer_and_keyboard, grab_true_iff}
use i3lock.Keymap.{Keymap, Loading, Usable, load_keymap, take_keymap, load_compose_table}
use i3lock.Launch.{
  Machine, Grabbing, Grabbed, launch, launch_loops-Grabbed, user_ok, grabs, try_grab, enter_loop,
}
use i3lock.Options.{initial_settings, Opt, skip_hash, hex_value, set_color, take_option, settles}
use i3lock.Options.Color.{
  get_colorpixel, hex_number, ReadsHex, StartsHex, color_option-pixel, color_accepted_iff,
}

abbrev screen_area : Rect
screen_area = record { x = 0; y = 0; width = 1920; height = 1080 }

-- Of three outputs one shows a part of the screen.
abbrev replies : Replies
replies = record {
  built_with_1_5 = true;
  monitors = none;
  outputs = some (no_crtc ∷ shows screen_area ∷ no_output ∷ []);
  xinerama_screens = some (screen_area ∷ []);
  malloc_ok = true;
}

abbrev with_randr : Monitors
with_randr = record initial_monitors { has_randr = true; has_randr_1_5 = true }

randr_query-Shows_example :
    Shows
      (renewed true
        (visible with_randr)
        (latest true none (some (no_crtc ∷ shows screen_area ∷ no_output ∷ []))))
      (randr_query replies with_randr)
randr_query-Shows_example = randr_query-Shows replies with_randr refl refl

-- There were two Xinerama screens, and now there is one.
abbrev two_screens : Monitors
two_screens = record initial_monitors {
  xr_screens = 2;
  xr_resolutions = some screen_area ∷ some screen_area ∷ [];
  xinerama_active = true;
}

xinerama_by_old_count_example :
    ((length (screen_area ∷ []) < 2) × (_xinerama_query_screens replies two_screens ≡ none))
    ⊎ ((2 ≤ length (screen_area ∷ []))
        × (_xinerama_query_screens replies two_screens
            ≡ some (record two_screens {
              xr_screens = length (screen_area ∷ []);
              xr_resolutions =
                  written (take 2 (screen_area ∷ []))
                  ++ fresh_array (length (screen_area ∷ []) - 2);
            })))
xinerama_by_old_count_example =
    xinerama_by_old_count replies two_screens (screen_area ∷ []) refl refl refl

-- The pointer is granted in the first try, and the keyboard in the last one.
abbrev always : ℕ → Bool
always tries = true

abbrev at_last : ℕ → Bool
at_last tries = tries == 0

grab_true_iff_example :
    ((grab_pointer_and_keyboard always at_last always 3).0 ≡ true)
    ↔ ((i : ℕ) × (j : ℕ) × (i < 3) × (always i ≡ true) × (0 < j) × (j < i) × (at_last j ≡ true))
grab_true_iff_example = grab_true_iff always at_last always 3

abbrev loading : Loading
loading = record { context_ok = true; new_keymap = some 1; new_state = some 1 }

abbrev no_keymap : Keymap
no_keymap = record {
  xkb_context = false;
  xkb_keymap = none;
  xkb_state = none;
  xkb_compose_table = none;
  xkb_compose_state = none;
}

abbrev some_keymap : Keymap
some_keymap = record no_keymap { xkb_context = true; xkb_keymap = some 1; xkb_state = some 1 }

abbrev grabbing : Grabbing
grabbing = record { pointer = always; keyboard = always; late = always }

abbrev machine : Machine
machine = record {
  passwd_ok = true;
  username_ok = true;
  wayland = false;
  mlock_password_ok = true;
  mlock_visible_ok = true;
  connect_ok = true;
  xkb_ok = true;
  first_loading = loading;
  lc_all = none;
  lc_ctype = none;
  lang = none;
  compose_table = λ locale. none;
  compose_state = none;
  first_grab = grabbing;
  second_grab = grabbing;
  in_child = false;
  second_loading = loading;
  loop_ok = true;
  callocs_ok = true;
}

launch_loops-Grabbed_example :
    (Grabbed machine.first_grab ⊎ Grabbed machine.second_grab) × Usable some_keymap
unfolding launch user_ok grabs try_grab enter_loop load_keymap take_keymap load_compose_table
    grab_pointer_and_keyboard
launch_loops-Grabbed_example = launch_loops-Grabbed machine no_keymap some_keymap refl

-- `strtol` to base 16, on two bytes.
abbrev value_of : Option ℕ → ℕ
value_of none = 0
value_of (some x) = x

abbrev read_two : List ℕ → ℕ
read_two text = 16 * value_of (hex_value (get_or text 0 0)) + value_of (hex_value (get_or text 1 0))

read_two-ReadsHex : ReadsHex read_two
read_two-ReadsHex a b x y h k = rw (h, k) refl

-- "#0080ff"
abbrev blue_text : List ℕ
blue_text = 35 ∷ 48 ∷ 48 ∷ 56 ∷ 48 ∷ 102 ∷ 102 ∷ []

color_option-pixel_example :
    (color : List ℕ) × (take_option (Opt.colors blue_text) initial_settings
      ≡ settles (record initial_settings { color = color }))
    × (get_colorpixel read_two color ≡ 33023)
unfolding skip_hash hex_number hex_value
color_option-pixel_example =
    color_option-pixel read_two blue_text 48 48 56 48 102 102 33023 initial_settings
      read_two-ReadsHex refl refl

-- "12zzzz" is accepted.
color_accepted_iff_example :
    ((color : List ℕ) × (set_color (49 ∷ 50 ∷ 122 ∷ 122 ∷ 122 ∷ 122 ∷ []) initial_settings.color
        ≡ some color))
    ↔ ((length (skip_hash (49 ∷ 50 ∷ 122 ∷ 122 ∷ 122 ∷ 122 ∷ [])) ≡ 6)
        × StartsHex (skip_hash (49 ∷ 50 ∷ 122 ∷ 122 ∷ 122 ∷ 122 ∷ [])))
color_accepted_iff_example =
    color_accepted_iff (49 ∷ 50 ∷ 122 ∷ 122 ∷ 122 ∷ 122 ∷ []) initial_settings.color
