-- ===== src/Drawing.antt =====
-- What unlock_indicator.c decides to draw: `draw_unlock_circle`, the areas and the background of
-- `draw_image`, and the pixmap of `redraw_screen`. The drawing itself is cairo's.
pub mod Count
use i3lock.Prelude.{
  ℕ, zero, suc, ◌+◌, ◌*◌, ◌/◌, ◌%◌, List, [], ◌∷◌, ◌++◌, Bool, true, false, not, ◌&&◌, ◌||◌, Option,
  none, some, leb, ltb, if◌then◌else◌, take,
}
use i3lock.Ui.{
  Ui, UnlockState, started, key_pressed, key_active, backspace_active, nothing_to_delete, AuthState,
  auth_idle, auth_verify, auth_lock, auth_wrong, lock_failed,
}
use i3lock.Ui.Events.{has_text}
use i3lock.Monitors.{Rect, Monitors, read_screens}

-- The parts of 255 of red, green and blue.
pub record Rgb : Type 0 where
  pub red : ℕ
  pub green : ℕ
  pub blue : ℕ

abbrev rgb : ℕ → ℕ → ℕ → Rgb
rgb red green blue = record { red = red; green = green; blue = blue }

unfoldable pub nothing_deleted : UnlockState → Bool
nothing_deleted nothing_to_delete = true
nothing_deleted _ = false

-- The circle's inside, which is drawn at 75 per cent.
unfoldable pub fill_color : AuthState → UnlockState → Rgb
unfolding nothing_deleted
fill_color auth_verify unlock_state = rgb 0 114 255
fill_color auth_lock unlock_state = rgb 0 114 255
fill_color auth_wrong unlock_state = rgb 250 0 0
fill_color lock_failed unlock_state = rgb 250 0 0
fill_color auth_idle unlock_state = if nothing_deleted unlock_state then rgb 250 0 0 else rgb 0 0 0

-- The circle's line, with `use_dark_text`.
unfoldable pub line_color : AuthState → UnlockState → Rgb × Bool
unfolding nothing_deleted
line_color auth_verify unlock_state = (rgb 51 0 250, true)
line_color auth_lock unlock_state = (rgb 51 0 250, true)
line_color auth_wrong unlock_state = (rgb 125 51 0, true)
line_color lock_failed unlock_state = (rgb 125 51 0, true)
line_color auth_idle unlock_state =
    if nothing_deleted unlock_state then (rgb 125 51 0, true) else (rgb 51 125 0, false)

-- The text in the circle: a fixed one; the count of failures, as `buf` holds it; the echoed input.
pub data CircleText : Type 0 where
  verifying locking wrong failed_to_lock no_input over_999 : CircleText
  count : List ℕ → CircleText
  echo : List ℕ → CircleText

-- The digits that `%d` prints, at most as many as the first number, from the lowest.
unfoldable pub decimal : ℕ → ℕ → List ℕ
decimal zero n = []
decimal (suc width) n =
    let higher = decimal width (n / 10) in
    if ltb n 10 then (48 + n) ∷ [] else higher ++ ((48 + n % 10) ∷ [])

-- `snprintf(buf, sizeof(buf), "%d", failed_attempts)` with four bytes, for an `int` of at most ten digits.
unfoldable pub count_text : ℕ → CircleText
unfolding decimal
count_text failed_attempts =
    if ltb 999 failed_attempts then over_999 else count (take 3 (decimal 10 failed_attempts))

unfoldable pub idle_text : Bool → Ui → Option CircleText
unfolding nothing_deleted count_text has_text
idle_text show_failed_attempts u =
    if u.pam_display.prompt_echo_on && has_text u.pam_display.visible_input
    then some (echo u.pam_display.visible_input)
    else if show_failed_attempts && ltb 0 u.failed_attempts
    then some (count_text u.failed_attempts)
    else if nothing_deleted u.unlock_state
    then some no_input
    else none

unfoldable pub circle_text : Bool → AuthState → Ui → Option CircleText
unfolding idle_text
circle_text show_failed_attempts auth_verify u = some verifying
circle_text show_failed_attempts auth_lock u = some locking
circle_text show_failed_attempts auth_wrong u = some wrong
circle_text show_failed_attempts lock_failed u = some failed_to_lock
circle_text show_failed_attempts auth_idle u = idle_text show_failed_attempts u

-- The color of the part that confirms a key press.
unfoldable pub highlight : UnlockState → Option Rgb
highlight key_active = some (rgb 51 219 0)
highlight backspace_active = some (rgb 219 51 0)
highlight _ = none

-- A string that is drawn if the panel leaves room for it.
unfoldable pub beside_panel : Bool → Bool → Option (List ℕ) → Option (List ℕ)
beside_panel wanted panel_visible string = if wanted && not panel_visible then string else none

-- Everything that the circle shows.
pub record Circle : Type 0 where
  pub fill : Rgb
  pub line : Rgb × Bool
  pub text : Option CircleText
  pub modifiers : Option (List ℕ)
  pub layout : Option (List ℕ)
  pub lit : Option Rgb

unfoldable pub draw_unlock_circle :
    Bool → Bool → Bool → Option (List ℕ) → Option (List ℕ) → Ui → Circle
unfolding fill_color line_color circle_text highlight beside_panel
draw_unlock_circle show_failed_attempts show_keyboard_layout panel_visible modifier_string
      layout_string u =
    record {
      fill = fill_color u.auth_state u.unlock_state;
      line = line_color u.auth_state u.unlock_state;
      text = circle_text show_failed_attempts u.auth_state u;
      modifiers = beside_panel true panel_visible modifier_string;
      layout = beside_panel show_keyboard_layout panel_visible layout_string;
      lit = highlight u.unlock_state;
    }

unfoldable pub is_idle : AuthState → Bool
is_idle auth_idle = true
is_idle _ = false

-- `unlock_state >= STATE_KEY_PRESSED`
unfoldable pub has_input : UnlockState → Bool
has_input started = false
has_input _ = true

-- The areas on which `draw_image` draws the indicator; `none` if it reads one that is not there.
unfoldable pub indicator_areas : ℕ × ℕ → Monitors → Ui → Option (List Rect)
unfolding is_idle has_input read_screens
indicator_areas resolution m u =
    if u.unlock_indicator && (has_input u.unlock_state || not (is_idle u.auth_state))
    then (if ltb 0 m.xr_screens
        then read_screens m.xr_screens m.xr_resolutions
        else some (record { x = 0; y = 0; width = resolution.0; height = resolution.1 } ∷ []))
    else some []

-- The background pixmap, with the resolution it was made for.
unfoldable pub free_bg_pixmap : Option (ℕ × ℕ) → Option (ℕ × ℕ)
free_bg_pixmap bg_pixmap = none

unfoldable pub ensure_bg_pixmap : ℕ × ℕ → Option (ℕ × ℕ) → Option (ℕ × ℕ)
ensure_bg_pixmap last_resolution none = some last_resolution
ensure_bg_pixmap last_resolution (some size) = some size
