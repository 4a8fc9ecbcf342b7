-- ===== src/App/Screen.antt =====
-- The handlers of X events that change nothing but the screen and the keyboard's map.
use i3lock.Prelude.{
  ℕ, ◌≡◌, refl, ap, ◌∙◌, List, ◌∷◌, Bool, true, false, Option, none, some, if◌then◌else◌, ◌==◌,
}
use i3lock.Ui.{redraw_screen}
use i3lock.Keymap.{Loading, XkbEvent, process_xkb_event}
use i3lock.Monitors.{Monitors, Replies, randr_query}
use i3lock.App.{App, Resizing, resizes, with_ui, redraw, handle_visibility_notify}
use i3lock.App.Drawn.{redraw-keeps}
use i3lock.App.Events.{
  redraw_monitors, resize_drawn, then_screen_change, resize_to, handle_screen_resize,
  same_resolution, on_xkb_event, on_screen_change, is_screen_change, on_other_event,
}

-- The frames, the requests, the monitors, the resolution and the map of the keyboard of the first state,
-- with everything else of the second.
abbrev pub with_screen_of : App → App → App
with_screen_of b a = record a {
  ui = record (a.ui) { frames = b.ui.frames };
  requests = b.requests;
  last_resolution = b.last_resolution;
  monitors = b.monitors;
  keymap = b.keymap;
}

-- Nothing else changes from the first to the second.
abbrev pub OnlyScreen : App → App → Type 0
OnlyScreen a b = b ≡ with_screen_of b a

abbrev pub ScreenAll : App → Option App → Type 0
ScreenAll a none = Unit {0}
ScreenAll a (some b) = OnlyScreen a b

OnlyScreen-trans : (a b c : App) → OnlyScreen a b → OnlyScreen b c → OnlyScreen a c
OnlyScreen-trans a b c h k = k ∙ ap (with_screen_of c) h

trans-ScreenAll : (a b : App) (r : Option App) → OnlyScreen a b → ScreenAll b r → ScreenAll a r
trans-ScreenAll a b none s t = tt
trans-ScreenAll a b (some c) s t = OnlyScreen-trans a b c s t

pub visibility-OnlyScreen :
    (window : ℕ) (unobscured : Bool) (a : App)
    → OnlyScreen a (handle_visibility_notify window unobscured a)
unfolding handle_visibility_notify
visibility-OnlyScreen window true a = refl
visibility-OnlyScreen window false a = refl

redraw-ScreenAll :
    (a b : App) (m : Option Monitors) → OnlyScreen a b → ScreenAll a (redraw_monitors b m)
unfolding redraw_monitors with_ui redraw_screen
redraw-ScreenAll a b none s = tt
redraw-ScreenAll a b (some m) s =
    let c = record b { monitors = m } in
    redraw-keeps (ScreenAll a) tt c (OnlyScreen-trans a b (with_ui redraw_screen c) s refl)

drawn-ScreenAll :
    (replies : Replies) (size : ℕ × ℕ) (a : App) (r : Option App)
    → ScreenAll a r
    → ScreenAll a (resize_drawn replies size r)
unfolding resize_drawn
drawn-ScreenAll replies size a none s = tt
drawn-ScreenAll replies size a (some b) s =
    let asked = record b { requests = resizes size.0 size.1 ∷ b.requests } in
    redraw-ScreenAll a asked (randr_query replies asked.monitors)
      (OnlyScreen-trans a b asked s refl)

resize_to-ScreenAll :
    (replies : Replies) (size : ℕ × ℕ) (a : App) → ScreenAll a (resize_to replies size a)
unfolding resize_to with_ui redraw_screen
resize_to-ScreenAll replies size a =
    drawn-ScreenAll replies size a (redraw (record a { last_resolution = size }))
      (redraw-keeps (ScreenAll a) tt (record a { last_resolution = size }) refl)

pub resize-ScreenAll : (r : Resizing) (a : App) → ScreenAll a (handle_screen_resize r a)
unfolding handle_screen_resize
resize-ScreenAll r a = go r.geometry
  where
    go :
        (g : Option (ℕ × ℕ))
        → ScreenAll a (elim g [
          | none ↦ some a
          | some size ↦
              if same_resolution a.last_resolution size then some a else resize_to r.replies size a
        ])
    go none = refl
    go (some size) = choose (same_resolution a.last_resolution size)
      where
        choose : (b : Bool) → ScreenAll a (if b then some a else resize_to r.replies size a)
        choose true = refl
        choose false = resize_to-ScreenAll r.replies size a

change-ScreenAll :
    (replies : Replies) (r : Resizing) (a : App) → ScreenAll a (on_screen_change replies r a)
unfolding on_screen_change
change-ScreenAll replies r a = go (randr_query replies a.monitors)
  where
    go :
        (q : Option Monitors)
        → ScreenAll a (elim q [
          | none ↦ none
          | some monitors ↦ handle_screen_resize r (record a { monitors = monitors })
        ])
    go none = tt
    go (some monitors) =
        let b = record a { monitors = monitors } in
        trans-ScreenAll a b (handle_screen_resize r b) refl (resize-ScreenAll r b)

then-ScreenAll :
    (screen_change type : ℕ) (replies : Replies) (r : Resizing) (a : App) (o : Option App)
    → ScreenAll a o
    → ScreenAll a (then_screen_change screen_change type replies r o)
unfolding then_screen_change
then-ScreenAll screen_change type replies r a none s = tt
then-ScreenAll screen_change type replies r a (some b) s =
    go (is_screen_change screen_change b.randr_base type)
  where
    go : (c : Bool) → ScreenAll a (if c then on_screen_change replies r b else some b)
    go true = trans-ScreenAll a b (on_screen_change replies r b) s (change-ScreenAll replies r b)
    go false = s

pub other-ScreenAll :
    (update_mask : ℕ → List ℕ → ℕ) (screen_change type : ℕ) (e : XkbEvent) (l : Loading)
    (replies : Replies) (r : Resizing) (a : App)
    → ScreenAll a (on_other_event update_mask screen_change type e l replies r a)
unfolding on_other_event on_xkb_event with_ui redraw_screen
other-ScreenAll update_mask screen_change type e l replies r a =
    then-ScreenAll screen_change type replies r a _ (go (type == a.xkb_base_event))
  where
    go : (c : Bool) → ScreenAll a (if c then on_xkb_event update_mask l e a else some a)
    go true =
        redraw-keeps (ScreenAll a) tt
          (record a { keymap = process_xkb_event update_mask l e a.keymap }) refl
    go false = refl
