-- ===== src/App/Drawn.antt =====
-- The reads of `draw_image` in unlock_indicator.c within the handlers of i3lock.c.
use i3lock.Prelude.{
  ℕ, ◌-◌, ◌≡◌, refl, List, [], ◌∷◌, Bool, true, false, not, ◌&&◌, ◌||◌, Option, none, some, ltb,
  if◌then◌else◌, length, take,
}
use i3lock.Ui.{Ui, UnlockState, AuthState, redraw_screen}
use i3lock.Drawing.{indicator_areas, has_input, is_idle}
use i3lock.Monitors.{Rect, Monitors, read_screens}
use i3lock.Monitors.Outputs.{visible}
use i3lock.App.{
  App, Outcome, runs, parent_exits, connection_broken, out_of_bounds, with_ui, draws, draws_all,
  drawn_from, redraw,
}

-- Each monitor that is counted has its area in the array.
abbrev pub IsThere : Option (List Rect) → Type 0
IsThere none = ⊥
IsThere (some areas) = Unit {0}

pub areas-IsThere :
    (resolution : ℕ × ℕ) (m : Monitors) (u : Ui)
    → IsThere (visible m)
    → IsThere (indicator_areas resolution m u)
unfolding indicator_areas
areas-IsThere resolution m u h =
    go (u.unlock_indicator && (has_input u.unlock_state || not (is_idle u.auth_state)))
      (ltb 0 m.xr_screens)
  where
    go :
        (shown some_screen : Bool)
        → IsThere (
            if shown
            then (if some_screen
                then read_screens m.xr_screens m.xr_resolutions
                else some
                    (record { x = 0; y = 0; width = resolution.0; height = resolution.1 } ∷ []))
            else some [])
    go true true = h
    go true false = tt
    go false s = tt

draws_there :
    (a : App) (frame : UnlockState × AuthState)
    → IsThere (visible a.monitors)
    → draws a frame ≡ true
unfolding draws
draws_there a (unlock_state, auth_state) h =
    let u = record (a.ui) { unlock_state = unlock_state; auth_state = auth_state } in
    go (indicator_areas a.last_resolution a.monitors u)
      (areas-IsThere a.last_resolution a.monitors u h)
  where
    go :
        (areas : Option (List Rect))
        → IsThere areas
        → (elim areas [ none ↦ false | some areas ↦ true ]) ≡ true
    go none k = absurd k
    go (some areas) k = refl

draws_all_there :
    (a : App) (frames : List (UnlockState × AuthState))
    → IsThere (visible a.monitors)
    → draws_all a frames ≡ true
unfolding draws_all
draws_all_there a [] h = refl
draws_all_there a (frame ∷ frames) h = rw (draws_there a frame h) (draws_all_there a frames h)

-- With the areas there, drawing changes nothing but the frames.
pub redraw_there :
    (a : App) → IsThere (visible a.monitors) → redraw a ≡ some (with_ui redraw_screen a)
unfolding redraw
redraw_there a h = rw (draws_there a (a.ui.unlock_state, a.ui.auth_state) h) refl

pub drawn_there : (a : App) (o : Outcome) → IsThere (visible a.monitors) → drawn_from a o ≡ o
unfolding drawn_from
drawn_there a (runs b) h =
    rw (draws_all_there a (take (length b.ui.frames - length a.ui.frames) b.ui.frames) h) refl
drawn_there a (parent_exits b) h = refl
drawn_there a connection_broken h = refl
drawn_there a out_of_bounds h = refl

-- What holds of a fault and of the state with its new frame holds of the drawing.
pub redraw-keeps {ℓ} :
    (P : Option App → Type ℓ)
    → P none
    → (a : App) → P (some (with_ui redraw_screen a))
    → P (redraw a)
unfolding redraw
redraw-keeps P fault a h = go (draws a (a.ui.unlock_state, a.ui.auth_state))
  where
    go : (b : Bool) → P (if b then some (with_ui redraw_screen a) else none)
    go true = h
    go false = fault

pub drawn_from-keeps {ℓ} :
    (P : Outcome → Type ℓ) → P out_of_bounds → (a : App) (o : Outcome) → P o → P (drawn_from a o)
unfolding drawn_from
drawn_from-keeps P fault a (runs b) h =
    go (draws_all a (take (length b.ui.frames - length a.ui.frames) b.ui.frames))
  where
    go : (c : Bool) → P (if c then runs b else out_of_bounds)
    go true = h
    go false = fault
drawn_from-keeps P fault a (parent_exits b) h = h
drawn_from-keeps P fault a connection_broken h = h
drawn_from-keeps P fault a out_of_bounds h = h
