-- ===== src/App/Fit.antt =====
-- The window of i3lock.c behind a ConfigureNotify: as large as the screen that the server tells.
use i3lock.Prelude.{
  ℕ, ◌≡◌, refl, List, ◌∷◌, Bool, true, Option, none, some, arith, Bool-cases, inl, inr,
}
use i3lock.Monitors.{Monitors, Replies, randr_query}
use i3lock.App.{App, Resizing, resizes, configure_notify, x_event, runs, or_fault, redraw}
use i3lock.App.Events.{
  same_resolution, redraw_monitors, resize_drawn, resize_to, handle_screen_resize, handle_x_event,
}
use i3lock.App.Drawn.{redraw-keeps}
use i3lock.App.Safety.{SafeApp, SafeAll, resize-SafeAll}
use i3lock.App.Bounds.{AppReach-Safe, FitsRun}
use i3lock.App.Cover.{window_size, Covers, Resolved, AppReach-Covers}
use i3lock.App.Run.{AppReach}

same_resolution_lem : (p q : ℕ × ℕ) → same_resolution p q ≡ true → p ≡ q
same_resolution_lem (a, b) (c, d) h =
    let first : a ≡ c = ground (arith, h) in
    let second : b ≡ d = ground (arith, h) in rw (first, second) refl

module _ (opened : ℕ × ℕ) where
  -- The window has the size, and it is noted as the screen's.
  abbrev Fills : ℕ × ℕ → Option App → Type 0
  Fills size none = Unit {0}
  Fills size (some b) = (window_size opened b.requests ≡ size) × (b.last_resolution ≡ size)

  redraw-Fills :
      (size : ℕ × ℕ) (a : App) (m : Option Monitors)
      → Fills size (some a)
      → Fills size (redraw_monitors a m)
  unfolding redraw_monitors i3lock.App.with_ui
  redraw-Fills size a none h = tt
  redraw-Fills size a (some m) h = redraw-keeps (Fills size) tt (record a { monitors = m }) h

  drawn-Fills :
      (replies : Replies) (size : ℕ × ℕ) (r : Option App)
      → Resolved opened size r
      → Fills size (resize_drawn replies size r)
  unfolding resize_drawn
  drawn-Fills replies size none h = tt
  drawn-Fills replies size (some a) h =
      let asked = record a { requests = resizes size.0 size.1 ∷ a.requests } in
      redraw-Fills size asked (randr_query replies asked.monitors) (refl, h)

  resize_to-Fills :
      (replies : Replies) (size : ℕ × ℕ) (a : App) → Fills size (resize_to replies size a)
  unfolding resize_to i3lock.App.with_ui
  resize_to-Fills replies size a =
      drawn-Fills replies size (redraw (record a { last_resolution = size }))
        (redraw-keeps (Resolved opened size) tt (record a { last_resolution = size }) refl)

  resize-Fills :
      (r : Resizing) (size : ℕ × ℕ) (a : App)
      → r.geometry ≡ some size
      → Covers opened a
      → Fills size (handle_screen_resize r a)
  unfolding handle_screen_resize
  resize-Fills r size a told h = elim (Bool-cases (same_resolution a.last_resolution size)) [
    | inl same ↦
        let kept : a.last_resolution ≡ size = same_resolution_lem a.last_resolution size same in
        rw (told, same) (rw kept at h, kept)
    | inr changed ↦ rw (told, changed) (resize_to-Fills r.replies size a)
  ]

  -- From a safe state in which the window is as large as the screen: in every state that the program reaches by
  -- key presses that fit the key's buffer and by any other events, a ConfigureNotify to which the server tells the
  -- screen's size is handled, and behind it the size that was asked for the window at last is the one told, and
  -- so is the resolution that is noted.
  pub window_covers_screen :
      (update_mask : ℕ → List ℕ → ℕ) (screen_change : ℕ) (calloc_ok synthetic : Bool) (r : Resizing)
      (size : ℕ × ℕ) {s a : App}
      → SafeApp s
      → window_size opened s.requests ≡ s.last_resolution
      → (run : AppReach update_mask screen_change s a) → FitsRun update_mask screen_change run
      → r.geometry ≡ some size
      → (b : App) × (handle_x_event update_mask screen_change calloc_ok
            (x_event synthetic (configure_notify r))
            a
          ≡ runs b)
        × (window_size opened b.requests ≡ size)
        × (b.last_resolution ≡ size)
  unfolding handle_x_event
  window_covers_screen update_mask screen_change calloc_ok synthetic r size {a = a} safe h run fits
        told =
      go (handle_screen_resize r a)
        (resize-SafeAll r a (AppReach-Safe update_mask screen_change run fits safe))
        (resize-Fills r size a told (AppReach-Covers opened update_mask screen_change h run))
    where
      go :
          (o : Option App)
          → SafeAll o
          → Fills size o
          → (b : App) × (or_fault o ≡ runs b)
            × (window_size opened b.requests ≡ size)
            × (b.last_resolution ≡ size)
      go none s f = absurd s
      go (some b) s f = (b, refl, f.0, f.1)
