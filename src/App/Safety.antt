-- ===== src/App/Safety.antt =====
-- The redraws and changes of the screen in i3lock.c: the accesses to the password buffer and to the array of
-- monitors.
use i3lock.Prelude.{
  ℕ, ◌≡◌, refl, ◌∙◌, List, Bool, true, false, ◌&&◌, ◌∷◌, Option, none, some, if◌then◌else◌, ◌==◌,
}
use i3lock.Ui.{redraw_screen}
use i3lock.Ui.Buffer.{Sound}
use i3lock.Keymap.{Loading, XkbEvent, process_xkb_event}
use i3lock.Monitors.{Rect, Monitors, Replies, randr_query}
use i3lock.Monitors.Flags.{SameFlags, randr_query-SameFlags}
use i3lock.Monitors.Outputs.{Shows, visible, renewed, latest, randr_query-Shows}
use i3lock.App.{App, Resizing, Outcome, runs, out_of_bounds, or_fault, with_ui, redraw, resizes}
use i3lock.App.Drawn.{IsThere, redraw_there}
use i3lock.App.Events.{
  redraw_monitors, resize_drawn, then_screen_change, resize_to, handle_screen_resize,
  same_resolution, on_xkb_event, on_screen_change, is_screen_change, on_other_event,
}

-- The password buffer is sound, the monitors come from RandR, and the area of each that is counted is in the
-- array.
pub record SafeApp (a : App) : Type 0 where
  pub buffer : Sound a.ui
  pub randr : a.monitors.has_randr ≡ true
  pub quiet : a.monitors.xinerama_active ≡ false
  pub there : IsThere (visible a.monitors)

abbrev pub SafeAll : Option App → Type 0
SafeAll none = ⊥
SafeAll (some a) = SafeApp a

-- No access outside an array, and a safe state where the process goes on.
abbrev pub SafeOutcome : Outcome → Type 0
SafeOutcome (runs a) = SafeApp a
SafeOutcome out_of_bounds = ⊥
SafeOutcome _ = Unit {0}

pub fault-Safe : (r : Option App) → SafeAll r → SafeOutcome (or_fault r)
fault-Safe none h = h
fault-Safe (some a) h = h

-- The areas behind a query are there if those before it were.
renewed-IsThere :
    (malloc_ok : Bool) (old : Option (List Rect)) (areas : Option (List Rect))
    → IsThere old
    → IsThere (renewed malloc_ok old areas)
renewed-IsThere malloc_ok old none h = h
renewed-IsThere true old (some areas) h = tt
renewed-IsThere false old (some areas) h = h

-- With RandR a query succeeds, and there is still RandR.
query-Safe :
    (r : Replies) (a : App)
    → SafeApp a
    → (t : Monitors) × (randr_query r a.monitors ≡ some t) × (SafeApp (record a { monitors = t }))
query-Safe r a s =
    go _ (randr_query r a.monitors) refl (randr_query-Shows r a.monitors s.randr s.quiet)
      (randr_query-SameFlags r a.monitors)
      (renewed-IsThere r.malloc_ok (visible a.monitors)
        (latest (r.built_with_1_5 && a.monitors.has_randr_1_5) r.monitors r.outputs) s.there)
  where
    go :
        (areas : Option (List Rect)) (q : Option Monitors)
        → randr_query r a.monitors ≡ q
        → Shows areas q
        → SameFlags a.monitors q
        → IsThere areas
        → (t : Monitors) × (randr_query r a.monitors ≡ some t)
          × (SafeApp (record a { monitors = t }))
    go areas none e shows flags there = absurd shows
    go areas (some t) e shows flags there = (
      t,
      e,
      record {
        buffer = s.buffer;
        randr = flags.0 ∙ s.randr;
        quiet = flags.1 ∙ s.quiet;
        there = rw shows there;
      },
    )

-- A drawing in a safe state makes no access outside an array.
redraw-SafeAll : (a : App) → SafeApp a → SafeAll (redraw a)
unfolding with_ui redraw_screen
redraw-SafeAll a s =
    rw (redraw_there a s.there)
      (record { buffer = s.buffer; randr = s.randr; quiet = s.quiet; there = s.there })

drawn-SafeAll :
    (replies : Replies) (size : ℕ × ℕ) (r : Option App)
    → SafeAll r
    → SafeAll (resize_drawn replies size r)
unfolding resize_drawn redraw_monitors
drawn-SafeAll replies size none h = h
drawn-SafeAll replies size (some a) s =
    let asked = record a { requests = resizes size.0 size.1 ∷ a.requests } in
    let (t, e, safe) =
      query-Safe replies asked
        (record { buffer = s.buffer; randr = s.randr; quiet = s.quiet; there = s.there }) in
    rw (e, redraw_monitors) (redraw-SafeAll (record asked { monitors = t }) safe)

resize_to-SafeAll :
    (replies : Replies) (size : ℕ × ℕ) (a : App) → SafeApp a → SafeAll (resize_to replies size a)
unfolding resize_to
resize_to-SafeAll replies size a s =
    drawn-SafeAll replies size (redraw (record a { last_resolution = size })) (
      redraw-SafeAll (record a { last_resolution = size })
        (record { buffer = s.buffer; randr = s.randr; quiet = s.quiet; there = s.there }))

pub resize-SafeAll : (r : Resizing) (a : App) → SafeApp a → SafeAll (handle_screen_resize r a)
unfolding handle_screen_resize
resize-SafeAll r a s = go r.geometry
  where
    choose : (b : Bool) (size : ℕ × ℕ) → SafeAll (if b then some a else resize_to r.replies size a)
    choose true size = s
    choose false size = resize_to-SafeAll r.replies size a s

    go :
        (g : Option (ℕ × ℕ))
        → SafeAll (elim g [
          | none ↦ some a
          | some size ↦
              if same_resolution a.last_resolution size then some a else resize_to r.replies size a
        ])
    go none = s
    go (some size) = choose (same_resolution a.last_resolution size) size

change-SafeAll :
    (replies : Replies) (r : Resizing) (a : App)
    → SafeApp a
    → SafeAll (on_screen_change replies r a)
unfolding on_screen_change
change-SafeAll replies r a s =
    let (t, e, safe) = query-Safe replies a s in
    rw (e, on_screen_change) (resize-SafeAll r (record a { monitors = t }) safe)

xkb-SafeAll :
    (update_mask : ℕ → List ℕ → ℕ) (l : Loading) (e : XkbEvent) (a : App)
    → SafeApp a
    → SafeAll (on_xkb_event update_mask l e a)
unfolding on_xkb_event
xkb-SafeAll update_mask l e a s =
    redraw-SafeAll (record a { keymap = process_xkb_event update_mask l e a.keymap })
      (record { buffer = s.buffer; randr = s.randr; quiet = s.quiet; there = s.there })

if-SafeAll : (b : Bool) (p q : Option App) → SafeAll p → SafeAll q → SafeAll (if b then p else q)
if-SafeAll true p q h k = h
if-SafeAll false p q h k = k

then-SafeAll :
    (screen_change type : ℕ) (replies : Replies) (r : Resizing) (o : Option App)
    → SafeAll o
    → SafeAll (then_screen_change screen_change type replies r o)
unfolding then_screen_change
then-SafeAll screen_change type replies r none h = h
then-SafeAll screen_change type replies r (some a) s =
    if-SafeAll (is_screen_change screen_change a.randr_base type) (on_screen_change replies r a)
      (some a) (change-SafeAll replies r a s) s

pub other-SafeAll :
    (update_mask : ℕ → List ℕ → ℕ) (screen_change type : ℕ) (e : XkbEvent) (l : Loading)
    (replies : Replies) (r : Resizing) (a : App)
    → SafeApp a
    → SafeAll (on_other_event update_mask screen_change type e l replies r a)
unfolding on_other_event
other-SafeAll update_mask screen_change type e l replies r a s =
    then-SafeAll screen_change type replies r _ (
      if-SafeAll (type == a.xkb_base_event) (on_xkb_event update_mask l e a) (some a)
        (xkb-SafeAll update_mask l e a s) s)
