-- ===== src/App/Events.antt =====
-- The X events of i3lock.c: `handle_screen_resize` and `xcb_check_cb`, whose loop takes one event after
-- the other.
use i3lock.Prelude.{
  ℕ, ◌+◌, List, [], ◌∷◌, Bool, false, ◌&&◌, Option, none, some, ◌==◌, if◌then◌else◌,
}
use i3lock.Keymap.{Loading, XkbEvent, process_xkb_event}
use i3lock.Monitors.{Monitors, Replies, randr_query}
use i3lock.App.{
  resizes, key_press, visibility_notify, map_notify, configure_notify, other_event, x_error,
  x_event, runs, parent_exits, connection_broken, out_of_bounds, App, Resizing, XEvent, Outcome,
  or_fault, redraw, drawn_from, on_key_press, handle_visibility_notify, on_map_notify,
}

abbrev pub same_resolution : ℕ × ℕ → ℕ × ℕ → Bool
same_resolution p q = p.0 == q.0 && p.1 == q.1

-- The end of the handler, with the monitors as the query leaves them.
unfoldable pub redraw_monitors : App → Option Monitors → Option App
unfolding redraw
redraw_monitors a none = none
redraw_monitors a (some monitors) = redraw (record a { monitors = monitors })

unfoldable pub resize_drawn : Replies → ℕ × ℕ → Option App → Option App
unfolding redraw_monitors randr_query
resize_drawn replies size none = none
resize_drawn replies size (some a) =
    let asked = record a { requests = resizes size.0 size.1 ∷ a.requests } in
    redraw_monitors asked (randr_query replies asked.monitors)

unfoldable pub resize_to : Replies → ℕ × ℕ → App → Option App
unfolding resize_drawn redraw
resize_to replies size a = resize_drawn replies size (redraw (record a { last_resolution = size }))

unfoldable pub handle_screen_resize : Resizing → App → Option App
unfolding resize_to
handle_screen_resize r a = elim r.geometry [
  | none ↦ some a
  | some size ↦
      if same_resolution a.last_resolution size then some a else resize_to r.replies size a
]

unfoldable pub on_xkb_event : (ℕ → List ℕ → ℕ) → Loading → XkbEvent → App → Option App
unfolding process_xkb_event redraw
on_xkb_event update_mask l e a =
    redraw (record a { keymap = process_xkb_event update_mask l e a.keymap })

unfoldable pub on_screen_change : Replies → Resizing → App → Option App
unfolding handle_screen_resize randr_query
on_screen_change replies r a = elim (randr_query replies a.monitors) [
  | none ↦ none
  | some monitors ↦ handle_screen_resize r (record a { monitors = monitors })
]

-- `type == randr_base + XCB_RANDR_SCREEN_CHANGE_NOTIFY`, where there is a base.
abbrev pub is_screen_change : ℕ → Option ℕ → ℕ → Bool
is_screen_change offset none type = false
is_screen_change offset (some base) type = type == base + offset

-- The second test of the `default`.
unfoldable pub then_screen_change : ℕ → ℕ → Replies → Resizing → Option App → Option App
unfolding on_screen_change
then_screen_change screen_change type replies r none = none
then_screen_change screen_change type replies r (some a) =
    if is_screen_change screen_change a.randr_base type
    then on_screen_change replies r a
    else some a

-- The `default` of the `switch`.
unfoldable pub on_other_event :
    (ℕ → List ℕ → ℕ) → ℕ → ℕ → XkbEvent → Loading → Replies → Resizing → App → Option App
unfolding on_xkb_event then_screen_change
on_other_event update_mask screen_change type e l replies r a =
    then_screen_change screen_change type replies r
      (if type == a.xkb_base_event then on_xkb_event update_mask l e a else some a)

-- The body of the loop of `xcb_check_cb`. `update_mask` is `xkb_state_update_mask`, `screen_change` is
-- XCB_RANDR_SCREEN_CHANGE_NOTIFY, and `calloc_ok` is for the timers.
unfoldable pub handle_x_event : (ℕ → List ℕ → ℕ) → ℕ → Bool → XEvent → App → Outcome
unfolding on_key_press handle_visibility_notify on_map_notify handle_screen_resize on_other_event
    drawn_from
handle_x_event update_mask screen_change calloc_ok x_error a = runs a
handle_x_event update_mask screen_change calloc_ok (x_event synthetic (key_press k)) a =
    drawn_from a (on_key_press calloc_ok k a)
handle_x_event update_mask screen_change calloc_ok
      (x_event synthetic (visibility_notify window unobscured)) a =
    runs (handle_visibility_notify window unobscured a)
handle_x_event update_mask screen_change calloc_ok (x_event synthetic (map_notify m)) a =
    if synthetic then runs a else drawn_from a (on_map_notify m a)
handle_x_event update_mask screen_change calloc_ok (x_event synthetic (configure_notify r)) a =
    or_fault (handle_screen_resize r a)
handle_x_event update_mask screen_change calloc_ok
      (x_event synthetic (other_event type e l replies r)) a =
    or_fault (on_other_event update_mask screen_change type e l replies r a)

-- The loop, over the events that `xcb_poll_for_event` gives.
unfoldable pub handle_x_events : (ℕ → List ℕ → ℕ) → ℕ → Bool → List XEvent → App → Outcome
unfolding handle_x_event
handle_x_events update_mask screen_change calloc_ok [] a = runs a
handle_x_events update_mask screen_change calloc_ok (e ∷ events) a =
    elim (handle_x_event update_mask screen_change calloc_ok e a) [
      | runs b ↦ handle_x_events update_mask screen_change calloc_ok events b
      | parent_exits b ↦ parent_exits b
      | connection_broken ↦ connection_broken
      | out_of_bounds ↦ out_of_bounds
    ]

unfoldable pub xcb_check_cb : (ℕ → List ℕ → ℕ) → ℕ → Bool → Bool → List XEvent → App → Outcome
unfolding handle_x_events
xcb_check_cb update_mask screen_change calloc_ok has_error events a =
    if has_error
    then connection_broken
    else handle_x_events update_mask screen_change calloc_ok events a
