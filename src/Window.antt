-- ===== src/Window.antt =====
-- The lock's window among the others: the visual and the focused window of xcb.c, the process of i3lock.c
-- that raises the window, and the end of `main`. A window or an atom is its number, and 0 is XCB_NONE.
use i3lock.Prelude.{
  ℕ, ◌≡◌, refl, inl, inr, List, [], ◌∷◌, ◌++◌, Bool, true, false, not, ◌||◌, Option, none, some,
  ◌==◌, if◌then◌else◌, Bool-cases,
}

-- The visuals of one depth: the first with the number of the root's visual.
unfoldable pub find_visual : ℕ → List ℕ → Option ℕ
find_visual root_visual [] = none
find_visual root_visual (visual ∷ visuals) =
    let rest = find_visual root_visual visuals in
    if not (root_visual == visual) then rest else some visual

abbrev or_else : Option ℕ → Option ℕ → Option ℕ
or_else none other = other
or_else (some visual) other = some visual

-- The depths in their order.
unfoldable pub get_root_visual_type : ℕ → List (List ℕ) → Option ℕ
unfolding find_visual
get_root_visual_type root_visual [] = none
get_root_visual_type root_visual (visuals ∷ depths) =
    or_else (find_visual root_visual visuals) (get_root_visual_type root_visual depths)

abbrev joined : List (List ℕ) → List ℕ
joined [] = []
joined (visuals ∷ depths) = visuals ++ joined depths

find_visual-append :
    (root_visual : ℕ) (xs ys : List ℕ)
    → find_visual root_visual (xs ++ ys)
      ≡ or_else (find_visual root_visual xs) (find_visual root_visual ys)
unfolding find_visual
find_visual-append root_visual [] ys = refl
find_visual-append root_visual (x ∷ xs) ys = elim (Bool-cases (root_visual == x)) [
  | inl same ↦ rw same refl
  | inr other ↦ rw other (find_visual-append root_visual xs ys)
]

-- The search over the depths finds what one search over all their visuals finds.
pub get_root_visual_type-joined :
    (root_visual : ℕ) (depths : List (List ℕ))
    → get_root_visual_type root_visual depths ≡ find_visual root_visual (joined depths)
unfolding get_root_visual_type find_visual
get_root_visual_type-joined root_visual [] = refl
get_root_visual_type-joined root_visual (visuals ∷ depths) =
    rw
      (
        get_root_visual_type-joined root_visual depths,
        find_visual-append root_visual visuals (joined depths),
      )
      refl

-- `_NET_ACTIVE_WINDOW`, with the reply to the request for the atom.
unfoldable pub _init_net_active_window : Option ℕ → ℕ → ℕ
_init_net_active_window reply atom =
    if not (atom == 0) then atom else elim reply [ none ↦ atom | some interned ↦ interned ]

-- The reply to the request for the property: its length, whether its type is a window, and its value.
unfoldable pub find_focused_window : Option (ℕ × Bool × ℕ) → ℕ
find_focused_window none = 0
find_focused_window (some (length, is_window, window)) =
    if length == 0 then 0 else if not is_window then 0 else window

-- The events that `raise_loop` waits for.
pub data RaiseEvent : Type 0 where
  raise_error raise_other : RaiseEvent
  raise_visibility : ℕ → Bool → RaiseEvent
  raise_unmap raise_destroy : ℕ → RaiseEvent

-- The windows that are asked to be raised, the newest first, and whether the process has exited; without
-- an exit the loop ends with the connection.
unfoldable pub raise_loop : ℕ → List RaiseEvent → List ℕ → List ℕ × Bool
raise_loop window [] raised = (raised, false)
raise_loop window (raise_error ∷ events) raised = raise_loop window events raised
raise_loop window (raise_other ∷ events) raised = raise_loop window events raised
raise_loop window (raise_visibility obscured true ∷ events) raised = raise_loop window events raised
raise_loop window (raise_visibility obscured false ∷ events) raised =
    raise_loop window events (obscured ∷ raised)
raise_loop window (raise_unmap gone ∷ events) raised =
    let rest = raise_loop window events raised in if gone == window then (raised, true) else rest
raise_loop window (raise_destroy gone ∷ events) raised =
    let rest = raise_loop window events raised in if gone == window then (raised, true) else rest

-- Whether the event tells that the window is gone.
abbrev takes_away : ℕ → RaiseEvent → Bool
takes_away window (raise_unmap gone) = gone == window
takes_away window (raise_destroy gone) = gone == window
takes_away window _ = false

abbrev some_takes_away : ℕ → List RaiseEvent → Bool
some_takes_away window [] = false
some_takes_away window (e ∷ events) = takes_away window e || some_takes_away window events

-- The process that raises the window exits exactly if some event tells that the lock's window is unmapped
-- or destroyed.
pub raise_loop_exits :
    (window : ℕ) (events : List RaiseEvent) (raised : List ℕ)
    → (raise_loop window events raised).1 ≡ some_takes_away window events
unfolding raise_loop
raise_loop_exits window [] raised = refl
raise_loop_exits window (raise_error ∷ events) raised = raise_loop_exits window events raised
raise_loop_exits window (raise_other ∷ events) raised = raise_loop_exits window events raised
raise_loop_exits window (raise_visibility obscured true ∷ events) raised =
    raise_loop_exits window events raised
raise_loop_exits window (raise_visibility obscured false ∷ events) raised =
    raise_loop_exits window events (obscured ∷ raised)
raise_loop_exits window (raise_unmap gone ∷ events) raised = elim (Bool-cases (gone == window)) [
  | inl own ↦ rw own refl
  | inr other ↦ rw other (raise_loop_exits window events raised)
]
raise_loop_exits window (raise_destroy gone ∷ events) raised = elim (Bool-cases (gone == window)) [
  | inl own ↦ rw own refl
  | inr other ↦ rw other (raise_loop_exits window events raised)
]

-- What `main` asks of the server at its end.
pub data Farewell : Type 0 where
  ungrab_pointer ungrab_keyboard destroy_window : Farewell
  focus : ℕ → Farewell

unfoldable pub restore_focus : ℕ → List Farewell
restore_focus stolen_focus =
    if stolen_focus == 0
    then []
    else ungrab_pointer ∷ ungrab_keyboard ∷ destroy_window ∷ focus stolen_focus ∷ []
