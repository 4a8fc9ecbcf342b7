-- ===== src/Queue/Bounded.antt =====
-- What the event queue promises: a first-in first-out list of at most `max_events` events. When it is
-- full a status message makes room for any event; a terminal event always gets in.
use i3lock.Prelude.{
  List, [], ◌∷◌, ◌++◌, Bool, true, not, Option, none, some, ltb, if◌then◌else◌, length,
}
use i3lock.Pam.{EventType, Event, event_is_terminal, is_status}
use i3lock.Queue.{max_events}

-- The list without the first event of a kind, if there is one.
unfoldable pub delete_first : (EventType → Bool) → List Event → Option (List Event)
delete_first p [] = none
delete_first p (e ∷ q) =
    if p e.type then some q else elim (delete_first p q) [ none ↦ none | some r ↦ some (e ∷ r) ]

abbrev pub drop_oldest : List Event → List Event
drop_oldest [] = []
drop_oldest (e ∷ q) = q

-- A full list with one event taken out for `new`, if `new` may have its place.
unfoldable pub make_room : List Event → EventType → Option (List Event)
make_room q new = elim (delete_first is_status q) [
  | some r ↦ some r
  | none ↦
      if event_is_terminal new
      then elim (delete_first (λ t. not (event_is_terminal t)) q) [
        | some r ↦ some r
        | none ↦ some (drop_oldest q)
      ]
      else none
]

unfoldable pub offer : List Event → Event → Bool × List Event
offer q e =
    if ltb (length q) max_events
    then (true, q ++ (e ∷ []))
    else elim (make_room q e.type) [ some r ↦ (true, r ++ (e ∷ [])) | none ↦ (is_status e.type, q) ]
