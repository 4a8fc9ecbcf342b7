-- ===== src/Queue.antt =====
-- The event queue of pam_controller.c: the array `ctrl.events` with `ctrl.event_count`, and the pipe
-- that wakes the main loop.
pub mod Bounded
pub mod Refine
pub mod Delivery
use i3lock.Prelude.{
  ℕ, suc, ◌+◌, ◌-◌, List, [], ◌∷◌, ◌++◌, Bool, true, false, not, Option, none, some, ltb,
  if◌then◌else◌, length, set, take, drop, replicate,
}
use i3lock.Pam.{EventType, Event, blank_event, event_is_terminal, is_status}

abbrev pub max_events : ℕ
max_events = 16

-- The array and its count; the bytes that wait in the pipe, and how many it holds at most.
pub record Channel : Type 0 where
  pub events : List Event
  pub event_count : ℕ
  pub pipe_bytes : ℕ
  pub pipe_capacity : ℕ

-- `memmove(events + index, events + index + 1, n)`
unfoldable pub move_down : List Event → ℕ → ℕ → List Event
move_down events index n =
    take index events ++ (take n (drop (suc index) events) ++ drop (index + n) events)

-- An index is a number, so `index < 0` does not arise.
unfoldable pub remove_event_at_locked : Channel → ℕ → Channel
unfolding move_down
remove_event_at_locked c index =
    if ltb index c.event_count
    then (record c {
      events = set moved (c.event_count - 1) blank_event;
      event_count = c.event_count - 1;
    })
    else c
  where
    moved : List Event
    moved =
        if ltb index (c.event_count - 1)
        then move_down c.events index (c.event_count - index - 1)
        else c.events

-- The loops of `post_event_locked`: the index of the first event of a kind.
unfoldable pub find_event : (EventType → Bool) → List Event → ℕ → Option ℕ
find_event p [] i = none
find_event p (e ∷ events) i = if p e.type then some i else find_event p events (suc i)

-- `drop_index`; `none` is -1.
unfoldable pub drop_index : List Event → EventType → Option ℕ
drop_index events new = elim (find_event is_status events 0) [
  | some i ↦ some i
  | none ↦
      if event_is_terminal new
      then elim (find_event (λ t. not (event_is_terminal t)) events 0) [
        | some i ↦ some i
        | none ↦ some 0
      ]
      else none
]

-- `ctrl.events[ctrl.event_count++] = event`
unfoldable pub append_event : Channel → Event → Channel
append_event c event = record c {
  events = set c.events c.event_count event;
  event_count = c.event_count + 1;
}

-- `write` of one byte into the non-blocking pipe; a full pipe takes none, and a retry after EINTR
-- changes nothing.
unfoldable pub wake : Channel → Channel
wake c =
    if ltb c.pipe_bytes c.pipe_capacity then (record c { pipe_bytes = c.pipe_bytes + 1 }) else c

unfoldable pub post_event_locked : Channel → Event → Bool × Channel
post_event_locked c event =
    if ltb c.event_count max_events
    then (true, wake (append_event c event))
    else elim (drop_index (take c.event_count c.events) event.type) [
      | some index ↦ (true, wake (append_event (remove_event_at_locked c index) event))
      | none ↦ (is_status event.type, c)
    ]

-- `pam_controller_drain_events`: the reads that empty the pipe, before the lock is taken.
unfoldable pub drain_pipe : Channel → Channel
drain_pipe c = record c { pipe_bytes = 0 }

-- The copy of the queue under the lock: the snapshot, and the emptied queue.
unfoldable pub take_snapshot : Channel → List Event × Channel
take_snapshot c =
    if ltb 0 c.event_count
    then (
      take c.event_count c.events,
      record c { events = replicate (length c.events) blank_event; event_count = 0 },
    )
    else ([], c)
