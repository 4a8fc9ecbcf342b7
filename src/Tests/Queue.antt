-- ===== src/Tests/Queue.antt =====
-- Tests of the event queue and of event texts.
use i3lock.Prelude.{ℕ, ◌+◌, ◌≡◌, refl, List, [], ◌∷◌, some, replicate, if◌then◌else◌, arith}
use i3lock.Pam.{EventType, Event, blank_event, event_is_terminal}
use i3lock.Queue.{Channel, post_event_locked, take_snapshot}
use i3lock.Queue.Bounded.{offer}
use i3lock.Queue.Refine.{Holds, post_refines, snapshot_refines}
use i3lock.Queue.Delivery.{IsValid, pending, terminals, post-terminals}
use i3lock.Controller.Text.{event_set_text}
use i3lock.Controller.Text.Cut.{Shows, event_set_text-Shows}
use i3lock.Controller.Worker.{simple_event}
use i3lock.Utf8.{utf8_truncate_to_char_boundary, u8_dec}
use i3lock.Utf8.Back.{IsChar}

abbrev prompt_event : Event
prompt_event = simple_event EventType.prompt 7

abbrev failure_event : Event
failure_event = simple_event EventType.failure 7

-- A queue with one event.
abbrev one_waits : Channel
one_waits = record {
  events = prompt_event ∷ replicate 15 blank_event;
  event_count = 1;
  pipe_bytes = 1;
  pipe_capacity = 65536;
}

one_waits-Holds : Holds one_waits (prompt_event ∷ [])
unfolding replicate
one_waits-Holds = record { slots = refl; counted = refl; fits = omega arith }

-- A queue full of prompts.
abbrev full : Channel
full = record {
  events = replicate 16 prompt_event;
  event_count = 16;
  pipe_bytes = 1;
  pipe_capacity = 65536;
}

full-IsValid : IsValid full
unfolding replicate
full-IsValid = record { slots = refl; counted = refl; fits = omega arith }

post_refines_example :
    ((post_event_locked one_waits failure_event).0 ≡ (offer (prompt_event ∷ []) failure_event).0)
    × Holds
        (post_event_locked one_waits failure_event).1
        (offer (prompt_event ∷ []) failure_event).1
post_refines_example = post_refines one_waits (prompt_event ∷ []) failure_event one_waits-Holds

snapshot_refines_example :
    ((take_snapshot one_waits).0 ≡ (prompt_event ∷ [])) × Holds (take_snapshot one_waits).1 []
snapshot_refines_example = snapshot_refines one_waits (prompt_event ∷ []) one_waits-Holds

post-terminals_example :
    terminals (pending (post_event_locked full failure_event).1)
    ≡ terminals (pending full) + (if event_is_terminal failure_event.type then 1 else 0)
unfolding terminals replicate event_is_terminal
post-terminals_example = post-terminals full failure_event full-IsValid (omega arith)

event_set_text-Shows_example : Shows (replicate 2000 65) (event_set_text (some (replicate 2000 65)))
event_set_text-Shows_example = event_set_text-Shows (replicate 2000 65)

-- "aé"
abbrev a_acute : List ℕ
a_acute = 97 ∷ 195 ∷ 169 ∷ []

acute-IsChar : IsChar 195 (169 ∷ [])
unfolding i3lock.Utf8.is_utf8_continuation_byte
acute-IsChar = record { leads = refl; continues = (refl, tt); short = omega arith }
