-- ===== src/Queue/Refine.antt =====
-- The array of the event queue against the bounded list: `Holds c q` relates the two.
use i3lock.Prelude.{
  ℕ, zero, suc, ◌+◌, ◌-◌, ◌≤◌, ◌<◌, ◌≡◌, refl, sym, ap, ◌∙◌, ◌⊎◌, inl, inr, List, [], ◌∷◌, ◌++◌,
  Bool, not, Option, none, some, ltb, if◌then◌else◌, length, take, drop, replicate, length-append,
  length-replicate, take-append, set-length_append, append_assoc, take-append-drop, Bool-cases,
  lt→ltb, le→ltb, arith,
}
use native.Mathlib.Decide.{dec_lt}
use i3lock.Pam.{EventType, Event, blank_event, event_is_terminal, is_status}
use i3lock.Queue.{
  Channel, max_events, move_down, remove_event_at_locked, find_event, drop_index, append_event,
  wake, post_event_locked, take_snapshot,
}
use i3lock.Queue.Bounded.{delete_first, make_room, offer}

abbrev pub blanks : ℕ → List Event
blanks n = replicate n blank_event

-- The array holds `q`, and every slot behind it is wiped.
pub record Holds (c : Channel) (q : List Event) : Type 0 where
  pub slots : c.events ≡ q ++ blanks (max_events - length q)
  pub counted : c.event_count ≡ length q
  pub fits : length q ≤ max_events

-- Removing the element at an index.
abbrev pub delete_at : ℕ → List Event → List Event
delete_at i [] = []
delete_at zero (e ∷ q) = q
delete_at (suc i) (e ∷ q) = e ∷ delete_at i q

pub length-delete_at :
    (i : ℕ) (q : List Event) → i < length q → length (delete_at i q) + 1 ≡ length q
length-delete_at i [] h = absurd (omega arith)
length-delete_at zero (e ∷ q) h = omega arith
length-delete_at (suc i) (e ∷ q) h = omega (arith, length-delete_at i q (omega arith))

last_slot : (r b : List Event) (x : Event) → (y : Event) × (drop (length r) (x ∷ (r ++ b)) ≡ y ∷ b)
last_slot [] b x = (x, refl)
last_slot (z ∷ r) b x = last_slot r b z

-- `memmove` over the removed slot leaves a copy of the last event behind.
move_down_lem :
    (i n : ℕ) (q b : List Event)
    → i < length q
    → i + n + 1 ≡ length q
    → (y : Event) × (move_down (q ++ b) i n ≡ delete_at i q ++ y ∷ b)
unfolding move_down
move_down_lem i n [] b h e = absurd (omega arith)
move_down_lem zero n (x ∷ r) b h e =
    let (y, last) = last_slot r b x in
    (
      y,
      rw (
        let sum : 0 + n ≡ length r = omega arith in sum,
        let all : n ≡ length r = omega arith in all,
        take-append r b,
        last,
      ),
    )
move_down_lem (suc i) n (x ∷ r) b h e =
    let (y, moved) = move_down_lem i n r b (omega arith) (omega arith) in
    (y, rw (let sum : suc i + n ≡ suc (i + n) = omega arith in sum) (ap (◌∷◌ x) moved))

move_nothing : (xs : List Event) (i : ℕ) → move_down xs i 0 ≡ xs
unfolding move_down
move_nothing xs i = rw (let sum : i + 0 ≡ i = omega arith in sum) (take-append-drop i xs)

moved_slots :
    (c : Channel) (q : List Event) (i : ℕ)
    → Holds c q
    → i < length q
    → (y : Event) × ((if ltb i (c.event_count - 1)
          then move_down c.events i (c.event_count - i - 1)
          else c.events)
        ≡ delete_at i q ++ y ∷ blanks (max_events - length q))
moved_slots c q i h lt = elim (Bool-cases (ltb i (length q - 1))) [
  | inl inside ↦
      let (y, moved) =
        move_down_lem i (length q - i - 1) q (blanks (max_events - length q)) lt (omega arith) in
      (y, rw (h.slots, h.counted, inside) moved)
  | inr last ↦
      let (y, moved) = move_down_lem i 0 q (blanks (max_events - length q)) lt (ground arith) in
      (y, rw (h.slots, h.counted, last) (sym (move_nothing _ i) ∙ moved))
]

slots-delete_at :
    (c : Channel) (q : List Event) (i : ℕ)
    → Holds c q
    → i < length q
    → (remove_event_at_locked c i).events
      ≡ delete_at i q ++ blanks (max_events - length (delete_at i q))
unfolding remove_event_at_locked replicate
slots-delete_at c q i h lt =
    let (y, moved) = moved_slots c q i h lt in
    let before : c.event_count - 1 ≡ length (delete_at i q) =
      omega (arith, h.counted, length-delete_at i q lt) in
    let room : max_events - length (delete_at i q) ≡ suc (max_events - length q) =
      omega (arith, h.fits, length-delete_at i q lt) in
    rw (lt→ltb i c.event_count (omega (arith, h.counted)), moved, before, room)
      (set-length_append (delete_at i q) y (blanks (max_events - length q)) blank_event)

pub remove_refines :
    (c : Channel) (q : List Event) (i : ℕ)
    → Holds c q
    → i < length q
    → Holds (remove_event_at_locked c i) (delete_at i q)
remove_refines c q i h lt = record {
  slots = slots-delete_at c q i h lt;
  counted = unfold remove_event_at_locked in ground (arith, h.counted, length-delete_at i q lt);
  fits = omega (arith, h.fits, length-delete_at i q lt);
}

append_refines :
    (c : Channel) (q : List Event) (e : Event)
    → Holds c q
    → length q < max_events
    → Holds (append_event c e) (q ++ (e ∷ []))
unfolding append_event replicate
append_refines c q e h room =
    let size : length (q ++ (e ∷ [])) ≡ suc (length q) = omega (arith, length-append q (e ∷ [])) in
    let left : max_events - length q ≡ suc (max_events - length (q ++ (e ∷ []))) =
      omega (arith, size) in
    record {
      slots =
          rw
            (
              h.slots,
              h.counted,
              left,
              set-length_append q blank_event (blanks (max_events - length (q ++ (e ∷ [])))) e,
            )
            (sym (append_assoc q (e ∷ []) _));
      counted = omega (arith, h.counted, size);
      fits = omega (arith, size);
    }

wake_refines : (c : Channel) (q : List Event) → Holds c q → Holds (wake c) q
unfolding wake
wake_refines c q h = ground (arith, h.slots, h.counted, h.fits)

-- What the array's loop finds, in terms of the list.
abbrev Finds : (EventType → Bool) → List Event → ℕ → Option ℕ → Type 0
Finds p q start r =
    ((r ≡ none) × (delete_first p q ≡ none))
    ⊎ ((i : ℕ) × (r ≡ some (start + i))
        × (i < length q)
        × (delete_first p q ≡ some (delete_at i q)))

find_refines :
    (p : EventType → Bool) (q : List Event) (start : ℕ) → Finds p q start (find_event p q start)
unfolding find_event delete_first
find_refines p [] start = inl (refl, refl)
find_refines p (e ∷ q) start = elim (Bool-cases (p e.type)) [
  | inl hit ↦ inr (0, rw hit (ap some (omega arith)), omega arith, rw hit)
  | inr miss ↦ elim (find_refines p q (suc start)) [
    | inl (r, d) ↦ inl (rw (miss, r), rw (miss, d))
    | inr (i, r, lt, d) ↦
        inr (suc i, rw (miss, r) (ap some (omega arith)), omega arith, rw (miss, d))
  ]
]

-- The slot that is given up is the one that the list gives up.
abbrev pub GivesUp : List Event → EventType → Type 0
GivesUp q new =
    ((drop_index q new ≡ none) × (make_room q new ≡ none))
    ⊎ ((i : ℕ) × (drop_index q new ≡ some i)
        × (i < length q)
        × (make_room q new ≡ some (delete_at i q)))

pub drop_refines : (q : List Event) (new : EventType) → 0 < length q → GivesUp q new
unfolding drop_index make_room
drop_refines [] new h = absurd (omega arith)
drop_refines (e ∷ q) new h = elim (find_refines is_status (e ∷ q) 0) [
  | inr (i, r, lt, d) ↦ inr (i, rw (r, drop_index) (ap some (omega arith)), lt, rw (d, make_room))
  | inl (r, d) ↦ elim (Bool-cases (event_is_terminal new)) [
    | inr ordinary ↦ inl (rw (r, drop_index, ordinary), rw (d, make_room, ordinary))
    | inl terminal ↦ elim (find_refines (λ t. not (event_is_terminal t)) (e ∷ q) 0) [
      | inr (i, r', lt, d') ↦ inr (
        i,
        rw (r, drop_index, terminal, r') (ap some (omega arith)),
        lt,
        rw (d, make_room, terminal, d'),
      )
      | inl (r', d') ↦
          inr (0, rw (r, drop_index, terminal, r'), omega arith, rw (d, make_room, terminal, d'))
    ]
  ]
]

pub pending_slots : (c : Channel) (q : List Event) → Holds c q → take c.event_count c.events ≡ q
pending_slots c q h = rw (h.slots, h.counted) (take-append q _)

-- `post_event_locked` does to the array what `offer` does to the list, and answers the same.
pub post_refines :
    (c : Channel) (q : List Event) (e : Event)
    → Holds c q
    → ((post_event_locked c e).0 ≡ (offer q e).0) × Holds (post_event_locked c e).1 (offer q e).1
unfolding post_event_locked offer
post_refines c q e h = elim (dec_lt (length q) max_events) [
  | yes room ↦
      rw (lt→ltb c.event_count max_events (omega (arith, h.counted)), lt→ltb _ _ room)
        (refl, wake_refines _ _ (append_refines c q e h room))
  | no full ↦ elim (drop_refines q e.type (omega arith)) [
    | inl (d, m) ↦
        rw
          (
            pending_slots c q h,
            le→ltb c.event_count max_events (omega (arith, h.counted)),
            le→ltb (length q) max_events (omega arith),
            d,
            m,
          )
          (refl, h)
    | inr (i, d, lt, m) ↦
        rw
          (
            pending_slots c q h,
            le→ltb c.event_count max_events (omega (arith, h.counted)),
            le→ltb (length q) max_events (omega arith),
            d,
            m,
          )
          (
            refl,
            wake_refines _ _ (
                append_refines _ _ e (remove_refines c q i h lt)
                  (omega (arith, h.fits, length-delete_at i q lt))),
          )
  ]
]

-- A drain hands over the events in order, and leaves every slot wiped.
pub snapshot_refines :
    (c : Channel) (q : List Event)
    → Holds c q
    → ((take_snapshot c).0 ≡ q) × Holds (take_snapshot c).1 []
unfolding take_snapshot
snapshot_refines c [] h = rw (le→ltb 0 c.event_count (omega (arith, h.counted))) (refl, h)
snapshot_refines c (e ∷ q) h = rw (lt→ltb 0 c.event_count (omega (arith, h.counted))) (
  pending_slots c (e ∷ q) h,
  record {
    slots = ap blanks (
        omega (
          arith,
          ap length h.slots,
          length-append (e ∷ q) (blanks (max_events - length (e ∷ q))),
          length-replicate (max_events - length (e ∷ q)) blank_event,
          h.fits,
        ));
    counted = refl;
    fits = omega arith;
  },
)
