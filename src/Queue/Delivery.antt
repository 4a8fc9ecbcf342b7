-- ===== src/Queue/Delivery.antt =====
-- The event queue as its clients see it: which events get in, their order, the terminal events among
-- them, and the byte that wakes the main loop.
use i3lock.Prelude.{
  ℕ, ◌+◌, ◌≤◌, ◌<◌, ◌≡◌, refl, ◌⊎◌, inl, inr, List, [], ◌∷◌, ◌++◌, Bool, true, false, not, none,
  some, if◌then◌else◌, length, take, Bool-cases, lt→ltb, arith, Option-cases, ◌↔◌, ◌≢◌,
}
use native.Mathlib.Decide.{dec_lt}
use i3lock.Pam.{EventType, Event, event_is_terminal, is_status}
use i3lock.Queue.{
  Channel, max_events, wake, append_event, remove_event_at_locked, post_event_locked, take_snapshot,
}
use i3lock.Queue.Bounded.{delete_first, make_room, offer}
use i3lock.Queue.Refine.{
  Holds, delete_at, drop_refines, post_refines, snapshot_refines, pending_slots,
}

-- The events that wait, oldest first.
abbrev pub pending : Channel → List Event
pending c = take c.event_count c.events

-- A channel whose array is in order.
abbrev pub IsValid : Channel → Type 0
IsValid c = Holds c (pending c)

-- The main loop's watcher sees a byte whenever an event waits.
pub record IsAwake (c : Channel) : Type 0 where
  pub has_room : 0 < c.pipe_capacity
  pub signalled : 0 < c.event_count → 0 < c.pipe_bytes

unfoldable pub terminals : List Event → ℕ
terminals [] = 0
terminals (e ∷ q) = (if event_is_terminal e.type then 1 else 0) + terminals q

pub post-pending :
    (c : Channel) (e : Event)
    → IsValid c
    → pending (post_event_locked c e).1 ≡ (offer (pending c) e).1
post-pending c e v = pending_slots _ _ (post_refines c (pending c) e v).1

pub post-IsValid : (c : Channel) (e : Event) → IsValid c → IsValid (post_event_locked c e).1
post-IsValid c e v = rw (post-pending c e v) (post_refines c (pending c) e v).1

pub snapshot-IsValid : (c : Channel) → IsValid c → IsValid (take_snapshot c).1
snapshot-IsValid c v =
    let (_, empty) = snapshot_refines c (pending c) v in rw (pending_slots _ _ empty) empty

-- Each new event goes behind those that wait, which keep their order; at most one is given up.
abbrev pub Queued : List Event → Event → Bool × List Event → Type 0
Queued q e r =
    ((r.0 ≡ true) × (r.1 ≡ q ++ (e ∷ [])))
    ⊎ (((r.0 ≡ true) × (i : ℕ) × (i < length q) × (r.1 ≡ delete_at i q ++ (e ∷ [])))
        ⊎ ((r.0 ≡ is_status e.type) × (r.1 ≡ q)))

offer-Queued : (q : List Event) (e : Event) → Queued q e (offer q e)
unfolding offer
offer-Queued q e = elim (dec_lt (length q) max_events) [
  | yes room ↦ inl (rw (lt→ltb _ _ room) refl, rw (lt→ltb _ _ room) refl)
  | no full ↦ elim (drop_refines q e.type (omega arith)) [
    | inl (_, m) ↦ inr (inr (ground (arith, m), ground (arith, m)))
    | inr (i, _, lt, m) ↦ inr (inl (ground (arith, m), i, lt, ground (arith, m)))
  ]
]

-- An event that is posted goes behind those that wait, which keep their order, and at most one of
-- them is given up for it; or the queue stays as it was, and only a status message then counts as
-- posted.
pub post-Queued :
    (c : Channel) (e : Event)
    → IsValid c
    → Queued (pending c) e ((post_event_locked c e).0, pending (post_event_locked c e).1)
post-Queued c e v =
    rw (post-pending c e v, (post_refines c (pending c) e v).0) (offer-Queued (pending c) e)

terminals-append :
    (q : List Event) (e : Event)
    → terminals (q ++ (e ∷ [])) ≡ terminals q + (if event_is_terminal e.type then 1 else 0)
unfolding terminals
terminals-append [] e = omega arith
terminals-append (x ∷ q) e = omega (arith, terminals-append q e)

-- Giving up an event of a kind that is never terminal loses no terminal event.
terminals-delete_first :
    (p : EventType → Bool) (q r : List Event)
    → ((t : EventType) → p t ≡ true → event_is_terminal t ≡ false)
    → delete_first p q ≡ some r
    → terminals r ≡ terminals q
unfolding terminals delete_first
terminals-delete_first p [] r apart d = cc
terminals-delete_first p (e ∷ q) r apart d = elim (Bool-cases (p e.type)) [
  | inl hit ↦ ground (arith, hit, apart e.type hit)
  | inr miss ↦ elim (Option-cases (delete_first p q)) [
    | inl nothing ↦ ground (arith, nothing, miss)
    | inr (r', found) ↦ ground (arith, found, miss, terminals-delete_first p q r' apart found)
  ]
]

all_terminal :
    (q : List Event)
    → delete_first (λ t. not (event_is_terminal t)) q ≡ none
    → terminals q ≡ length q
unfolding terminals delete_first
all_terminal [] d = refl
all_terminal (e ∷ q) d = ground (arith, all_terminal q)

status_apart : (t : EventType) → is_status t ≡ true → event_is_terminal t ≡ false
unfolding is_status event_is_terminal
status_apart t h = ground arith

ordinary_apart : (t : EventType) → not (event_is_terminal t) ≡ true → event_is_terminal t ≡ false
ordinary_apart t h = ground arith

make_room-terminals :
    (q r : List Event) (new : EventType)
    → terminals q < length q
    → make_room q new ≡ some r
    → terminals r ≡ terminals q
unfolding make_room
make_room-terminals q r new few m = elim (Option-cases (delete_first is_status q)) [
  | inr (s, d) ↦ ground (arith, d, m, terminals-delete_first is_status q s status_apart d)
  | inl no_status ↦ elim (Option-cases (delete_first (λ t. not (event_is_terminal t)) q)) [
    | inr (s, d) ↦ ground (arith, no_status, d, m, terminals-delete_first _ q s ordinary_apart d)
    | inl no_ordinary ↦ absurd (omega (arith, all_terminal q no_ordinary))
  ]
]

make_room_terminal :
    (q : List Event) (new : EventType) → event_is_terminal new ≡ true → make_room q new ≢ none
unfolding make_room
make_room_terminal q new terminal m = ground arith

offer-terminals :
    (q : List Event) (e : Event)
    → terminals q < max_events
    → terminals (offer q e).1 ≡ terminals q + (if event_is_terminal e.type then 1 else 0)
unfolding offer
offer-terminals q e few = elim (dec_lt (length q) max_events) [
  | yes room ↦ rw (lt→ltb _ _ room) (terminals-append q e)
  | no full ↦ elim (Option-cases (make_room q e.type)) [
    | inl m ↦ ground (arith, m, make_room_terminal q e.type)
    | inr (r, m) ↦ ground (arith, m, make_room-terminals q r e.type, terminals-append r e)
  ]
]

-- While fewer than `max_events` terminal events wait, none of them is ever lost: a post adds its own
-- event if that is terminal, and otherwise leaves their number.
pub post-terminals :
    (c : Channel) (e : Event)
    → IsValid c
    → terminals (pending c) < max_events
    → terminals (pending (post_event_locked c e).1)
      ≡ terminals (pending c) + (if event_is_terminal e.type then 1 else 0)
post-terminals c e v few = rw (post-pending c e v) (offer-terminals (pending c) e few)

offer_refused :
    (q : List Event) (e : Event)
    → length q ≤ max_events
    → ((offer q e).0 ≡ false) ↔ (
        (length q ≡ max_events)
        × (delete_first is_status q ≡ none)
        × (event_is_terminal e.type ≡ false)
        × (is_status e.type ≡ false))
unfolding offer make_room
offer_refused q e fits =
    (λ r. (ground arith, ground arith, ground arith, ground arith), λ r. ground arith)

-- The post is refused exactly for an event that is neither terminal nor a status message, on a full
-- queue without a status message.
pub post_refused_iff :
    (c : Channel) (e : Event)
    → IsValid c
    → ((post_event_locked c e).0 ≡ false) ↔ (
        (length (pending c) ≡ max_events)
        × (delete_first is_status (pending c) ≡ none)
        × (event_is_terminal e.type ≡ false)
        × (is_status e.type ≡ false))
post_refused_iff c e v = rw (post_refines c (pending c) e v).0 (offer_refused (pending c) e v.fits)

pub post-IsAwake : (c : Channel) (e : Event) → IsAwake c → IsAwake (post_event_locked c e).1
unfolding post_event_locked wake append_event remove_event_at_locked
post-IsAwake c e a = ground arith

pub post-capacity :
    (c : Channel) (e : Event) → 0 < c.pipe_capacity → 0 < (post_event_locked c e).1.pipe_capacity
unfolding post_event_locked wake append_event remove_event_at_locked
post-capacity c e h = ground arith
