-- ===== src/Monitors/Flags.antt =====
-- A query of randr.c changes no more than the list of monitors.
use i3lock.Prelude.{
  ℕ, ◌≡◌, refl, List, Bool, true, false, not, ◌&&◌, Option, none, some, if◌then◌else◌, length,
  arith,
}
use i3lock.Monitors.{
  Rect, Monitors, OutputReply, Replies, replaced, counted, fresh_array, fill_monitors, fill_outputs,
  fill_xinerama, randr_query, _randr_query_monitors_15, _randr_query_outputs_14,
  _xinerama_query_screens, initial_monitors, _xinerama_init, randr_init,
}

abbrev pub SameFlags : Monitors → Option Monitors → Type 0
SameFlags s none = Unit {0}
SameFlags s (some t) = (t.has_randr ≡ s.has_randr) × (t.xinerama_active ≡ s.xinerama_active)

replaced-SameFlags :
    (s : Monitors) (o : Option (ℕ × List (Option Rect))) → SameFlags s (replaced s o)
replaced-SameFlags s none = tt
replaced-SameFlags s (some o) = (refl, refl)

if-SameFlags :
    (s : Monitors) (b : Bool) (p q : Option Monitors)
    → SameFlags s p
    → SameFlags s q
    → SameFlags s (if b then p else q)
if-SameFlags s true p q h k = h
if-SameFlags s false p q h k = k

abbrev Part : Monitors → Bool × Option Monitors → Type 0
Part s p = SameFlags s p.1

monitors-SameFlags : (r : Replies) (s : Monitors) → Part s (_randr_query_monitors_15 r s)
unfolding _randr_query_monitors_15
monitors-SameFlags r s = go (not (r.built_with_1_5 && s.has_randr_1_5)) r.malloc_ok r.monitors
  where
    go :
        (b m : Bool) (o : Option (List Rect))
        → Part s (
            if b then (false, some s) else elim o [
              | none ↦ (false, some s)
              | some areas ↦
                  if not m
                  then (true, some s)
                  else (true, replaced s (fill_monitors areas 0 (fresh_array (length areas))))
            ])
    go true m o = (refl, refl)
    go false m none = (refl, refl)
    go false false (some areas) = (refl, refl)
    go false true (some areas) = replaced-SameFlags s _

outputs-SameFlags : (r : Replies) (s : Monitors) → Part s (_randr_query_outputs_14 r s)
unfolding _randr_query_outputs_14
outputs-SameFlags r s = go (not s.has_randr) r.malloc_ok r.outputs
  where
    go :
        (b m : Bool) (o : Option (List OutputReply))
        → Part s (
            if b then (false, some s) else elim o [
              | none ↦ (false, some s)
              | some outputs ↦
                  if not m
                  then (true, some s)
                  else (true, replaced s (fill_outputs outputs 0 (fresh_array (length outputs))))
            ])
    go true m o = (refl, refl)
    go false m none = (refl, refl)
    go false false (some outputs) = (refl, refl)
    go false true (some outputs) = replaced-SameFlags s _

screens-SameFlags : (r : Replies) (s : Monitors) → SameFlags s (_xinerama_query_screens r s)
unfolding _xinerama_query_screens
screens-SameFlags r s = go (not s.xinerama_active) r.malloc_ok r.xinerama_screens
  where
    go :
        (b m : Bool) (o : Option (List Rect))
        → SameFlags s (
            if b then some s else elim o [
              | none ↦ some s
              | some info ↦
                  if not m
                  then some s
                  else replaced s (
                      counted
                        (length info)
                        (fill_xinerama s.xr_screens 0 info (fresh_array (length info))))
            ])
    go true m o = (refl, refl)
    go false m none = (refl, refl)
    go false false (some info) = (refl, refl)
    go false true (some info) = replaced-SameFlags s _

pub randr_query-SameFlags : (r : Replies) (s : Monitors) → SameFlags s (randr_query r s)
unfolding randr_query
randr_query-SameFlags r s =
    let second = _randr_query_outputs_14 r s in
    let last = _xinerama_query_screens r s in
    if-SameFlags s (_randr_query_monitors_15 r s).0 (_randr_query_monitors_15 r s).1
      (if second.0 then second.1 else last) (monitors-SameFlags r s)
      (if-SameFlags s second.0 second.1 last (outputs-SameFlags r s) (screens-SameFlags r s))

-- From the initial state, at most one of RandR and Xinerama is in use, and there is an event base just
-- with RandR.
pub randr_init-exclusive :
    (present : Bool) (first_event : ℕ) (version : Option (ℕ × ℕ)) (xinerama : Bool)
    (state : Option Bool)
    → let (base, s) = randr_init present first_event version xinerama state initial_monitors in
      (s.has_randr ≡ true → (s.xinerama_active ≡ false) × (base ≡ some first_event))
      × (s.has_randr ≡ false → base ≡ none)
unfolding randr_init _xinerama_init
randr_init-exclusive present first_event none xinerama none = (λ h. cc, λ h. refl)
randr_init-exclusive present first_event none xinerama (some state) = ground arith
randr_init-exclusive present first_event (some version) xinerama none = ground arith
randr_init-exclusive present first_event (some version) xinerama (some state) = ground arith
