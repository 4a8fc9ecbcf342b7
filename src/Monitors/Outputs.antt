-- ===== src/Monitors/Outputs.antt =====
-- The RandR queries of randr.c against the list of the areas that are shown.
use i3lock.Prelude.{
  ℕ, zero, suc, ◌+◌, ◌-◌, ◌≤◌, ◌≡◌, refl, ap, ◌∙◌, sym, List, [], ◌∷◌, ◌++◌, append_assoc, Option,
  none, some, Bool, true, false, length, replicate, arith, if◌then◌else◌, lt→ltb, length-append,
  set-length_append, Bool-cases, Option-cases, inl, inr, ◌&&◌,
}
use i3lock.Monitors.{
  Rect, Monitors, write, OutputReply, no_output, no_crtc, no_crtc_reply, shows, fill_outputs,
  fresh_array, Replies, fill_monitors, _randr_query_monitors_15, _randr_query_outputs_14,
  randr_query, replaced, read_screens, _xinerama_query_screens,
}

-- The areas that are written.
abbrev pub written : List Rect → List (Option Rect)
written [] = []
written (area ∷ areas) = some area ∷ written areas

-- The areas of the outputs that show something, in their order.
abbrev pub shown_areas : List OutputReply → List Rect
shown_areas [] = []
shown_areas (shows area ∷ outputs) = area ∷ shown_areas outputs
shown_areas (_ ∷ outputs) = shown_areas outputs

pub write-append {ℓ} :
    {A : Type ℓ} (xs : List A) (y : A) (ys : List A) (v : A)
    → write (xs ++ y ∷ ys) (length xs) v ≡ some (xs ++ v ∷ ys)
write-append xs y ys v =
    rw
      (
        lt→ltb (length xs) (length (xs ++ y ∷ ys)) (omega (arith, length-append xs (y ∷ ys))),
        set-length_append xs y ys v,
      )
      refl

pub length-written : (areas : List Rect) → length (written areas) ≡ length areas
length-written [] = refl
length-written (area ∷ areas) = ap suc (length-written areas)

length-shown_areas : (outputs : List OutputReply) → length (shown_areas outputs) ≤ length outputs
length-shown_areas [] = omega arith
length-shown_areas (no_output ∷ outputs) = omega (arith, length-shown_areas outputs)
length-shown_areas (no_crtc ∷ outputs) = omega (arith, length-shown_areas outputs)
length-shown_areas (no_crtc_reply ∷ outputs) = omega (arith, length-shown_areas outputs)
length-shown_areas (shows area ∷ outputs) = omega (arith, length-shown_areas outputs)

-- One entry more is written behind those of `done`.
pub snoc_array :
    (done : List (Option Rect)) (area : Rect) (rest : List (Option Rect))
    → done ++ some area ∷ rest ≡ (done ++ (some area ∷ [])) ++ rest
snoc_array done area rest = sym (append_assoc done (some area ∷ []) rest)

pub length-snoc :
    (done : List (Option Rect)) (area : Rect)
    → length (done ++ (some area ∷ [])) ≡ suc (length done)
length-snoc done area = omega (arith, length-append done (some area ∷ []))

fill_step :
    (area : Rect) (outputs : List OutputReply) (done rest : List (Option Rect))
    → fill_outputs (shows area ∷ outputs) (length done) (done ++ none ∷ rest)
      ≡ fill_outputs outputs
          (length (done ++ (some area ∷ [])))
          ((done ++ (some area ∷ [])) ++ rest)
unfolding fill_outputs
fill_step area outputs done rest =
    rw
      (
        write-append done none rest (some area),
        fill_outputs,
        length-snoc done area,
        ← snoc_array done area rest,
      )
      refl

fill_outputs_lem :
    (outputs : List OutputReply) (done : List (Option Rect)) (m : ℕ)
    → length outputs ≤ m
    → fill_outputs outputs (length done) (done ++ fresh_array m)
      ≡ some (
        length done + length (shown_areas outputs),
        done ++ (written (shown_areas outputs) ++ fresh_array (m - length (shown_areas outputs))),
      )
unfolding fill_outputs replicate
fill_outputs_lem [] done m h =
    let e : length done + 0 ≡ length done = omega arith in
    let z : m - 0 ≡ m = omega arith in rw (e, z) refl
fill_outputs_lem (no_output ∷ outputs) done m h = fill_outputs_lem outputs done m (omega (arith, h))
fill_outputs_lem (no_crtc ∷ outputs) done m h = fill_outputs_lem outputs done m (omega (arith, h))
fill_outputs_lem (no_crtc_reply ∷ outputs) done m h =
    fill_outputs_lem outputs done m (omega (arith, h))
fill_outputs_lem (shows area ∷ outputs) done zero h = absurd (omega (arith, h))
fill_outputs_lem (shows area ∷ outputs) done (suc m) h =
    let rest = fill_outputs_lem outputs (done ++ (some area ∷ [])) m (omega (arith, h)) in
    let e : length (done ++ (some area ∷ [])) + length (shown_areas outputs)
        ≡ length done + suc (length (shown_areas outputs)) =
      omega (arith, length-snoc done area) in
    let left : suc m - suc (length (shown_areas outputs)) ≡ m - length (shown_areas outputs) =
      omega arith in
    fill_step area outputs done (fresh_array m)
    ∙ (rest
        ∙ rw
            (
              e,
              left,
              ← snoc_array done area
                  (written (shown_areas outputs) ++ fresh_array (m - length (shown_areas outputs))),
            )
            refl)

-- The monitors of RandR 1.5 are outputs that all show something.
abbrev pub as_outputs : List Rect → List OutputReply
as_outputs [] = []
as_outputs (area ∷ areas) = shows area ∷ as_outputs areas

fill_monitors-as_outputs :
    (areas : List Rect) (screen : ℕ) (resolutions : List (Option Rect))
    → fill_monitors areas screen resolutions ≡ fill_outputs (as_outputs areas) screen resolutions
unfolding fill_monitors fill_outputs
fill_monitors-as_outputs [] screen resolutions = refl
fill_monitors-as_outputs (area ∷ areas) screen resolutions =
    go (write resolutions screen (some area))
      (λ rest. fill_monitors-as_outputs areas (suc screen) rest)
  where
    go :
        (w : Option (List (Option Rect)))
        → ((rest : List (Option Rect))
            → fill_monitors areas (suc screen) rest
              ≡ fill_outputs (as_outputs areas) (suc screen) rest)
        → (elim w [ none ↦ none | some rest ↦ fill_monitors areas (suc screen) rest ])
          ≡ (elim w [ none ↦ none | some rest ↦ fill_outputs (as_outputs areas) (suc screen) rest ])
    go none h = refl
    go (some rest) h = h rest

shown-as_outputs : (areas : List Rect) → shown_areas (as_outputs areas) ≡ areas
shown-as_outputs [] = refl
shown-as_outputs (area ∷ areas) = ap (◌∷◌ area) (shown-as_outputs areas)

length-as_outputs : (areas : List Rect) → length (as_outputs areas) ≡ length areas
length-as_outputs [] = refl
length-as_outputs (area ∷ areas) = ap suc (length-as_outputs areas)

-- The entries that the drawing reads.
abbrev pub visible : Monitors → Option (List Rect)
visible s = read_screens s.xr_screens s.xr_resolutions

read-written :
    (areas : List Rect) (rest : List (Option Rect))
    → read_screens (length areas) (written areas ++ rest) ≡ some areas
unfolding read_screens
read-written [] rest = refl
read-written (area ∷ areas) rest = rw (read-written areas rest) refl

-- A query behind which the drawing reads just these areas.
abbrev pub Shows : Option (List Rect) → Option Monitors → Type 0
Shows areas none = ⊥
Shows areas (some t) = visible t ≡ areas

filled-Shows :
    (s : Monitors) (outputs : List OutputReply)
    → Shows
        (some (shown_areas outputs))
        (replaced s (fill_outputs outputs 0 (fresh_array (length outputs))))
filled-Shows s outputs =
    let zeroed : 0 + length (shown_areas outputs) ≡ length (shown_areas outputs) = omega arith in
    rw (fill_outputs_lem outputs [] (length outputs) (omega arith), zeroed)
      (read-written (shown_areas outputs)
        (fresh_array (length outputs - length (shown_areas outputs))))

monitors-Shows :
    (s : Monitors) (areas : List Rect)
    → Shows (some areas) (replaced s (fill_monitors areas 0 (fresh_array (length areas))))
monitors-Shows s areas =
    rw (fill_monitors-as_outputs areas 0 (fresh_array (length areas)), ← length-as_outputs areas)
      (rw (shown-as_outputs areas) at (filled-Shows s (as_outputs areas)))

abbrev pub told_by_outputs : Option (List OutputReply) → Option (List Rect)
told_by_outputs none = none
told_by_outputs (some outputs) = some (shown_areas outputs)

-- The areas that the server tells, through RandR 1.5 if there is such a reply, else through the outputs.
abbrev pub latest : Bool → Option (List Rect) → Option (List OutputReply) → Option (List Rect)
latest true (some areas) outputs = some areas
latest _ _ outputs = told_by_outputs outputs

-- The news if there is any and memory for it, else what was there.
abbrev pub renewed : Bool → Option (List Rect) → Option (List Rect) → Option (List Rect)
renewed malloc_ok old none = old
renewed malloc_ok old (some areas) = if malloc_ok then some areas else old

-- The part of the query behind RandR 1.5.
outputs-Shows :
    (r : Replies) (s : Monitors)
    → s.has_randr ≡ true
    → s.xinerama_active ≡ false
    → Shows (renewed r.malloc_ok (visible s) (told_by_outputs r.outputs)) (
        if (_randr_query_outputs_14 r s).0
        then (_randr_query_outputs_14 r s).1
        else _xinerama_query_screens r s)
unfolding _randr_query_outputs_14 _xinerama_query_screens
outputs-Shows r s randr quiet = elim (Option-cases r.outputs) [
  | inl failed ↦ rw (randr, failed, quiet) refl
  | inr (outputs, told) ↦ elim (Bool-cases r.malloc_ok) [
    | inl memory ↦ rw (randr, told, memory) (filled-Shows s outputs)
    | inr full ↦ rw (randr, told, full) refl
  ]
]

-- With RandR, and so without Xinerama, a query makes no access outside an array. The monitors that the
-- drawing reads behind it are the areas that the server tells, each of them written: those of RandR 1.5
-- if there is such a reply, else those of the outputs with a CRTC, in their order. They are as before if
-- the server tells nothing or there is no memory.
pub randr_query-Shows :
    (r : Replies) (s : Monitors)
    → s.has_randr ≡ true
    → s.xinerama_active ≡ false
    → Shows
        (renewed r.malloc_ok
          (visible s)
          (latest (r.built_with_1_5 && s.has_randr_1_5) r.monitors r.outputs))
        (randr_query r s)
unfolding randr_query _randr_query_monitors_15
randr_query-Shows r s randr quiet = elim (Bool-cases (r.built_with_1_5 && s.has_randr_1_5)) [
  | inl new ↦ elim (Option-cases r.monitors) [
    | inr (areas, told) ↦ elim (Bool-cases r.malloc_ok) [
      | inl memory ↦ rw (new, told, memory) (monitors-Shows s areas)
      | inr full ↦ rw (new, told, full) refl
    ]
    | inl failed ↦ rw (new, failed) (outputs-Shows r s randr quiet)
  ]
  | inr old ↦ rw old (outputs-Shows r s randr quiet)
]
