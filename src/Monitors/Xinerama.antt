-- ===== src/Monitors/Xinerama.antt =====
-- The Xinerama query of randr.c, whose loop runs up to the old count of screens.
use i3lock.Prelude.{
  ℕ, zero, suc, ◌-◌, ◌≤◌, ◌<◌, ◌≡◌, refl, ap, ◌∙◌, List, [], ◌∷◌, ◌++◌, append_assoc, append-nil,
  Bool, false, not, if◌then◌else◌, Option, none, some, true, length, get_elem?, replicate, take,
  arith, ◌⊎◌, inl, inr,
}
use i3lock.Monitors.{
  Rect, Monitors, write, fresh_array, Replies, fill_xinerama, _xinerama_query_screens,
}
use i3lock.Monitors.Outputs.{written, write-append, length-written, snoc_array}

get_elem?-append {ℓ} :
    {A : Type ℓ} (xs : List A) (y : A) (ys : List A) → get_elem? (xs ++ y ∷ ys) (length xs) ≡ some y
get_elem?-append [] y ys = refl
get_elem?-append (x ∷ xs) y ys = get_elem?-append xs y ys

get_elem?-length {ℓ} : {A : Type ℓ} (xs : List A) → get_elem? xs (length xs) ≡ none
get_elem?-length [] = refl
get_elem?-length (x ∷ xs) = get_elem?-length xs

written-snoc :
    (d : List Rect) (area : Rect) → written (d ++ (area ∷ [])) ≡ written d ++ (some area ∷ [])
written-snoc [] area = refl
written-snoc (x ∷ d) area = ap (◌∷◌ (some x)) (written-snoc d area)

length-snoc : (d : List Rect) (area : Rect) → length (d ++ (area ∷ [])) ≡ suc (length d)
length-snoc [] area = refl
length-snoc (x ∷ d) area = ap suc (length-snoc d area)

-- One round of the loop, behind the areas `d`.
fill_step :
    (k : ℕ) (d : List Rect) (area : Rect) (rest : List Rect) (tail : List (Option Rect))
    → fill_xinerama (suc k) (length d) (d ++ area ∷ rest) (written d ++ none ∷ tail)
      ≡ fill_xinerama k
          (length (d ++ (area ∷ [])))
          ((d ++ (area ∷ [])) ++ rest)
          (written (d ++ (area ∷ [])) ++ tail)
unfolding fill_xinerama
fill_step k d area rest tail =
    let at : write (written d ++ none ∷ tail) (length d) (some area)
        ≡ some (written d ++ some area ∷ tail) =
      rw (length-written d) at (write-append (written d) none tail (some area)) in
    rw
      (
        get_elem?-append d area rest,
        fill_xinerama,
        at,
        length-snoc d area,
        written-snoc d area,
        append_assoc d (area ∷ []) rest,
        ← snoc_array (written d) area tail,
      )
      refl

fill_within :
    (k : ℕ) (d rest : List Rect)
    → k ≤ length rest
    → fill_xinerama k (length d) (d ++ rest) (written d ++ fresh_array (length rest))
      ≡ some (written (d ++ take k rest) ++ fresh_array (length rest - k))
unfolding fill_xinerama replicate
fill_within zero d rest h =
    let all : length rest - 0 ≡ length rest = omega arith in rw (all, append-nil d) refl
fill_within (suc k) d [] h = absurd (omega (arith, h))
fill_within (suc k) d (area ∷ rest) h =
    let left : suc (length rest) - suc k ≡ length rest - k = omega arith in
    fill_step k d area rest (fresh_array (length rest))
    ∙ (fill_within k (d ++ (area ∷ [])) rest (omega (arith, h))
        ∙ rw (left, append_assoc d (area ∷ []) (take k rest)) refl)

fill_beyond :
    (k : ℕ) (d rest : List Rect)
    → length rest < k
    → fill_xinerama k (length d) (d ++ rest) (written d ++ fresh_array (length rest)) ≡ none
unfolding fill_xinerama replicate
fill_beyond zero d rest h = absurd (omega (arith, h))
fill_beyond (suc k) d [] h = rw (append-nil d, get_elem?-length d, fill_xinerama) refl
fill_beyond (suc k) d (area ∷ rest) h =
    fill_step k d area rest (fresh_array (length rest))
    ∙ fill_beyond k (d ++ (area ∷ [])) rest (omega (arith, h))

active_branch : {A : Type 0} (b : Bool) (p q : A) → b ≡ true → (if not b then p else q) ≡ q
active_branch true p q h = refl
active_branch false p q h = cc

-- With Xinerama active, a reply with its screens and memory for them: the query accesses the arrays
-- beyond their ends if the count of screens was greater than it is now. Otherwise only as many entries
-- are written as there were screens before, and the others keep what the fresh memory holds.
pub xinerama_by_old_count :
    (r : Replies) (s : Monitors) (info : List Rect)
    → s.xinerama_active ≡ true
    → r.xinerama_screens ≡ some info
    → r.malloc_ok ≡ true
    → ((length info < s.xr_screens) × (_xinerama_query_screens r s ≡ none))
      ⊎ ((s.xr_screens ≤ length info)
          × (_xinerama_query_screens r s
              ≡ some (record s {
                xr_screens = length info;
                xr_resolutions =
                    written (take s.xr_screens info) ++ fresh_array (length info - s.xr_screens);
              })))
unfolding _xinerama_query_screens
xinerama_by_old_count r s info on told memory =
    let split : (length info < s.xr_screens) ⊎ (s.xr_screens ≤ length info) = omega arith in
    elim split [
      | inl more ↦ inl (more, rw (on, told, memory, fill_beyond s.xr_screens [] info more) refl)
      | inr enough ↦ inr (
        enough,
        active_branch s.xinerama_active _ _ on
            ∙ rw (told, memory, fill_within s.xr_screens [] info enough) refl,
      )
    ]
