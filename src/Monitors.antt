-- ===== src/Monitors.antt =====
-- The monitors of the X server: randr.c. The replies of the server are arguments. `xr_resolutions` is an
-- array from `malloc`, with `none` for an entry that was not written; a result of `none` is an access
-- outside an array.
pub mod Outputs
pub mod Xinerama
pub mod Flags
use i3lock.Prelude.{
  ℕ, zero, suc, ◌+◌, List, [], ◌∷◌, Bool, true, false, not, ◌&&◌, Option, none, some, leb, ltb,
  if◌then◌else◌, length, get_elem?, set, replicate, take,
}

-- `Rect` of include/randr.h, with the coordinates as words.
pub record Rect : Type 0 where
  pub x : ℕ
  pub y : ℕ
  pub width : ℕ
  pub height : ℕ

pub record Monitors : Type 0 where
  pub xr_screens : ℕ
  pub xr_resolutions : List (Option Rect)
  pub xinerama_active : Bool
  pub has_randr : Bool
  pub has_randr_1_5 : Bool

abbrev pub initial_monitors : Monitors
initial_monitors = record {
  xr_screens = 0;
  xr_resolutions = [];
  xinerama_active = false;
  has_randr = false;
  has_randr_1_5 = false;
}

-- The reads of so many entries from the start: `none` if one is outside the array or was not written.
unfoldable pub read_screens : ℕ → List (Option Rect) → Option (List Rect)
read_screens zero resolutions = some []
read_screens (suc left) [] = none
read_screens (suc left) (none ∷ resolutions) = none
read_screens (suc left) (some area ∷ resolutions) = elim (read_screens left resolutions) [
  | none ↦ none
  | some areas ↦ some (area ∷ areas)
]

-- The reply to `xcb_xinerama_is_active`, if there is one.
unfoldable pub _xinerama_init : Bool → Option Bool → Monitors → Monitors
_xinerama_init present none s = s
_xinerama_init present (some state) s =
    if present && state then record s { xinerama_active = true } else s

-- Whether the server has RandR, with its first event; its version, if it tells; the same for Xinerama.
-- The first part of the result is what is stored for the event base.
unfoldable pub randr_init :
    Bool → ℕ → Option (ℕ × ℕ) → Bool → Option Bool → Monitors → Option ℕ × Monitors
unfolding _xinerama_init
randr_init present first_event none xinerama state s = (none, _xinerama_init xinerama state s)
randr_init present first_event (some (major, minor)) xinerama state s =
    if not present then (none, _xinerama_init xinerama state s) else (
      some first_event,
      record s { has_randr = true; has_randr_1_5 = leb 1 major && leb 5 minor },
    )

abbrev pub write {ℓ} : {A : Type ℓ} → List A → ℕ → A → Option (List A)
write xs i v = if ltb i (length xs) then some (set xs i v) else none

-- What the server tells of an output: nothing; no CRTC; a CRTC without a reply; the CRTC's area.
pub data OutputReply : Type 0 where
  no_output no_crtc no_crtc_reply : OutputReply
  shows : Rect → OutputReply

-- The loop over the outputs, with the count of those shown and the new array.
unfoldable pub fill_outputs :
    List OutputReply → ℕ → List (Option Rect) → Option (ℕ × List (Option Rect))
fill_outputs [] screen resolutions = some (screen, resolutions)
fill_outputs (shows area ∷ outputs) screen resolutions =
    elim (write resolutions screen (some area)) [
      | none ↦ none
      | some written ↦ fill_outputs outputs (suc screen) written
    ]
fill_outputs (_ ∷ outputs) screen resolutions = fill_outputs outputs screen resolutions

abbrev pub fresh_array : ℕ → List (Option Rect)
fresh_array n = replicate n none

-- The new array takes the place of the old one.
abbrev pub replaced : Monitors → Option (ℕ × List (Option Rect)) → Option Monitors
replaced s none = none
replaced s (some (screens, resolutions)) =
    some (record s { xr_screens = screens; xr_resolutions = resolutions })

-- The replies that a query gets: RandR 1.5 is in the build, and its monitors; the outputs; the
-- Xinerama screens. `none` is an error.
pub record Replies : Type 0 where
  pub built_with_1_5 : Bool
  pub monitors : Option (List Rect)
  pub outputs : Option (List OutputReply)
  pub xinerama_screens : Option (List Rect)
  pub malloc_ok : Bool

-- The loop over the monitors: the iterator and the array have the same length.
unfoldable pub fill_monitors : List Rect → ℕ → List (Option Rect) → Option (ℕ × List (Option Rect))
fill_monitors [] screen resolutions = some (screen, resolutions)
fill_monitors (area ∷ monitors) screen resolutions = elim (write resolutions screen (some area)) [
  | none ↦ none
  | some written ↦ fill_monitors monitors (suc screen) written
]

-- The first part is the function's result: the query is over.
unfoldable pub _randr_query_monitors_15 : Replies → Monitors → Bool × Option Monitors
unfolding fill_monitors
_randr_query_monitors_15 r s =
    if not (r.built_with_1_5 && s.has_randr_1_5) then (false, some s) else elim r.monitors [
      | none ↦ (false, some s)
      | some monitors ↦
          if not r.malloc_ok
          then (true, some s)
          else (true, replaced s (fill_monitors monitors 0 (fresh_array (length monitors))))
    ]

unfoldable pub _randr_query_outputs_14 : Replies → Monitors → Bool × Option Monitors
unfolding fill_outputs
_randr_query_outputs_14 r s = if not s.has_randr then (false, some s) else elim r.outputs [
  | none ↦ (false, some s)
  | some outputs ↦
      if not r.malloc_ok
      then (true, some s)
      else (true, replaced s (fill_outputs outputs 0 (fresh_array (length outputs))))
]

-- The loop over the Xinerama screens, with what is left to count up to `xr_screens`.
unfoldable pub fill_xinerama : ℕ → ℕ → List Rect → List (Option Rect) → Option (List (Option Rect))
fill_xinerama zero screen screen_info resolutions = some resolutions
fill_xinerama (suc left) screen screen_info resolutions = elim (get_elem? screen_info screen) [
  | none ↦ none
  | some area ↦ elim (write resolutions screen (some area)) [
    | none ↦ none
    | some written ↦ fill_xinerama left (suc screen) screen_info written
  ]
]

abbrev pub counted : ℕ → Option (List (Option Rect)) → Option (ℕ × List (Option Rect))
counted screens none = none
counted screens (some resolutions) = some (screens, resolutions)

unfoldable pub _xinerama_query_screens : Replies → Monitors → Option Monitors
unfolding fill_xinerama
_xinerama_query_screens r s = if not s.xinerama_active then some s else elim r.xinerama_screens [
  | none ↦ some s
  | some info ↦
      if not r.malloc_ok
      then some s
      else replaced s
          (counted (length info) (fill_xinerama s.xr_screens 0 info (fresh_array (length info))))
]

unfoldable pub randr_query : Replies → Monitors → Option Monitors
unfolding _randr_query_monitors_15 _randr_query_outputs_14 _xinerama_query_screens
randr_query r s =
    let (done, first) = _randr_query_monitors_15 r s in
    let (done', second) = _randr_query_outputs_14 r s in
    if done then first else if done' then second else _xinerama_query_screens r s
