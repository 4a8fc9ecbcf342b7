-- ===== src/Launch.antt =====
-- The start of i3lock.c's `main` behind the options: what must succeed before the event loop runs.
use i3lock.Prelude.{
  ℕ, ◌<◌, ◌≡◌, refl, ◌⊎◌, inl, inr, List, [], ◌∷◌, Bool, true, false, not, ◌&&◌, Option, none, some,
  if◌then◌else◌, Bool-cases,
}
use i3lock.Keymap.{
  Keymap, Loading, load_keymap, take_keymap, load_compose_table, Usable, load-Usable,
}
use i3lock.Grab.{grab_pointer_and_keyboard, grab_true_iff}

-- What the server answers to the tries of one call of `grab_pointer_and_keyboard`.
pub record Grabbing : Type 0 where
  pub pointer : ℕ → Bool
  pub keyboard : ℕ → Bool
  pub late : ℕ → Bool

-- What the system and the server answer.
pub record Machine : Type 0 where
  pub passwd_ok : Bool
  pub username_ok : Bool
  pub wayland : Bool
  pub mlock_password_ok : Bool
  pub mlock_visible_ok : Bool
  pub connect_ok : Bool
  pub xkb_ok : Bool
  pub first_loading : Loading
  pub lc_all : Option (List ℕ)
  pub lc_ctype : Option (List ℕ)
  pub lang : Option (List ℕ)
  pub compose_table : List ℕ → Option ℕ
  pub compose_state : Option ℕ
  pub first_grab : Grabbing
  pub second_grab : Grabbing
  pub in_child : Bool
  pub second_loading : Loading
  pub loop_ok : Bool
  pub callocs_ok : Bool

-- The process exits with a failure; it is the child that raises the window; it stays locked without an
-- event loop; or the event loop runs, with the map of the keyboard.
pub data Launched : Type 0 where
  fails : Launched
  raises_window : Launched
  stays_locked : Launched
  loops : Keymap → Launched

-- A variable of the environment that is set and not empty.
unfoldable pub or_locale : Option (List ℕ) → List ℕ → List ℕ
or_locale none other = other
or_locale (some []) other = other
or_locale (some (b ∷ text)) other = b ∷ text

-- "C" is the last resort.
unfoldable pub locale : Machine → List ℕ
unfolding or_locale
locale m = or_locale m.lc_all (or_locale m.lc_ctype (or_locale m.lang (67 ∷ [])))

unfoldable pub user_ok : Machine → Bool
user_ok m =
    m.passwd_ok && (m.username_ok && (not m.wayland && (m.mlock_password_ok && m.mlock_visible_ok)))

unfoldable pub try_grab : Grabbing → ℕ → Bool
unfolding grab_pointer_and_keyboard
try_grab g tries = (grab_pointer_and_keyboard g.pointer g.keyboard g.late tries).0

-- The second call follows a change of the focus.
unfoldable pub grabs : Machine → Bool
unfolding try_grab
grabs m = if try_grab m.first_grab 1000 then true else try_grab m.second_grab 9000

-- From the fork to the event loop.
unfoldable pub enter_loop : Machine → Keymap → Launched
unfolding load_keymap
enter_loop m k =
    if m.in_child
    then raises_window
    else if not m.loop_ok
    then fails
    else if not m.callocs_ok
    then stays_locked
    else loops (load_keymap m.second_loading k).1

unfoldable pub launch : Machine → Keymap → Launched
unfolding user_ok load_keymap load_compose_table locale grabs enter_loop
launch m k₀ =
    let (loaded, k₁) = load_keymap m.first_loading k₀ in
    let k₂ = (load_compose_table (m.compose_table (locale m)) m.compose_state k₁).1 in
    if not (user_ok m)
    then fails
    else if not (m.connect_ok && m.xkb_ok)
    then fails
    else if not loaded
    then fails
    else if not (grabs m)
    then fails
    else enter_loop m k₂

-- In some try the pointer was granted, and in a later one the keyboard.
abbrev pub Grabbed : Grabbing → Type 0
Grabbed g = (i : ℕ) × (j : ℕ) × (j < i) × (g.pointer i ≡ true) × (g.keyboard j ≡ true)

grab-Grabbed : (g : Grabbing) (tries : ℕ) → try_grab g tries ≡ true → Grabbed g
unfolding try_grab
grab-Grabbed g tries h =
    let (i, j, less, given, some_left, below, typed) =
      (grab_true_iff g.pointer g.keyboard g.late tries).0 h in
    (i, j, below, given, typed)

grabs-Grabbed : (m : Machine) → grabs m ≡ true → Grabbed m.first_grab ⊎ Grabbed m.second_grab
unfolding grabs
grabs-Grabbed m h = elim (Bool-cases (try_grab m.first_grab 1000)) [
  | inl first ↦ inl (grab-Grabbed m.first_grab 1000 first)
  | inr refused ↦ inr (grab-Grabbed m.second_grab 9000 (rw refused at h))
]

take-Usable :
    (new_keymap new_state : Option ℕ) (k : Keymap)
    → k.xkb_context ≡ true
    → (take_keymap new_keymap new_state k).0 ≡ true
    → Usable (take_keymap new_keymap new_state k).1
unfolding take_keymap
take-Usable none new_state k c h = cc
take-Usable (some m) none k c h = cc
take-Usable (some m) (some s) k c h = record { context = c; keymap = (m, refl); state = (s, refl) }

-- A load that succeeds makes the map usable.
loaded-Usable : (l : Loading) (k : Keymap) → (load_keymap l k).0 ≡ true → Usable (load_keymap l k).1
unfolding load_keymap
loaded-Usable l k = go (not k.xkb_context && not l.context_ok)
  where
    ready : Keymap
    ready = record k { xkb_context = true }

    result : Bool → Bool × Keymap
    result b = if b then (false, k) else take_keymap l.new_keymap l.new_state ready

    go : (b : Bool) → (result b).0 ≡ true → Usable (result b).1
    go true h = cc
    go false h = take-Usable l.new_keymap l.new_state ready refl h

compose-Usable :
    (table state : Option ℕ) (k : Keymap) → Usable k → Usable (load_compose_table table state k).1
unfolding load_compose_table
compose-Usable none state k u = record { context = u.context; keymap = u.keymap; state = u.state }
compose-Usable (some t) none k u = record {
  context = u.context;
  keymap = u.keymap;
  state = u.state;
}
compose-Usable (some t) (some s) k u = record {
  context = u.context;
  keymap = u.keymap;
  state = u.state;
}

entered-Usable : (m : Machine) (k t : Keymap) → Usable k → enter_loop m k ≡ loops t → Usable t
unfolding enter_loop
entered-Usable m k t u = go m.in_child m.loop_ok m.callocs_ok
  where
    last :
        loops (load_keymap m.second_loading k).1 ≡ loops t → (load_keymap m.second_loading k).1 ≡ t
    last h = cc

    go :
        (c l a : Bool)
        → (if c
            then raises_window
            else if not l
            then fails
            else if not a
            then stays_locked
            else loops (load_keymap m.second_loading k).1)
          ≡ loops t
        → Usable t
    go true l a h = cc
    go false false a h = cc
    go false true false h = cc
    go false true true h = rw (last h) at (load-Usable m.second_loading k u)

-- The event loop runs only where both the pointer and the keyboard were granted by the server, the
-- keyboard behind the pointer in one call of `grab_pointer_and_keyboard`, and where there is a map of
-- the keyboard and its state.
pub launch_loops-Grabbed :
    (m : Machine) (k t : Keymap)
    → launch m k ≡ loops t
    → (Grabbed m.first_grab ⊎ Grabbed m.second_grab) × Usable t
unfolding launch
launch_loops-Grabbed m k₀ t =
    go (user_ok m) (m.connect_ok && m.xkb_ok) (load_keymap m.first_loading k₀).0 refl (grabs m) refl
  where
    failed : fails ≡ loops t → ⊥
    failed h = cc

    k₂ : Keymap
    k₂ =
        (load_compose_table (m.compose_table (locale m)) m.compose_state
          (load_keymap m.first_loading k₀).1).1

    go :
        (u c l : Bool)
        → (load_keymap m.first_loading k₀).0 ≡ l
        → (g : Bool) → grabs m ≡ g
        → (if not u
            then fails
            else if not c
            then fails
            else if not l
            then fails
            else if not g
            then fails
            else enter_loop m k₂)
          ≡ loops t
        → (Grabbed m.first_grab ⊎ Grabbed m.second_grab) × Usable t
    go false c l el g eg h = absurd (failed h)
    go true false l el g eg h = absurd (failed h)
    go true true false el g eg h = absurd (failed h)
    go true true true el false eg h = absurd (failed h)
    go true true true el true eg h = (
      grabs-Grabbed m eg,
      entered-Usable m k₂ t (compose-Usable _ _ _ (loaded-Usable m.first_loading k₀ el)) h,
    )
