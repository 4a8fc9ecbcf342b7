-- ===== src/Keymap.antt =====
-- The keyboard map of i3lock.c: `load_keymap`, `load_compose_table` and `process_xkb_event`. An object of
-- libxkbcommon is its number, and a null pointer is `none`.
use i3lock.Prelude.{
  ℕ, ◌≡◌, refl, List, Bool, true, false, not, ◌&&◌, Option, none, some, if◌then◌else◌,
}

pub record Keymap : Type 0 where
  pub xkb_context : Bool
  pub xkb_keymap : Option ℕ
  pub xkb_state : Option ℕ
  pub xkb_compose_table : Option ℕ
  pub xkb_compose_state : Option ℕ

-- What libxkbcommon gives: a context, a map of the device, a state of that map.
pub record Loading : Type 0 where
  pub context_ok : Bool
  pub new_keymap : Option ℕ
  pub new_state : Option ℕ

unfoldable pub take_keymap : Option ℕ → Option ℕ → Keymap → Bool × Keymap
take_keymap none new_state k = (false, k)
take_keymap (some new_keymap) none k = (false, k)
take_keymap (some new_keymap) (some new_state) k =
    (true, record k { xkb_keymap = some new_keymap; xkb_state = some new_state })

unfoldable pub load_keymap : Loading → Keymap → Bool × Keymap
unfolding take_keymap
load_keymap l k =
    if not k.xkb_context && not l.context_ok
    then (false, k)
    else take_keymap l.new_keymap l.new_state (record k { xkb_context = true })

unfoldable pub load_compose_table : Option ℕ → Option ℕ → Keymap → Bool × Keymap
load_compose_table none new_state k = (false, record k { xkb_compose_table = none })
load_compose_table (some table) none k = (false, record k { xkb_compose_table = some table })
load_compose_table (some table) (some new_state) k =
    (true, record k { xkb_compose_table = some table; xkb_compose_state = some new_state })

-- The kinds of event of the keyboard extension. A change of the state has six masks.
pub data XkbType : Type 0 where
  new_keyboard_notify : Bool → XkbType
  xkb_map_notify : XkbType
  state_notify : List ℕ → XkbType
  other_xkb_type : XkbType

-- `own_device` tells that the event is of the core keyboard.
pub record XkbEvent : Type 0 where
  pub own_device : Bool
  pub xkb_type : XkbType

-- `xkb_state_update_mask`
abbrev pub updated : (ℕ → List ℕ → ℕ) → List ℕ → Option ℕ → Option ℕ
updated update_mask masks none = none
updated update_mask masks (some state) = some (update_mask state masks)

unfoldable pub on_xkb_type : (ℕ → List ℕ → ℕ) → Loading → XkbType → Keymap → Keymap
unfolding load_keymap
on_xkb_type update_mask l (new_keyboard_notify keycodes) k =
    if keycodes then (load_keymap l k).1 else k
on_xkb_type update_mask l xkb_map_notify k = (load_keymap l k).1
on_xkb_type update_mask l (state_notify masks) k = record k {
  xkb_state = updated update_mask masks k.xkb_state;
}
on_xkb_type update_mask l other_xkb_type k = k

unfoldable pub process_xkb_event : (ℕ → List ℕ → ℕ) → Loading → XkbEvent → Keymap → Keymap
unfolding on_xkb_type
process_xkb_event update_mask l e k =
    if not e.own_device then k else on_xkb_type update_mask l e.xkb_type k

-- There is a context, a map and a state.
pub record Usable (k : Keymap) : Type 0 where
  pub context : k.xkb_context ≡ true
  pub keymap : (n : ℕ) × (k.xkb_keymap ≡ some n)
  pub state : (n : ℕ) × (k.xkb_state ≡ some n)

take-Usable :
    (new_keymap new_state : Option ℕ) (k : Keymap)
    → Usable k
    → Usable (take_keymap new_keymap new_state k).1
unfolding take_keymap
take-Usable none new_state k u = u
take-Usable (some m) none k u = u
take-Usable (some m) (some s) k u = record {
  context = u.context;
  keymap = (m, refl);
  state = (s, refl);
}

pub load-Usable : (l : Loading) (k : Keymap) → Usable k → Usable (load_keymap l k).1
unfolding load_keymap
load-Usable l k u = go (not k.xkb_context && not l.context_ok)
  where
    ready : Keymap
    ready = record k { xkb_context = true }

    go :
        (b : Bool) → Usable (if b then (false, k) else take_keymap l.new_keymap l.new_state ready).1
    go true = u
    go false =
        take-Usable l.new_keymap l.new_state ready
          (record { context = refl; keymap = u.keymap; state = u.state })

-- Once there is a map of the keyboard and a state of it, every event of the keyboard extension leaves a
-- map and a state, also where the new map cannot be loaded.
pub process_xkb_event-Usable :
    (update_mask : ℕ → List ℕ → ℕ) (l : Loading) (e : XkbEvent) (k : Keymap)
    → Usable k
    → Usable (process_xkb_event update_mask l e k)
unfolding process_xkb_event on_xkb_type
process_xkb_event-Usable update_mask l e k u = go e.own_device e.xkb_type
  where
    typed : (t : XkbType) → Usable (on_xkb_type update_mask l t k)
    typed (new_keyboard_notify true) = load-Usable l k u
    typed (new_keyboard_notify false) = u
    typed xkb_map_notify = load-Usable l k u
    typed (state_notify masks) =
        let (state, at) = u.state in
        record {
          context = u.context;
          keymap = u.keymap;
          state = (update_mask state masks, rw at refl);
        }
    typed other_xkb_type = u

    go : (own : Bool) (t : XkbType) → Usable (if not own then k else on_xkb_type update_mask l t k)
    go true t = typed t
    go false t = u
