-- ===== src/Grab.antt =====
-- `grab_pointer_and_keyboard` of xcb.c. Each try has its own number, which is `tries` behind the
-- decrement; what the server answers to it, and whether 100 ms have passed by then, are functions of it.
use i3lock.Prelude.{
  ℕ, zero, suc, ◌%◌, ◌≤◌, ◌<◌, ◌≡◌, refl, ◌↔◌, ◌⊎◌, inl, inr, Bool, true, false, ◌&&◌, ◌||◌, Option,
  none, some, ltb, ◌==◌, ap, ltb→lt, lt→ltb, Bool-cases, Option-cases, arith,
}

-- One of the two loops: `tries` where it was left by a grant, or `none` for -1; and whether the screen
-- was redrawn.
unfoldable pub grab_loop : (ℕ → Bool) → (ℕ → Bool) → ℕ → Bool → Option ℕ × Bool
grab_loop granted late zero redrawn = (none, redrawn)
grab_loop granted late (suc tries) redrawn = elim (granted tries) [
  | true ↦ (some tries, redrawn)
  | false ↦ grab_loop granted late tries (redrawn || (tries % 100 == 0 && late tries))
]

-- The keyboard's loop, with the tries that the pointer's left, and the result `tries > 0`.
unfoldable pub grab_keyboard : (ℕ → Bool) → (ℕ → Bool) → Option ℕ × Bool → Bool × Bool
unfolding grab_loop
grab_keyboard granted late (none, redrawn) = (false, redrawn)
grab_keyboard granted late (some tries, redrawn) =
    let (left, redrawn') = grab_loop granted late tries redrawn in
    (elim left [ none ↦ false | some n ↦ ltb 0 n ], redrawn')

unfoldable pub grab_pointer_and_keyboard : (ℕ → Bool) → (ℕ → Bool) → (ℕ → Bool) → ℕ → Bool × Bool
unfolding grab_loop grab_keyboard
grab_pointer_and_keyboard pointer keyboard late tries =
    grab_keyboard keyboard late (grab_loop pointer late tries false)

both : {b : Bool} → b ≡ false → b ≡ true → ⊥
both p q = cc

-- A loop that was left by a grant.
loop_granted :
    (granted late : ℕ → Bool) (tries : ℕ) (redrawn : Bool) (n : ℕ)
    → (grab_loop granted late tries redrawn).0 ≡ some n
    → (n < tries) × (granted n ≡ true)
unfolding grab_loop
loop_granted granted late zero redrawn n h = absurd (nothing h)
  where
    nothing : none ≡ some n → ⊥
    nothing k = cc
loop_granted granted late (suc tries) redrawn n h = elim (Bool-cases (granted tries)) [
  | inl given ↦
      let same : tries ≡ n = last (rw (given, grab_loop) at h) in
      (omega (arith, same), rw same at given)
  | inr refused ↦
      let (less, given) =
        loop_granted granted late tries (redrawn || (tries % 100 == 0 && late tries)) n
          (rw (refused, grab_loop) at h) in
      (omega (arith, less), given)
]
  where
    last : some tries ≡ some n → tries ≡ n
    last k = cc

-- A loop that meets a grant.
loop_stops :
    (granted late : ℕ → Bool) (tries : ℕ) (redrawn : Bool) (i : ℕ)
    → i < tries
    → granted i ≡ true
    → (n : ℕ) × ((grab_loop granted late tries redrawn).0 ≡ some n) × (i ≤ n)
unfolding grab_loop
loop_stops granted late zero redrawn i h k = absurd (omega (arith, h))
loop_stops granted late (suc tries) redrawn i h k = elim (Bool-cases (granted tries)) [
  | inl given ↦ (tries, rw (given, grab_loop) refl, omega (arith, h))
  | inr refused ↦
      let below : i < tries = other refused in
      rw (refused, grab_loop)
        (loop_stops granted late tries (redrawn || (tries % 100 == 0 && late tries)) i below k)
]
  where
    other : granted tries ≡ false → i < tries
    other e =
        let split : (i ≡ tries) ⊎ (i < tries) = omega (arith, h) in
        elim split [ inl same ↦ absurd (both e (rw same at k)) | inr less ↦ less ]

keyboard_granted :
    (granted late : ℕ → Bool) (tries : ℕ) (redrawn : Bool)
    → ((grab_keyboard granted late (some tries, redrawn)).0 ≡ true)
      ↔ ((j : ℕ) × (0 < j) × (j < tries) × (granted j ≡ true))
unfolding grab_keyboard
keyboard_granted granted late tries redrawn = (
  λ h. elim (Option-cases (grab_loop granted late tries redrawn).0) [
    | inl failed ↦ absurd (both refl (rw (failed, grab_keyboard) at h))
    | inr (n, left) ↦
        let (less, given) = loop_granted granted late tries redrawn n left in
        (n, ltb→lt 0 n (rw (left, grab_keyboard) at h), less, given)
  ],
  λ w.
      let (j, some_left, less, given) = w in
      let (n, left, le) = loop_stops granted late tries redrawn j less given in
      rw (left, grab_keyboard) (lt→ltb 0 n (omega (arith, some_left, le))),
)

-- The function returns true exactly if the server grants the pointer in some try, and the keyboard in a
-- later one that is not the last of all.
pub grab_true_iff :
    (pointer keyboard late : ℕ → Bool) (tries : ℕ)
    → ((grab_pointer_and_keyboard pointer keyboard late tries).0 ≡ true) ↔ (
        (i : ℕ) × (j : ℕ) × (i < tries)
        × (pointer i ≡ true)
        × (0 < j)
        × (j < i)
        × (keyboard j ≡ true))
unfolding grab_pointer_and_keyboard grab_keyboard
grab_true_iff pointer keyboard late tries = (
  λ h. there (grab_loop pointer late tries false) refl h,
  λ w.
      let (i, j, less, given, some_left, below, typed) = w in
      let (n, left, le) = loop_stops pointer late tries false i less given in
      back (grab_loop pointer late tries false) n left
        (j, some_left, omega (arith, below, le), typed),
)
  where
    there :
        (p : Option ℕ × Bool)
        → grab_loop pointer late tries false ≡ p
        → (grab_keyboard keyboard late p).0 ≡ true
        → (i : ℕ) × (j : ℕ) × (i < tries)
          × (pointer i ≡ true)
          × (0 < j)
          × (j < i)
          × (keyboard j ≡ true)
    there (none, redrawn) e h = absurd (both refl h)
    there (some i, redrawn) e h =
        let (less, given) = loop_granted pointer late tries false i (ap (λ p. p.0) e) in
        let (j, some_left, below, typed) = (keyboard_granted keyboard late i redrawn).0 h in
        (i, j, less, given, some_left, below, typed)

    back :
        (p : Option ℕ × Bool) (n : ℕ)
        → p.0 ≡ some n
        → (j : ℕ) × (0 < j) × (j < n) × (keyboard j ≡ true)
        → (grab_keyboard keyboard late p).0 ≡ true
    back (o, redrawn) n e w = rw e ((keyboard_granted keyboard late n redrawn).1 w)
