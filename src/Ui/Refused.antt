-- ===== src/Ui/Refused.antt =====
-- An attempt that the controller refuses to start: what is left of the input.
use i3lock.Prelude.{
  ℕ, zero, suc, ◌+◌, ◌<◌, ◌≡◌, refl, ap, ◌∙◌, inl, inr, List, [], ◌∷◌, ◌++◌, true, ◌==◌, length,
  set, take, drop, replicate, arith, Bool-cases,
}
use i3lock.Memory.{strlen, text_of, secure_wipe}
use i3lock.Controller.{Ctrl, start_auth}
use i3lock.Ui.{Ui, terminate, wiped_password, clear_password_memory, redraw_screen}
use i3lock.Ui.Auth.{start_attempt}
use i3lock.Ui.Keys.{store_text}

-- After `explicit_bzero` over `strlen` bytes the first byte is NUL.
wiped_head : (p : List ℕ) → 0 < length p → (r : List ℕ) × (secure_wipe p (strlen p) ≡ 0 ∷ r)
unfolding secure_wipe replicate strlen
wiped_head [] h = absurd (omega arith)
wiped_head (b ∷ s) h = elim (Bool-cases (b == 0)) [
  | inl end ↦ (s, let e : b ≡ 0 = ground (arith, end) in rw end (ap (λ x. x ∷ s) e))
  | inr more ↦ (replicate (strlen s) 0 ++ drop (strlen s) s, rw more)
]

muted :
    (size : ℕ) (buffer : List ℕ) (u : Ui) (r : List ℕ)
    → 0 < u.input_position
    → u.password ≡ 0 ∷ r
    → text_of (store_text size buffer u).password ≡ []
unfolding store_text terminate text_of
muted size buffer u r pos head = go u.input_position u.password pos head
  where
    go :
        (n : ℕ) (p : List ℕ)
        → 0 < n
        → p ≡ 0 ∷ r
        → text_of (set (take n p ++ (take size buffer ++ drop (n + size) p)) (n + size) 0) ≡ []
    go zero p h e = absurd (omega arith)
    go (suc n) p h e = rw (e, let next : suc n + size ≡ suc (n + size) = omega arith in next)

refused :
    (u : Ui) (c : Ctrl)
    → (start_auth u.password c).0 ≡ 0
    → ((start_attempt u c).0.password ≡ wiped_password u.have_explicit_bzero u.beep u.password)
      × ((start_attempt u c).0.input_position ≡ u.input_position)
unfolding start_attempt clear_password_memory redraw_screen
refused u c denied = rw denied (refl, refl)

-- When the controller refuses to start an attempt, in a build with `explicit_bzero`, the text is wiped but the
-- input position stays: whatever is typed next goes behind a NUL, and the password reads as the empty text.
pub refused_start_mutes_input :
    (u : Ui) (c : Ctrl) (size : ℕ) (buffer : List ℕ)
    → u.have_explicit_bzero ≡ true
    → 0 < length u.password
    → 0 < u.input_position
    → (start_auth u.password c).0 ≡ 0
    → ((start_attempt u c).0.input_position ≡ u.input_position)
      × (text_of (store_text size buffer (start_attempt u c).0).password ≡ [])
unfolding wiped_password
refused_start_mutes_input u c size buffer bzero some_room typed denied =
    let (text, position) = refused u c denied in
    let (r, head) = wiped_head u.password some_room in
    (
      position,
      muted size buffer (start_attempt u c).0 r (omega (arith, position)) (text ∙ (rw bzero head)),
    )
