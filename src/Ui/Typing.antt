-- ===== src/Ui/Typing.antt =====
-- The input buffer of i3lock.c as the text that was typed: keys append characters, backspace takes the
-- last one away.
use i3lock.Prelude.{
  ℕ, zero, suc, ◌+◌, ◌-◌, ◌≤◌, ◌<◌, ◌≡◌, refl, sym, ap, ◌∙◌, List, [], ◌∷◌, ◌++◌, Bool, false, ◌||◌,
  some, leb, ltb, ◌==◌, length, set, take, drop, length-append, length-take, length-drop,
  take-append, append_assoc, arith,
}
use i3lock.Memory.{text_of}
use i3lock.Memory.Strings.{NoNul, text_of_terminated}
use i3lock.Utf8.{u8_dec}
use i3lock.Utf8.Back.{IsChar, u8_dec_char}
use i3lock.Ui.{
  Ui, redraw_screen, password_size, terminate, update_pam_visible_input, clear_pam_visible_input,
}
use i3lock.Ui.Buffer.{Sound}
use i3lock.Ui.Keys.{store_text, cut_input, show_typed, on_text, on_backspace, buffer_size}

-- The text before the input position.
abbrev pub typed : Ui → List ℕ
typed u = take u.input_position u.password

take-set : (xs : List ℕ) (n v : ℕ) → take n (set xs n v) ≡ take n xs
take-set [] zero v = refl
take-set [] (suc n) v = refl
take-set (x ∷ xs) zero v = refl
take-set (x ∷ xs) (suc n) v = ap (◌∷◌ x) (take-set xs n v)

set_splits :
    (xs : List ℕ) (n v : ℕ) → n < length xs → (r : List ℕ) × (set xs n v ≡ take n xs ++ v ∷ r)
set_splits [] n v h = absurd (omega arith)
set_splits (x ∷ xs) zero v h = (xs, refl)
set_splits (x ∷ xs) (suc n) v h = let (r, e) = set_splits xs n v (omega arith) in (r, ap (◌∷◌ x) e)

-- Terminated at the input position, the buffer reads as the typed text.
pub text_of-terminate :
    (u : Ui) → Sound u → NoNul (typed u) → text_of (terminate u).password ≡ typed u
unfolding terminate
text_of-terminate u s safe =
    let (r, e) = set_splits u.password u.input_position 0 (omega (arith, s.size, s.room)) in
    rw e (text_of_terminated (typed u) r safe)

-- The buffer with a text copied in at the input position, up to the end of the text.
copied_front :
    (size : ℕ) (buffer : List ℕ) (u : Ui)
    → Sound u
    → size ≤ length buffer
    → take
        (u.input_position + size)
        (typed u ++ (take size buffer ++ drop (u.input_position + size) u.password))
      ≡ typed u ++ take size buffer
copied_front size buffer u s le =
    let front = typed u ++ take size buffer in
    let rest = drop (u.input_position + size) u.password in
    let at : u.input_position + size ≡ length front = omega (
      arith,
      s.size,
      s.room,
      length-append (typed u) (take size buffer),
      length-take u.input_position u.password,
      length-take size buffer,
    ) in
    ap (take (u.input_position + size)) (sym (append_assoc (typed u) (take size buffer) rest))
    ∙ ap (λ n. take n (front ++ rest)) at
    ∙ take-append front rest

stored :
    (size : ℕ) (buffer : List ℕ) (u : Ui)
    → Sound u
    → size ≤ length buffer
    → u.input_position + size < password_size
    → (r : List ℕ) × ((store_text size buffer u).password ≡ typed u ++ (take size buffer ++ r))
unfolding store_text terminate
stored size buffer u s le lt =
    let rest = drop (u.input_position + size) u.password in
    let whole = typed u ++ (take size buffer ++ rest) in
    let room : u.input_position + size < length whole = omega (
      arith,
      s.size,
      length-append (typed u) (take size buffer ++ rest),
      length-append (take size buffer) rest,
      length-take u.input_position u.password,
      length-take size buffer,
      length-drop (u.input_position + size) u.password,
    ) in
    let (r, e) = set_splits whole (u.input_position + size) 0 room in
    (
      0 ∷ r,
      e
          ∙ ap (λ t. t ++ 0 ∷ r) (copied_front size buffer u s le)
          ∙ append_assoc (typed u) (take size buffer) (0 ∷ r),
    )

-- The drawing behind a key changes neither the buffer nor the position.
drawn_text :
    (calloc_ok : Bool) (u : Ui)
    → ((show_typed calloc_ok (update_pam_visible_input u)).password ≡ u.password)
      × ((show_typed calloc_ok (update_pam_visible_input u)).input_position ≡ u.input_position)
unfolding show_typed update_pam_visible_input clear_pam_visible_input redraw_screen
drawn_text calloc_ok u = (ground arith, ground arith)

visible_text :
    (u : Ui)
    → ((update_pam_visible_input u).password ≡ u.password)
      × ((update_pam_visible_input u).input_position ≡ u.input_position)
unfolding update_pam_visible_input clear_pam_visible_input
visible_text u = (ground arith, ground arith)

cut-typed :
    (calloc_ok : Bool) (position : ℕ) (u : Ui)
    → ((cut_input calloc_ok position u).input_position ≡ position)
      × (typed (cut_input calloc_ok position u) ≡ take position u.password)
unfolding cut_input terminate redraw_screen
cut-typed calloc_ok position u =
    let (p, i) = visible_text (terminate (record u { input_position = position })) in
    (i, rw (i, p) (take-set u.password position 0))

take_char :
    (lead : ℕ) (tail rest : List ℕ)
    → take (length tail + 2 - 1) (lead ∷ (tail ++ rest)) ≡ lead ∷ tail
take_char lead tail rest =
    rw (let e : length tail + 2 - 1 ≡ length (lead ∷ tail) = omega arith in e)
      (take-append (lead ∷ tail) rest)

text_goes_in :
    (calloc_ok : Bool) (n : ℕ) (buffer : List ℕ) (u : Ui)
    → 1 < n
    → n ≤ 9
    → u.input_position + 8 < password_size
    → on_text calloc_ok n buffer u
      ≡ some (show_typed calloc_ok (update_pam_visible_input (store_text (n - 1) buffer u)))
unfolding on_text
text_goes_in calloc_ok n buffer u some_text short room =
    let let_in : (leb password_size (u.input_position + 8) || ltb n 2) ≡ false = ground arith in
    let inside : (ltb buffer_size (n - 1) || leb password_size (u.input_position + (n - 1)))
        ≡ false =
      ground arith in
    rw (let_in, inside)

-- Erasing the character that ends the text.
erase_char :
    (calloc_ok : Bool) (front : List ℕ) (lead : ℕ) (tail r : List ℕ) (v : Ui)
    → IsChar lead tail
    → v.password ≡ front ++ lead ∷ (tail ++ r)
    → v.input_position ≡ suc (length front + length tail)
    → (on_backspace calloc_ok v ≡ some (cut_input calloc_ok (length front) v))
      × (typed (cut_input calloc_ok (length front) v) ≡ front)
unfolding on_backspace
erase_char calloc_ok front lead tail r v char text at =
    let filled : (v.input_position == 0) ≡ false = ground (arith, at) in
    let back : u8_dec v.password v.input_position ≡ some (length front) =
      rw (text, at) (u8_dec_char front lead tail r char) in
    (
      rw (filled, back),
      (cut-typed calloc_ok (length front) v).1
          ∙ ap (take (length front)) text
          ∙ take-append front (lead ∷ (tail ++ r)),
    )

-- A character of up to four bytes that is typed and then erased leaves the typed text as it was.
pub typed_then_erased :
    (calloc_ok : Bool) (lead : ℕ) (tail rest : List ℕ) (u : Ui)
    → Sound u
    → IsChar lead tail
    → u.input_position + 8 < password_size
    → (v : Ui) × (w : Ui) × (on_text calloc_ok (length tail + 2) (lead ∷ (tail ++ rest)) u ≡ some v)
      × (on_backspace calloc_ok v ≡ some w)
      × (typed w ≡ typed u)
typed_then_erased calloc_ok lead tail rest u s char room =
    let size : ℕ = length tail + 2 - 1 in
    let buffer = lead ∷ (tail ++ rest) in
    let short = char.short in
    let front_size : length (typed u) ≡ u.input_position =
      omega (arith, s.size, s.room, length-take u.input_position u.password) in
    let (r, text) = stored size buffer u s (omega (arith, length-append tail rest)) (omega arith) in
    let v = show_typed calloc_ok (update_pam_visible_input (store_text size buffer u)) in
    let (p, i) = drawn_text calloc_ok (store_text size buffer u) in
    let whole : v.password ≡ typed u ++ lead ∷ (tail ++ r) =
      p ∙ text ∙ ap (λ t. typed u ++ (t ++ r)) (take_char lead tail rest) in
    let at : v.input_position ≡ suc (length (typed u) + length tail) =
      i ∙ (unfold store_text terminate in omega (arith, front_size)) in
    let (erased, same) = erase_char calloc_ok (typed u) lead tail r v char whole at in
    (
      v,
      cut_input calloc_ok (length (typed u)) v,
      text_goes_in calloc_ok (length tail + 2) buffer u (omega arith) (omega arith) room,
      erased,
      same,
    )
