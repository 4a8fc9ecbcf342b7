-- ===== src/Panel/Lines.antt =====
-- The number and the kinds of the panel's lines in unlock_indicator.c.
use i3lock.Prelude.{
  ℕ, zero, suc, ◌+◌, ◌≤◌, ◌<◌, ◌≡◌, inl, inr, List, [], ◌∷◌, ◌++◌, Bool, true, false, leb, ◌==◌,
  if◌then◌else◌, length, length-append, arith, Bool-cases, ◌||◌,
}
use i3lock.Memory.{strlen}
use i3lock.Ui.{Display}
use i3lock.Ui.Events.{has_text}
use i3lock.Panel.{line_size, append_ellipsis_to_line, wrap_next_text_line}
use i3lock.Panel.Layout.{
  LineKind, PanelLine, status_line, prompt_line, max_lines, status_max_lines, prompt_max_lines,
  wrap_lines, append_wrapped_panel_lines, build_pam_panel_layout,
}

pub prompts : List PanelLine → ℕ
prompts [] = 0
prompts (l ∷ ls) = (elim l.kind [ status_line ↦ 0 | prompt_line ↦ 1 ]) + prompts ls

prompts-append : (ls ms : List PanelLine) → prompts (ls ++ ms) ≡ prompts ls + prompts ms
unfolding prompts
prompts-append [] ms = omega arith
prompts-append (l ∷ ls) ms = omega (arith, prompts-append ls ms)

-- The lines grow by at most `left`, never past `max_lines`, and no prompt line goes.
abbrev Grows : ℕ → List PanelLine → List PanelLine → Type 0
Grows left before after =
    (length after ≤ length before + left)
    × ((length before ≤ max_lines) → length after ≤ max_lines)
    × (prompts before ≤ prompts after)

one_more :
    (left : ℕ) (lines : List PanelLine) (l : PanelLine)
    → length lines < max_lines
    → Grows (suc left) lines (lines ++ (l ∷ []))
one_more left lines l room = (
  omega (arith, length-append lines (l ∷ [])),
  λ h. omega (arith, length-append lines (l ∷ [])),
  omega (arith, prompts-append lines (l ∷ [])),
)

one_prompt :
    (lines : List PanelLine) (text : List ℕ)
    → let l : PanelLine = record { text = text; kind = prompt_line } in
      prompts lines < prompts (lines ++ (l ∷ []))
unfolding prompts
one_prompt lines text =
    let l : PanelLine = record { text = text; kind = prompt_line } in
    omega (arith, prompts-append lines (l ∷ []))

module _ (fits : LineKind → List ℕ → Bool) where
  lines-Grows :
      (left : ℕ) (text : List ℕ) (len : ℕ) (kind : LineKind) (offset : ℕ) (lines : List PanelLine)
      → Grows left lines (wrap_lines fits left text len kind offset lines)
  unfolding wrap_lines
  lines-Grows zero text len kind offset lines = (omega arith, λ h. h, omega arith)
  lines-Grows (suc left) text len kind offset lines =
      let next = (wrap_next_text_line (fits kind) text len offset line_size).0 in
      let line = (wrap_next_text_line (fits kind) text len offset line_size).1 in
      let plain : PanelLine = record { text = line; kind = kind } in
      let elided : PanelLine = record {
        text = append_ellipsis_to_line (fits kind) line;
        kind = kind;
      } in
      elim (Bool-cases (leb max_lines (length lines))) [
        | inl full ↦ rw (full, wrap_lines) (omega arith, λ h. h, omega arith)
        | inr room ↦
            let fewer : length lines < max_lines = ground (arith, room) in
            elim (Bool-cases (leb len next)) [
              | inl end ↦ rw (room, end, wrap_lines) (one_more left lines plain fewer)
              | inr more ↦ elim (Bool-cases (left == 0)) [
                | inl last ↦ rw (room, more, last, wrap_lines) (one_more left lines elided fewer)
                | inr further ↦
                    let first = one_more 0 lines plain fewer in
                    let rest = lines-Grows left text len kind next (lines ++ (plain ∷ [])) in
                    rw (room, more, further, wrap_lines)
                      (
                        omega (arith, first.0, rest.0),
                        λ h. rest.1 (first.1 h),
                        omega (arith, first.2, rest.2),
                      )
              ]
            ]
      ]

  prompt_shown :
      (left : ℕ) (text : List ℕ) (len offset : ℕ) (lines : List PanelLine)
      → length lines < max_lines
      → prompts lines < prompts (wrap_lines fits (suc left) text len prompt_line offset lines)
  unfolding wrap_lines
  prompt_shown left text len offset lines fewer =
      let next = (wrap_next_text_line (fits prompt_line) text len offset line_size).0 in
      let line = (wrap_next_text_line (fits prompt_line) text len offset line_size).1 in
      let plain : PanelLine = record { text = line; kind = prompt_line } in
      let room : leb max_lines (length lines) ≡ false = ground arith in
      elim (Bool-cases (leb len next)) [
        | inl end ↦ rw (room, end, wrap_lines) (one_prompt lines line)
        | inr more ↦ elim (Bool-cases (left == 0)) [
          | inl last ↦
              rw (room, more, last, wrap_lines)
                (one_prompt lines (append_ellipsis_to_line (fits prompt_line) line))
          | inr further ↦
              rw (room, more, further, wrap_lines)
                (omega (
                  arith,
                  one_prompt lines line,
                  (lines-Grows left text len prompt_line next (lines ++ (plain ∷ []))).2,
                ))
        ]
      ]

  append-Grows :
      (text : List ℕ) (kind : LineKind) (most : ℕ) (lines : List PanelLine)
      → Grows most lines (append_wrapped_panel_lines fits text kind most lines)
  unfolding append_wrapped_panel_lines
  append-Grows text kind most lines = elim (Bool-cases (strlen text == 0 || most == 0)) [
    | inl nothing ↦ rw (nothing, append_wrapped_panel_lines) (omega arith, λ h. h, omega arith)
    | inr some_text ↦
        rw (some_text, append_wrapped_panel_lines)
          (lines-Grows most text (strlen text) kind 0 lines)
  ]

  has_text-strlen : (text : List ℕ) → has_text text ≡ true → (strlen text == 0) ≡ false
  unfolding has_text strlen
  has_text-strlen [] h = cc
  has_text-strlen (b ∷ s) h = ground (arith, h)

  append_shows :
      (text : List ℕ) (most : ℕ) (lines : List PanelLine)
      → has_text text ≡ true
      → 0 < most
      → length lines < max_lines
      → prompts lines < prompts (append_wrapped_panel_lines fits text prompt_line most lines)
  unfolding append_wrapped_panel_lines
  append_shows text zero lines given some_lines fewer = absurd (omega arith)
  append_shows text (suc most) lines given some_lines fewer =
      let goes : (strlen text == 0 || suc most == 0) ≡ false =
        ground (arith, has_text-strlen text given) in
      rw goes (prompt_shown most text (strlen text) 0 lines fewer)

  -- The panel never has more lines than its array.
  panel_lines_bounded : (d : Display) → length (build_pam_panel_layout fits d).0 ≤ max_lines
  unfolding build_pam_panel_layout
  panel_lines_bounded d =
      let most = if has_text d.prompt_text then status_max_lines else max_lines in
      let most_prompt = if has_text d.status_text then prompt_max_lines else max_lines in
      let status = append_wrapped_panel_lines fits d.status_text status_line most [] in
      (append-Grows d.prompt_text prompt_line most_prompt status).1
        ((append-Grows d.status_text status_line most []).1 (omega arith))

  -- If there is a prompt, then some line of the panel is one of the prompt's, however long the status text is.
  panel_shows_prompt :
      (d : Display) → has_text d.prompt_text ≡ true → 0 < prompts (build_pam_panel_layout fits d).0
  unfolding build_pam_panel_layout
  panel_shows_prompt d given =
      let most = if has_text d.prompt_text then status_max_lines else max_lines in
      let most_prompt = if has_text d.status_text then prompt_max_lines else max_lines in
      let status = append_wrapped_panel_lines fits d.status_text status_line most [] in
      let first = append-Grows d.status_text status_line most [] in
      let fewer : length status < max_lines = ground (arith, given, first.0) in
      let shown = append_shows d.prompt_text most_prompt status given (ground arith) fewer in
      omega (arith, shown)
