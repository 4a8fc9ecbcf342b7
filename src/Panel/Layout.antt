-- ===== src/Panel/Layout.antt =====
-- The panel's lines and its height: `append_wrapped_panel_lines` and `build_pam_panel_layout` of
-- unlock_indicator.c. The heights are whole numbers in the source.
use i3lock.Prelude.{
  ℕ, zero, suc, ◌+◌, ◌*◌, List, [], ◌∷◌, ◌++◌, Bool, ◌||◌, leb, ◌==◌, if◌then◌else◌, length,
}
use i3lock.Memory.{strlen}
use i3lock.Ui.{Display}
use i3lock.Ui.Events.{has_text}
use i3lock.Panel.{line_size, wrap_next_text_line, append_ellipsis_to_line}

-- `pam_panel_line_kind_t`
pub data LineKind : Type 0 where
  status_line prompt_line : LineKind

-- `pam_panel_line_t`
pub record PanelLine : Type 0 where
  pub text : List ℕ
  pub kind : LineKind

abbrev pub max_lines : ℕ
max_lines = 5

abbrev pub status_max_lines : ℕ
status_max_lines = 3

abbrev pub prompt_max_lines : ℕ
prompt_max_lines = 2

unfoldable pub pam_panel_is_visible : Display → Bool
unfolding has_text
pam_panel_is_visible d = has_text d.status_text || has_text d.prompt_text

unfoldable pub panel_line_height : LineKind → ℕ
panel_line_height prompt_line = 20
panel_line_height status_line = 17

unfoldable pub gap : LineKind → LineKind → ℕ
gap status_line status_line = 3
gap prompt_line prompt_line = 3
gap _ _ = 5

unfoldable pub lines_height : List PanelLine → ℕ
unfolding panel_line_height gap
lines_height [] = 0
lines_height (l ∷ []) = panel_line_height l.kind
lines_height (l ∷ (m ∷ ls)) = panel_line_height l.kind + (gap l.kind m.kind + lines_height (m ∷ ls))

-- Cairo's answer depends on the kind, which sets the font.
module _ (fits : LineKind → List ℕ → Bool) where
  -- The loop, with `left` rounds to go.
  unfoldable pub wrap_lines : ℕ → List ℕ → ℕ → LineKind → ℕ → List PanelLine → List PanelLine
  unfolding wrap_next_text_line append_ellipsis_to_line
  wrap_lines zero text len kind offset lines = lines
  wrap_lines (suc left) text len kind offset lines =
      let (next, line) = wrap_next_text_line (fits kind) text len offset line_size in
      let plain : PanelLine = record { text = line; kind = kind } in
      let elided : PanelLine = record {
        text = append_ellipsis_to_line (fits kind) line;
        kind = kind;
      } in
      let rest = wrap_lines left text len kind next (lines ++ (plain ∷ [])) in
      if leb max_lines (length lines)
      then lines
      else if leb len next
      then lines ++ (plain ∷ [])
      else if left == 0
      then lines ++ (elided ∷ [])
      else rest

  unfoldable pub append_wrapped_panel_lines :
      List ℕ → LineKind → ℕ → List PanelLine → List PanelLine
  unfolding wrap_lines
  append_wrapped_panel_lines text kind most lines =
      if strlen text == 0 || most == 0
      then lines
      else wrap_lines most text (strlen text) kind 0 lines

  -- The lines and the height; the width is given.
  unfoldable pub build_pam_panel_layout : Display → List PanelLine × ℕ
  unfolding append_wrapped_panel_lines lines_height has_text
  build_pam_panel_layout d =
      let status =
        append_wrapped_panel_lines d.status_text status_line
          (if has_text d.prompt_text then status_max_lines else max_lines) [] in
      let lines =
        append_wrapped_panel_lines d.prompt_text prompt_line
          (if has_text d.status_text then prompt_max_lines else max_lines) status in
      (lines, 2 * 10 + lines_height lines)
