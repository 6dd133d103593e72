-- ===== src/Lsp/TextEdits/Examples.antt =====
-- src/lsp/format/text-edits.ts on two edits that come in the wrong order.
use dsh_hashline_edittool.Base.{ℕ, ◌≡◌, refl, List, [], ◌∷◌, ◌++◌, some, codes}
use dsh_hashline_edittool.Base.Sort.{sort}
use dsh_hashline_edittool.Lsp.TextEdits.{
  count, Position, TextEdit, ResolvedEdit, crlf, line_starts, resolve_edits, edit_le,
  restore_endings, apply_text_edits,
}
use dsh_hashline_edittool.Lsp.TextEdits.Assemble.{assemble, apply_text_edits-assemble}

abbrev at : ℕ → ℕ → Position
at line character = record { line = count line; character = count character }

abbrev edits : List TextEdit
edits =
    record { start = at 1 0; end = at 1 9; new_text = codes "B" }
    ∷ record { start = at 0 1; end = at 0 1; new_text = codes "!" }
    ∷ []

abbrev resolved : List ResolvedEdit
resolved =
    record { start = 2; end = 3; new_text = codes "B" }
    ∷ record { start = 1; end = 1; new_text = codes "!" }
    ∷ []

two_edits : resolve_edits (line_starts (codes "a\nb\n")) 4 edits ≡ some resolved
unfolding resolve_edits line_starts
two_edits = refl

applied : apply_text_edits (codes "a\nb\n") edits [] crlf ≡ some (codes "a!\r\nB\r\n")
unfolding apply_text_edits
applied = refl

apply_text_edits-assemble_example :
    codes "a!\r\nB\r\n"
    ≡ [] ++ restore_endings (assemble (codes "a\nb\n") 0 (sort edit_le resolved)) crlf
apply_text_edits-assemble_example =
    apply_text_edits-assemble (codes "a\nb\n") edits [] crlf {out = codes "a!\r\nB\r\n"}
      {resolved = resolved} two_edits applied
