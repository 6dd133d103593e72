-- ===== src/Hashline/Declaration/Examples.antt =====
-- src/hashline/declaration.ts on a file of three lines.
use dsh_hashline_edittool.Base.{◌≡◌, refl, arith, true, false, List, [], ◌∷◌, some, Text, codes}
use dsh_hashline_edittool.Hashline.Declaration.{
  ExpectedLines, mismatch, anchor_end, declared_line_matches, verify_expected_lines,
}
use dsh_hashline_edittool.Hashline.Declaration.Markers.{row, declared_line_matches-row}
use dsh_hashline_edittool.Hashline.Declaration.Verdicts.{IsVerdict, verify_expected_lines-IsVerdict}

abbrev file : List Text
file = codes "  x = 1" ∷ codes "y = 2" ∷ codes "z" ∷ []

abbrev aimed_wrong : ExpectedLines
aimed_wrong = record { start = some (codes "12:K2|   x = 1"); end = some (codes "y = 2 ") }

wrong_end :
    verify_expected_lines 1 3 file (some aimed_wrong)
    ≡ mismatch anchor_end 3 (codes "y = 2 ") (codes "z") (2 ∷ [])
unfolding verify_expected_lines
wrong_end = refl

verify_expected_lines-IsVerdict_example :
    IsVerdict 1 3 file aimed_wrong (verify_expected_lines 1 3 file (some aimed_wrong))
verify_expected_lines-IsVerdict_example = verify_expected_lines-IsVerdict 1 3 file aimed_wrong

declared_line_matches-row_example :
    declared_line_matches (row (some 120) (codes "K2") (codes "  x = 1 ")) (codes "  x = 1 ") ≡ true
declared_line_matches-row_example =
    declared_line_matches-row (some 120) (codes "K2") (codes "  x = 1 ") (refl, (refl, tt))
      (omega arith) (omega arith)

-- a row as `fmtRegion` writes it, the line number behind the anchor
number_behind : declared_line_matches (codes "K2:120| z") (codes "z") ≡ false
unfolding declared_line_matches
number_behind = refl
