-- ===== src/Hashline/Declaration.antt =====
-- src/hashline/declaration.ts: lines as a request declares them, compared with the lines of the file.
pub mod Markers
pub mod Hits
pub mod Verdicts
mod Examples
use dsh_hashline_edittool.Base.{
  ℕ, zero, suc, ◌+◌, ◌≡◌, refl, Bool, true, false, not, ◌&&◌, ◌||◌, List, [], ◌∷◌, Option, none,
  some, leb, ◌==◌, if◌then◌else◌, length, get_or, Text, codes, is_digit, is_base62, text_eq, ◌===◌,
}
use dsh_hashline_edittool.Base.Space.{trim_end}

-- the `[ \t]*` in front of a marker
unfoldable pub skip_blanks : Text → Text
skip_blanks [] = []
skip_blanks (c ∷ text) = if c == b' ' || c == 9 then skip_blanks text else c ∷ text

-- the longest run of some characters, and the rest
unfoldable pub run : (ℕ → Bool) → Text → Text
run p [] = []
run p (c ∷ text) = if p c then c ∷ run p text else []

unfoldable pub behind_run : (ℕ → Bool) → Text → Text
behind_run p [] = []
behind_run p (c ∷ text) = if p c then behind_run p text else c ∷ text

-- `(?:\d+:)?`: the rest behind a colon, or `none`
abbrev pub behind_colon : Text → Option Text
behind_colon [] = none
behind_colon (c ∷ text) = if c == b':' then some text else none

unfoldable pub strip_line : Text → Text
unfolding run behind_run
strip_line text = elim (behind_colon (behind_run is_digit text)) [
  | none ↦ text
  | some rest ↦ if leb 1 (length (run is_digit text)) then rest else text
]

-- `\| ?`
abbrev pub behind_bar : Text → Option Text
behind_bar [] = none
behind_bar (c ∷ []) = if c == b'|' then some [] else none
behind_bar (c ∷ d ∷ text) = if c == b'|' then some (if d == b' ' then text else d ∷ text) else none

-- `[A-Za-z0-9]{2,4}` and the bar behind it
unfoldable pub strip_anchor : Text → Option Text
unfolding run behind_run
strip_anchor text =
    let size = length (run is_base62 text) in
    if leb 2 size && leb size 4 then behind_bar (behind_run is_base62 text) else none

-- `d.replace(MARKER_PREFIX, "")`
unfoldable pub strip_marker : Text → Text
unfolding skip_blanks strip_line strip_anchor
strip_marker text = elim (strip_anchor (strip_line (skip_blanks text))) [
  | none ↦ text
  | some rest ↦ rest
]

unfoldable pub declared_line_matches : Text → Text → Bool
unfolding trim_end strip_marker
declared_line_matches declared actual =
    let d = trim_end declared in
    let a = trim_end actual in
    let stripped = strip_marker d in
    if d === a then true else not (stripped === d) && trim_end stripped === a

pub data DeclarationField : Type 0 where
  anchor_start anchor_end : DeclarationField

pub record ExpectedLines : Type 0 where
  pub start : Option Text
  pub end : Option Text

-- how the check ends; a rejection holds what its message is made of
pub data Verdict : Type 0 where
  passed : Verdict
  mismatch :
      (field : DeclarationField) (line_number : ℕ) (declared actual : Text) (hits : List ℕ)
      → Verdict

-- the loop over the lines, from the line of the given number on, with room for so many hits
unfoldable pub hits_from : Text → ℕ → ℕ → ℕ → List Text → List ℕ
unfolding declared_line_matches
hits_from declared line_number zero number lines = []
hits_from declared line_number (suc room) number [] = []
hits_from declared line_number (suc room) number (line ∷ lines) =
    let found = hits_from declared line_number room (suc number) lines in
    let more = hits_from declared line_number (suc room) (suc number) lines in
    if not (number == line_number) && declared_line_matches declared line
    then number ∷ found
    else more

-- `fileLines[lineNumber - 1] ?? ""`
unfoldable pub line_text : List Text → ℕ → Text
line_text file_lines zero = []
line_text file_lines (suc index) = get_or file_lines index []

-- one boundary
unfoldable pub check_line : DeclarationField → ℕ → List Text → Option Text → Verdict
unfolding declared_line_matches hits_from line_text
check_line field line_number file_lines none = passed
check_line field line_number file_lines (some declared) =
    let actual = line_text file_lines line_number in
    if declared_line_matches declared actual
    then passed
    else mismatch field line_number declared actual (hits_from declared line_number 10 1 file_lines)

unfoldable pub verify_expected_lines : ℕ → ℕ → List Text → Option ExpectedLines → Verdict
unfolding check_line
verify_expected_lines start_line end_line file_lines none = passed
verify_expected_lines start_line end_line file_lines (some expected) =
    elim (check_line anchor_start start_line file_lines expected.start) [
      | passed ↦ check_line anchor_end end_line file_lines expected.end
      | mismatch field line_number declared actual hits ↦
          mismatch field line_number declared actual hits
    ]
