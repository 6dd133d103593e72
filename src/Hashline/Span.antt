-- ===== src/Hashline/Span.antt =====
-- src/hashline/anchor-pipeline.ts: how an edit whose anchors stand for lines becomes a splice of the text.
pub mod Texts
pub mod Reading
pub mod Offsets
pub mod Branches
pub mod Spans
pub mod Splice
pub mod Changed
mod Examples
use dsh_hashline_edittool.Base.{
  ℕ, zero, suc, ◌+◌, ◌-◌, ◌≡◌, max, refl, Bool, true, false, ◌&&◌, List, [], ◌∷◌, ◌++◌, Option,
  none, some, ◌==◌, ltb, leb, if◌then◌else◌, length, Text, text_eq, codes, newline, ◌===◌, take,
  drop, slice, get_or,
}
use dsh_hashline_edittool.Infra.Lines.{split_lines, join, ends_with_newline}

pub record LIdx : Type 0 where
  pub file_lines : List Text
  pub line_starts : List ℕ

-- the loop of `buildIdx` from a line on
unfoldable pub starts : List Text → ℕ → List ℕ
starts [] offset = []
starts (line ∷ []) offset = offset ∷ []
starts (line ∷ next ∷ lines) offset = offset ∷ starts (next ∷ lines) (offset + length line + 1)

unfoldable pub build_idx : Text → LIdx
unfolding starts split_lines
build_idx content = record {
  file_lines = split_lines content;
  line_starts = starts (split_lines content) 0;
}

pub record RAnchor : Type 0 where
  pub anchor : Text
  pub line : ℕ
  pub hash_matched : Bool
  pub line_hint_mismatch : Bool

pub record RhEdit : Type 0 where
  pub content_lines : List Text
  pub first : RAnchor
  pub last : RAnchor

pub data Span : Type 0 where
  replace : (start stop : ℕ) (replacement : Text) → Span
  noop : (loc current_content : Text) → Span

-- the lengths agree and `every` line is the same
abbrev pub same_lines : List Text → List Text → Bool
same_lines [] [] = true
same_lines (a ∷ xs) (b ∷ ys) = a === b && same_lines xs ys
same_lines _ _ = false

-- where the text of the last lines goes from: over the line break in front of them, unless the line
-- before them is empty
unfoldable pub tail_start : List Text → ℕ → ℕ → ℕ
tail_start lines start_line start =
    if leb 2 start_line && length (get_or lines (start_line - 2) []) == 0 then start else start - 1

-- the lines go, and nothing takes their place
unfoldable pub deletion : ℕ → ℕ → Text → LIdx → Span
unfolding tail_start ends_with_newline
deletion start_line end_line content index =
    let start = get_or index.line_starts (start_line - 1) 0 in
    if start_line == 1 && end_line == length index.file_lines
    then replace 0 (length content) []
    else if ltb end_line (length index.file_lines)
    then replace start (get_or index.line_starts end_line 0) []
    else if ends_with_newline content
    then replace start (length content) []
    else replace (tail_start index.file_lines start_line start) (length content) []

unfoldable pub res_to_span : RhEdit → Text → LIdx → Span
unfolding deletion join
res_to_span edit content index =
    let start_line = edit.first.line in
    let end_line = edit.last.line in
    let original_lines = slice index.file_lines (start_line - 1) end_line in
    if same_lines original_lines edit.content_lines
    then noop edit.first.anchor (join newline original_lines)
    else if ltb 0 (length edit.content_lines)
    then replace (get_or index.line_starts (start_line - 1) 0)
        (get_or index.line_starts (end_line - 1) 0
          + length (get_or index.file_lines (end_line - 1) []))
        (join newline edit.content_lines)
    else deletion start_line end_line content index

-- `content.slice(0, start) + replacement + content.slice(end)`
unfoldable pub assemble : Text → ℕ → ℕ → Text → Text
assemble content start stop replacement = take start content ++ replacement ++ drop stop content

pub data Applied : Type 0 where
  unchanged : Applied
  written : (content : Text) → Applied
  would_empty : Applied

-- `assertNotEmpty` in front of the result
unfoldable pub not_emptied : Text → Text → Applied
not_emptied original_content result =
    if ltb 0 (length original_content) && length result == 0 then would_empty else written result

-- the end of `applyEdit`, for a signal that has not been aborted
unfoldable pub apply_resolved : RhEdit → Text → Applied
unfolding build_idx res_to_span assemble not_emptied
apply_resolved edit content = elim (res_to_span edit content (build_idx content)) [
  | noop loc current_content ↦ unchanged
  | replace start stop replacement ↦ not_emptied content (assemble content start stop replacement)
]

-- the number of leading lines that agree
unfoldable pub agreeing : List Text → List Text → ℕ
agreeing [] ys = 0
agreeing (a ∷ xs) [] = 0
agreeing (a ∷ xs) (b ∷ ys) = if a === b then suc (agreeing xs ys) else 0

-- the loop from the last lines back: how many lines of each text are left (`lastOrig + 1` and
-- `lastRes + 1`)
unfoldable pub unmatched : ℕ → List Text → List Text → ℕ → ℕ → ℕ × ℕ
unmatched first xs ys zero r = (zero, r)
unmatched first xs ys (suc o) zero = (suc o, zero)
unmatched first xs ys (suc o) (suc r) =
    let rest = unmatched first xs ys o r in
    if leb first o && leb first r && get_or xs o [] === get_or ys r [] then rest else (suc o, suc r)

pub record LineRange : Type 0 where
  pub first_changed_line : ℕ
  pub last_changed_line : ℕ

-- two texts of at least one character
unfoldable pub range_of : List Text → List Text → Option LineRange
unfolding agreeing unmatched
range_of xs ys =
    let first = agreeing xs ys in
    let (o, r) = unmatched first xs ys (length xs) (length ys) in
    if same_lines xs ys
    then none
    else some record { first_changed_line = first + 1; last_changed_line = max (first + 1) r }

unfoldable pub changed_range : Text → Text → Option LineRange
unfolding range_of split_lines
changed_range original result =
    if original === result
    then none
    else if length original == 0
    then some record { first_changed_line = 1; last_changed_line = length (split_lines result) }
    else range_of (split_lines original) (split_lines result)
