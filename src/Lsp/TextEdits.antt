-- ===== src/Lsp/TextEdits.antt =====
-- src/lsp/format/text-edits.ts, with `restoreEndings` of src/render/edit-diff.ts. The result `none` is
-- a thrown `FormatEditError`.
pub mod Offsets
pub mod Assemble
mod Examples
use dsh_hashline_edittool.Base.{
  ℕ, zero, suc, ◌+◌, ◌-◌, min, Bool, true, false, ◌&&◌, ◌||◌, not, List, [], ◌∷◌, ◌++◌, Option,
  none, some, ◌>>=◌, ltb, leb, ◌==◌, if◌then◌else◌, length, get_or, take, drop, Text, newline,
}
use dsh_hashline_edittool.Base.Sort.{sort}

-- A number of a position: a count, an integer below zero, or no integer.
pub data Coordinate : Type 0 where
  count : ℕ → Coordinate
  below_zero fraction : Coordinate

pub record Position : Type 0 where
  pub line : Coordinate
  pub character : Coordinate

pub record TextEdit : Type 0 where
  pub start : Position
  pub end : Position
  pub new_text : Text

pub record ResolvedEdit : Type 0 where
  pub start : ℕ
  pub end : ℕ
  pub new_text : Text

-- the offset behind each line feed from offset `at` on, and the end of the list
unfoldable pub starts_from : Text → ℕ → List ℕ
starts_from [] at = (at + 1) ∷ []
starts_from (c ∷ text) at =
    let more = starts_from text (at + 1) in if c == newline then (at + 1) ∷ more else more

unfoldable pub line_starts : Text → List ℕ
unfolding starts_from
line_starts text = 0 ∷ starts_from text 0

-- `character` inside a line
abbrev pub clamp : Coordinate → ℕ → ℕ
clamp (count n) line_length = min n line_length
clamp below_zero line_length = 0
clamp fraction line_length = 0

-- the offset in a line of the document
unfoldable pub offset_in : List ℕ → ℕ → ℕ → Coordinate → ℕ
offset_in starts text_length line character =
    let line_start = get_or starts line 0 in
    let line_length =
      if line == length starts - 1 - 1
      then text_length - line_start
      else get_or starts (line + 1) 0 - 1 - line_start in
    line_start + clamp character line_length

unfoldable pub resolve_line : List ℕ → ℕ → Coordinate → Coordinate → Option ℕ
unfolding offset_in
resolve_line starts text_length (count line) character =
    if leb (length starts - 1) line
    then none
    else some (offset_in starts text_length line character)
resolve_line starts text_length below_zero character = none
resolve_line starts text_length fraction character = none

unfoldable pub resolve_offset : List ℕ → ℕ → Position → Option ℕ
unfolding resolve_line
resolve_offset starts text_length position =
    resolve_line starts text_length position.line position.character

unfoldable pub resolve_edits : List ℕ → ℕ → List TextEdit → Option (List ResolvedEdit)
unfolding resolve_offset
resolve_edits starts text_length [] = some []
resolve_edits starts text_length (edit ∷ edits) = do
  start ← resolve_offset starts text_length edit.start
  end ← resolve_offset starts text_length edit.end
  resolved ← resolve_edits starts text_length edits
  some (record { start = start; end = end; new_text = edit.new_text } ∷ resolved)

-- no edit ends before it starts
unfoldable pub all_forward : List ResolvedEdit → Bool
all_forward [] = true
all_forward (edit ∷ edits) = not (ltb edit.end edit.start) && all_forward edits

-- the order of `resolved.sort`
unfoldable pub edit_le : ResolvedEdit → ResolvedEdit → Bool
edit_le a b = ltb a.start b.start || a.start == b.start && leb a.end b.end

abbrev pub overlaps : ResolvedEdit → ResolvedEdit → Bool
overlaps prev cur =
    ltb cur.start prev.end && not (prev.start == prev.end && cur.start == prev.start)

-- the loop over neighbours behind `prev`
unfoldable pub all_apart : ResolvedEdit → List ResolvedEdit → Bool
all_apart prev [] = true
all_apart prev (cur ∷ edits) = not (overlaps prev cur) && all_apart cur edits

unfoldable pub no_overlap : List ResolvedEdit → Bool
unfolding all_apart
no_overlap [] = true
no_overlap (edit ∷ edits) = all_apart edit edits

-- the last loop, which takes the last edit first
unfoldable pub apply_back : Text → List ResolvedEdit → Text
apply_back text [] = text
apply_back text (edit ∷ edits) =
    let result = apply_back text edits in
    take edit.start result ++ edit.new_text ++ drop edit.end result

pub data LineEnding : Type 0 where
  crlf lf cr : LineEnding

unfoldable pub replace_feeds : Text → Text → Text
replace_feeds ending [] = []
replace_feeds ending (c ∷ text) =
    if c == newline then ending ++ replace_feeds ending text else c ∷ replace_feeds ending text

unfoldable pub restore_endings : Text → LineEnding → Text
unfolding replace_feeds
restore_endings text crlf = replace_feeds (13 ∷ 10 ∷ []) text
restore_endings text cr = replace_feeds (13 ∷ []) text
restore_endings text lf = text

-- the rest of the call, on resolved edits
unfoldable pub apply_resolved : Text → List ResolvedEdit → Text → LineEnding → Option Text
unfolding all_forward sort edit_le no_overlap apply_back restore_endings
apply_resolved text resolved bom eol =
    if all_forward resolved
    then if no_overlap (sort edit_le resolved)
      then some (bom ++ restore_endings (apply_back text (sort edit_le resolved)) eol)
      else none
    else none

unfoldable pub apply_text_edits : Text → List TextEdit → Text → LineEnding → Option Text
unfolding resolve_edits line_starts apply_resolved
apply_text_edits text edits bom eol = do
  resolved ← resolve_edits (line_starts text) (length text) edits
  apply_resolved text resolved bom eol
