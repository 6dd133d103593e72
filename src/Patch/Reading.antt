-- ===== src/Patch/Reading.antt =====
-- src/domain/patch/parse.ts: lines, headers and anchors.
use dsh_hashline_edittool.Base.{
  ℕ, Bool, true, false, ◌&&◌, ◌||◌, List, [], ◌∷◌, Option, none, some, leb, ◌==◌, if◌then◌else◌,
  Text, codes, all, is_digit, is_base62, length, same_text,
}
use dsh_hashline_edittool.Base.Space.{is_space, trim}
use dsh_hashline_edittool.Patch.Types.{
  SectionKind, file, new, move, remove, HunkKind, replace, insert, delete, Parsed, parsed, refused,
  ◌>>=◌, missing_anchor, insert_range, move_arrow, move_ends, invalid_anchor, missing_path,
}

abbrev pub is_empty {ℓ} : {A : Type ℓ} → List A → Bool
is_empty [] = true
is_empty (x ∷ xs) = false

abbrev add_head : ℕ → List Text → List Text
add_head c [] = (c ∷ []) ∷ []
add_head c (row ∷ rows) = (c ∷ row) ∷ rows

abbrev opens_lf : Text → Bool
opens_lf [] = false
opens_lf (c ∷ text) = c == 10

-- `splitLines`, at `\r\n`, `\n` or `\r`
unfoldable pub split_rows : Text → List Text
split_rows [] = [] ∷ []
split_rows (c ∷ text) =
    let rows = split_rows text in
    if c == 10
    then [] ∷ rows
    else if c == 13
    then if opens_lf text then rows else [] ∷ rows
    else add_head c rows

-- what `\S+` matches at the start, and what follows it
unfoldable pub take_word : Text → Text
take_word [] = []
take_word (c ∷ text) = if is_space c then [] else c ∷ take_word text

unfoldable pub drop_word : Text → Text
drop_word [] = []
drop_word (c ∷ text) = if is_space c then c ∷ text else drop_word text

pub record Header : Type 0 where
  pub keyword : Text
  pub payload : Text

unfoldable pub read_header : Text → Header
unfolding take_word drop_word trim
read_header line = record {
  keyword = take_word (trim line);
  payload = trim (drop_word (trim line));
}

unfoldable pub section_kind : Text → Option SectionKind
section_kind keyword =
    if same_text keyword (codes "file")
    then some file
    else if same_text keyword (codes "new")
    then some new
    else if same_text keyword (codes "move")
    then some move
    else if same_text keyword (codes "remove")
    then some remove
    else none

unfoldable pub hunk_kind : Text → Option HunkKind
hunk_kind keyword =
    if same_text keyword (codes "replace")
    then some replace
    else if same_text keyword (codes "insert")
    then some insert
    else if same_text keyword (codes "delete")
    then some delete
    else none

-- `ANCHOR_PATTERN`
unfoldable pub is_anchor : Text → Bool
unfolding all
is_anchor text = leb 2 (length text) && all is_base62 text

-- `WEAK_ANCHOR_PATTERN` behind at least one digit: more digits, a colon and an anchor
unfoldable pub weak_tail : Text → Option Text
unfolding is_anchor
weak_tail [] = none
weak_tail (c ∷ text) =
    if is_digit c then weak_tail text else if c == b':' && is_anchor text then some text else none

unfoldable pub weak_anchor : Text → Option Text
unfolding weak_tail
weak_anchor [] = none
weak_anchor (c ∷ text) = if is_digit c then weak_tail text else none

unfoldable pub read_anchor : Text → ℕ → Parsed Text
unfolding trim weak_anchor is_anchor
read_anchor spec line_number =
    let trimmed = trim spec in
    if is_empty trimmed then refused line_number missing_anchor else elim (weak_anchor trimmed) [
      | some anchor ↦ parsed anchor
      | none ↦
          if is_anchor trimmed then parsed trimmed else refused line_number (invalid_anchor trimmed)
    ]

-- what stands before and behind the first `a` that a `b` follows
unfoldable pub cut_first : ℕ → ℕ → Text → Option (Text × Text)
cut_first a b [] = none
cut_first a b (c ∷ []) = none
cut_first a b (c ∷ d ∷ text) =
    let later = cut_first a b (d ∷ text) in
    if c == a && d == b
    then some ([], text)
    else elim later [ none ↦ none | some (before, behind) ↦ some (c ∷ before, behind) ]

-- the same of the last one
unfoldable pub cut_last : ℕ → ℕ → Text → Option (Text × Text)
cut_last a b [] = none
cut_last a b (c ∷ []) = none
cut_last a b (c ∷ d ∷ text) = elim (cut_last a b (d ∷ text)) [
  | some (before, behind) ↦ some (c ∷ before, behind)
  | none ↦ if c == a && d == b then some ([], text) else none
]

abbrev pub is_insert : HunkKind → Bool
is_insert insert = true
is_insert replace = false
is_insert delete = false

-- the two anchors of a hunk
unfoldable pub read_hunk_header : Text → HunkKind → ℕ → Parsed (Text × Option Text)
unfolding read_anchor cut_first
read_hunk_header payload kind line_number = elim (cut_first b'.' b'.' payload) [
  | none ↦ do anchor_start ← read_anchor payload line_number; parsed (anchor_start, none)
  | some (before, behind) ↦ if is_insert kind then refused line_number insert_range else do
    anchor_start ← read_anchor before line_number
    anchor_end ← read_anchor behind line_number
    parsed (anchor_start, some anchor_end)
]

abbrev pub is_move : SectionKind → Bool
is_move move = true
is_move file = false
is_move new = false
is_move remove = false

-- the path and the destination of a section
unfoldable pub read_section_header : Text → SectionKind → ℕ → Parsed (Text × Option Text)
unfolding trim cut_last
read_section_header payload kind line_number =
    if is_move kind
    then (elim (cut_last b'-' b'>' payload) [
      | none ↦ refused line_number move_arrow
      | some (before, behind) ↦
          if is_empty (trim before) || is_empty (trim behind)
          then refused line_number move_ends
          else parsed (trim before, some (trim behind))
    ])
    else if is_empty payload
    then refused line_number (missing_path kind)
    else parsed (payload, none)
