-- ===== src/Patch/Parse.antt =====
-- src/domain/patch/parse.ts: the lines of a patch one after the other, and `parsePatch`.
use dsh_hashline_edittool.Base.{
  ℕ, suc, Bool, false, List, [], ◌∷◌, ◌++◌, Option, none, some, map, ◌==◌, if◌then◌else◌, Text, all,
  newline,
}
use dsh_hashline_edittool.Base.Space.{trim}
use dsh_hashline_edittool.Patch.Types.{
  SectionKind, file, new, move, remove, Section, Parsed, parsed, refused, ◌>>=◌, plus_column,
  unknown_header,
}
use dsh_hashline_edittool.Patch.Reading.{
  is_empty, split_rows, Header, read_header, section_kind, hunk_kind,
}
use dsh_hashline_edittool.Patch.Scan.{
  SectionBuilder, Scanner, idle, close_section, read_content, open_section, open_hunk_header,
}

abbrev pub opens_plus : Text → Bool
opens_plus [] = false
opens_plus (c ∷ text) = c == b'+'

-- the end of `readLine`, by what the keyword opens
unfoldable pub read_keyword : Scanner → Header → ℕ → Parsed Scanner
unfolding section_kind hunk_kind open_section open_hunk_header
read_keyword scanner header line_number = elim (section_kind header.keyword) [
  | some kind ↦ open_section scanner header.payload kind line_number
  | none ↦ elim (hunk_kind header.keyword) [
    | some kind ↦ open_hunk_header scanner header.payload kind line_number
    | none ↦
        if opens_plus header.keyword
        then refused line_number plus_column
        else refused line_number (unknown_header header.keyword)
  ]
]

unfoldable pub read_line : Scanner → Text → ℕ → Parsed Scanner
unfolding read_content read_keyword read_header trim
read_line scanner [] line_number = parsed scanner
read_line scanner (c ∷ raw) line_number =
    if c == b'+'
    then read_content scanner raw line_number
    else if is_empty (trim (c ∷ raw))
    then parsed scanner
    else read_keyword scanner (read_header (trim (c ∷ raw))) line_number

-- the loop of `scan` from line `line_number` on
unfoldable pub scan_lines : Scanner → List Text → ℕ → Parsed Scanner
unfolding read_line
scan_lines scanner [] line_number = parsed scanner
scan_lines scanner (raw ∷ lines) line_number = do
  next ← read_line scanner raw line_number
  scan_lines next lines (suc line_number)

-- the lines, each with its line feed
unfoldable pub join_lines : List Text → Text
join_lines [] = []
join_lines (line ∷ lines) = line ++ newline ∷ join_lines lines

unfoldable pub content_of : SectionKind → List Text → Option Text
unfolding join_lines
content_of new content_lines = some (join_lines content_lines)
content_of file content_lines = none
content_of move content_lines = none
content_of remove content_lines = none

unfoldable pub materialize : SectionBuilder → Section
unfolding content_of
materialize builder = record {
  kind = builder.kind;
  line_number = builder.line_number;
  path = builder.path;
  destination = builder.destination;
  hunks = builder.hunks;
  content = content_of builder.kind builder.content_lines;
}

unfoldable pub scan : List Text → Parsed (List Section)
unfolding scan_lines close_section materialize
scan lines = do
  scanner ← scan_lines idle lines 1
  builders ← close_section scanner
  parsed (map materialize builders)

unfoldable pub parse_patch : Text → Parsed (List Section)
unfolding split_rows scan all trim
parse_patch text =
    let lines = split_rows text in
    if all (λ line. is_empty (trim line)) lines then parsed [] else scan lines
