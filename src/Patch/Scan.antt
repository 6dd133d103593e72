-- ===== src/Patch/Scan.antt =====
-- src/domain/patch/parse.ts: the scanner. The section under construction is the last of `builders`
-- and the open hunk the last of its `hunks`; here each stands apart from the finished ones.
use dsh_hashline_edittool.Base.{
  ℕ, Bool, true, false, List, [], ◌∷◌, ◌++◌, Option, none, some, if◌then◌else◌, Text,
}
use dsh_hashline_edittool.Patch.Types.{
  SectionKind, file, new, move, remove, HunkKind, replace, insert, delete, Hunk, Parsed, parsed,
  refused, ◌>>=◌, content_before_section, content_in_remove, content_before_hunk, content_in_delete,
  hunk_before_section, hunk_in_new, hunk_in_remove, no_content,
}
use dsh_hashline_edittool.Patch.Reading.{is_empty, read_hunk_header, read_section_header}

pub record SectionBuilder : Type 0 where
  pub kind : SectionKind
  pub line_number : ℕ
  pub path : Text
  pub destination : Option Text
  pub hunks : List Hunk
  pub content_lines : List Text

-- `builder` is null, or the finished sections, the present one and its open hunk
pub data Scanner : Type 0 where
  idle : Scanner
  within : List SectionBuilder → SectionBuilder → Option Hunk → Scanner

abbrev pub is_delete : HunkKind → Bool
is_delete delete = true
is_delete replace = false
is_delete insert = false

-- `closeHunk`, which gives the section with the hunk behind its others
unfoldable pub close_hunk : SectionBuilder → Option Hunk → Parsed SectionBuilder
close_hunk builder none = parsed builder
close_hunk builder (some hunk) =
    let closed = record builder { hunks = builder.hunks ++ hunk ∷ [] } in
    if is_delete hunk.kind
    then parsed closed
    else if is_empty hunk.lines
    then refused hunk.line_number (no_content hunk.kind)
    else parsed closed

-- the sections that stand when the open hunk is closed
unfoldable pub close_section : Scanner → Parsed (List SectionBuilder)
unfolding close_hunk
close_section idle = parsed []
close_section (within builders builder open_hunk) = do
  closed ← close_hunk builder open_hunk
  parsed (builders ++ closed ∷ [])

-- a content line for the open hunk
unfoldable pub add_line : Option Hunk → Text → ℕ → Parsed Hunk
add_line none text line_number = refused line_number content_before_hunk
add_line (some hunk) text line_number =
    if is_delete hunk.kind
    then refused line_number content_in_delete
    else parsed (record hunk { lines = hunk.lines ++ text ∷ [] })

-- `readContent` in a section, by the section's kind
unfoldable pub content_in :
    SectionKind → List SectionBuilder → SectionBuilder → Option Hunk → Text → ℕ → Parsed Scanner
unfolding add_line
content_in new builders builder open_hunk text line_number = parsed (
    within builders (record builder { content_lines = builder.content_lines ++ text ∷ [] })
      open_hunk)
content_in remove builders builder open_hunk text line_number =
    refused line_number content_in_remove
content_in file builders builder open_hunk text line_number = do
  hunk ← add_line open_hunk text line_number
  parsed (within builders builder (some hunk))
content_in move builders builder open_hunk text line_number = do
  hunk ← add_line open_hunk text line_number
  parsed (within builders builder (some hunk))

unfoldable pub read_content : Scanner → Text → ℕ → Parsed Scanner
unfolding content_in
read_content idle text line_number = refused line_number content_before_section
read_content (within builders builder open_hunk) text line_number =
    content_in builder.kind builders builder open_hunk text line_number

unfoldable pub open_section : Scanner → Text → SectionKind → ℕ → Parsed Scanner
unfolding close_section read_section_header
open_section scanner payload kind line_number = do
  builders ← close_section scanner
  (path, destination) ← read_section_header payload kind line_number
  parsed (
      within builders
        (record {
          kind = kind;
          line_number = line_number;
          path = path;
          destination = destination;
          hunks = [];
          content_lines = [];
        })
        none)

-- `openHunkHeader` in a section that carries hunks
unfoldable pub start_hunk :
    List SectionBuilder → SectionBuilder → Option Hunk → Text → HunkKind → ℕ → Parsed Scanner
unfolding close_hunk read_hunk_header
start_hunk builders builder open_hunk payload kind line_number = do
  closed ← close_hunk builder open_hunk
  (anchor_start, anchor_end) ← read_hunk_header payload kind line_number
  parsed (
      within builders closed (
        some (record {
          line_number = line_number;
          kind = kind;
          anchor_start = anchor_start;
          anchor_end = anchor_end;
          lines = [];
        })))

unfoldable pub hunk_in :
    SectionKind
    → List SectionBuilder
    → SectionBuilder
    → Option Hunk
    → Text
    → HunkKind
    → ℕ
    → Parsed Scanner
unfolding start_hunk
hunk_in new builders builder open_hunk payload kind line_number = refused line_number hunk_in_new
hunk_in remove builders builder open_hunk payload kind line_number =
    refused line_number hunk_in_remove
hunk_in file builders builder open_hunk payload kind line_number =
    start_hunk builders builder open_hunk payload kind line_number
hunk_in move builders builder open_hunk payload kind line_number =
    start_hunk builders builder open_hunk payload kind line_number

unfoldable pub open_hunk_header : Scanner → Text → HunkKind → ℕ → Parsed Scanner
unfolding hunk_in
open_hunk_header idle payload kind line_number = refused line_number hunk_before_section
open_hunk_header (within builders builder open_hunk) payload kind line_number =
    hunk_in builder.kind builders builder open_hunk payload kind line_number
