-- ===== src/Patch/Sections.antt =====
-- src/domain/patch/parse.ts: the state of the scanner line by line, and the sections of `parsePatch`.
use dsh_hashline_edittool.Base.{
  ℕ, suc, ◌≡◌, refl, sym, subst, List, [], ◌∷◌, Option, map, Text, ◌==◌, all, All, Bool-cases,
  Option-cases, inl, inr, arith,
}
use dsh_hashline_edittool.Base.Space.{trim}
use dsh_hashline_edittool.Patch.Types.{
  SectionKind, file, new, move, remove, HunkKind, Hunk, Section, parsed,
}
use dsh_hashline_edittool.Patch.Reading.{
  is_empty, split_rows, Header, read_header, section_kind, hunk_kind,
}
use dsh_hashline_edittool.Patch.Scan.{
  SectionBuilder, Scanner, idle, within, content_in, read_content, open_section, start_hunk,
  hunk_in, open_hunk_header,
}
use dsh_hashline_edittool.Patch.Parse.{
  opens_plus, read_keyword, read_line, scan_lines, content_of, materialize, scan, parse_patch,
}
use dsh_hashline_edittool.Patch.Readers.{
  Yields, refuses, yields, Yields-bind, Yields-parsed, read_hunk_header-IsEnd,
  read_section_header-IsDestination,
}
use dsh_hashline_edittool.Patch.Formed.{
  Carries, AreHunks, IsContent, IsSection, IsBuilder, IsScanner, AreSoFar-nil, close_hunk-IsBuilder,
  close_section-All, add_line-IsOpen,
}

content_in-IsScanner :
    (kind : SectionKind) (builders : List SectionBuilder) (builder : SectionBuilder)
    (open_hunk : Option Hunk) (text : Text) (line_number : ℕ)
    → builder.kind ≡ kind
    → IsScanner (within builders builder open_hunk)
    → Yields IsScanner (content_in kind builders builder open_hunk text line_number)
unfolding content_in
content_in-IsScanner new builders builder open_hunk text line_number e (bs, (b, o)) =
    yields (bs, (record { path = b.path; destination = b.destination; hunks = b.hunks }, o))
content_in-IsScanner remove builders builder open_hunk text line_number e s = refuses
content_in-IsScanner file builders builder open_hunk text line_number e (bs, (b, o)) =
    Yields-bind (add_line-IsOpen builder.kind open_hunk text line_number o)
      λ hunk p. yields (bs, (b, (subst Carries (sym e) tt, p)))
content_in-IsScanner move builders builder open_hunk text line_number e (bs, (b, o)) =
    Yields-bind (add_line-IsOpen builder.kind open_hunk text line_number o)
      λ hunk p. yields (bs, (b, (subst Carries (sym e) tt, p)))

read_content-IsScanner :
    (scanner : Scanner) (text : Text) (line_number : ℕ)
    → IsScanner scanner
    → Yields IsScanner (read_content scanner text line_number)
unfolding read_content
read_content-IsScanner idle text line_number s = refuses
read_content-IsScanner (within builders builder open_hunk) text line_number s =
    content_in-IsScanner builder.kind builders builder open_hunk text line_number refl s

AreHunks-nil : (kind : SectionKind) → AreHunks kind []
AreHunks-nil file = tt
AreHunks-nil move = tt
AreHunks-nil new = refl
AreHunks-nil remove = refl

open_section-IsScanner :
    (scanner : Scanner) (payload : Text) (kind : SectionKind) (line_number : ℕ)
    → IsScanner scanner
    → Yields IsScanner (open_section scanner payload kind line_number)
unfolding open_section
open_section-IsScanner scanner payload kind line_number s =
    Yields-bind (close_section-All scanner s) λ builders bs.
      Yields-bind (read_section_header-IsDestination payload kind line_number) λ r p.
        yields (bs, (record { path = p.0; destination = p.1; hunks = AreHunks-nil kind }, tt))

start_hunk-IsScanner :
    (builders : List SectionBuilder) (builder : SectionBuilder) (open_hunk : Option Hunk)
    (payload : Text) (kind : HunkKind) (line_number : ℕ)
    → Carries builder.kind
    → IsScanner (within builders builder open_hunk)
    → Yields IsScanner (start_hunk builders builder open_hunk payload kind line_number)
unfolding start_hunk
start_hunk-IsScanner builders builder open_hunk payload kind line_number c (bs, (b, o)) =
    Yields-bind (close_hunk-IsBuilder builder open_hunk b o) λ closed p.
      Yields-bind (read_hunk_header-IsEnd payload kind line_number) λ r q. yields (
        bs,
        (
          p.0,
          (
            subst Carries (sym p.1) c,
            record { starts = q.0; ends = q.1; filled = AreSoFar-nil kind },
          ),
        ),
      )

hunk_in-IsScanner :
    (section : SectionKind) (builders : List SectionBuilder) (builder : SectionBuilder)
    (open_hunk : Option Hunk) (payload : Text) (kind : HunkKind) (line_number : ℕ)
    → builder.kind ≡ section
    → IsScanner (within builders builder open_hunk)
    → Yields IsScanner (hunk_in section builders builder open_hunk payload kind line_number)
unfolding hunk_in
hunk_in-IsScanner new builders builder open_hunk payload kind line_number e s = refuses
hunk_in-IsScanner remove builders builder open_hunk payload kind line_number e s = refuses
hunk_in-IsScanner file builders builder open_hunk payload kind line_number e s =
    start_hunk-IsScanner builders builder open_hunk payload kind line_number
      (subst Carries (sym e) tt) s
hunk_in-IsScanner move builders builder open_hunk payload kind line_number e s =
    start_hunk-IsScanner builders builder open_hunk payload kind line_number
      (subst Carries (sym e) tt) s

open_hunk_header-IsScanner :
    (scanner : Scanner) (payload : Text) (kind : HunkKind) (line_number : ℕ)
    → IsScanner scanner
    → Yields IsScanner (open_hunk_header scanner payload kind line_number)
unfolding open_hunk_header
open_hunk_header-IsScanner idle payload kind line_number s = refuses
open_hunk_header-IsScanner (within builders builder open_hunk) payload kind line_number s =
    hunk_in-IsScanner builder.kind builders builder open_hunk payload kind line_number refl s

read_keyword-IsScanner :
    (scanner : Scanner) (header : Header) (line_number : ℕ)
    → IsScanner scanner
    → Yields IsScanner (read_keyword scanner header line_number)
unfolding read_keyword
read_keyword-IsScanner scanner header line_number s =
    elim (Option-cases (section_kind header.keyword)) [
      | inr (kind, k) ↦
          rw (k, read_keyword) (open_section-IsScanner scanner header.payload kind line_number s)
      | inl k ↦ elim (Option-cases (hunk_kind header.keyword)) [
        | inr (kind, l) ↦
            rw (k, l, read_keyword)
              (open_hunk_header-IsScanner scanner header.payload kind line_number s)
        | inl l ↦ elim (Bool-cases (opens_plus header.keyword)) [
          | inl p ↦ rw (k, l, p, read_keyword) refuses
          | inr p ↦ rw (k, l, p, read_keyword) refuses
        ]
      ]
    ]

read_line-IsScanner :
    (scanner : Scanner) (raw : Text) (line_number : ℕ)
    → IsScanner scanner
    → Yields IsScanner (read_line scanner raw line_number)
unfolding read_line
read_line-IsScanner scanner [] line_number s = yields s
read_line-IsScanner scanner (c ∷ raw) line_number s = elim (Bool-cases (c == b'+')) [
  | inl p ↦ rw (p, read_line) (read_content-IsScanner scanner raw line_number s)
  | inr p ↦ elim (Bool-cases (is_empty (trim (c ∷ raw)))) [
    | inl e ↦ rw (p, e, read_line) (yields s)
    | inr e ↦
        rw (p, e, read_line)
          (read_keyword-IsScanner scanner (read_header (trim (c ∷ raw))) line_number s)
  ]
]

scan_lines-IsScanner :
    (scanner : Scanner) (lines : List Text) (line_number : ℕ)
    → IsScanner scanner
    → Yields IsScanner (scan_lines scanner lines line_number)
unfolding scan_lines
scan_lines-IsScanner scanner [] line_number s = yields s
scan_lines-IsScanner scanner (raw ∷ lines) line_number s =
    Yields-bind (read_line-IsScanner scanner raw line_number s)
      λ next t. scan_lines-IsScanner next lines (suc line_number) t

content_of-IsContent :
    (kind : SectionKind) (lines : List Text) → IsContent kind (content_of kind lines)
unfolding content_of
content_of-IsContent new lines = λ e. ground arith
content_of-IsContent file lines = refl
content_of-IsContent move lines = refl
content_of-IsContent remove lines = refl

materialize-All :
    (builders : List SectionBuilder)
    → All IsBuilder builders
    → All IsSection (map materialize builders)
unfolding materialize
materialize-All [] bs = tt
materialize-All (builder ∷ builders) (b, bs) = (
  record {
    path = b.path;
    destination = b.destination;
    hunks = b.hunks;
    content = content_of-IsContent builder.kind builder.content_lines;
  },
  materialize-All builders bs,
)

scan-All : (lines : List Text) → Yields (All IsSection) (scan lines)
unfolding scan
scan-All lines = Yields-bind (scan_lines-IsScanner idle lines 1 tt) λ scanner s.
    Yields-bind (close_section-All scanner s) λ builders bs. yields (materialize-All builders bs)

no_sections : Yields (All IsSection) (parsed [])
no_sections = yields tt

-- Every section of a patch that parses is well-formed: it has a path, and a destination exactly when
-- it is a `move`; a `new` has a content and no other section has one; a `new` and a `remove` have no
-- hunks; each hunk names anchors, an `insert` no range, a `delete` has no content line, and a
-- `replace` or an `insert` at least one.
pub parse_patch-IsSection :
    (text : Text) {sections : List Section}
    → parse_patch text ≡ parsed sections
    → All IsSection sections
unfolding parse_patch
parse_patch-IsSection text e =
    elim (Bool-cases (all (λ line. is_empty (trim line)) (split_rows text))) [
      | inl blank ↦ Yields-parsed no_sections (rw blank at e)
      | inr some_text ↦ Yields-parsed (scan-All (split_rows text)) (rw some_text at e)
    ]
