-- ===== src/Patch/Formed.antt =====
-- src/domain/patch/parse.ts: what a well-formed section is, and the steps of the scanner on one.
use dsh_hashline_edittool.Base.{
  ℕ, ◌≡◌, ◌≢◌, refl, true, false, List, [], ◌∷◌, ◌++◌, Option, none, some, Text, All, All-append,
  Bool-cases, inl, inr, arith,
}
use dsh_hashline_edittool.Patch.Types.{
  SectionKind, file, new, move, remove, HunkKind, replace, insert, delete, Hunk, Section,
}
use dsh_hashline_edittool.Patch.Reading.{is_empty, is_anchor}
use dsh_hashline_edittool.Patch.Scan.{
  SectionBuilder, Scanner, idle, within, is_delete, close_hunk, close_section, add_line,
}
use dsh_hashline_edittool.Patch.Readers.{
  Yields, refuses, yields, Yields-bind, is_empty-ne-nil, IsEnd, IsDestination,
}

-- A deletion has no content line, the other hunks have some.
abbrev pub AreLines : HunkKind → List Text → Type 0
AreLines delete lines = lines ≡ []
AreLines replace lines = lines ≢ []
AreLines insert lines = lines ≢ []

-- The same of a hunk that is still open.
abbrev pub AreSoFar : HunkKind → List Text → Type 0
AreSoFar delete lines = lines ≡ []
AreSoFar replace lines = Unit
AreSoFar insert lines = Unit

pub record IsOpen (hunk : Hunk) : Type 0 where
  pub starts : is_anchor hunk.anchor_start ≡ true
  pub ends : IsEnd hunk.kind hunk.anchor_end
  pub filled : AreSoFar hunk.kind hunk.lines

-- A hunk names anchors, an insertion no range, and has the content that its kind asks for.
pub record IsHunk (hunk : Hunk) : Type 0 where
  pub starts : is_anchor hunk.anchor_start ≡ true
  pub ends : IsEnd hunk.kind hunk.anchor_end
  pub filled : AreLines hunk.kind hunk.lines

abbrev pub Carries : SectionKind → Type 0
Carries file = Unit
Carries move = Unit
Carries new = ⊥
Carries remove = ⊥

-- Only a `file` or a `move` has hunks.
abbrev pub AreHunks : SectionKind → List Hunk → Type 0
AreHunks file hunks = All IsHunk hunks
AreHunks move hunks = All IsHunk hunks
AreHunks new hunks = hunks ≡ []
AreHunks remove hunks = hunks ≡ []

-- Only a `new` has a text of its own.
abbrev pub IsContent : SectionKind → Option Text → Type 0
IsContent new content = content ≢ none
IsContent file content = content ≡ none
IsContent move content = content ≡ none
IsContent remove content = content ≡ none

pub record IsSection (section : Section) : Type 0 where
  pub path : section.path ≢ []
  pub destination : IsDestination section.kind section.destination
  pub hunks : AreHunks section.kind section.hunks
  pub content : IsContent section.kind section.content

pub record IsBuilder (builder : SectionBuilder) : Type 0 where
  pub path : builder.path ≢ []
  pub destination : IsDestination builder.kind builder.destination
  pub hunks : AreHunks builder.kind builder.hunks

abbrev pub IsOpenIn : SectionKind → Option Hunk → Type 0
IsOpenIn kind none = Unit
IsOpenIn kind (some hunk) = Carries kind × IsOpen hunk

abbrev pub IsScanner : Scanner → Type 0
IsScanner idle = Unit
IsScanner (within builders builder open_hunk) =
    All IsBuilder builders × (IsBuilder builder × IsOpenIn builder.kind open_hunk)

AreHunks-append :
    (kind : SectionKind) (hunks : List Hunk) (hunk : Hunk)
    → Carries kind
    → AreHunks kind hunks
    → IsHunk hunk
    → AreHunks kind (hunks ++ hunk ∷ [])
AreHunks-append file hunks hunk c h k = All-append IsHunk hunks (hunk ∷ []) h (k, tt)
AreHunks-append move hunks hunk c h k = All-append IsHunk hunks (hunk ∷ []) h (k, tt)
AreHunks-append new hunks hunk c h k = absurd c
AreHunks-append remove hunks hunk c h k = absurd c

AreLines-delete :
    (kind : HunkKind) (lines : List Text)
    → is_delete kind ≡ true
    → AreSoFar kind lines
    → AreLines kind lines
AreLines-delete delete lines d h = h
AreLines-delete replace lines d h = absurd (ground arith)
AreLines-delete insert lines d h = absurd (ground arith)

AreLines-some :
    (kind : HunkKind) (lines : List Text)
    → is_delete kind ≡ false
    → lines ≢ []
    → AreLines kind lines
AreLines-some delete lines d h = absurd (ground arith)
AreLines-some replace lines d h = h
AreLines-some insert lines d h = h

AreSoFar-other :
    (kind : HunkKind) (lines : List Text) → is_delete kind ≡ false → AreSoFar kind lines
AreSoFar-other delete lines d = absurd (ground arith)
AreSoFar-other replace lines d = tt
AreSoFar-other insert lines d = tt

pub AreSoFar-nil : (kind : HunkKind) → AreSoFar kind []
AreSoFar-nil delete = refl
AreSoFar-nil replace = tt
AreSoFar-nil insert = tt

-- The section with one more hunk.
closed-IsBuilder :
    (builder : SectionBuilder) (hunk : Hunk)
    → IsBuilder builder
    → Carries builder.kind
    → IsHunk hunk
    → IsBuilder (record builder { hunks = builder.hunks ++ hunk ∷ [] })
closed-IsBuilder builder hunk b c h = record {
  path = b.path;
  destination = b.destination;
  hunks = AreHunks-append builder.kind builder.hunks hunk c b.hunks h;
}

pub close_hunk-IsBuilder :
    (builder : SectionBuilder) (open_hunk : Option Hunk)
    → IsBuilder builder
    → IsOpenIn builder.kind open_hunk
    → Yields (λ r. IsBuilder r × (r.kind ≡ builder.kind)) (close_hunk builder open_hunk)
unfolding close_hunk
close_hunk-IsBuilder builder none b o = yields (b, refl)
close_hunk-IsBuilder builder (some hunk) b (c, o) = elim (Bool-cases (is_delete hunk.kind)) [
  | inl d ↦
      rw (d, close_hunk)
        (yields (
          closed-IsBuilder builder hunk b c (record {
            starts = o.starts;
            ends = o.ends;
            filled = AreLines-delete hunk.kind hunk.lines d o.filled;
          }),
          refl,
        ))
  | inr d ↦ elim (Bool-cases (is_empty hunk.lines)) [
    | inl e ↦ rw (d, e, close_hunk) refuses
    | inr e ↦
        rw (d, e, close_hunk)
          (yields (
            closed-IsBuilder builder hunk b c (record {
              starts = o.starts;
              ends = o.ends;
              filled = AreLines-some hunk.kind hunk.lines d (is_empty-ne-nil hunk.lines e);
            }),
            refl,
          ))
  ]
]

pub close_section-All :
    (scanner : Scanner) → IsScanner scanner → Yields (All IsBuilder) (close_section scanner)
unfolding close_section
close_section-All idle s = yields tt
close_section-All (within builders builder open_hunk) (bs, (b, o)) =
    Yields-bind (close_hunk-IsBuilder builder open_hunk b o)
      λ r p. yields (All-append IsBuilder builders (r ∷ []) bs (p.0, tt))

pub add_line-IsOpen :
    (kind : SectionKind) (open_hunk : Option Hunk) (text : Text) (line_number : ℕ)
    → IsOpenIn kind open_hunk
    → Yields IsOpen (add_line open_hunk text line_number)
unfolding add_line
add_line-IsOpen kind none text line_number o = refuses
add_line-IsOpen kind (some hunk) text line_number (c, o) = elim (Bool-cases (is_delete hunk.kind)) [
  | inl d ↦ rw (d, add_line) refuses
  | inr d ↦
      rw (d, add_line)
        (yields
          (record { starts = o.starts; ends = o.ends; filled = AreSoFar-other hunk.kind _ d }))
]
