-- ===== src/Edit/Batch/Free.antt =====
-- src/domain/edit/edit-engine.ts: a batch that passed `detectRangeConflicts`, in ascending order.
use dsh_hashline_edittool.Base.{
  ℕ, ◌+◌, ◌<◌, ◌≤◌, ◌≡◌, ◌≢◌, refl, ◌∙◌, Bool, true, false, ◌&&◌, List, [], ◌∷◌, map, arith, ltb,
  leb, ◌==◌, length, All, All-map, All-both, Pairwise, Bool-cases, inl, inr,
}
use mathlib.Core.List.{append-eq-nil_iff, cons-ne-nil}
use dsh_hashline_edittool.Base.Sort.{sort, insert, All-insert, All-sort}
use dsh_hashline_edittool.Edit.Conflicts.{
  RangeEdge, ranges_overlap, ins_conflicts_with_range, clash, conflicts_with,
  detect_range_conflicts,
}
use dsh_hashline_edittool.Edit.Batch.{Resolved, start_le}
use dsh_hashline_edittool.Edit.Batch.Layout.{first_taken, InOrder, Laid}

-- What the conflict detection is given of a hunk. The code gives it the hunks whose anchors stand in the
-- snapshot, and refuses the others when it applies them; here all hunks are given.
abbrev pub edge_of : Resolved → RangeEdge
edge_of hunk = record {
  index = hunk.index;
  start_line = hunk.start_line;
  end_line = hunk.end_line;
  is_ins = hunk.is_ins;
}

conflicts_with-All :
    (hunk : Resolved) (hunks : List Resolved)
    → conflicts_with (edge_of hunk) (map edge_of hunks) ≡ []
    → All (λ other. clash (edge_of hunk) (edge_of other) ≡ false) hunks
unfolding conflicts_with
conflicts_with-All hunk [] h = tt
conflicts_with-All hunk (other ∷ hunks) h =
    elim (Bool-cases (clash (edge_of hunk) (edge_of other))) [
      | inl p ↦ absurd (cons-ne-nil _ _ (rw (p, conflicts_with) at h))
      | inr p ↦ (p, conflicts_with-All hunk hunks (rw (p, conflicts_with) at h))
    ]

-- Two hunks that do not clash, and of which an insertion does not stand in front of a replacement that
-- starts on its line.
abbrev pub Compatible : Resolved → Resolved → Type 0
Compatible a b =
    (clash (edge_of a) (edge_of b) ≡ false)
    × (a.start_line ≡ b.start_line → a.is_ins ≡ true → b.is_ins ≡ true)

-- A hunk of a file with `limit` lines.
abbrev pub InFile : ℕ → Resolved → Type 0
InFile limit hunk =
    (1 ≤ hunk.start_line)
    × (hunk.start_line ≤ hunk.end_line)
    × (hunk.end_line ≤ limit)
    × (hunk.is_ins ≡ true → (hunk.start_line ≡ hunk.end_line) × (0 < length hunk.content_lines))

-- and the first starts no later
abbrev Before : Resolved → Resolved → Type 0
Before a b =
    (a.start_line ≤ b.start_line)
    × (clash (edge_of a) (edge_of b) ≡ false)
    × (a.start_line ≡ b.start_line → a.is_ins ≡ true → b.is_ins ≡ true)

clash-swap : (a b : RangeEdge) → clash a b ≡ clash b a
unfolding clash ranges_overlap ins_conflicts_with_range
clash-swap a b = ground arith

insert-Before :
    (hunk : Resolved) (hunks : List Resolved)
    → All (Compatible hunk) hunks
    → Pairwise Before hunks
    → Pairwise Before (insert start_le hunk hunks)
unfolding insert
insert-Before hunk [] h p = (tt, tt)
insert-Before hunk (other ∷ hunks) ((free, tie), h) (q, p) =
    elim (Bool-cases (start_le hunk other)) [
      | inl low ↦
          let low' : hunk.start_line ≤ other.start_line = ground arith in
          rw (low, insert)
            (
              (
                (low', free, tie),
                All-map
                    (λ b (both : Before other b × Compatible hunk b).
                      (omega (arith, low', both.0.0), both.1.0, both.1.1))
                    hunks (All-both (Before other) (Compatible hunk) hunks q h),
              ),
              (q, p),
            )
      | inr high ↦
          let high' : other.start_line < hunk.start_line = ground arith in
          rw (high, insert)
            (
              All-insert start_le (Before other) hunk hunks
                  (
                    omega arith,
                    clash-swap (edge_of other) (edge_of hunk) ∙ free,
                    λ e. absurd (omega arith),
                  )
                  q,
              insert-Before hunk hunks h p,
            )
    ]

sort-Before :
    (hunks : List Resolved) → Pairwise Compatible hunks → Pairwise Before (sort start_le hunks)
unfolding sort
sort-Before [] h = tt
sort-Before (hunk ∷ hunks) (c, h) =
    insert-Before hunk (sort start_le hunks) (All-sort start_le (Compatible hunk) hunks c)
      (sort-Before hunks h)

in_order :
    (limit from : ℕ) (hunk : Resolved) (is_ins : Bool)
    → hunk.is_ins ≡ is_ins
    → InFile limit hunk
    → from ≤ first_taken is_ins hunk.start_line
    → InOrder is_ins from hunk.start_line hunk.end_line hunk.content_lines
in_order limit from hunk false kind h low = (low, h.1)
in_order limit from hunk true kind h low = let both = h.3 kind in (low, both.0, both.1)

-- a later hunk takes lines behind those of an earlier one
next_taken :
    (limit : ℕ) (a b : Resolved)
    → InFile limit a
    → InFile limit b
    → Before a b
    → a.end_line + 1 ≤ first_taken b.is_ins b.start_line
unfolding clash ranges_overlap ins_conflicts_with_range
next_taken limit a b ha hb (low, free, tie) = elim (Bool-cases a.is_ins) [
  | inl ka ↦ elim (Bool-cases b.is_ins) [
    | inl kb ↦
        let apart : (a.start_line == b.start_line) ≡ false = rw (ka, kb) at free in
        let same = (ha.3 ka).0 in rw kb (ground arith)
    | inr kb ↦
        let outside : (leb b.start_line a.start_line && ltb a.start_line b.end_line) ≡ false =
          rw (ka, kb) at free in
        let same = (ha.3 ka).0 in
        let tied : a.start_line ≢ b.start_line = (λ e. cc (tie e ka, kb)) in rw kb (ground arith)
  ]
  | inr ka ↦ elim (Bool-cases b.is_ins) [
    | inl kb ↦
        let outside : (leb a.start_line b.start_line && ltb b.start_line a.end_line) ≡ false =
          rw (ka, kb) at free in
        rw kb (ground arith)
    | inr kb ↦
        let apart : (leb a.start_line b.end_line && leb b.start_line a.end_line) ≡ false =
          rw (ka, kb) at free in
        rw kb (ground arith)
  ]
]

Before-Laid :
    (limit from : ℕ) (hunks : List Resolved)
    → from ≤ limit + 1
    → All (InFile limit) hunks
    → Pairwise Before hunks
    → All (λ hunk. from ≤ first_taken hunk.is_ins hunk.start_line) hunks
    → Laid limit from hunks
Before-Laid limit from [] end h p low = end
Before-Laid limit from (hunk ∷ hunks) end (f, h) (b, p) (low, _) = (
  in_order limit from hunk hunk.is_ins refl f low,
  f.2,
  Before-Laid limit (hunk.end_line + 1) hunks (omega (arith, f.2)) h p (
      All-map
        (λ other (both : InFile limit other × Before hunk other).
          next_taken limit hunk other f both.0 both.1)
        hunks (All-both (InFile limit) (Before hunk) hunks h b)),
)

first_taken-pos : (is_ins : Bool) (start : ℕ) → 1 ≤ start → 1 ≤ first_taken is_ins start
first_taken-pos false start h = h
first_taken-pos true start h = omega arith

free-Compatible :
    (hunks : List Resolved)
    → detect_range_conflicts (map edge_of hunks) ≡ []
    → Pairwise (λ a b. a.start_line ≡ b.start_line → a.is_ins ≡ true → b.is_ins ≡ true) hunks
    → Pairwise Compatible hunks
unfolding detect_range_conflicts
free-Compatible [] h t = tt
free-Compatible (hunk ∷ hunks) h (tie, t) =
    let (here, later) = append-eq-nil_iff.0 h in
    (
      All-both (λ b. clash (edge_of hunk) (edge_of b) ≡ false)
          (λ b. hunk.start_line ≡ b.start_line → hunk.is_ins ≡ true → b.is_ins ≡ true) hunks
          (conflicts_with-All hunk hunks here) tie,
      free-Compatible hunks later t,
    )

-- A batch that passes the conflict detection has a layout. For hunks that lie in a file of `limit`
-- lines, of which an insertion names one line and brings at least that line, none of them an insertion that is listed in front of a
-- replacement with the same first line: if `detectRangeConflicts` finds nothing, the hunks in ascending order take disjoint parts
-- of the file, each behind the one before.
pub detect_range_conflicts-Laid :
    (limit : ℕ) (hunks : List Resolved)
    → All (InFile limit) hunks
    → Pairwise (λ a b. a.start_line ≡ b.start_line → a.is_ins ≡ true → b.is_ins ≡ true) hunks
    → detect_range_conflicts (map edge_of hunks) ≡ []
    → Laid limit 1 (sort start_le hunks)
detect_range_conflicts-Laid limit hunks h t free =
    let inside = All-sort start_le (InFile limit) hunks h in
    Before-Laid limit 1 (sort start_le hunks) (omega arith) inside
      (sort-Before hunks (free-Compatible hunks free t))
      (All-map (λ hunk (f : InFile limit hunk). first_taken-pos hunk.is_ins hunk.start_line f.0)
        (sort start_le hunks) inside)
