-- ===== src/Edit/Conflicts/Exact.antt =====
-- src/domain/edit/range-conflicts.ts: `detectRangeConflicts` against the lines that edits rewrite.
use dsh_hashline_edittool.Base.{
  ℕ, suc, ◌≤◌, Bool, true, false, ◌≡◌, refl, ◌↔◌, inl, inr, List, [], ◌∷◌, arith, All, Pairwise,
  Bool-cases, All-append, max, ◌&&◌, if◌then◌else◌, ◌==◌, ==_iff, ◌∙◌,
}
use mathlib.Core.List.{append-eq-nil_iff}
use mathlib.Core.Bool.{false≢true}
use mathlib.Core.Path.{sym}
use dsh_hashline_edittool.Edit.Conflicts.{
  RangeEdge, ranges_overlap, ins_conflicts_with_range, clash, conflicts_with,
  detect_range_conflicts,
}

-- A range is not empty.
abbrev pub IsRange : RangeEdge → Type 0
IsRange e = e.start_line ≤ e.end_line

-- The edit rewrites line `l`.
abbrev pub Rewrites : RangeEdge → ℕ → Type 0
Rewrites e l = (e.start_line ≤ l) × (l ≤ e.end_line)

-- Two edits interfere: two insertions into the gap behind one line, an insertion into a gap with a
-- rewritten line on both sides, or two ranges with a line in common.
abbrev InterferesBy : Bool → Bool → RangeEdge → RangeEdge → Type 0
InterferesBy true true a b = a.start_line ≡ b.start_line
InterferesBy true false a b = Rewrites b a.start_line × Rewrites b (suc a.start_line)
InterferesBy false true a b = Rewrites a b.start_line × Rewrites a (suc b.start_line)
InterferesBy false false a b = (l : ℕ) × Rewrites a l × Rewrites b l

abbrev pub Interferes : RangeEdge → RangeEdge → Type 0
Interferes a b = InterferesBy a.is_ins b.is_ins a b

overlap_line :
    (a b : RangeEdge)
    → IsRange a
    → IsRange b
    → ranges_overlap a b ≡ true
    → (l : ℕ) × Rewrites a l × Rewrites b l
unfolding ranges_overlap
overlap_line a b ra rb h = (max a.start_line b.start_line, ground arith, ground arith)

shared_line :
    (a b : RangeEdge) → ((l : ℕ) × Rewrites a l × Rewrites b l) → ranges_overlap a b ≡ true
unfolding ranges_overlap
shared_line a b (l, ha, hb) = ground arith

-- `clash` with the kinds of its two edges taken out
clash_kinds :
    (x y : Bool) (a b : RangeEdge)
    → IsRange a
    → IsRange b
    → ((if x && y
          then a.start_line == b.start_line
          else if x
          then ins_conflicts_with_range a b
          else if y
          then ins_conflicts_with_range b a
          else ranges_overlap a b)
        ≡ true)
      ↔ InterferesBy x y a b
unfolding ins_conflicts_with_range
clash_kinds true true a b ra rb = ==_iff a.start_line b.start_line
clash_kinds true false a b ra rb = (λ h. ground arith, λ h. ground arith)
clash_kinds false true a b ra rb = (λ h. ground arith, λ h. ground arith)
clash_kinds false false a b ra rb = (overlap_line a b ra rb, shared_line a b)

clash-Interferes : (a b : RangeEdge) → IsRange a → IsRange b → (clash a b ≡ true) ↔ Interferes a b
unfolding clash
clash-Interferes a b ra rb = clash_kinds a.is_ins b.is_ins a b ra rb

-- The reported pair is one that the inner loop saw.
conflicts_with-All :
    (a : RangeEdge) (edges : List RangeEdge)
    → IsRange a
    → All IsRange edges
    → All (λ p. Interferes p.0 p.1) (conflicts_with a edges)
unfolding conflicts_with
conflicts_with-All a [] ra r = tt
conflicts_with-All a (b ∷ edges) ra (rb, r) = elim (Bool-cases (clash a b)) [
  | inl h ↦
      rw (h, conflicts_with) ((clash-Interferes a b ra rb).0 h, conflicts_with-All a edges ra r)
  | inr h ↦ rw (h, conflicts_with) (conflicts_with-All a edges ra r)
]

conflicts_with-nil :
    (a : RangeEdge) (edges : List RangeEdge)
    → IsRange a
    → All IsRange edges
    → (conflicts_with a edges ≡ []) ↔ All (λ b. ¬ (Interferes a b)) edges
unfolding conflicts_with
conflicts_with-nil a [] ra r = (λ h. tt, λ h. refl)
conflicts_with-nil a (b ∷ edges) ra (rb, r) = elim (Bool-cases (clash a b)) [
  | inl h ↦ rw (h, conflicts_with) (λ e. cc, λ k. absurd (k.0 ((clash-Interferes a b ra rb).0 h)))
  | inr h ↦
      rw (h, conflicts_with)
        (
          λ e. (
            λ i. false≢true (sym h ∙ (clash-Interferes a b ra rb).1 i),
            (conflicts_with-nil a edges ra r).0 e,
          ),
          λ k. (conflicts_with-nil a edges ra r).1 k.1,
        )
]

-- Every pair that the detection reports interferes, when no edge of the batch starts behind its end.
pub detect_range_conflicts-All :
    (edges : List RangeEdge)
    → All IsRange edges
    → All (λ p. Interferes p.0 p.1) (detect_range_conflicts edges)
unfolding detect_range_conflicts
detect_range_conflicts-All [] r = tt
detect_range_conflicts-All (a ∷ edges) (ra, r) =
    All-append (λ p. Interferes p.0 p.1) (conflicts_with a edges) (detect_range_conflicts edges)
      (conflicts_with-All a edges ra r) (detect_range_conflicts-All edges r)

-- When no edge of a batch starts behind its end, the detection reports nothing exactly when no two
-- edges of the batch interfere.
pub detect_range_conflicts-nil :
    (edges : List RangeEdge)
    → All IsRange edges
    → (detect_range_conflicts edges ≡ []) ↔ Pairwise (λ a b. ¬ (Interferes a b)) edges
unfolding detect_range_conflicts
detect_range_conflicts-nil [] r = (λ h. tt, λ h. refl)
detect_range_conflicts-nil (a ∷ edges) (ra, r) =
    let here = conflicts_with-nil a edges ra r in
    let rest = detect_range_conflicts-nil edges r in
    (
      λ e. let (p, q) = append-eq-nil_iff.0 e in (here.0 p, rest.0 q),
      λ k. append-eq-nil_iff.1 (here.1 k.0, rest.1 k.1),
    )
