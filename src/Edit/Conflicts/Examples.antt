-- ===== src/Edit/Conflicts/Examples.antt =====
-- src/domain/edit/range-conflicts.ts on a batch of three edits.
use dsh_hashline_edittool.Base.{
  ℕ, ◌≡◌, refl, ◌↔◌, Bool, true, false, List, [], ◌∷◌, arith, All, Pairwise,
}
use dsh_hashline_edittool.Edit.Conflicts.{RangeEdge, detect_range_conflicts}
use dsh_hashline_edittool.Edit.Conflicts.Exact.{
  IsRange, Interferes, detect_range_conflicts-All, detect_range_conflicts-nil,
}

abbrev edge : ℕ → ℕ → ℕ → Bool → RangeEdge
edge index start_line end_line is_ins = record {
  index = index;
  start_line = start_line;
  end_line = end_line;
  is_ins = is_ins;
}

-- a range, an insertion behind its first line and a range behind it
abbrev batch : List RangeEdge
batch = edge 0 2 4 false ∷ edge 1 2 2 true ∷ edge 2 5 6 false ∷ []

one_conflict : detect_range_conflicts batch ≡ (edge 0 2 4 false, edge 1 2 2 true) ∷ []
unfolding detect_range_conflicts
one_conflict = refl

-- An insertion behind the last line of a range does not conflict with it.
behind_the_end : detect_range_conflicts (edge 0 2 4 false ∷ edge 1 4 4 true ∷ []) ≡ []
unfolding detect_range_conflicts
behind_the_end = refl

batch-IsRange : All IsRange batch
batch-IsRange = (omega arith, (omega arith, (omega arith, tt)))

detect_range_conflicts-All_example : All (λ p. Interferes p.0 p.1) (detect_range_conflicts batch)
detect_range_conflicts-All_example = detect_range_conflicts-All batch batch-IsRange

detect_range_conflicts-nil_example :
    (detect_range_conflicts batch ≡ []) ↔ Pairwise (λ a b. ¬ (Interferes a b)) batch
detect_range_conflicts-nil_example = detect_range_conflicts-nil batch batch-IsRange
