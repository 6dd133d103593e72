-- ===== src/Edit/Conflicts.antt =====
-- src/domain/edit/range-conflicts.ts: which edits of a batch interfere.
pub mod Exact
mod Examples
use dsh_hashline_edittool.Base.{
  ℕ, Bool, true, false, ◌&&◌, ◌≡◌, refl, List, [], ◌∷◌, ◌++◌, ltb, leb, ◌==◌, if◌then◌else◌,
}

pub record RangeEdge : Type 0 where
  pub index : ℕ
  pub start_line : ℕ
  pub end_line : ℕ
  pub is_ins : Bool

unfoldable pub ranges_overlap : RangeEdge → RangeEdge → Bool
ranges_overlap a b = leb a.start_line b.end_line && leb b.start_line a.end_line

unfoldable pub ins_conflicts_with_range : RangeEdge → RangeEdge → Bool
ins_conflicts_with_range ins range =
    leb range.start_line ins.start_line && ltb ins.start_line range.end_line

-- the body of the inner loop, up to `clash`
unfoldable pub clash : RangeEdge → RangeEdge → Bool
unfolding ranges_overlap ins_conflicts_with_range
clash a b =
    if a.is_ins && b.is_ins
    then a.start_line == b.start_line
    else if a.is_ins
    then ins_conflicts_with_range a b
    else if b.is_ins
    then ins_conflicts_with_range b a
    else ranges_overlap a b

-- the inner loop: the pairs of `a` with the edges behind it
unfoldable pub conflicts_with : RangeEdge → List RangeEdge → List (RangeEdge × RangeEdge)
unfolding clash
conflicts_with a [] = []
conflicts_with a (b ∷ edges) =
    if clash a b then (a, b) ∷ conflicts_with a edges else conflicts_with a edges

unfoldable pub detect_range_conflicts : List RangeEdge → List (RangeEdge × RangeEdge)
unfolding conflicts_with
detect_range_conflicts [] = []
detect_range_conflicts (a ∷ edges) = conflicts_with a edges ++ detect_range_conflicts edges
