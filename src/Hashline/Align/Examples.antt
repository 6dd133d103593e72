-- ===== src/Hashline/Align/Examples.antt =====
-- src/hashline/align-bounded.ts on a small change: the theorems of the alignment at concrete inputs.
use dsh_hashline_edittool.Base.{
  ◌≤◌, ◌+◌, ◌≡◌, refl, false, List, [], ◌∷◌, Text, codes, All, nat_eq, text_eq, length, get_elem?,
}
use dsh_hashline_edittool.Hashline.Align.Lcs.{same_at, lcs_backtrace}
use dsh_hashline_edittool.Hashline.Align.Lcs.Common.{Matching, start, skip_old, skip_new, pair}
use dsh_hashline_edittool.Hashline.Align.Lcs.Table.{same}
use dsh_hashline_edittool.Hashline.Align.Lcs.Trace.{
  Below, Descending, lcs_backtrace-Descending, lcs_backtrace-longest,
}
use dsh_hashline_edittool.Hashline.Align.Bounded.{align_preserved_bounded, five_percent}
use dsh_hashline_edittool.Hashline.Align.Whole.{IsPair, align_preserved_bounded-IsPair}

abbrev before : List Text
before = codes "a" ∷ codes "b" ∷ codes "c" ∷ codes "d" ∷ []

abbrev after : List Text
after = codes "a" ∷ codes "x" ∷ codes "c" ∷ codes "y" ∷ codes "d" ∷ []

small_change :
    align_preserved_bounded before after 100 five_percent
    ≡ record { pairs = (0, 0) ∷ (2, 2) ∷ (4, 3) ∷ []; degraded = false }
unfolding align_preserved_bounded
small_change = refl

blocked_change :
    align_preserved_bounded before after 1 five_percent
    ≡ record { pairs = (0, 0) ∷ (2, 2) ∷ (4, 3) ∷ []; degraded = false }
unfolding align_preserved_bounded
blocked_change = refl

align_preserved_bounded-IsPair_example :
    All (IsPair before after) (align_preserved_bounded before after 1 five_percent).pairs
align_preserved_bounded-IsPair_example = align_preserved_bounded-IsPair before after 1 five_percent

lcs_backtrace-Descending_example :
    All
      (λ p. get_elem? before (0 + p.1) ≡ get_elem? after (0 + p.0))
      (lcs_backtrace before after 0 0 4 5)
    × All (Below 4 5) (lcs_backtrace before after 0 0 4 5)
    × Descending (lcs_backtrace before after 0 0 4 5)
lcs_backtrace-Descending_example = lcs_backtrace-Descending before after 0 0 4 5

three_pairs : Matching (same before after 0 0) 4 5 3
unfolding same_at
three_pairs =
    pair {i = 3} {j = 4} refl
      (skip_new (pair {i = 2} {j = 2} refl (skip_new (skip_old (pair {i = 0} {j = 0} refl start)))))

lcs_backtrace-longest_example : 3 ≤ length (lcs_backtrace before after 0 0 4 5)
lcs_backtrace-longest_example = lcs_backtrace-longest before after 0 0 4 5 three_pairs
