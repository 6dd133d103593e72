-- ===== src/Hashline/Align/Lcs.antt =====
-- src/hashline/align-bounded.ts: `lcsBacktrace`. A `Map` from new indices to old ones is the list of
-- its entries. The table is kept as the rows and cells written so far: the zeros that the source
-- fills in first are read in row 0 and column 0 only.
pub mod Common
pub mod Table
pub mod Trace
use dsh_hashline_edittool.Base.{
  ℕ, zero, suc, ◌+◌, ◌-◌, max, Bool, true, false, List, [], ◌∷◌, ◌++◌, none, some, leb,
  if◌then◌else◌, get_elem?, get_or, Eq, ◌===◌, nat_eq, replicate,
}
use dsh_hashline_edittool.Base.Map

-- new index → old index
abbrev pub Pairs : Type 0
Pairs = List (ℕ × ℕ)

module _ {ℓ} {A : Type ℓ} ⦃e : Eq A⦄ where
  -- `a[i] === b[j]`, where an index out of range reads `undefined`
  unfoldable pub same_at : List A → ℕ → List A → ℕ → Bool
  same_at a i b j = elim (get_elem? a i) [
    | none ↦ elim (get_elem? b j) [ none ↦ true | some y ↦ false ]
    | some x ↦ elim (get_elem? b j) [ none ↦ false | some y ↦ x === y ]
  ]

module _ {ℓ} {A : Type ℓ} ⦃e : Eq A⦄ (old_seg new_seg : List A) (old_offset new_offset : ℕ) where
  -- `dp[i][j]`, from the row above and the cells on the left
  unfoldable pub cell : ℕ → ℕ → List ℕ → List ℕ → ℕ
  unfolding same_at
  cell i j above left =
      if same_at old_seg (old_offset + (i - 1)) new_seg (new_offset + (j - 1))
      then get_or above (j - 1) 0 + 1
      else max (get_or above j 0) (get_or left (j - 1) 0)

  -- the inner loop: the rounds left and `j`
  unfoldable pub fill_row : ℕ → ℕ → ℕ → List ℕ → List ℕ → List ℕ
  unfolding cell
  fill_row zero i j above left = left
  fill_row (suc rounds) i j above left =
      fill_row rounds i (suc j) above (left ++ cell i j above left ∷ [])

  -- the outer loop: the rounds left and `i`
  unfoldable pub fill_rows : ℕ → ℕ → ℕ → List (List ℕ) → List (List ℕ)
  unfolding fill_row
  fill_rows new_len zero i dp = dp
  fill_rows new_len (suc rounds) i dp =
      fill_rows new_len rounds (suc i)
        (dp ++ fill_row new_len i 1 (get_or dp (i - 1) []) (0 ∷ []) ∷ [])

  unfoldable pub dp_table : ℕ → ℕ → List (List ℕ)
  unfolding fill_rows
  dp_table old_len new_len = fill_rows new_len old_len 1 (replicate (new_len + 1) 0 ∷ [])

  -- the backtrace from `dp[i][j]`
  unfoldable pub back_trace : List (List ℕ) → ℕ → ℕ → Pairs → Pairs
  unfolding same_at Map.put
  back_trace dp zero j pairs = pairs
  back_trace dp (suc i) zero pairs = pairs
  back_trace dp (suc i) (suc j) pairs =
      let both = back_trace dp i j (Map.put pairs j i) in
      let up = back_trace dp i (suc j) pairs in
      let left = back_trace dp (suc i) j pairs in
      if same_at old_seg (old_offset + i) new_seg (new_offset + j)
      then both
      else if leb (get_or (get_or dp (suc i) []) j 0) (get_or (get_or dp i []) (suc j) 0)
      then up
      else left

  unfoldable pub lcs_backtrace : ℕ → ℕ → Pairs
  unfolding dp_table back_trace
  lcs_backtrace old_len new_len = back_trace (dp_table old_len new_len) old_len new_len []
