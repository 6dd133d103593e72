-- ===== src/Hashline/Align/Lcs/Table.antt =====
-- src/hashline/align-bounded.ts: the table of `lcsBacktrace` against the recursive lengths.
use native.Mathlib.Decide.{dec_lt}
use native.Mathlib.Numerals.{sub-one}
use dsh_hashline_edittool.Base.{
  ℕ, zero, suc, ◌+◌, ◌<◌, ◌≡◌, refl, sym, subst, Bool, List, [], ◌∷◌, ◌++◌, arith, length, get_or,
  replicate, length-append, get_or-append_lt, get_or-concat, length-replicate, get_or-replicate, Eq,
}
use dsh_hashline_edittool.Hashline.Align.Lcs.{same_at, cell, fill_row, fill_rows, dp_table}
use dsh_hashline_edittool.Hashline.Align.Lcs.Common.{lcs}

-- `k` cells, of which cell `j` holds `f j`
pub record IsFilled {ℓ} {A : Type ℓ} (d : A) (k : ℕ) (P : ℕ → A → Type 0) (row : List A)
    : Type ℓ where
  pub size : length row ≡ k
  pub cells : (j : ℕ) → j < k → P j (get_or row j d)

IsFilled-concat {ℓ} :
    {A : Type ℓ} {d : A} {k : ℕ} {P : ℕ → A → Type 0} {row : List A} (x : A)
    → IsFilled d k P row
    → P k x
    → IsFilled d (suc k) P (row ++ x ∷ [])
IsFilled-concat {d} {k} {P} {row} x r p = record {
  size = omega (arith, length-append row (x ∷ []), r.size);
  cells = λ j h. elim (dec_lt j k) [
    | yes below ↦
        subst (P j) (sym (get_or-append_lt row (x ∷ []) j d (omega (arith, r.size))))
          (r.cells j below)
    | no here ↦ subst (λ n. P n (get_or (row ++ x ∷ []) n d)) (omega arith) last
  ];
}
  where
    at_k : get_or (row ++ x ∷ []) k d ≡ x
    at_k = subst (λ n. get_or (row ++ x ∷ []) n d ≡ x) r.size (get_or-concat row x d)

    last : P k (get_or (row ++ x ∷ []) k d)
    last = subst (P k) (sym at_k) p

module _ {ℓ} {A : Type ℓ} ⦃e : Eq A⦄ (old_seg new_seg : List A) (old_offset new_offset : ℕ) where
  abbrev pub same : ℕ → ℕ → Bool
  same i j = same_at old_seg (old_offset + i) new_seg (new_offset + j)

  abbrev pub IsRow : ℕ → ℕ → List ℕ → Type 0
  IsRow i k = IsFilled 0 k (λ j v. v ≡ lcs same i j)

  abbrev pub IsTable : ℕ → ℕ → List (List ℕ) → Type 0
  IsTable new_len k = IsFilled [] k (λ i row. IsRow i (suc new_len) row)

  cell-lcs :
      (i j : ℕ) (above left : List ℕ)
      → get_or above j 0 ≡ lcs same i j
      → get_or above (suc j) 0 ≡ lcs same i (suc j)
      → get_or left j 0 ≡ lcs same (suc i) j
      → cell old_seg new_seg old_offset new_offset (suc i) (suc j) above left
        ≡ lcs same (suc i) (suc j)
  unfolding cell lcs
  cell-lcs i j above left diagonal up across = simp (sub-one, diagonal, up, across)

  fill_row-IsRow :
      (rounds i j new_len : ℕ) (above left : List ℕ)
      → suc j + rounds ≡ suc new_len
      → IsRow i (suc new_len) above
      → IsRow (suc i) (suc j) left
      → IsRow
          (suc i)
          (suc new_len)
          (fill_row old_seg new_seg old_offset new_offset rounds (suc i) (suc j) above left)
  unfolding fill_row
  fill_row-IsRow zero i j new_len above left fits a l =
      subst (λ k. IsRow (suc i) k left) (omega arith) l
  fill_row-IsRow (suc rounds) i j new_len above left fits a l =
      fill_row-IsRow rounds i (suc j) new_len above _ (omega arith) a (
        IsFilled-concat _ l (
          cell-lcs i j above left (a.cells j (omega arith)) (a.cells (suc j) (omega arith))
            (l.cells j (omega arith))))

  first_cell : (i j : ℕ) → j < 1 → get_or (0 ∷ []) j 0 ≡ lcs same (suc i) j
  unfolding lcs
  first_cell i zero h = refl
  first_cell i (suc j) h = absurd (omega arith)

  first-IsRow :
      (new_len j : ℕ) → j < 1 → IsRow j (suc new_len) (get_or (replicate (new_len + 1) 0 ∷ []) j [])
  unfolding lcs
  first-IsRow new_len zero h = record {
    size = omega (arith, length-replicate {A = ℕ} (new_len + 1) 0);
    cells = λ k _. get_or-replicate (new_len + 1) k 0;
  }
  first-IsRow new_len (suc j) h = absurd (omega arith)

  fill_rows-IsTable :
      (rounds i new_len old_len : ℕ) (dp : List (List ℕ))
      → suc i + rounds ≡ suc old_len
      → IsTable new_len (suc i) dp
      → IsTable new_len
          (suc old_len)
          (fill_rows old_seg new_seg old_offset new_offset new_len rounds (suc i) dp)
  unfolding fill_rows
  fill_rows-IsTable zero i new_len old_len dp fits t =
      subst (λ k. IsTable new_len k dp) (omega arith) t
  fill_rows-IsTable (suc rounds) i new_len old_len dp fits t =
      fill_rows-IsTable rounds (suc i) new_len old_len _ (omega arith) (
        IsFilled-concat _ t (
          rw sub-one (
            fill_row-IsRow new_len i 0 new_len (get_or dp i []) (0 ∷ []) (omega arith)
              (t.cells i (omega arith)) (record { size = refl; cells = first_cell i }))))

  pub dp_table-IsTable :
      (old_len new_len : ℕ)
      → IsTable new_len
          (suc old_len)
          (dp_table old_seg new_seg old_offset new_offset old_len new_len)
  unfolding dp_table
  dp_table-IsTable old_len new_len =
      fill_rows-IsTable old_len 0 new_len old_len _ (omega arith)
        (record { size = refl; cells = first-IsRow new_len })
