-- ===== src/Hashline/Align/Lcs/Common.antt =====
-- The longest common subsequence of two prefixes, by its recursion, and what it is the longest of.
use dsh_hashline_edittool.Base.{ℕ, zero, suc, ◌+◌, ◌≤◌, max, ◌≡◌, Bool, true, arith, if◌then◌else◌}

module _ (same : ℕ → ℕ → Bool) where
  -- of the first `i` old and the first `j` new items, where `same i j` compares items by index
  unfoldable pub lcs : ℕ → ℕ → ℕ
  lcs zero j = 0
  lcs (suc i) zero = 0
  lcs (suc i) (suc j) = if same i j then lcs i j + 1 else max (lcs i (suc j)) (lcs (suc i) j)

  -- A way to pair equal items of those prefixes in order, with `k` pairs.
  pub data Matching : ℕ → ℕ → ℕ → Type 0 where
    start : Matching 0 0 0
    skip_old : {i j k : ℕ} → Matching i j k → Matching (suc i) j k
    skip_new : {i j k : ℕ} → Matching i j k → Matching i (suc j) k
    pair : {i j k : ℕ} → same i j ≡ true → Matching i j k → Matching (suc i) (suc j) (suc k)

  -- One more item changes the length by at most one.
  pub lcs_steps :
      (i j : ℕ)
      → (lcs i j ≤ lcs (suc i) j)
        × (lcs i j ≤ lcs i (suc j))
        × (lcs (suc i) j ≤ lcs i j + 1)
        × (lcs i (suc j) ≤ lcs i j + 1)
  unfolding lcs
  lcs_steps zero zero = ground arith
  lcs_steps zero (suc j) = ground (arith, lcs_steps zero j)
  lcs_steps (suc i) zero = ground (arith, lcs_steps i zero)
  lcs_steps (suc i) (suc j) =
      ground (arith, lcs_steps i (suc j), lcs_steps (suc i) j, lcs_steps i j)

  lcs-same : (i j : ℕ) → same i j ≡ true → lcs (suc i) (suc j) ≡ lcs i j + 1
  unfolding lcs
  lcs-same i j e = rw e

  pub Matching-le-lcs : {i j k : ℕ} → Matching i j k → k ≤ lcs i j
  Matching-le-lcs start = omega arith
  Matching-le-lcs (skip_old {i} {j} m) = omega (arith, Matching-le-lcs m, lcs_steps i j)
  Matching-le-lcs (skip_new {i} {j} m) = omega (arith, Matching-le-lcs m, lcs_steps i j)
  Matching-le-lcs (pair {i} {j} e m) = omega (arith, Matching-le-lcs m, lcs-same i j e)
