-- ===== src/Hashline/Align/Bounded.antt =====
-- src/hashline/align-bounded.ts: `effectiveDpBudget`, `identityPairs`, `assembleAllPairs` and
-- `alignPreservedBounded`. The heap limit and the pinned and cached budgets are arguments.

use dsh_hashline_edittool.Base.{
  ℕ, zero, suc, ◌+◌, ◌-◌, ◌*◌, ◌/◌, min, max, true, false, ◌||◌, List, [], ◌∷◌, Option, none, some,
  leb, ◌==◌, if◌then◌else◌, length, nat_eq, text_eq, Eq,
}
use dsh_hashline_edittool.Base.Map
use dsh_hashline_edittool.Hashline.Align.Lcs.{Pairs, same_at, lcs_backtrace}
use dsh_hashline_edittool.Hashline.Align.Blocks.{AlignResult, blocked_align}

abbrev pub default_max_dp_entries : ℕ
default_max_dp_entries = 50_000_000

-- the budget, and the cache as the call leaves it; the log line is not kept
unfoldable pub effective_dp_budget : ℕ → Option ℕ → Option ℕ → Option ℕ → ℕ × Option ℕ
effective_dp_budget heap_limit test_budget cached (some override) = (override, cached)
effective_dp_budget heap_limit (some pinned) cached none = (pinned, cached)
effective_dp_budget heap_limit none (some budget) none = (budget, some budget)
effective_dp_budget heap_limit none none none =
    let budget = min default_max_dp_entries (heap_limit / 32) in (budget, some budget)

-- `Math.floor(Math.sqrt(n))`
unfoldable pub floor_sqrt : ℕ → ℕ
floor_sqrt zero = 0
floor_sqrt (suc n) = let r = floor_sqrt n in if leb ((r + 1) * (r + 1)) (suc n) then r + 1 else r

-- `for (let i = 0; i < prefix; i++) out.set(i, i)`: the rounds left and `i`
unfoldable pub put_prefix : ℕ → ℕ → Pairs → Pairs
unfolding Map.put
put_prefix zero i out = out
put_prefix (suc rounds) i out = put_prefix rounds (suc i) (Map.put out i i)

-- `for (let i = 0; i < suffix; i++) out.set(n - 1 - i, m - 1 - i)`
unfoldable pub put_suffix : ℕ → ℕ → ℕ → ℕ → Pairs → Pairs
unfolding Map.put
put_suffix m n zero i out = out
put_suffix m n (suc rounds) i out =
    put_suffix m n rounds (suc i) (Map.put out (n - 1 - i) (m - 1 - i))

-- `for (const [j, i] of midPairs) out.set(prefix + j, prefix + i)`
unfoldable pub put_middle : ℕ → Pairs → Pairs → Pairs
unfolding Map.put
put_middle prefix [] out = out
put_middle prefix ((j, i) ∷ pairs) out =
    put_middle prefix pairs (Map.put out (prefix + j) (prefix + i))

unfoldable pub identity_pairs : ℕ → ℕ → ℕ → ℕ → Pairs
unfolding put_prefix put_suffix
identity_pairs m n prefix suffix = put_suffix m n suffix 0 (put_prefix prefix 0 [])

unfoldable pub assemble_all_pairs : ℕ → ℕ → ℕ → ℕ → Pairs → Pairs
unfolding put_prefix put_suffix put_middle
assemble_all_pairs m n prefix suffix mid_pairs =
    put_suffix m n suffix 0 (put_middle prefix mid_pairs (put_prefix prefix 0 []))

module _ {ℓ} {A : Type ℓ} ⦃e : Eq A⦄ (old_seg new_seg : List A) where
  -- `while (prefix < maxPrefix && oldSeg[prefix] === newSeg[prefix]) prefix++`
  unfoldable pub count_prefix : ℕ → ℕ → ℕ
  unfolding same_at
  count_prefix zero prefix = prefix
  count_prefix (suc rounds) prefix =
      let more = count_prefix rounds (suc prefix) in
      if same_at old_seg prefix new_seg prefix then more else prefix

  unfoldable pub count_suffix : ℕ → ℕ → ℕ
  unfolding same_at
  count_suffix zero suffix = suffix
  count_suffix (suc rounds) suffix =
      let more = count_suffix rounds (suc suffix) in
      if same_at old_seg (length old_seg - 1 - suffix) new_seg (length new_seg - 1 - suffix)
      then more
      else suffix

  -- what stands between the common prefix and the common suffix
  unfoldable pub align_middle : ℕ → (ℕ → ℕ) → ℕ → ℕ → AlignResult
  unfolding identity_pairs assemble_all_pairs lcs_backtrace blocked_align floor_sqrt
  align_middle effective low_floor prefix suffix =
      let m = length old_seg in
      let n = length new_seg in
      let m_mid = m - prefix - suffix in
      let n_mid = n - prefix - suffix in
      let result =
        blocked_align old_seg new_seg prefix m_mid prefix n_mid (max 1 (floor_sqrt effective))
          low_floor in
      if leb m_mid 0 || leb n_mid 0
      then record { pairs = identity_pairs m n prefix suffix; degraded = false }
      else if leb (m_mid * n_mid) effective
      then record {
        pairs =
            assemble_all_pairs m n prefix suffix
              (lcs_backtrace old_seg new_seg prefix prefix m_mid n_mid);
        degraded = false;
      }
      else if result.degraded
      then record { pairs = []; degraded = true }
      else record { pairs = assemble_all_pairs m n prefix suffix result.pairs; degraded = false }

  unfoldable pub align_preserved_bounded : ℕ → (ℕ → ℕ) → AlignResult
  unfolding count_prefix count_suffix align_middle
  align_preserved_bounded effective low_floor =
      let m = length old_seg in
      let n = length new_seg in
      let prefix = count_prefix (min m n) 0 in
      let suffix = count_suffix (min (m - prefix) (n - prefix)) 0 in
      if m == 0 || n == 0
      then record { pairs = []; degraded = false }
      else align_middle effective low_floor prefix suffix

-- `Math.ceil(n * 0.05)`, the default of `lowSimilarityFloor`
abbrev pub five_percent : ℕ → ℕ
five_percent n = (n + 19) / 20
