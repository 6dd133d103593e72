-- ===== src/Base/Table.antt =====
-- Facts over a small range of numbers, proved by evaluating a test at each.
use Prim.Native.Nat.{ℕ, zero, suc, ◌<◌}
use mathlib.Core.Path.{◌≡◌}
use mathlib.Core.Bool.{Bool, true, ◌&&◌}
use native.Mathlib.Omega.{arith}

-- The test passes at each number under the limit.
unfoldable pub passes : (test : ℕ → Bool) (limit : ℕ) → Bool
passes test zero = true
passes test (suc limit) = passes test limit && test limit

pub passes_at :
    (test : ℕ → Bool) (limit : ℕ) {i : ℕ} → i < limit → passes test limit ≡ true → test i ≡ true
unfolding passes
passes_at test zero below e = absurd (omega arith)
passes_at test (suc limit) {i} below e = ground (arith, passes_at test limit {i = i})
