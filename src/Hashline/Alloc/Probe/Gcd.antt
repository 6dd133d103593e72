-- ===== src/Hashline/Alloc/Probe/Gcd.antt =====
-- src/hashline/alloc.ts: `gcd`, a loop that ends because the second number falls.
use mathlib.Core.Logic.{dite}
use mathlib.Core.WellFounded.{Acc}
use native.Mathlib.Decide.{dec_lt}
use dsh_hashline_edittool.Base.{ℕ, zero, suc, ◌%◌, ◌<◌, ◌≡◌, refl, arith}

-- Every number under a bound is accessible.
under : (bound : ℕ) {x : ℕ} → x < bound → Acc ◌<◌ x
under zero below = elim below [ ]
under (suc bound) {x} below = Acc.intro x λ y less. under bound {x = y} (omega arith)

-- `while (b !== 0) { t = a % b; a = b; b = t }`
euclid : (x y : ℕ) → Acc ◌<◌ y → ℕ
euclid x y (Acc.intro _ descend) =
    dite (dec_lt 0 y) (λ positive. euclid y (x % y) (descend (x % y) (omega arith)))
      (λ none_left. x)

unfoldable pub gcd : ℕ → ℕ → ℕ
unfolding euclid under dec_lt
gcd x y = euclid x y (under (suc y) (omega arith))

gcd_12_18 : gcd 12 18 ≡ 6
unfolding gcd
gcd_12_18 = refl
