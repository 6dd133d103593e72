-- ===== src/Base/Number.antt =====
-- Integers as the source's numbers hold them: a non-negative integer is exact below 2 ^ 53, and the
-- result of `+` or `*` above that is rounded to 53 significant bits, ties to the even one.
use Prim.Native.Nat.{ℕ, zero, suc, ◌+◌, ◌-◌, ◌*◌, ◌/◌, ◌%◌, ◌^◌, ◌<◌}
use Prim.Native.Nat.{bit_xor}
use mathlib.Core.Path.{◌≡◌, refl}
use mathlib.Core.Bool.{◌&&◌, ◌||◌}
use native.Mathlib.Omega.{arith}
use dsh_hashline_edittool.Base.Tests.{ltb, ◌==◌, if◌then◌else◌, lt→ltb}

abbrev pub two_53 : ℕ
two_53 = 2 ^ 53

-- how many low bits do not fit; 1024 is the largest exponent of a number
spare_bits : ℕ → ℕ → ℕ
spare_bits zero n = 0
spare_bits (suc fuel) n = let rest = spare_bits fuel (n / 2) in if ltb n two_53 then 0 else suc rest

round_to : ℕ → ℕ → ℕ
round_to s n =
    let q = n / 2 ^ s in
    let r = n % 2 ^ s in
    let half = 2 ^ (s - 1) in
    if ltb half r || (r == half && q % 2 == 1) then (q + 1) * 2 ^ s else q * 2 ^ s

unfoldable pub round_number : ℕ → ℕ
unfolding spare_bits round_to
round_number n = if ltb n two_53 then n else round_to (spare_bits 1024 n) n

infixl 65 ◌+ᶠ◌
infixl 70 ◌*ᶠ◌
-- `a + b` and `a * b` of the source
unfoldable pub ◌+ᶠ◌ : ℕ → ℕ → ℕ
unfolding round_number
a +ᶠ b = round_number (a + b)

unfoldable pub ◌*ᶠ◌ : ℕ → ℕ → ℕ
unfolding round_number
a *ᶠ b = round_number (a * b)

pub round_number_exact : (n : ℕ) → n < two_53 → round_number n ≡ n
unfolding round_number
round_number_exact n h = ground (arith, lt→ltb n two_53 h)

rounding : round_number (two_53 + 1) ≡ two_53
unfolding round_number
rounding = refl

rounding_up : round_number (two_53 + 3) ≡ two_53 + 4
unfolding round_number
rounding_up = refl

-- A 32-bit word as its bit pattern.
abbrev pub two_32 : ℕ
two_32 = 2 ^ 32

-- `Math.imul(a, b)`, read as a bit pattern
unfoldable pub imul : ℕ → ℕ → ℕ
imul a b = (a * b) % two_32

infixl 60 ◌^^◌
-- `a ^ b` on bit patterns
unfoldable pub ◌^^◌ : ℕ → ℕ → ℕ
a ^^ b = bit_xor a b
