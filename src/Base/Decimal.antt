-- ===== src/Base/Decimal.antt =====
-- Decimal numerals, as template strings write them and `parseInt(s, 10)` reads them.
use Prim.Native.Nat.{ℕ, zero, suc, ◌+◌, ◌-◌, ◌*◌, ◌/◌, ◌%◌, ◌<◌}
use mathlib.Core.Path.{◌≡◌, refl, ◌∙◌, ap}
use mathlib.Core.Bool.{true}
use mathlib.Core.List.{[], ◌∷◌}
use native.Mathlib.Omega.{arith}
use dsh_hashline_edittool.Base.Tests.{ltb, if◌then◌else◌, Bool-cases}
use mathlib.Core.Logic.{◌≢◌, inl, inr}
use dsh_hashline_edittool.Base.Lists.{All}
use dsh_hashline_edittool.Base.Strings.{Text, codes, is_digit}

-- the digits of `n` in front of `out`, on fuel
show_from : ℕ → ℕ → Text → Text
show_from zero n out = out
show_from (suc fuel) n out =
    let out' = (b'0' + n % 10) ∷ out in
    let rest = show_from fuel (n / 10) out' in if ltb n 10 then out' else rest

-- `${n}`
unfoldable pub show : ℕ → Text
unfolding show_from
show n = show_from (suc n) n []

-- the digits at the start of a text, behind the value read so far
unfoldable pub read_digits : Text → ℕ → ℕ
read_digits [] n = n
read_digits (c ∷ text) n =
    let rest = read_digits text (n * 10 + (c - b'0')) in if is_digit c then rest else n

-- What the digits of a whole text spell behind `n`.
abbrev spell : Text → ℕ → ℕ
spell [] n = n
spell (c ∷ text) n = spell text (n * 10 + (c - b'0'))

abbrev pub Digits : Text → Type 0
Digits = All (λ c. is_digit c ≡ true)

read_digits-spell : (text : Text) (n : ℕ) → Digits text → read_digits text n ≡ spell text n
unfolding read_digits
read_digits-spell [] n h = refl
read_digits-spell (c ∷ text) n (d, h) = rw d (read_digits-spell text (n * 10 + (c - b'0')) h)

show_from-Digits : (fuel n : ℕ) (out : Text) → Digits out → Digits (show_from fuel n out)
unfolding show_from
show_from-Digits zero n out h = h
show_from-Digits (suc fuel) n out h =
    let digit : is_digit (b'0' + n % 10) ≡ true = ground arith in
    elim (Bool-cases (ltb n 10)) [
      | inl last ↦ rw (last, show_from) (digit, h)
      | inr more ↦ rw (more, show_from) (show_from-Digits fuel (n / 10) _ (digit, h))
    ]

pub show-Digits : (n : ℕ) → Digits (show n)
unfolding show
show-Digits n = show_from-Digits (suc n) n [] tt

-- with enough fuel, reading what was written in front of `out` goes on at `out` with `n`
spell-show_from :
    (fuel n : ℕ) (out : Text) → n < fuel → spell (show_from fuel n out) 0 ≡ spell out n
unfolding show_from
spell-show_from zero n out h = absurd (omega arith)
spell-show_from (suc fuel) n out h = elim (Bool-cases (ltb n 10)) [
  | inl last ↦ rw (last, show_from) (ap (spell out) (ground arith))
  | inr more ↦
      rw (more, show_from)
        (spell-show_from fuel (n / 10) _ (ground arith) ∙ ap (spell out) (omega arith))
]

pub read_digits-show : (n : ℕ) → read_digits (show n) 0 ≡ n
unfolding show
read_digits-show n =
    read_digits-spell (show n) 0 (show-Digits n) ∙ spell-show_from (suc n) n [] (omega arith)

show_from-ne-nil : (fuel n : ℕ) (c : ℕ) (out : Text) → show_from fuel n (c ∷ out) ≢ []
unfolding show_from
show_from-ne-nil zero n c out e = cc
show_from-ne-nil (suc fuel) n c out e = elim (Bool-cases (ltb n 10)) [
  | inl last ↦ ground arith
  | inr more ↦
      show_from-ne-nil fuel (n / 10) (b'0' + n % 10) (c ∷ out) (rw (← e) (rw (more, show_from)))
]

pub show-ne-nil : (n : ℕ) → show n ≢ []
unfolding show
show-ne-nil n e = elim (Bool-cases (ltb n 10)) [
  | inl last ↦ ground arith
  | inr more ↦ show_from-ne-nil n (n / 10) (b'0' + n % 10) [] (rw (more, show_from) at e)
]

show_120 : show 120 ≡ codes "120"
unfolding show
show_120 = refl
