-- ===== src/Session/ServedCodec/Anchors.antt =====
-- src/domain/session/served-codec.ts: `anchorValue` against `anchorOfLength`.
use dsh_hashline_edittool.Base.{
  ℕ, zero, suc, ◌+◌, ◌-◌, ◌*◌, ◌/◌, ◌%◌, ◌^◌, ◌<◌, ◌≤◌, ◌≡◌, refl, ap, sym, ◌∙◌, Bool, true, false,
  [], ◌∷◌, ◌++◌, append-nil, some, none, arith, ◌==◌, >>=-eq-some, length, get_or, Text, Bool-cases,
  inl, inr, passes, passes_at,
}
use mathlib.Core.Option.{Option, some-injective}
use native.Mathlib.Nat.{pow-suc, pow-le-pow_right}
use dsh_hashline_edittool.Base.Number.{two_53, ◌+ᶠ◌, ◌*ᶠ◌}
use dsh_hashline_edittool.Session.ServedCodec.{
  base62, index_from, digit_value, value_from, anchor_value, digits_of, anchor_of_length,
}
use dsh_hashline_edittool.Session.ServedCodec.Varint.{plus_exact, times_exact}

index_from-get_or :
    (chars : Text) (index c i : ℕ)
    → index_from chars index c ≡ some i
    → (index ≤ i) × (i < index + length chars) × (get_or chars (i - index) 0 ≡ c)
unfolding index_from
index_from-get_or [] index c i h = absurd (cc)
index_from-get_or (d ∷ chars) index c i h = elim (Bool-cases (d == c)) [
  | inl p ↦
      let same : index ≡ i = some-injective index i (rw (p, index_from) at h) in
      (
        omega (arith, same),
        omega (arith, same),
        ap (λ n. get_or (d ∷ chars) n 0) {x = i - index} {y = 0} (omega (arith, same))
            ∙ ground arith,
      )
  | inr p ↦
      let rest = index_from-get_or chars (suc index) c i (rw (p, index_from) at h) in
      (
        omega (arith, rest.0),
        omega (arith, rest.1),
        ap (λ n. get_or (d ∷ chars) n 0) {x = i - index} {y = suc (i - suc index)}
              (omega (arith, rest.0))
            ∙ rest.2,
      )
]

digit_value-get_or : (c i : ℕ) → digit_value c ≡ some i → (i < 62) × (get_or base62 i 0 ≡ c)
unfolding digit_value
digit_value-get_or c i h =
    let found = index_from-get_or base62 0 c i h in
    (
      omega (arith, found.1),
      ap (λ n. get_or base62 n 0) {x = i} {y = i - 0} (omega arith) ∙ found.2,
    )

abbrev found_at : Option ℕ → ℕ → Bool
found_at none i = false
found_at (some j) i = j == i

digit_table : passes (λ i. found_at (digit_value (get_or base62 i 0)) i) 62 ≡ true
unfolding passes digit_value
digit_table = refl

found_at-some : (o : Option ℕ) (i : ℕ) → found_at o i ≡ true → o ≡ some i
found_at-some none i h = absurd (cc)
found_at-some (some j) i h = ap some (ground arith)

digit_value_at : (i : ℕ) → i < 62 → digit_value (get_or base62 i 0) ≡ some i
digit_value_at i h = found_at-some _ i (passes_at _ 62 {i = i} h digit_table)

-- eight characters fit the exact numbers
pub eight : (k : ℕ) → k ≤ 8 → 62 ^ k < two_53
eight k h = omega (arith, pow-le-pow_right {n = 62} (omega arith) {i = k} {j = 8} h)

-- What was read of an anchor is written again, in front of what follows.
value_from-digits_of :
    (anchor : Text) (before value k rounds : ℕ) (out : Text)
    → value_from anchor before ≡ some value
    → before < 62 ^ k
    → k + length anchor ≤ 8
    → (digits_of (length anchor + rounds) value out ≡ digits_of rounds before (anchor ++ out))
      × (value < 62 ^ (k + length anchor))
unfolding value_from digits_of
value_from-digits_of [] before value k rounds out h below size =
    let same : before ≡ value = some-injective before value h in
    (
      ap (λ n. digits_of n value out) {x = 0 + rounds} {y = rounds} (omega arith)
          ∙ ap (λ v. digits_of rounds v out) (sym same),
      omega (arith, same, ap (λ n. 62 ^ n) {x = k + 0} {y = k} (omega arith)),
    )
value_from-digits_of (c ∷ anchor) before value k rounds out h below size =
    let (digit, found, rest) = >>=-eq-some (digit_value c) _ h in
    let known = digit_value-get_or c digit found in
    let whole = eight (suc k) (omega arith) in
    let next : before *ᶠ 62 +ᶠ digit ≡ before * 62 + digit =
      ap (λ n. n +ᶠ digit) (times_exact before 62 (omega (arith, pow-suc 62 k)))
      ∙ plus_exact (before * 62) digit (omega (arith, pow-suc 62 k, known.0)) in
    let tail =
      value_from-digits_of anchor (before * 62 + digit) value (suc k) (suc rounds) out
        (ap (value_from anchor) (sym next) ∙ rest) (omega (arith, pow-suc 62 k, known.0))
        (omega arith) in
    let quotient : (before * 62 + digit) / 62 ≡ before = omega (arith, known.0) in
    let remainder : (before * 62 + digit) % 62 ≡ digit = omega (arith, known.0) in
    (
      ap (λ n. digits_of n value out) {x = suc (length anchor) + rounds}
            {y = length anchor + suc rounds} (omega arith)
          ∙ tail.0
          ∙ ap
              (λ q.
                digits_of rounds q (get_or base62 ((before * 62 + digit) % 62) 0 ∷ anchor ++ out))
              quotient
          ∙ ap (λ r. digits_of rounds before (get_or base62 r 0 ∷ anchor ++ out)) remainder
          ∙ ap (λ d. digits_of rounds before (d ∷ anchor ++ out)) known.1,
      omega (
        arith,
        tail.1,
        ap (λ n. 62 ^ n) {x = k + suc (length anchor)} {y = suc k + length anchor} (omega arith),
      ),
    )

-- An anchor of at most eight characters is written back from its value and its length.
pub anchor_of_length-anchor_value :
    (anchor : Text) (value : ℕ)
    → anchor_value anchor ≡ some value
    → length anchor ≤ 8
    → (anchor_of_length value (length anchor) ≡ anchor) × (value < 62 ^ length anchor)
unfolding anchor_value anchor_of_length
anchor_of_length-anchor_value [] value h short = absurd (cc)
anchor_of_length-anchor_value (c ∷ anchor) value h short =
    let (back, below) =
      value_from-digits_of (c ∷ anchor) 0 value 0 0 [] h (omega arith) (omega arith) in
    (
      ap (λ n. digits_of n value []) {x = length (c ∷ anchor)} {y = length (c ∷ anchor) + 0}
            (omega arith)
          ∙ back
          ∙ (unfold digits_of in append-nil (c ∷ anchor)),
      omega (
        arith,
        below,
        ap (λ n. 62 ^ n) {x = 0 + length (c ∷ anchor)} {y = length (c ∷ anchor)} (omega arith),
      ),
    )

base62-injective : (i j : ℕ) → i < 62 → j < 62 → get_or base62 i 0 ≡ get_or base62 j 0 → i ≡ j
base62-injective i j hi hj e =
    some-injective i j (sym (digit_value_at i hi) ∙ ap digit_value e ∙ digit_value_at j hj)

digits_of-injective :
    (rounds i j : ℕ) (s t : Text)
    → i < 62 ^ rounds
    → j < 62 ^ rounds
    → digits_of rounds i s ≡ digits_of rounds j t
    → (i ≡ j) × (s ≡ t)
unfolding digits_of
digits_of-injective zero i j s t hi hj e = (omega arith, e)
digits_of-injective (suc rounds) i j s t hi hj e =
    let (high, same) =
      digits_of-injective rounds (i / 62) (j / 62) _ _ (omega (arith, pow-suc 62 rounds))
        (omega (arith, pow-suc 62 rounds)) e in
    let low = base62-injective (i % 62) (j % 62) (omega arith) (omega arith) (cc) in
    (omega (arith, high, low), cc)

pub anchor_of_length-injective :
    (size i j : ℕ)
    → i < 62 ^ size
    → j < 62 ^ size
    → anchor_of_length i size ≡ anchor_of_length j size
    → i ≡ j
unfolding anchor_of_length
anchor_of_length-injective size i j hi hj e = (digits_of-injective size i j [] [] hi hj e).0

length-digits_of :
    (rounds i : ℕ) (out : Text) → length (digits_of rounds i out) ≡ rounds + length out
unfolding digits_of
length-digits_of zero i out = omega arith
length-digits_of (suc rounds) i out =
    omega (arith, length-digits_of rounds (i / 62) (get_or base62 (i % 62) 0 ∷ out))

pub length-anchor_of_length : (value size : ℕ) → length (anchor_of_length value size) ≡ size
unfolding anchor_of_length
length-anchor_of_length value size = omega (arith, length-digits_of size value [])
