-- ===== src/Hashline/Alloc/Code.antt =====
-- src/hashline/alloc.ts: `encodeAnchor` and `isNumericAnchor`.
use native.Mathlib.Nat.{pow-suc}
use dsh_hashline_edittool.Base.{
  ℕ, zero, suc, ◌+◌, ◌-◌, ◌*◌, ◌/◌, ◌%◌, ◌^◌, ◌<◌, ◌≡◌, refl, ap, Bool, true, false, ◌&&◌, [], ◌∷◌,
  ◌==◌, if◌then◌else◌, ltb, arith, Text, codes, length, get_or, all, is_digit, is_base62, passes,
  passes_at,
}

-- `ALPH_O`
abbrev pub alphabet : Text
alphabet = codes "0123456789abcdefghijklmnopqrstuvwxyzABCDEFGHIJKLMNOPQRSTUVWXYZ"

-- `ALPH_O[i]`, which is asked below 62 only
pub digit : ℕ → ℕ
digit i = get_or alphabet i 0

-- the rounds left, `idx` and `out`
encode_rounds : ℕ → ℕ → Text → Text
encode_rounds zero idx out = out
encode_rounds (suc rounds) idx out = encode_rounds rounds (idx / 62) (digit (idx % 62) ∷ out)

unfoldable pub encode_anchor : ℕ → ℕ → Text
unfolding encode_rounds digit
encode_anchor idx depth = encode_rounds depth idx []

-- `/^[0-9]+$/`
unfoldable pub is_numeric_anchor : Text → Bool
unfolding all
is_numeric_anchor [] = false
is_numeric_anchor (c ∷ anchor) = all is_digit (c ∷ anchor)

-- where a character stands in the alphabet
place : ℕ → ℕ
place c = if ltb c 58 then c - 48 else if ltb c 91 then c - 29 else c - 87

place_table : passes (λ i. place (digit i) == i && is_base62 (digit i)) 62 ≡ true
unfolding passes place digit
place_table = refl

place-digit : (i : ℕ) → i < 62 → place (digit i) ≡ i
place-digit i h = ground (arith, passes_at _ 62 {i = i} h place_table)

digit-is_base62 : (i : ℕ) → i < 62 → is_base62 (digit i) ≡ true
digit-is_base62 i h = ground (arith, passes_at _ 62 {i = i} h place_table)

length-encode_rounds :
    (rounds idx : ℕ) (out : Text) → length (encode_rounds rounds idx out) ≡ rounds + length out
unfolding encode_rounds
length-encode_rounds zero idx out = omega arith
length-encode_rounds (suc rounds) idx out =
    omega (arith, length-encode_rounds rounds (idx / 62) (digit (idx % 62) ∷ out))

pub length-encode_anchor : (idx depth : ℕ) → length (encode_anchor idx depth) ≡ depth
unfolding encode_anchor
length-encode_anchor idx depth = omega (arith, length-encode_rounds depth idx [])

encode_rounds-base62 :
    (rounds idx : ℕ) (out : Text)
    → all is_base62 out ≡ true
    → all is_base62 (encode_rounds rounds idx out) ≡ true
unfolding encode_rounds all
encode_rounds-base62 zero idx out h = h
encode_rounds-base62 (suc rounds) idx out h =
    encode_rounds-base62 rounds (idx / 62) (digit (idx % 62) ∷ out)
      (ground (arith, digit-is_base62 (idx % 62)))

pub encode_anchor-base62 : (idx depth : ℕ) → all is_base62 (encode_anchor idx depth) ≡ true
unfolding encode_anchor all
encode_anchor-base62 idx depth = encode_rounds-base62 depth idx [] refl

digit-injective : (i j : ℕ) → i < 62 → j < 62 → digit i ≡ digit j → i ≡ j
digit-injective i j hi hj e = omega (arith, place-digit i hi, place-digit j hj, ap place e)

encode_rounds-injective :
    (rounds i j : ℕ) (s t : Text)
    → i < 62 ^ rounds
    → j < 62 ^ rounds
    → encode_rounds rounds i s ≡ encode_rounds rounds j t
    → (i ≡ j) × (s ≡ t)
unfolding encode_rounds
encode_rounds-injective zero i j s t hi hj e = (omega arith, e)
encode_rounds-injective (suc rounds) i j s t hi hj e =
    let (quotients, tails) =
      encode_rounds-injective rounds (i / 62) (j / 62) (digit (i % 62) ∷ s) (digit (j % 62) ∷ t)
        (omega (arith, pow-suc 62 rounds)) (omega (arith, pow-suc 62 rounds)) e in
    let remainders = digit-injective (i % 62) (j % 62) (omega arith) (omega arith) (cc) in
    (omega arith, cc)

-- Two indices of one layer with the same anchor are the same index.
pub encode_anchor-injective :
    (depth i j : ℕ)
    → i < 62 ^ depth
    → j < 62 ^ depth
    → encode_anchor i depth ≡ encode_anchor j depth
    → i ≡ j
unfolding encode_anchor
encode_anchor-injective depth i j hi hj e = (encode_rounds-injective depth i j [] [] hi hj e).0

encode_36 : encode_anchor (3 * 62 + 6) 2 ≡ codes "36"
unfolding encode_anchor
encode_36 = refl

numeric_36 : is_numeric_anchor (encode_anchor (3 * 62 + 6) 2) ≡ true
unfolding encode_anchor is_numeric_anchor
numeric_36 = refl
