-- ===== src/Session/ServedCodec/Varint.antt =====
-- src/domain/session/served-codec.ts: `writeVarint` against `readVarint`.
use dsh_hashline_edittool.Base.{
  ℕ, zero, suc, ◌+◌, ◌*◌, ◌/◌, ◌%◌, ◌<◌, ◌≤◌, ◌≡◌, ap, ◌∙◌, true, false, ◌++◌, some, arith, ltb,
  leb, Bool-cases, inl, inr, All,
}
use native.Mathlib.Nat.{mul-le-mul_right}
use dsh_hashline_edittool.Base.Number.{two_53, ◌+ᶠ◌, ◌*ᶠ◌, round_number_exact}
use dsh_hashline_edittool.Session.ServedCodec.{
  Octets, varint_rounds, write_varint, varint_from, read_varint, max_safe_integer,
}

pub plus_exact : (a b : ℕ) → a + b < two_53 → a +ᶠ b ≡ a + b
unfolding ◌+ᶠ◌
plus_exact a b h = round_number_exact (a + b) h

pub times_exact : (a b : ℕ) → a * b < two_53 → a *ᶠ b ≡ a * b
unfolding ◌*ᶠ◌
times_exact a b h = round_number_exact (a * b) h

-- a number times a factor, from its last seven bits and the others
split_times : (v s : ℕ) → v % 0x80 * s + v / 0x80 * (s * 0x80) ≡ v * s
split_times v s =
    omega (arith, ap (λ n. n * s) {x = v} {y = v / 0x80 * 0x80 + v % 0x80} (omega arith))

at_least : (v s : ℕ) → 0x80 ≤ v → s * 0x80 ≤ v * s
at_least v s h = omega (arith, mul-le-mul_right {m = 0x80} {n = v} s h)

varint_from-varint_rounds :
    (fuel v value shift : ℕ) (rest : Octets)
    → v < fuel
    → 0 < shift
    → value + v * shift < two_53
    → varint_from (varint_rounds fuel v ++ rest) value shift ≡ some (value + v * shift, rest)
unfolding varint_rounds varint_from
varint_from-varint_rounds zero v value shift rest enough pos small = absurd (omega arith)
varint_from-varint_rounds (suc fuel) v value shift rest enough pos small =
    elim (Bool-cases (leb 0x80 v)) [
      | inr last ↦
          let low : v % 0x80 ≡ v = ground arith in
          let one : ltb v 0x80 ≡ true = ground arith in
          rw (
            last,
            varint_rounds,
            one,
            low,
            times_exact v shift (omega arith),
            plus_exact value (v * shift) small,
            varint_from,
          )
      | inl more ↦
          let parts = split_times v shift in
          let grows = at_least v shift (ground arith) in
          let low : (v % 0x80 + 0x80) % 0x80 ≡ v % 0x80 = omega arith in
          let continues : ltb (v % 0x80 + 0x80) 0x80 ≡ false = ground arith in
          let in_range : ltb max_safe_integer (shift * 0x80) ≡ false = ground arith in
          rw
            (
              more,
              varint_rounds,
              continues,
              low,
              times_exact shift 0x80 (omega arith),
              in_range,
              times_exact (v % 0x80) shift (omega (arith, parts)),
              plus_exact value (v % 0x80 * shift) (omega (arith, parts)),
              varint_from,
            )
            (varint_from-varint_rounds fuel (v / 0x80) (value + v % 0x80 * shift) (shift * 0x80)
                rest (ground arith) (omega arith) (omega (arith, parts))
              ∙ ap (λ n. some (n, rest)) {x = value + v % 0x80 * shift + v / 0x80 * (shift * 0x80)}
                  {y = value + v * shift} (omega (arith, parts)))
    ]

-- A number below 2^53 is read back, with what stands behind it.
pub read_varint-write_varint :
    (value : ℕ) (rest : Octets)
    → value < two_53
    → read_varint (write_varint value ++ rest) ≡ some (value, rest)
unfolding read_varint write_varint
read_varint-write_varint value rest small =
    varint_from-varint_rounds (suc value) value 0 1 rest (omega arith) (omega arith) (omega arith)
    ∙ ap (λ n. some (n, rest)) {x = 0 + value * 1} {y = value} (omega arith)

-- Every byte is a byte.
varint_rounds-bytes : (fuel v : ℕ) → All (λ byte. byte < 256) (varint_rounds fuel v)
unfolding varint_rounds
varint_rounds-bytes zero v = tt
varint_rounds-bytes (suc fuel) v = elim (Bool-cases (leb 0x80 v)) [
  | inl more ↦ rw (more, varint_rounds) (omega arith, varint_rounds-bytes fuel (v / 0x80))
  | inr last ↦ rw (last, varint_rounds) (ground arith, tt)
]

pub write_varint-bytes : (value : ℕ) → All (λ byte. byte < 256) (write_varint value)
unfolding write_varint
write_varint-bytes value = varint_rounds-bytes (suc value) value
