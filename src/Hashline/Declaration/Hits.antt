-- ===== src/Hashline/Declaration/Hits.antt =====
-- src/hashline/declaration.ts, `mismatchMessage`: the other lines that a declared text matches.
use mathlib.Core.Option.{some-injective}
use dsh_hashline_edittool.Base.{
  ℕ, zero, suc, ◌+◌, ◌-◌, ◌≤◌, ◌<◌, ◌≡◌, ◌≢◌, refl, ap, ◌∙◌, true, not, ◌&&◌, ◌⊎◌, List, [], ◌∷◌,
  some, arith, ◌==◌, length, get_elem?, Text, All, has, nat_eq, ===_sound, Bool-cases, inl, inr,
}
use dsh_hashline_edittool.Hashline.Declaration.{declared_line_matches, hits_from}

-- A hit: another line of the file, which the declared text matches.
abbrev pub IsHit : Text → ℕ → List Text → ℕ → Type 0
IsHit declared line_number lines number =
    (number ≢ line_number)
    × (1 ≤ number)
    × ((line : Text) × (get_elem? lines (number - 1) ≡ some line)
        × (declared_line_matches declared line ≡ true))

-- Numbers in ascending order, from a first one on.
abbrev pub Rising : ℕ → List ℕ → Type 0
Rising from [] = Unit
Rising from (n ∷ ns) = (from ≤ n) × Rising (suc n) ns

Rising-lower : (lower from : ℕ) (ns : List ℕ) → lower ≤ from → Rising from ns → Rising lower ns
Rising-lower lower from [] h r = tt
Rising-lower lower from (n ∷ ns) h (low, r) = (omega arith, r)

-- a list of lines whose numbers start at `number`
abbrev pub StandsAt : List Text → ℕ → List Text → Type 0
StandsAt whole number lines = (i : ℕ) → get_elem? whole (number - 1 + i) ≡ get_elem? lines i

module _ (declared : Text) (line_number : ℕ) (whole : List Text) where
  pub hits_from-IsHit :
      (room number : ℕ) (lines : List Text)
      → 1 ≤ number
      → StandsAt whole number lines
      → All (IsHit declared line_number whole) (hits_from declared line_number room number lines)
        × (length (hits_from declared line_number room number lines) ≤ room)
        × Rising number (hits_from declared line_number room number lines)
  unfolding hits_from
  hits_from-IsHit zero number lines h stands = (tt, omega arith, tt)
  hits_from-IsHit (suc room) number [] h stands = (tt, omega arith, tt)
  hits_from-IsHit (suc room) number (line ∷ lines) h stands =
      let later : StandsAt whole (suc number) lines = λ i.
        ap (get_elem? whole) {x = suc number - 1 + i} {y = number - 1 + suc i} (omega arith)
        ∙ stands (suc i) in
      elim (Bool-cases (not (number == line_number) && declared_line_matches declared line)) [
        | inl hit ↦
            let (found, few, rising) =
              hits_from-IsHit room (suc number) lines (omega arith) later in
            rw (hit, hits_from)
              (
                (
                  (
                    (λ e. absurd (ground arith)),
                    h,
                    (
                      line,
                      ap (get_elem? whole) {x = number - 1} {y = number - 1 + 0} (omega arith)
                          ∙ stands 0,
                      ground arith,
                    ),
                  ),
                  found,
                ),
                omega (arith, few),
                (omega arith, rising),
              )
        | inr miss ↦
            let (found, few, rising) =
              hits_from-IsHit (suc room) (suc number) lines (omega arith) later in
            rw (miss, hits_from)
              (found, few, Rising-lower number (suc number) _ (omega arith) rising)
      ]

-- Nothing that matches is passed over while there is room.
module _ (declared : Text) (line_number : ℕ) where
  pub hits_from_complete :
      (room number : ℕ) (lines : List Text) (hit : ℕ) (line : Text)
      → number ≤ hit
      → hit ≢ line_number
      → get_elem? lines (hit - number) ≡ some line
      → declared_line_matches declared line ≡ true
      → let hits = hits_from declared line_number room number lines in
        (has hit hits ≡ true) ⊎ ((length hits ≡ room) × All (λ n. n < hit) hits)
  unfolding hits_from
  hits_from_complete zero number lines hit line h other e m = inr (refl, tt)
  hits_from_complete (suc room) number [] hit line h other e m = absurd (cc e)
  hits_from_complete (suc room) number (l ∷ lines) hit line h other e m =
      elim (Bool-cases (number == hit)) [
        | inl here ↦
            let same : number ≡ hit = ===_sound number hit here in
            let first : hit - number ≡ 0 = omega arith in
            let line_same : l ≡ line = some-injective l line (rw first at e) in
            let hits : (not (number == line_number) && declared_line_matches declared l) ≡ true =
              ground (arith, ap (declared_line_matches declared) line_same) in
            rw (hits, hits_from) (inl (ground arith))
        | inr later ↦
            let low : suc number ≤ hit = ground arith in
            let next : hit - number ≡ suc (hit - suc number) = omega arith in
            let e' : get_elem? lines (hit - suc number) ≡ some line = rw next at e in
            elim (Bool-cases (not (number == line_number) && declared_line_matches declared l)) [
              | inl hits ↦
                  elim (hits_from_complete room (suc number) lines hit line low other e' m) [
                    | inl listed ↦ rw (hits, hits_from) (inl (ground arith))
                    | inr (full, below) ↦
                        rw (hits, hits_from) (inr (omega (arith, full), (omega arith, below)))
                  ]
              | inr miss ↦
                  rw (miss, hits_from)
                    (hits_from_complete (suc room) (suc number) lines hit line low other e' m)
            ]
      ]
