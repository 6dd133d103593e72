-- ===== src/Hashline/Declaration/Verdicts.antt =====
-- src/hashline/declaration.ts: when the check of declared lines passes, and what a rejection says.
use dsh_hashline_edittool.Base.{
  ℕ, zero, suc, ◌+◌, ◌-◌, ◌≤◌, ◌≡◌, refl, ap, true, false, List, [], ◌∷◌, Option, none, some, arith,
  ◌⊎◌, length, get_or, get_elem?, Text, All, has, ltb, nat_eq, ◌<◌, ltb→lt, get_elem?-eq-get_or,
  Bool-cases, inl, inr,
}
use dsh_hashline_edittool.Hashline.Declaration.Hits.{
  IsHit, Rising, hits_from-IsHit, hits_from_complete,
}
use dsh_hashline_edittool.Hashline.Declaration.{
  declared_line_matches, DeclarationField, anchor_start, anchor_end, ExpectedLines, Verdict, passed,
  mismatch, line_text, hits_from, check_line, verify_expected_lines,
}

-- The text of a line, which is empty where the file has no such line.
abbrev pub Shows : List Text → ℕ → Text → Type 0
Shows lines line_number actual =
    ((1 ≤ line_number) × (get_elem? lines (line_number - 1) ≡ some actual))
    ⊎ (((line_number ≡ 0) ⊎ (length lines < line_number)) × (actual ≡ []))

-- Every hit from a line on is listed, or the list holds ten, all in front of it.
abbrev pub Listed : List ℕ → ℕ → Type 0
Listed hits number =
    (has number hits ≡ true) ⊎ ((length hits ≡ 10) × All (λ hit. hit < number) hits)

-- What a rejection holds, for the line of the given number.
pub record IsRejection (lines : List Text) (line_number : ℕ) (declared actual : Text)
    (hits : List ℕ) : Type 0 where
  pub its_line : Shows lines line_number actual
  pub differs : declared_line_matches declared actual ≡ false
  pub found : All (IsHit declared line_number lines) hits
  pub few : length hits ≤ 10
  pub rising : Rising 1 hits
  pub complete : (number : ℕ) → IsHit declared line_number lines number → Listed hits number

get_or-beyond {ℓ} : {A : Type ℓ} (xs : List A) (i : ℕ) (d : A) → length xs ≤ i → get_or xs i d ≡ d
get_or-beyond [] i d h = refl
get_or-beyond (x ∷ xs) zero d h = absurd (omega arith)
get_or-beyond (x ∷ xs) (suc i) d h = get_or-beyond xs i d (omega arith)

line_text-Shows :
    (lines : List Text) (line_number : ℕ) → Shows lines line_number (line_text lines line_number)
unfolding line_text
line_text-Shows lines zero = inr (inl refl, refl)
line_text-Shows lines (suc index) = elim (Bool-cases (ltb index (length lines))) [
  | inl p ↦
      let back : suc index - 1 ≡ index = omega arith in
      inl (omega arith, rw back (get_elem?-eq-get_or lines index [] (ltb→lt index _ p)))
  | inr p ↦ inr (inr (ground arith), get_or-beyond lines index [] (ground arith))
]

-- The declared text, if there is one, matches the line.
abbrev pub Agrees : List Text → ℕ → Option Text → Type 0
Agrees lines line_number none = Unit
Agrees lines line_number (some declared) =
    (actual : Text) × Shows lines line_number actual
    × (declared_line_matches declared actual ≡ true)

-- What an outcome means for the declarations of the first and the last line.
abbrev pub IsVerdict : ℕ → ℕ → List Text → ExpectedLines → Verdict → Type 0
IsVerdict start_line end_line lines expected passed =
    Agrees lines start_line expected.start × Agrees lines end_line expected.end
IsVerdict start_line end_line lines expected
      (mismatch anchor_start line_number declared actual hits) =
    (line_number ≡ start_line)
    × (expected.start ≡ some declared)
    × IsRejection lines line_number declared actual hits
IsVerdict start_line end_line lines expected
      (mismatch anchor_end line_number declared actual hits) =
    (line_number ≡ end_line)
    × (expected.end ≡ some declared)
    × Agrees lines start_line expected.start
    × IsRejection lines line_number declared actual hits

-- how one boundary ends
abbrev Checked : DeclarationField → ℕ → List Text → Option Text → Verdict → Type 0
Checked field line_number lines expected verdict =
    ((verdict ≡ passed) × Agrees lines line_number expected)
    ⊎ ((declared : Text) × (actual : Text) × (hits : List ℕ) × (verdict
          ≡ mismatch field line_number declared actual hits)
        × (expected ≡ some declared)
        × IsRejection lines line_number declared actual hits)

check_line-Checked :
    (field : DeclarationField) (line_number : ℕ) (lines : List Text) (expected : Option Text)
    → Checked field line_number lines expected (check_line field line_number lines expected)
unfolding check_line
check_line-Checked field line_number lines none = inl (refl, tt)
check_line-Checked field line_number lines (some declared) =
    let actual = line_text lines line_number in
    elim (Bool-cases (declared_line_matches declared actual)) [
      | inl agrees ↦
          rw (agrees, check_line) (inl (refl, (actual, line_text-Shows lines line_number, agrees)))
      | inr differs ↦
          let (found, few, rising) =
            hits_from-IsHit declared line_number lines 10 1 lines (omega arith)
              (λ i. ap (get_elem? lines) {x = 1 - 1 + i} {y = i} (omega arith)) in
          rw (differs, check_line)
            (inr (
              declared,
              actual,
              hits_from declared line_number 10 1 lines,
              refl,
              refl,
              record {
                its_line = line_text-Shows lines line_number;
                differs = differs;
                found = found;
                few = few;
                rising = rising;
                complete = λ number (other, low, (line, at, matches)).
                    hits_from_complete declared line_number 10 1 lines number line low other at
                      matches;
              },
            ))
    ]

-- The check of declared lines ends as it should, on every branch: it passes when each declared text matches the
-- line of its boundary, which reads as an empty text where the file has no such line. Otherwise
-- it rejects the first boundary whose declared text does not match its line, with that text, that
-- line and the other lines that the declared text matches, in ascending order: all of them, or
-- the first ten.
pub verify_expected_lines-IsVerdict :
    (start_line end_line : ℕ) (lines : List Text) (expected : ExpectedLines)
    → IsVerdict start_line end_line lines expected
        (verify_expected_lines start_line end_line lines (some expected))
unfolding verify_expected_lines
verify_expected_lines-IsVerdict start_line end_line lines expected =
    elim (check_line-Checked anchor_start start_line lines expected.start) [
      | inl (first, agrees) ↦ elim (check_line-Checked anchor_end end_line lines expected.end) [
        | inl (last, agrees') ↦ rw (first, last, verify_expected_lines) (agrees, agrees')
        | inr (declared, actual, hits, last, given, rejection) ↦
            rw (first, last, verify_expected_lines) (refl, given, agrees, rejection)
      ]
      | inr (declared, actual, hits, first, given, rejection) ↦
          rw (first, verify_expected_lines) (refl, given, rejection)
    ]
