-- ===== src/Hashline/Span/Changed.antt =====
-- src/hashline/anchor-pipeline.ts: the range of lines in which two texts differ.
use mathlib.Core.Option.{some-injective}
use dsh_hashline_edittool.Base.{
  ℕ, zero, suc, ◌+◌, ◌-◌, ◌≤◌, ◌≡◌, ◌≢◌, max, refl, ap, sym, ◌∙◌, false, ◌&&◌, ◌⊎◌, List, [], ◌∷◌,
  Option, none, some, arith, Text, length, take, drop, get_or, get_elem?, inl, inr, Bool-cases, leb,
  leb→le, ◌==◌, text_eq, ◌===◌, ===_sound, ===_refl, ===_false, get_elem?-eq-get_or, drop-all,
  drop-drop,
}
use dsh_hashline_edittool.Infra.Lines.{split_lines}
use dsh_hashline_edittool.Hashline.Span.{
  same_lines, agreeing, unmatched, range_of, changed_range, LineRange,
}
use dsh_hashline_edittool.Hashline.Span.Offsets.{drop-cons}
use dsh_hashline_edittool.Hashline.Span.Spans.{same_lines_sound}
use dsh_hashline_edittool.Hashline.Span.Texts.{lines-ne-nil, nil_of}

take-agreeing : (xs ys : List Text) → take (agreeing xs ys) xs ≡ take (agreeing xs ys) ys
unfolding agreeing
take-agreeing [] ys = refl
take-agreeing (x ∷ xs) [] = refl
take-agreeing (x ∷ xs) (y ∷ ys) = ground (arith, take-agreeing xs ys, ===_sound x y)

agreeing-differ :
    (xs ys : List Text)
    → same_lines xs ys ≡ false
    → get_elem? xs (agreeing xs ys) ≢ get_elem? ys (agreeing xs ys)
unfolding agreeing
agreeing-differ [] [] h e = cc
agreeing-differ [] (y ∷ ys) h e = cc
agreeing-differ (x ∷ xs) [] h e = cc
agreeing-differ (x ∷ xs) (y ∷ ys) h e = elim (Bool-cases (x === y)) [
  | inl p ↦ agreeing-differ xs ys (rw p at h) (rw (p, agreeing) at e)
  | inr p ↦ let heads : some x ≡ some y = (rw (p, agreeing) at e) in ground (arith, ===_refl x)
]

-- What the loop from the end leaves: the lines behind agree, as many of each text.
unmatched-drop :
    (first : ℕ) (xs ys : List Text) (o r : ℕ)
    → o ≤ length xs
    → r ≤ length ys
    → drop o xs ≡ drop r ys
    → (drop (unmatched first xs ys o r).0 xs ≡ drop (unmatched first xs ys o r).1 ys)
      × ((unmatched first xs ys o r).0 + r ≡ (unmatched first xs ys o r).1 + o)
unfolding unmatched
unmatched-drop first xs ys zero r ho hr h = (h, omega arith)
unmatched-drop first xs ys (suc o) zero ho hr h = (h, omega arith)
unmatched-drop first xs ys (suc o) (suc r) ho hr h =
    elim (Bool-cases (leb first o && leb first r && get_or xs o [] === get_or ys r [])) [
      | inl p ↦
          let same : get_or xs o [] ≡ get_or ys r [] =
            ===_sound (get_or xs o []) (get_or ys r []) (ground arith) in
          let rest = unmatched-drop first xs ys o r (omega arith) (omega arith) (
            drop-cons xs o [] (omega arith)
            ∙ ap (λ t. get_or xs o [] ∷ t) h
            ∙ ap (λ t. t ∷ drop (suc r) ys) same
            ∙ sym (drop-cons ys r [] (omega arith))) in
          rw (p, unmatched) (rest.0, omega (arith, rest.1))
      | inr p ↦ rw (p, unmatched) (h, omega arith)
    ]

-- Where the loop from the end stops: at the first line that differs, in one of the texts, or behind
-- two lines that differ.
unmatched-stops :
    (first : ℕ) (xs ys : List Text) (o r : ℕ)
    → o ≤ length xs
    → r ≤ length ys
    → first ≤ o
    → first ≤ r
    → let left = unmatched first xs ys o r in
      (first ≤ left.0)
      × (first ≤ left.1)
      × ((left.0 ≡ first)
          ⊎ (left.1 ≡ first)
          ⊎ (get_elem? xs (left.0 - 1) ≢ get_elem? ys (left.1 - 1)))
unfolding unmatched
unmatched-stops first xs ys zero r ho hr fo fr = (omega arith, omega arith, inl (omega arith))
unmatched-stops first xs ys (suc o) zero ho hr fo fr =
    (omega arith, omega arith, inr (inl (omega arith)))
unmatched-stops first xs ys (suc o) (suc r) ho hr fo fr =
    elim (Bool-cases (leb first o && leb first r && get_or xs o [] === get_or ys r [])) [
      | inl p ↦
          rw (p, unmatched)
            (unmatched-stops first xs ys o r (omega arith) (omega arith) (ground arith)
              (ground arith))
      | inr p ↦
          let stops : (suc o ≡ first) ⊎ (suc r ≡ first) ⊎ (get_elem? xs o ≢ get_elem? ys r) =
            elim (Bool-cases (get_or xs o [] === get_or ys r [])) [
              | inl same ↦ ground arith
              | inr other ↦ inr (
                  inr λ e. ===_false (get_or xs o []) (get_or ys r []) other (
                    some-injective _ _ (
                      sym (get_elem?-eq-get_or xs o [] (omega arith))
                      ∙ e
                      ∙ get_elem?-eq-get_or ys r [] (omega arith))))
            ] in
          let o' : suc o - 1 ≡ o = omega arith in
          let r' : suc r - 1 ≡ r = omega arith in
          rw (p, unmatched, o', r') (omega arith, omega arith, stops)
    ]

-- The last line of a range cannot be an earlier one: the range is a single line, or holds no line of
-- the first text, or its last lines differ.
abbrev pub EndsTight : List Text → List Text → ℕ → ℕ → Type 0
EndsTight xs ys first last =
    (last ≡ first)
    ⊎ (last + length xs ≡ first - 1 + length ys)
    ⊎ (get_elem? xs (last + length xs - length ys - 1) ≢ get_elem? ys (last - 1))

-- What a reported range says of the lines of two texts: the lines in front of it and those behind it
-- are the same; it starts at a line that differs and does not end later than it has to, or the first
-- text is empty and all lines are in it; without a range, all lines are the same.
abbrev pub IsRange : List Text → List Text → Option LineRange → Type 0
IsRange xs ys none = xs ≡ ys
IsRange xs ys (some range) =
    (1 ≤ range.first_changed_line)
    × (range.first_changed_line ≤ range.last_changed_line)
    × (take (range.first_changed_line - 1) xs ≡ take (range.first_changed_line - 1) ys)
    × (drop (range.last_changed_line + length xs - length ys) xs ≡ drop range.last_changed_line ys)
    × (((xs ≡ [] ∷ []) × (range.first_changed_line ≡ 1) × (range.last_changed_line ≡ length ys))
        ⊎ ((get_elem? xs (range.first_changed_line - 1)
              ≢ get_elem? ys (range.first_changed_line - 1))
            × EndsTight xs ys range.first_changed_line range.last_changed_line))

behind :
    (xs ys : List Text) (o r last : ℕ)
    → drop o xs ≡ drop r ys
    → o + length ys ≡ r + length xs
    → r ≤ last
    → drop (last + length xs - length ys) xs ≡ drop last ys
behind xs ys o r last h e below =
    ap (λ n. drop n xs) {x = last + length xs - length ys} {y = o + (last - r)} (omega arith)
    ∙ sym (drop-drop (last - r) o xs)
    ∙ ap (drop (last - r)) h
    ∙ drop-drop (last - r) r ys
    ∙ ap (λ n. drop n ys) {x = r + (last - r)} {y = last} (omega arith)

agreeing-le : (xs ys : List Text) → (agreeing xs ys ≤ length xs) × (agreeing xs ys ≤ length ys)
unfolding agreeing
agreeing-le [] ys = omega arith
agreeing-le (x ∷ xs) [] = omega arith
agreeing-le (x ∷ xs) (y ∷ ys) = ground (arith, agreeing-le xs ys)

ends_tight :
    (xs ys : List Text) (first o r : ℕ)
    → o + length ys ≡ r + length xs
    → (o ≡ first) ⊎ (r ≡ first) ⊎ (get_elem? xs (o - 1) ≢ get_elem? ys (r - 1))
    → EndsTight xs ys (first + 1) (max (first + 1) r)
ends_tight xs ys first o r e stops = elim (Bool-cases (leb r (first + 1))) [
  | inl p ↦ let small = leb→le r (first + 1) p in inl (omega arith)
  | inr p ↦
      let large : max (first + 1) r ≡ r = ground arith in
      let old : r + length xs - length ys ≡ o = omega arith in
      elim stops [
        | inl q ↦ inr (inl (omega arith))
        | inr (inl q) ↦ absurd (ground arith)
        | inr (inr q) ↦ rw (large, old) (inr (inr q))
      ]
]

range_of-IsRange : (xs ys : List Text) → IsRange xs ys (range_of xs ys)
unfolding range_of
range_of-IsRange xs ys = elim (Bool-cases (same_lines xs ys)) [
  | inl same ↦ rw (same, range_of) (same_lines_sound xs ys same)
  | inr other ↦
      let first = agreeing xs ys in
      let left = unmatched first xs ys (length xs) (length ys) in
      let loop =
        unmatched-drop first xs ys (length xs) (length ys) (omega arith) (omega arith)
          (drop-all (length xs) xs (omega arith) ∙ sym (drop-all (length ys) ys (omega arith))) in
      let front : first + 1 - 1 ≡ first = omega arith in
      let (below, below') = agreeing-le xs ys in
      let stops =
        unmatched-stops first xs ys (length xs) (length ys) (omega arith) (omega arith) below
          below' in
      rw (other, range_of, front)
        (
          (omega arith),
          omega arith,
          take-agreeing xs ys,
          behind xs ys left.0 left.1 (max (first + 1) left.1) loop.0 loop.1 (omega arith),
          inr (
            agreeing-differ xs ys other,
            rw front at (ends_tight xs ys first left.0 left.1 loop.1 stops.2),
          ),
        )
]

from_nothing :
    (lines : List Text)
    → lines ≢ []
    → IsRange
        ([] ∷ [])
        lines
        (some record { first_changed_line = 1; last_changed_line = length lines })
from_nothing [] h = absurd (h refl)
from_nothing (line ∷ lines) h = (
  omega arith,
  omega arith,
  refl,
  ap (λ n. drop n ([] ∷ [])) {x = length (line ∷ lines) + 1 - length (line ∷ lines)} {y = 1}
        (omega arith)
      ∙ sym (drop-all (length lines) lines (omega arith)),
  inl (refl, refl, refl),
)

-- The reported range of changed lines is the right one for every two texts. In front of it and behind it both
-- texts have the same lines, and it has a first line, which is not behind its last. If the first
-- text has one line without a character, it may be all lines of the second. Otherwise its first
-- line differs, and its end is no later than it has to be: it is a single line, or it holds none of
-- the first text's lines, or its last line differs from the line of the first text in front of
-- the lines that are the same. Without a range all lines are the same.
pub changed_range-IsRange :
    (original result : Text)
    → IsRange (split_lines original) (split_lines result) (changed_range original result)
unfolding changed_range split_lines
changed_range-IsRange original result = elim (Bool-cases (original === result)) [
  | inl same ↦ rw (same, changed_range) (ap split_lines (===_sound original result same))
  | inr other ↦ elim (Bool-cases (length original == 0)) [
    | inl nil ↦
        let lines : split_lines original ≡ [] ∷ [] =
          ap split_lines (nil_of original (ground arith)) in
        rw (other, nil, changed_range, lines)
          (from_nothing (split_lines result) (lines-ne-nil result))
    | inr full ↦
        rw (other, full, changed_range)
          (range_of-IsRange (split_lines original) (split_lines result))
  ]
]
