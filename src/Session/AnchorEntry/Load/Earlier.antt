-- ===== src/Session/AnchorEntry/Load/Earlier.antt =====
-- src/domain/session/anchor-state.ts, `ensureStateAt`: of rows that repeat an anchor, the one of the first line
-- is kept.
use mathlib.Core.Option.{some-injective}
use dsh_hashline_edittool.Base.{
  ℕ, ◌<◌, ◌≡◌, ◌≢◌, sym, ap, ◌∙◌, subst, true, false, List, [], ◌∷◌, none, some, arith, leb, Text,
  nat_eq, text_eq, ◌===◌, has, All, All-map, Pairwise, Bool-cases, inl, inr, ===_sound, ===_refl,
  ===_false,
}
use dsh_hashline_edittool.Base.Map
use dsh_hashline_edittool.Base.Map.{Keyed, All-get}
use dsh_hashline_edittool.Base.Sort.{insert, sort, All-insert}
use dsh_hashline_edittool.Hashline.Alloc.Rows.{AnchorEntry}
use dsh_hashline_edittool.Session.AnchorRows.{PersistedAnchorLine, line_le}
use dsh_hashline_edittool.Session.AnchorRows.Lookup.{get-sort}
use dsh_hashline_edittool.Session.AnchorState.{keep_first}
use dsh_hashline_edittool.Session.AnchorEntry.Load.First.{keep_first-has}

abbrev Above : ℕ → PersistedAnchorLine → Type 0
Above line row = line < row.0

-- the rows stand in the order of their lines
abbrev pub Rising : List PersistedAnchorLine → Type 0
Rising = Pairwise (λ a b. a.0 < b.0)

insert-Rising :
    (line : ℕ) (entry : AnchorEntry) (rows : List PersistedAnchorLine)
    → Map.get rows line ≡ none
    → Rising rows
    → Rising (insert line_le (line, entry) rows)
unfolding insert Map.get
insert-Rising line entry [] g r = (tt, tt)
insert-Rising line entry ((j, w) ∷ rows) g (above, r) = elim (Bool-cases (line === j)) [
  | inl same ↦ absurd (ground (arith, ===_sound line j same, ===_refl j))
  | inr other ↦ elim (Bool-cases (leb line j)) [
    | inl p ↦
        let below : line < j = ground arith in
        rw (p, insert)
          ((below, All-map (λ row (q : j < row.0). omega arith) rows above), (above, r))
    | inr p ↦
        rw (p, insert)
          (
            All-insert line_le (Above j) (line, entry) rows (ground arith) above,
            insert-Rising line entry rows (ground arith) r,
          )
  ]
]

pub sort-Rising : (rows : List PersistedAnchorLine) → Keyed rows → Rising (sort line_le rows)
unfolding sort
sort-Rising [] k = tt
sort-Rising ((line, entry) ∷ rows) (g, k) =
    insert-Rising line entry (sort line_le rows) (get-sort rows line k ∙ g) (sort-Rising rows k)

-- No row of an earlier line has the anchor.
abbrev pub IsFirst : List PersistedAnchorLine → ℕ → Text → Type 0
IsFirst rows i anchor =
    (j : ℕ) (y : AnchorEntry) → Map.get rows j ≡ some y → j < i → y.anchor ≢ anchor

has-apart :
    (a b : Text) (seen : List Text) → has a (b ∷ seen) ≡ false → (a ≢ b) × (has a seen ≡ false)
has-apart a b seen h = elim (Bool-cases (a === b)) [
  | inl p ↦ absurd (cc (p, h))
  | inr p ↦ (===_false a b p, cc (p, h))
]

has-other : (a b : Text) (seen : List Text) → a ≢ b → has a seen ≡ false → has a (b ∷ seen) ≡ false
has-other a b seen apart h = elim (Bool-cases (a === b)) [
  | inl p ↦ absurd (apart (===_sound a b p))
  | inr p ↦ rw p h
]

-- the row of the first line has no row below it
not_below :
    (line : ℕ) (entry : AnchorEntry) (lines : List PersistedAnchorLine) (i j : ℕ) (y : AnchorEntry)
    → All (Above line) lines
    → (line === i) ≡ true
    → Map.get ((line, entry) ∷ lines) j ≡ some y
    → j < i
    → ⊥
unfolding Map.get
not_below line entry lines i j y above p ej lt =
    let at : line ≡ i = ===_sound line i p in
    elim (Bool-cases (line === j)) [
      | inl q ↦ let at' = ===_sound line j q in omega arith
      | inr q ↦
          let low : line < j = All-get (Above line) lines j y above (rw (q, Map.get) at ej) in
          omega arith
    ]

-- a row behind the first is a row
behind :
    (line : ℕ) (entry : AnchorEntry) (lines : List PersistedAnchorLine) (j : ℕ) (y : AnchorEntry)
    → All (Above line) lines
    → Map.get lines j ≡ some y
    → Map.get ((line, entry) ∷ lines) j ≡ some y
unfolding Map.get
behind line entry lines j y above ej =
    let low : line < j = All-get (Above line) lines j y above ej in
    let other : (line === j) ≡ false = ground arith in rw (other, Map.get) ej

-- A row that is kept has an anchor that no earlier row has.
pub keep_first-IsFirst :
    (seen : List Text) (lines : List PersistedAnchorLine) (i : ℕ) (x : AnchorEntry)
    → Rising lines
    → Map.get (keep_first seen lines) i ≡ some x
    → IsFirst lines i x.anchor
unfolding keep_first Map.get
keep_first-IsFirst seen [] i x r e j y ej lt same = cc
keep_first-IsFirst seen ((line, entry) ∷ lines) i x (above, r) e j y ej lt same =
    let inside : Map.get (keep_first (entry.anchor ∷ seen) lines) i ≡ some x → ⊥ = λ later.
      let (apart, _) =
        has-apart x.anchor entry.anchor seen
          (keep_first-has (entry.anchor ∷ seen) lines i x later) in
      elim (Bool-cases (line === j)) [
        | inl p ↦
            let same' : entry ≡ y = some-injective entry y (rw (p, Map.get) at ej) in
            apart (sym same ∙ ap (λ z. z.anchor) (sym same'))
        | inr p ↦
            keep_first-IsFirst (entry.anchor ∷ seen) lines i x r later j y (rw (p, Map.get) at ej)
              lt same
      ] in
    elim (Bool-cases (has entry.anchor seen)) [
      | inl again ↦ inside (rw (again, keep_first) at e)
      | inr first ↦
          let e' : Map.get ((line, entry) ∷ keep_first (entry.anchor ∷ seen) lines) i ≡ some x =
            rw (first, keep_first) at e in
          elim (Bool-cases (line === i)) [
            | inl p ↦ not_below line entry lines i j y above p ej lt
            | inr p ↦ inside (rw (p, Map.get) at e')
          ]
    ]

-- The first row with an anchor that was not seen is kept.
pub keep_first-kept :
    (seen : List Text) (lines : List PersistedAnchorLine) (i : ℕ) (x : AnchorEntry)
    → Rising lines
    → Map.get lines i ≡ some x
    → has x.anchor seen ≡ false
    → IsFirst lines i x.anchor
    → Map.get (keep_first seen lines) i ≡ some x
unfolding keep_first Map.get
keep_first-kept seen [] i x r e unseen first = cc
keep_first-kept seen ((line, entry) ∷ lines) i x (above, r) e unseen first =
    elim (Bool-cases (line === i)) [
      | inl p ↦
          let same : entry ≡ x = some-injective entry x (rw (p, Map.get) at e) in
          let unseen' : has entry.anchor seen ≡ false =
            subst (λ z. has z.anchor seen ≡ false) (sym same) unseen in
          rw (unseen', keep_first, p, Map.get) (ap some same)
      | inr p ↦
          let later : Map.get lines i ≡ some x = rw (p, Map.get) at e in
          let low : line < i = All-get (Above line) lines i x above later in
          let apart : x.anchor ≢ entry.anchor =
            λ same. first line entry (rw (===_refl line, Map.get)) low (sym same) in
          let kept =
            keep_first-kept (entry.anchor ∷ seen) lines i x r later
              (has-other x.anchor entry.anchor seen apart unseen)
              λ j y ej lt. first j y (behind line entry lines j y above ej) lt in
          elim (Bool-cases (has entry.anchor seen)) [
            | inl again ↦ rw (again, keep_first) kept
            | inr new ↦ rw (new, keep_first, p, Map.get) kept
          ]
    ]
