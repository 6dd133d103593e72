-- ===== src/Session/AnchorEntry/Load/First.antt =====
-- src/domain/session/anchor-state.ts, `ensureStateAt`: the rows that are kept of rows that repeat an anchor.
use mathlib.Core.Option.{some-injective}
use dsh_hashline_edittool.Base.{
  ℕ, suc, ◌≤◌, ◌≡◌, ◌≢◌, refl, sym, ap, ◌∙◌, subst, false, List, [], ◌∷◌, some, arith, length, Text,
  nat_eq, text_eq, ◌===◌, has, Bool-cases, Option-cases, inl, inr, ===_sound, same_text_refl,
}
use dsh_hashline_edittool.Base.Map
use dsh_hashline_edittool.Base.Map.{Keyed}
use dsh_hashline_edittool.Hashline.Alloc.Rows.{AnchorEntry}
use dsh_hashline_edittool.Hashline.Alloc.Rows.Live.{Apart}
use dsh_hashline_edittool.Session.AnchorRows.{PersistedAnchorLine}
use dsh_hashline_edittool.Session.AnchorState.{keep_first}

-- what is kept was there
pub keep_first-get :
    (seen : List Text) (lines : List PersistedAnchorLine) (i : ℕ) (x : AnchorEntry)
    → Keyed lines
    → Map.get (keep_first seen lines) i ≡ some x
    → Map.get lines i ≡ some x
unfolding keep_first Map.get
keep_first-get seen [] i x k e = e
keep_first-get seen ((line, entry) ∷ lines) i x (g, k) e =
    let rest = keep_first-get (entry.anchor ∷ seen) lines i x k in
    elim (Bool-cases (has entry.anchor seen)) [
      | inl again ↦
          let found = rest (rw (again, keep_first) at e) in
          elim (Bool-cases (line === i)) [
            | inl p ↦ absurd (cc (found, g, ap (Map.get lines) (===_sound line i p)))
            | inr p ↦ rw p found
          ]
      | inr first ↦
          let e' : Map.get ((line, entry) ∷ keep_first (entry.anchor ∷ seen) lines) i ≡ some x =
            rw (first, keep_first) at e in
          elim (Bool-cases (line === i)) [
            | inl p ↦ rw p (rw (p, Map.get) at e')
            | inr p ↦ rw p (rest (rw (p, Map.get) at e'))
          ]
    ]

-- what is kept has an anchor that was not seen
pub keep_first-has :
    (seen : List Text) (lines : List PersistedAnchorLine) (i : ℕ) (x : AnchorEntry)
    → Map.get (keep_first seen lines) i ≡ some x
    → has x.anchor seen ≡ false
unfolding keep_first Map.get
keep_first-has seen [] i x e = absurd (cc e)
keep_first-has seen ((line, entry) ∷ lines) i x e =
    let rest = keep_first-has (entry.anchor ∷ seen) lines i x in
    elim (Bool-cases (has entry.anchor seen)) [
      | inl again ↦ let later = rest (rw (again, keep_first) at e) in ground arith
      | inr first ↦
          let e' : Map.get ((line, entry) ∷ keep_first (entry.anchor ∷ seen) lines) i ≡ some x =
            rw (first, keep_first) at e in
          elim (Bool-cases (line === i)) [
            | inl p ↦
                let same : entry ≡ x = some-injective entry x (rw (p, Map.get) at e') in
                subst (λ y. has y.anchor seen ≡ false) same first
            | inr p ↦ let later = rest (rw (p, Map.get) at e') in ground arith
          ]
    ]

pub keep_first-Keyed :
    (seen : List Text) (lines : List PersistedAnchorLine)
    → Keyed lines
    → Keyed (keep_first seen lines)
unfolding keep_first
keep_first-Keyed seen [] k = tt
keep_first-Keyed seen ((line, entry) ∷ lines) (g, k) =
    let rest = keep_first-Keyed (entry.anchor ∷ seen) lines k in
    elim (Bool-cases (has entry.anchor seen)) [
      | inl again ↦ rw (again, keep_first) rest
      | inr first ↦
          rw (first, keep_first)
            (
              elim (Option-cases (Map.get (keep_first (entry.anchor ∷ seen) lines) line)) [
                | inl free ↦ free
                | inr (x, taken) ↦
                    absurd (cc (keep_first-get (entry.anchor ∷ seen) lines line x k taken, g))
              ],
              rest,
            )
    ]

pub keep_first-Apart :
    (seen : List Text) (lines : List PersistedAnchorLine) → Apart (keep_first seen lines)
unfolding keep_first Map.get
keep_first-Apart seen [] i j x y ei ej ne same = absurd (cc ei)
keep_first-Apart seen ((line, entry) ∷ lines) i j x y ei ej ne same =
    let rest = keep_first-Apart (entry.anchor ∷ seen) lines i j x y in
    elim (Bool-cases (has entry.anchor seen)) [
      | inl again ↦ rest (rw (again, keep_first) at ei) (rw (again, keep_first) at ej) ne same
      | inr first ↦
          let kept = keep_first (entry.anchor ∷ seen) lines in
          let ei' : Map.get ((line, entry) ∷ kept) i ≡ some x = rw (first, keep_first) at ei in
          let ej' : Map.get ((line, entry) ∷ kept) j ≡ some y = rw (first, keep_first) at ej in
          let fresh : (k : ℕ) (z : AnchorEntry)
              → Map.get kept k ≡ some z
              → z.anchor ≢ entry.anchor =
            λ k z e at.
              let unseen = keep_first-has (entry.anchor ∷ seen) lines k z e in
              ground (arith, same_text_refl entry.anchor) in
          elim (Bool-cases (line === i)) [
            | inl p ↦
                let x_same : entry ≡ x = some-injective entry x (rw (p, Map.get) at ei') in
                elim (Bool-cases (line === j)) [
                  | inl q ↦ absurd (ne (sym (===_sound line i p) ∙ ===_sound line j q))
                  | inr q ↦ absurd (
                      fresh j y (rw (q, Map.get) at ej')
                        (sym same ∙ ap (λ z. z.anchor) (sym x_same)))
                ]
            | inr p ↦ elim (Bool-cases (line === j)) [
              | inl q ↦
                  let y_same : entry ≡ y = some-injective entry y (rw (q, Map.get) at ej') in
                  absurd
                    (fresh i x (rw (p, Map.get) at ei') (same ∙ ap (λ z. z.anchor) (sym y_same)))
              | inr q ↦ rest (rw (p, Map.get) at ei') (rw (q, Map.get) at ej') ne same
            ]
          ]
    ]

pub length-keep_first :
    (seen : List Text) (lines : List PersistedAnchorLine)
    → length (keep_first seen lines) ≤ length lines
unfolding keep_first
length-keep_first seen [] = omega arith
length-keep_first seen ((line, entry) ∷ lines) =
    let rest = length-keep_first (entry.anchor ∷ seen) lines in
    elim (Bool-cases (has entry.anchor seen)) [
      | inl again ↦ rw (again, keep_first) (omega arith)
      | inr first ↦ rw (first, keep_first) (omega arith)
    ]

pub keep_first-all :
    (seen : List Text) (lines : List PersistedAnchorLine)
    → length (keep_first seen lines) ≡ length lines
    → keep_first seen lines ≡ lines
unfolding keep_first
keep_first-all seen [] h = refl
keep_first-all seen ((line, entry) ∷ lines) h =
    let short = length-keep_first (entry.anchor ∷ seen) lines in
    elim (Bool-cases (has entry.anchor seen)) [
      | inl again ↦
          let h' : length (keep_first (entry.anchor ∷ seen) lines) ≡ suc (length lines) =
            rw (again, keep_first) at h in
          absurd (omega arith)
      | inr first ↦
          let h' : suc (length (keep_first (entry.anchor ∷ seen) lines)) ≡ suc (length lines) =
            rw (first, keep_first) at h in
          rw (first, keep_first)
            (ap (λ rest. (line, entry) ∷ rest)
              (keep_first-all (entry.anchor ∷ seen) lines (omega arith)))
    ]
