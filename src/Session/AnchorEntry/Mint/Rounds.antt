-- ===== src/Session/AnchorEntry/Mint/Rounds.antt =====
-- src/domain/session/anchor-entry.ts, `anchorFor`: the maps that a call builds from lines in ascending order.
use dsh_hashline_edittool.Base.{
  ℕ, ◌<◌, ◌≡◌, refl, sym, ap, ◌∙◌, List, [], ◌∷◌, ◌++◌, append-nil, append_assoc, le→leb, none,
  arith, leb, Text, nat_eq, text_eq, ◌===◌, All, All-everywhere, Pairwise, Bool-cases, inl, inr,
  ===_sound,
}
use dsh_hashline_edittool.Base.Map
use dsh_hashline_edittool.Base.Map.{Keyed}
use dsh_hashline_edittool.Base.Sort.{sort, insert}
use dsh_hashline_edittool.Hashline.Alloc.Rows.{row_lines}
use dsh_hashline_edittool.Session.AnchorEntry.Mint.{text_by_line}

-- The lines come in strictly ascending order.
abbrev pub Ascending : List (ℕ × Text) → Type 0
Ascending rows = Pairwise (λ a b. a.0 < b.0) rows

module _ {ℓ} {V : Type ℓ} where
  above-none :
      (line : ℕ) (rows : List (ℕ × V)) → All (λ row. line < row.0) rows → Map.get rows line ≡ none
  unfolding Map.get
  above-none line [] h = refl
  above-none line ((j, v) ∷ rows) (p, h) = ground (arith, above-none line rows h, ===_sound j line)

  put-fresh :
      (rows : List (ℕ × V)) (line : ℕ) (v : V)
      → Map.get rows line ≡ none
      → Map.put rows line v ≡ rows ++ (line, v) ∷ []
  unfolding Map.get Map.put
  put-fresh [] line v h = refl
  put-fresh ((j, w) ∷ rows) line v h = elim (Bool-cases (j === line)) [
    | inl p ↦ absurd (cc (rw (p, Map.get) at h))
    | inr p ↦
        rw (p, Map.put) (ap (λ rest. (j, w) ∷ rest) (put-fresh rows line v (rw (p, Map.get) at h)))
  ]

pub Ascending-Keyed : (rows : List (ℕ × Text)) → Ascending rows → Keyed rows
Ascending-Keyed [] h = tt
Ascending-Keyed ((line, text) ∷ rows) (above, h) =
    (above-none line rows above, Ascending-Keyed rows h)

put-All :
    (out rows : List (ℕ × Text)) (line : ℕ) (text : Text)
    → Map.get rows line ≡ none
    → All (λ row. Map.get out row.0 ≡ none) rows
    → All (λ row. Map.get (Map.put out line text) row.0 ≡ none) rows
unfolding Map.get
put-All out [] line text g h = tt
put-All out ((j, other) ∷ rows) line text g (free, h) = (
  ground (arith, Map.get-put out line j text, ===_sound line j),
  put-All out rows line text (ground arith) h,
)

text_by_line-append :
    (out rows : List (ℕ × Text))
    → Keyed rows
    → All (λ row. Map.get out row.0 ≡ none) rows
    → text_by_line out rows ≡ out ++ rows
unfolding text_by_line
text_by_line-append out [] k h = sym (append-nil out)
text_by_line-append out ((line, text) ∷ rows) (g, k) (free, h) =
    text_by_line-append (Map.put out line text) rows k (put-All out rows line text g h)
    ∙ rw (put-fresh out line text free) (append_assoc out ((line, text) ∷ []) rows)

pub sort-ascending :
    (rows : List (ℕ × Text)) → Ascending rows → sort leb (row_lines rows) ≡ row_lines rows
unfolding sort insert
sort-ascending [] h = refl
sort-ascending ((line, text) ∷ []) h = refl
sort-ascending ((line, text) ∷ (next, other) ∷ rows) ((below, above), h) =
    let rest = sort-ascending ((next, other) ∷ rows) h in
    rw (rest, le→leb line next (omega arith), insert)

pub text_by_line-Keyed : (rows : List (ℕ × Text)) → Keyed rows → text_by_line [] rows ≡ rows
unfolding Map.get
text_by_line-Keyed rows k = text_by_line-append [] rows k (All-everywhere rows λ row. refl)
