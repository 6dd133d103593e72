-- ===== src/Session/AnchorEntry/Probe/Verdict.antt =====
-- src/domain/session/anchor-entry.ts, `probeLines`: what a verdict says of a reference.
use mathlib.Core.Option.{some-injective}
use dsh_hashline_edittool.Base.{
  ℕ, suc, ◌-◌, ◌≡◌, ◌≢◌, refl, sym, ap, ◌∙◌, List, [], ◌∷◌, none, some, ◌==◌, get_elem?, Text,
  nat_eq, text_eq, ◌===◌, Ensures, returned, Ensures-bind, Ensures-of, Bool-cases, Option-cases,
  inl, inr, ◌⊎◌, ===_sound, ===_false,
}
use dsh_hashline_edittool.Base.Map
use dsh_hashline_edittool.Hashline.Alloc.Hash.{content_key}
use dsh_hashline_edittool.Hashline.Alloc.Rows.{AnchorEntry}
use dsh_hashline_edittool.Session.ServedCodec.{Served}
use dsh_hashline_edittool.Session.AnchorRows.{PersistedAnchorLine}
use dsh_hashline_edittool.Session.AnchorEntry.{fingerprint}
use dsh_hashline_edittool.Session.AnchorEntry.Probe.{
  AnchorRef, RefVerdict, resolved_at, rejected, not_live_fault, not_served_fault, rebound_fault,
  stale, InvalidRow, by_anchor, row_of_claim, check_live, check_ref, check_refs,
}

-- A row stands among the rows.
abbrev pub Row : List PersistedAnchorLine → PersistedAnchorLine → Type 0
Row rows row = (index : ℕ) × (get_elem? rows index ≡ some row)

-- what a lookup by anchor finds is a row with that anchor
abbrev IsRowOf : List PersistedAnchorLine → Text → PersistedAnchorLine → Type 0
IsRowOf rows anchor row = Row rows row × (row.1.anchor ≡ anchor)

by_anchor-IsRowOf :
    (out : List (Text × PersistedAnchorLine)) (rows : List PersistedAnchorLine) (anchor : Text)
    (row : PersistedAnchorLine)
    → Map.get (by_anchor out rows) anchor ≡ some row
    → (Map.get out anchor ≡ some row) ⊎ IsRowOf rows anchor row
unfolding by_anchor
by_anchor-IsRowOf out [] anchor row e = inl e
by_anchor-IsRowOf out (first ∷ rows) anchor row e =
    let written = Map.get-put out first.1.anchor anchor first in
    elim (by_anchor-IsRowOf (Map.put out first.1.anchor first) rows anchor row e) [
      | inr ((index, at), named) ↦ inr ((suc index, at), named)
      | inl found ↦ elim (Bool-cases (first.1.anchor === anchor)) [
        | inr p ↦ inl (sym (rw p at written) ∙ found)
        | inl p ↦
            let same : first ≡ row = some-injective first row (sym (rw p at written) ∙ found) in
            inr (
              (0, ap some same),
              ap (λ r. r.1.anchor) (sym same) ∙ ===_sound first.1.anchor anchor p,
            )
      ]
    ]

module _ (content_checksum : Text → Text) (served : Served) (anchor_rows : List PersistedAnchorLine)
    (current_lines : List Text) where
  -- The reference may be written at this line: its anchor is that of a row, whose line still has the
  -- content that the anchor was minted for, and the session was shown that line with that anchor.
  pub record MayWrite (ref : AnchorRef) (line : ℕ) : Type 0 where
    pub claims : ref.anchor ≢ []
    pub entry : AnchorEntry
    pub row : Row anchor_rows (line, entry)
    pub named : entry.anchor ≡ ref.anchor
    pub text : Text
    pub text_at : get_elem? current_lines (line - 1) ≡ some text
    pub unchanged : entry.content_key ≡ content_key text
    pub shown : Map.get served ref.anchor ≡ some (fingerprint content_checksum text)

  -- The row that a rejection of a live anchor reports.
  abbrev pub Reports : AnchorRef → InvalidRow → ℕ → AnchorEntry → Text → Type 0
  Reports ref invalid line entry text =
      Row anchor_rows (line, entry)
      × (entry.anchor ≡ ref.anchor)
      × (get_elem? current_lines (line - 1) ≡ some text)
      × (invalid ≡ record {
        line = line;
        current = entry.anchor;
        given = ref.anchor;
        content_key = content_key text;
      })

  -- A live anchor's rejection, with what it fails.
  pub record Fails (Why : AnchorEntry → Text → Type 0) (ref : AnchorRef) (invalid : InvalidRow)
      : Type 0 where
    pub line : ℕ
    pub entry : AnchorEntry
    pub text : Text
    pub reports : Reports ref invalid line entry text
    pub why : Why entry text

  -- What a verdict says of a reference: it may be written at a line, or names no live anchor, or a line
  -- whose content has changed, or a line that the session was not shown with this anchor, or was
  -- shown with another content.
  abbrev pub Explains : AnchorRef → RefVerdict → Type 0
  Explains ref (resolved_at line) = MayWrite ref line
  Explains ref (rejected not_live_fault invalid) =
      (ref.anchor ≢ [])
      × (Map.get (by_anchor [] anchor_rows) ref.anchor ≡ none)
      × (invalid ≡ row_of_claim content_checksum served anchor_rows current_lines ref)
  Explains ref (rejected not_served_fault invalid) =
      ((ref.anchor ≡ [])
        × (invalid ≡ row_of_claim content_checksum served anchor_rows current_lines ref))
      ⊎ Fails
          (λ entry text.
            (entry.content_key ≡ content_key text) × (Map.get served ref.anchor ≡ none))
          ref invalid
  Explains ref (rejected rebound_fault invalid) =
      Fails
        (λ entry text.
          (entry.content_key ≡ content_key text)
          × ((key : Text) × (Map.get served ref.anchor ≡ some key)
              × (key ≢ fingerprint content_checksum text)))
        ref invalid
  Explains ref (rejected stale invalid) =
      Fails (λ entry text. entry.content_key ≢ content_key text) ref invalid

  check_live-Explains :
      (ref : AnchorRef) (row : PersistedAnchorLine) (text : Text)
      → ref.anchor ≢ []
      → IsRowOf anchor_rows ref.anchor row
      → get_elem? current_lines (row.0 - 1) ≡ some text
      → Explains ref (check_live content_checksum served anchor_rows current_lines ref row text)
  unfolding check_live
  check_live-Explains ref row text claims (at, named) text_at =
      elim (Bool-cases (row.1.content_key == content_key text)) [
        | inr p ↦
            rw (p, check_live)
              (record {
                line = row.0;
                entry = row.1;
                text = text;
                reports = (at, named, text_at, refl);
                why = ===_false row.1.content_key (content_key text) p;
              })
        | inl p ↦
            let same = ===_sound row.1.content_key (content_key text) p in
            elim (Option-cases (Map.get served ref.anchor)) [
              | inl q ↦
                  rw (p, q, check_live)
                    (inr (record {
                      line = row.0;
                      entry = row.1;
                      text = text;
                      reports = (at, named, text_at, refl);
                      why = (same, q);
                    }))
              | inr (key, q) ↦ elim (Bool-cases (key === fingerprint content_checksum text)) [
                | inr r ↦
                    rw (p, q, r, check_live)
                      (record {
                        line = row.0;
                        entry = row.1;
                        text = text;
                        reports = (at, named, text_at, refl);
                        why = (same, (key, q, ===_false key (fingerprint content_checksum text) r));
                      })
                | inl r ↦
                    rw (p, q, r, check_live)
                      (record {
                        claims = claims;
                        entry = row.1;
                        row = at;
                        named = named;
                        text = text;
                        text_at = text_at;
                        unchanged = same;
                        shown = q ∙ ap some (===_sound key (fingerprint content_checksum text) r);
                      })
              ]
            ]
      ]

  check_ref-Explains :
      (ref : AnchorRef)
      → Ensures (Explains ref) (check_ref content_checksum served anchor_rows current_lines ref)
  unfolding check_ref
  check_ref-Explains ref = elim (Bool-cases (ref.anchor === [])) [
    | inl p ↦ rw (p, check_ref) (returned (inl (===_sound ref.anchor [] p, refl)))
    | inr p ↦
        let claims = ===_false ref.anchor [] p in
        elim (Option-cases (Map.get (by_anchor [] anchor_rows) ref.anchor)) [
          | inl q ↦ rw (p, q, check_ref) (returned (claims, q, refl))
          | inr (row, q) ↦ elim (by_anchor-IsRowOf [] anchor_rows ref.anchor row q) [
            | inl found ↦ absurd (cc found)
            | inr is_row ↦
                rw (p, q, check_ref)
                  (Ensures-bind (Ensures-of (get_elem? current_lines (row.0 - 1)) λ text e. e)
                    λ text text_at.
                      returned (check_live-Explains ref row text claims is_row text_at))
          ]
        ]
  ]

  -- The verdicts on references, each for the reference at its place.
  abbrev pub AllExplain : List AnchorRef → List (Text × RefVerdict) → Type 0
  AllExplain [] [] = Unit
  AllExplain [] (verdict ∷ verdicts) = ⊥
  AllExplain (ref ∷ refs) [] = ⊥
  AllExplain (ref ∷ refs) ((anchor, verdict) ∷ verdicts) =
      (anchor ≡ ref.anchor) × Explains ref verdict × AllExplain refs verdicts

  pub check_refs-AllExplain :
      (refs : List AnchorRef)
      → Ensures
          (AllExplain refs)
          (check_refs content_checksum served anchor_rows current_lines refs)
  unfolding check_refs
  check_refs-AllExplain [] = returned tt
  check_refs-AllExplain (ref ∷ refs) =
      Ensures-bind (check_ref-Explains ref)
        (λ verdict p. Ensures-bind (check_refs-AllExplain refs) λ verdicts q. returned (refl, p, q))
