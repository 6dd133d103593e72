-- ===== src/Session/AnchorEntry/Probe/Whole.antt =====
-- src/domain/session/anchor-entry.ts, `probeLines`: a whole call.
use mathlib.Core.Option.{some-injective}
use dsh_hashline_edittool.Base.{
  ℕ, ◌≡◌, sym, ap, ◌∙◌, Bool, List, [], ◌∷◌, some, >>=-eq-some, length, Text, nat_eq, text_eq,
  Ensures-some, List-cases, length-zero, inl, inr, subst,
}
use dsh_hashline_edittool.Base.Sort.{sort, length-sort}
use dsh_hashline_edittool.Infra.Lines.{split_lines}
use dsh_hashline_edittool.Session.AnchorRows.{PersistedAnchorLine}
use dsh_hashline_edittool.Session.AnchorState.{normalize_content}
use dsh_hashline_edittool.Session.AnchorEntry.{EntryState, persisted_anchor_lines}
use dsh_hashline_edittool.Session.AnchorEntry.Probe.{
  AnchorRef, RefVerdict, resolved_at, rejected, InvalidRow, check_refs, resolved_of, rejected_of,
  row_le, conclude, ProbeResult, probe_ok, probe_fail, probe_lines,
}
use dsh_hashline_edittool.Session.AnchorEntry.Probe.Verdict.{
  MayWrite, AllExplain, check_refs-AllExplain,
}

-- what a result holds
places : ProbeResult → List (Text × ℕ)
places (probe_ok resolved mapped) = resolved
places (probe_fail rows reason) = []

reported : ProbeResult → List InvalidRow
reported (probe_ok resolved mapped) = []
reported (probe_fail rows reason) = rows

-- a sorted list is empty only when the list is
sorted_from_nil :
    (verdicts : List (Text × RefVerdict))
    → sort row_le (rejected_of verdicts) ≡ []
    → rejected_of verdicts ≡ []
sorted_from_nil verdicts p =
    length-zero (rejected_of verdicts)
      (sym (length-sort row_le (rejected_of verdicts)) ∙ ap length p)

conclude-probe_ok :
    (anchor_rows : List PersistedAnchorLine) (changed : Bool) (verdicts : List (Text × RefVerdict))
    {resolved mapped : List (Text × ℕ)}
    → conclude anchor_rows changed verdicts ≡ probe_ok resolved mapped
    → (rejected_of verdicts ≡ []) × (resolved_of verdicts ≡ resolved)
unfolding conclude places reported
conclude-probe_ok anchor_rows changed verdicts e =
    elim (List-cases (sort row_le (rejected_of verdicts))) [
      | inl p ↦ (sorted_from_nil verdicts p, ap places (rw (p, conclude) at e))
      | inr (first, rows, p) ↦ absurd (cc (rw (p, conclude) at e))
    ]

module _ (content_checksum : Text → Text) (state : EntryState) (content : Text) where
  abbrev live_rows : List PersistedAnchorLine
  live_rows = persisted_anchor_lines state.path_state.rows

  abbrev file_lines : List Text
  file_lines = split_lines (normalize_content content)

  -- Each reference with its place among the resolved ones.
  abbrev pub AllMayWrite : List AnchorRef → List (Text × ℕ) → Type 0
  AllMayWrite [] [] = Unit
  AllMayWrite [] (place ∷ resolved) = ⊥
  AllMayWrite (ref ∷ refs) [] = ⊥
  AllMayWrite (ref ∷ refs) ((anchor, line) ∷ resolved) =
      (anchor ≡ ref.anchor)
      × MayWrite content_checksum state.served live_rows file_lines ref line
      × AllMayWrite refs resolved

  AllExplain-AllMayWrite :
      (refs : List AnchorRef) (verdicts : List (Text × RefVerdict))
      → AllExplain content_checksum state.served live_rows file_lines refs verdicts
      → rejected_of verdicts ≡ []
      → AllMayWrite refs (resolved_of verdicts)
  unfolding rejected_of resolved_of
  AllExplain-AllMayWrite [] [] h e = tt
  AllExplain-AllMayWrite [] (verdict ∷ verdicts) h e = absurd h
  AllExplain-AllMayWrite (ref ∷ refs) [] h e = absurd h
  AllExplain-AllMayWrite (ref ∷ refs) ((anchor, resolved_at line) ∷ verdicts) (n, p, h) e =
      (n, p, AllExplain-AllMayWrite refs verdicts h e)
  AllExplain-AllMayWrite (ref ∷ refs) ((anchor, rejected fault row) ∷ verdicts) h e = absurd (cc e)

  -- A probe that accepts has resolved every reference, in order, and each may be written: its anchor
  -- is on the row of the line, the line's present content has the key of that row, and the session was
  -- shown this anchor with the fingerprint of that content.
  pub probe_lines-AllMayWrite :
      (refs : List AnchorRef) {resolved mapped : List (Text × ℕ)}
      → probe_lines content_checksum state content refs ≡ some (probe_ok resolved mapped)
      → AllMayWrite refs resolved
  unfolding probe_lines
  probe_lines-AllMayWrite refs e =
      let (verdicts, checked, concluded) =
        >>=-eq-some (check_refs content_checksum state.served live_rows file_lines refs) _ e in
      let (all_resolved, same) =
        conclude-probe_ok live_rows _ verdicts (some-injective _ _ concluded) in
      subst (AllMayWrite refs) same (
        AllExplain-AllMayWrite refs verdicts
          (Ensures-some
            (check_refs-AllExplain content_checksum state.served live_rows file_lines refs) checked)
          all_resolved)
