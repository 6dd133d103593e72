-- ===== src/Session/AnchorEntry/Probe/Complete.antt =====
-- src/domain/session/anchor-entry.ts, `probeLines`: a reference that may be written is resolved.
use mathlib.Core.Option.{some-injective}
use dsh_hashline_edittool.Base.{
  ℕ, ◌-◌, ◌≡◌, ◌≢◌, refl, sym, ap, ◌∙◌, List, [], ◌∷◌, map, none, some, get_elem?, Text, nat_eq,
  text_eq, ◌===◌, All, All-map, Bool-cases, inl, inr, ◌⊎◌, ===_sound, ===_of_ne, ===_false,
  ===_refl,
}
use dsh_hashline_edittool.Base.Map
use dsh_hashline_edittool.Base.Map.{Keyed, Keyed-All}
use dsh_hashline_edittool.Hashline.Alloc.Hash.{content_key}
use dsh_hashline_edittool.Hashline.Alloc.Rows.{AnchorEntry}
use dsh_hashline_edittool.Hashline.Alloc.Rows.Live.{Apart, entry_of}
use dsh_hashline_edittool.Session.ServedCodec.{Served}
use dsh_hashline_edittool.Session.AnchorRows.{PersistedAnchorLine}
use dsh_hashline_edittool.Base.Sort.{sort}
use dsh_hashline_edittool.Infra.Lines.{split_lines}
use dsh_hashline_edittool.Session.AnchorState.{normalize_content}
use dsh_hashline_edittool.Session.AnchorEntry.{EntryState, persisted_anchor_lines, fingerprint}
use dsh_hashline_edittool.Session.AnchorEntry.Probe.{
  AnchorRef, RefVerdict, resolved_at, by_anchor, check_live, check_ref, check_refs, rejected_of,
  resolved_of, conclude, probe_ok, probe_lines, mapped_of,
}

module _ (i : ℕ) (entry : AnchorEntry) where
  -- only the row of the line has the anchor
  abbrev Only : PersistedAnchorLine → Type 0
  Only row = row.1.anchor ≡ entry.anchor → row ≡ (i, entry)

  put-Only :
      (out : List (Text × PersistedAnchorLine)) (row : PersistedAnchorLine)
      → Only row
      → ((row.1.anchor ≡ entry.anchor) ⊎ (Map.get out entry.anchor ≡ some (i, entry)))
      → Map.get (Map.put out row.1.anchor row) entry.anchor ≡ some (i, entry)
  put-Only out row only h =
      let written = Map.get-put out row.1.anchor entry.anchor row in
      elim (Bool-cases (row.1.anchor === entry.anchor)) [
        | inl p ↦ written ∙ rw p (ap some (only (===_sound row.1.anchor entry.anchor p)))
        | inr p ↦ elim h [
          | inl same ↦ absurd (===_false row.1.anchor entry.anchor p same)
          | inr kept ↦ written ∙ rw p kept
        ]
      ]

  by_anchor-kept :
      (out : List (Text × PersistedAnchorLine)) (rows : List PersistedAnchorLine)
      → All Only rows
      → Map.get out entry.anchor ≡ some (i, entry)
      → Map.get (by_anchor out rows) entry.anchor ≡ some (i, entry)
  unfolding by_anchor
  by_anchor-kept out [] o h = h
  by_anchor-kept out (row ∷ rows) (only, o) h =
      by_anchor-kept (Map.put out row.1.anchor row) rows o (put-Only out row only (inr h))

  by_anchor-found :
      (out : List (Text × PersistedAnchorLine)) (rows : List PersistedAnchorLine)
      → All Only rows
      → Map.get rows i ≡ some entry
      → Map.get (by_anchor out rows) entry.anchor ≡ some (i, entry)
  unfolding by_anchor Map.get
  by_anchor-found out [] o h = absurd (cc h)
  by_anchor-found out ((line, x) ∷ rows) (only, o) h = elim (Bool-cases (line === i)) [
    | inl p ↦
        let same : x ≡ entry = some-injective x entry (rw (p, Map.get) at h) in
        by_anchor-kept (Map.put out x.anchor (line, x)) rows o
          (put-Only out (line, x) only (inl (ap (λ y. y.anchor) same)))
    | inr p ↦ by_anchor-found (Map.put out x.anchor (line, x)) rows o (rw (p, Map.get) at h)
  ]

-- in rows that no two lines share an anchor of, the lookup by anchor finds the row of the line
pub get-by_anchor :
    (rows : List PersistedAnchorLine) (i : ℕ) (entry : AnchorEntry)
    → Keyed rows
    → Apart rows
    → Map.get rows i ≡ some entry
    → Map.get (by_anchor [] rows) entry.anchor ≡ some (i, entry)
get-by_anchor rows i entry k apart h =
    by_anchor-found i entry [] rows
      (All-map
        (λ row e same. elim (Bool-cases (row.0 === i)) [
          | inl p ↦
              let line : row.0 ≡ i = ===_sound row.0 i p in
              let value : row.1 ≡ entry =
                some-injective row.1 entry (sym e ∙ ap (Map.get rows) line ∙ h) in
              cc (line, value)
          | inr p ↦ absurd (apart row.0 i row.1 entry e h (===_false row.0 i p) same)
        ])
        rows (Keyed-All rows k))
      h

module _ (content_checksum : Text → Text) (served : Served) (rows : List PersistedAnchorLine)
    (current_lines : List Text) (keyed : Keyed rows) (apart : Apart rows) where
  -- What makes a reference one to this line of the file.
  pub record Shows (anchor : Text) (line : ℕ) : Type 0 where
    pub filled : anchor ≢ []
    pub text : Text
    pub text_at : get_elem? current_lines (line - 1) ≡ some text
    pub row : Map.get rows line ≡ some (entry_of anchor text)
    pub shown : Map.get served anchor ≡ some (fingerprint content_checksum text)

  pub check_ref-Shows :
      (ref : AnchorRef) (line : ℕ)
      → Shows ref.anchor line
      → check_ref content_checksum served rows current_lines ref ≡ some (resolved_at line)
  unfolding check_ref check_live
  check_ref-Shows ref line s =
      let found = get-by_anchor rows line (entry_of ref.anchor s.text) keyed apart s.row in
      rw (
        ===_of_ne ref.anchor [] s.filled,
        found,
        s.text_at,
        check_ref,
        ===_refl (content_key s.text),
        s.shown,
        check_live,
        ===_refl (fingerprint content_checksum s.text),
      )

-- a reference by its anchor alone
abbrev pub ref_to : Text × ℕ → AnchorRef
ref_to place = record { anchor = place.0; line = none }

module _ (content_checksum : Text → Text) (served : Served) (rows : List PersistedAnchorLine)
    (current_lines : List Text) (keyed : Keyed rows) (apart : Apart rows) where
  abbrev verdicts_of : List (Text × ℕ) → List (Text × RefVerdict)
  verdicts_of places = map (λ place. (place.0, resolved_at place.1)) places

  check_refs-Shows :
      (places : List (Text × ℕ))
      → All
          (λ place. Shows content_checksum served rows current_lines keyed apart place.0 place.1)
          places
      → check_refs content_checksum served rows current_lines (map ref_to places)
        ≡ some (verdicts_of places)
  unfolding check_refs
  check_refs-Shows [] h = refl
  check_refs-Shows (place ∷ places) (s, h) = rw (
    check_ref-Shows content_checksum served rows current_lines keyed apart (ref_to place) place.1 s,
    check_refs-Shows places h,
  )

rejected_of-resolved :
    (places : List (Text × ℕ))
    → rejected_of (map (λ place. (place.0, resolved_at place.1)) places) ≡ []
unfolding rejected_of
rejected_of-resolved [] = refl
rejected_of-resolved (place ∷ places) = rejected_of-resolved places

resolved_of-resolved :
    (places : List (Text × ℕ))
    → resolved_of (map (λ place. (place.0, resolved_at place.1)) places) ≡ places
unfolding resolved_of
resolved_of-resolved [] = refl
resolved_of-resolved (place ∷ places) = ap (λ rest. place ∷ rest) (resolved_of-resolved places)

pub probe_lines-Shows :
    (content_checksum : Text → Text) (state : EntryState) (content : Text)
    (places : List (Text × ℕ)) (keyed : Keyed (persisted_anchor_lines state.path_state.rows))
    (apart : Apart (persisted_anchor_lines state.path_state.rows))
    → All
        (λ place.
          Shows content_checksum state.served
            (persisted_anchor_lines state.path_state.rows)
            (split_lines (normalize_content content))
            keyed
            apart
            place.0
            place.1)
        places
    → (mapped : List (Text × ℕ)) × (probe_lines content_checksum state content (map ref_to places)
        ≡ some (probe_ok places mapped))
unfolding probe_lines conclude sort
probe_lines-Shows content_checksum state content places keyed apart h =
    let checked =
      check_refs-Shows content_checksum state.served (persisted_anchor_lines state.path_state.rows)
        (split_lines (normalize_content content)) keyed apart places h in
    (
      mapped_of (map (λ r. r.0) places) [] (persisted_anchor_lines state.path_state.rows),
      rw (checked, rejected_of-resolved places, conclude, resolved_of-resolved places),
    )
