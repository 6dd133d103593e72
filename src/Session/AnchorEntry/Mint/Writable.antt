-- ===== src/Session/AnchorEntry/Mint/Writable.antt =====
-- src/domain/session/anchor-entry.ts: an anchor that `anchorFor` returns is one that `probeLines` accepts.
use mathlib.Core.Option.{some-injective}
use dsh_hashline_edittool.Base.{
  ℕ, ◌-◌, ◌≤◌, ◌≡◌, ◌≢◌, refl, sym, ap, ◌∙◌, subst, true, List, [], ◌∷◌, ◌++◌, some, arith, le→leb,
  length, get_elem?, Text, nat_eq, text_eq, All, All-map, All-both, Option-cases, inl, inr, has,
  ===_of_ne,
}
use dsh_hashline_edittool.Base.Map
use dsh_hashline_edittool.Base.Map.{Keyed, Keyed-All, All-get}
use dsh_hashline_edittool.Hashline.Alloc.Hash.{content_key}
use dsh_hashline_edittool.Hashline.Alloc.Rows.{AnchorEntry, SparseState, row_lines, avoid_of}
use dsh_hashline_edittool.Hashline.Alloc.Probe.{max_anchor_depth}
use dsh_hashline_edittool.Hashline.Alloc.Rows.Assigned.{IsAnchor}
use dsh_hashline_edittool.Hashline.Alloc.Rows.Live.{Apart, Served, entry_of}
use dsh_hashline_edittool.Hashline.Alloc.Rows.Call.{Called}
use dsh_hashline_edittool.Session.AnchorRows.{
  FileRows, PersistedAnchorLine, upsert_lines, is_valid_anchor, is_valid_row,
}
use dsh_hashline_edittool.Session.AnchorRows.Lookup.{AllValid, get-upsert_lines}
use dsh_hashline_edittool.Session.AnchorState.Persist.{IsWhole, or_else-none}
use dsh_hashline_edittool.Session.AnchorEntry.{persisted_anchor_lines}
use dsh_hashline_edittool.Session.AnchorEntry.Mint.{
  Round, serve_round, keep_reused, misses_of, minted_by_line, final_anchor, minted_at,
}
use dsh_hashline_edittool.Session.AnchorEntry.Mint.Rounds.{
  Ascending, Ascending-Keyed, sort-ascending,
}
use dsh_hashline_edittool.Session.AnchorEntry.Mint.Reuse.{
  round_cases, serve_round-reused, serve_round-missed, rounds_of, misses_of-All,
  misses_of-Ascending, misses_of-reused, misses_of-missed, serve_round-served, Served-All,
  get-keep_reused, anchor_in, get-minted_by_line,
}
use dsh_hashline_edittool.Session.AnchorEntry.Mint.Shown.{Holds}

-- A state that stands for the rows of a store: a line has one row, no two lines share an anchor, and
-- every row is one that a read accepts, with an anchor.
pub record IsLoaded (rows : FileRows) (state : SparseState) : Type 0 where
  pub whole : IsWhole rows
  pub keyed : Keyed state.entries
  pub valid : AllValid state.entries
  pub named : (i : ℕ) (x : AnchorEntry) → Map.get state.entries i ≡ some x → x.anchor ≢ []
  pub apart : Apart state.entries
  pub live_keyed : Keyed (persisted_anchor_lines (some rows))
  pub live : (i : ℕ) → Map.get (persisted_anchor_lines (some rows)) i ≡ Map.get state.entries i

-- The line stands in the file with this text.
abbrev pub InFile : List Text → ℕ × Text → Type 0
InFile current_lines row =
    (1 ≤ row.0)
    × (row.0 ≤ length current_lines)
    × (get_elem? current_lines (row.0 - 1) ≡ some row.1)

pub has-append_left : (a : Text) (xs ys : List Text) → has a xs ≡ true → has a (xs ++ ys) ≡ true
has-append_left a [] ys h = absurd (cc h)
has-append_left a (x ∷ xs) ys h = ground (arith, has-append_left a xs ys)

IsAnchor-is_valid_anchor : (anchor : Text) → IsAnchor anchor → is_valid_anchor anchor ≡ true
unfolding is_valid_anchor
IsAnchor-is_valid_anchor [] form = refl
IsAnchor-is_valid_anchor (c ∷ anchor) form =
    rw (form.base62, le→leb (length (c ∷ anchor)) max_anchor_depth form.short)

IsAnchor-is_valid_row :
    (i : ℕ) (x : AnchorEntry) → IsAnchor x.anchor → 1 ≤ i → is_valid_row (i, x) ≡ true
unfolding is_valid_row
IsAnchor-is_valid_row i x form lo = rw (le→leb 1 i lo, IsAnchor-is_valid_anchor x.anchor form)

IsAnchor-ne : (anchor : Text) → IsAnchor anchor → anchor ≢ []
IsAnchor-ne anchor form e = absurd (ground (arith, form.long, e))

module _ (rows : FileRows) (state : SparseState) (loaded : IsLoaded rows state)
    (current_lines : List Text) (asked : List (ℕ × Text)) (ascending : Ascending asked)
    (in_file : All (InFile current_lines) asked) where
  abbrev pub live_rows : List PersistedAnchorLine
  live_rows = persisted_anchor_lines (some rows)

  -- the round of a line
  abbrev pub round_at : ℕ → Round
  round_at line = serve_round (upsert_lines [] live_rows) asked (length current_lines) line

  abbrev pub misses : List (ℕ × Text)
  misses = misses_of (rounds_of round_at asked)

  abbrev pub reusing : SparseState
  reusing = record state { entries = keep_reused state.entries (rounds_of round_at asked) }

  by_line : (i : ℕ) → Map.get (upsert_lines [] live_rows) i ≡ Map.get state.entries i
  unfolding Map.get
  by_line i =
      get-upsert_lines [] live_rows i loaded.live_keyed
      ∙ or_else-none (Map.get live_rows i)
      ∙ loaded.live i

  reusing-get : (i : ℕ) → Map.get reusing.entries i ≡ Map.get state.entries i
  reusing-get i = get-keep_reused round_at state.entries asked i λ j e reuse.
      let (text, at, found, key) =
        serve_round-reused (upsert_lines [] live_rows) asked (length current_lines) j e reuse in
      sym (by_line j) ∙ found

  pub misses-Keyed : Keyed misses
  misses-Keyed = Ascending-Keyed misses (misses_of-Ascending round_at asked ascending)

  misses-found :
      All (λ m. (1 ≤ m.0) × (m.0 ≤ length current_lines) × (Map.get misses m.0 ≡ some m.1)) misses
  misses-found =
      All-map (λ m p. (p.0.0, p.0.1, p.1)) misses
        (All-both (λ m. (1 ≤ m.0) × (m.0 ≤ length current_lines))
          (λ m. Map.get misses m.0 ≡ some m.1) misses
          (misses_of-All round_at (λ m. (1 ≤ m.0) × (m.0 ≤ length current_lines)) asked
            λ line text missing.
              let (at, lo, hi) =
                serve_round-missed (upsert_lines [] live_rows) asked (length current_lines) line
                  text missing in
              (lo, hi))
          (Keyed-All misses misses-Keyed))

  module _ (used : List Text) (fresh : List Text) (after : SparseState)
      (covers : (i : ℕ) (x : AnchorEntry) → Map.get live_rows i ≡ some x → has x.anchor used ≡ true)
      (called : Called reusing misses (length current_lines) (some used) (fresh, after)) where
    pub after-Apart : Apart after.entries
    unfolding avoid_of
    after-Apart =
        called.apart (λ i x e. covers i x (loaded.live i ∙ sym (reusing-get i) ∙ e))
          (λ i j x y ei ej.
            loaded.apart i j x y (sym (reusing-get i) ∙ ei) (sym (reusing-get j) ∙ ej))

    after-served : Served misses (length current_lines) (row_lines misses) fresh after.entries
    after-served =
        subst (λ lines. Served misses (length current_lines) lines fresh after.entries)
          (sort-ascending misses (misses_of-Ascending round_at asked ascending)) called.served

    pub after-named : (i : ℕ) (x : AnchorEntry) → Map.get after.entries i ≡ some x → x.anchor ≢ []
    after-named i x e = elim (called.formed i x e) [
      | inl before ↦ loaded.named i x (sym (reusing-get i) ∙ before)
      | inr form ↦ IsAnchor-ne x.anchor form
    ]

    pub after-AllValid : AllValid after.entries
    after-AllValid i x e = elim (called.formed i x e) [
      | inl before ↦ loaded.valid i x (sym (reusing-get i) ∙ before)
      | inr form ↦ elim (Option-cases (Map.get misses i)) [
        | inl untouched ↦
            loaded.valid i x (sym (reusing-get i) ∙ sym (called.other i untouched) ∙ e)
        | inr (text, at) ↦
            IsAnchor-is_valid_row i x form
              (All-get
                (λ m. (1 ≤ m.0) × (m.0 ≤ length current_lines) × (Map.get misses m.0 ≡ some m.1))
                misses i text misses-found at).0
      ]
    ]

    -- what becomes of a line
    abbrev pub Given : ℕ × Text → Type 0
    Given row =
        Holds after.entries row
        × (final_anchor (minted_by_line [] misses fresh) row.0 (round_at row.0)
            ≡ anchor_in after.entries row.0)

    pub given :
        (line : ℕ) (text : Text)
        → Map.get asked line ≡ some text
        → has line (row_lines asked) ≡ true
        → Given (line, text)
    unfolding final_anchor
    given line text at member = elim (round_cases (round_at line)) [
      | inl skip ↦
          let (lo, hi, text_at) = All-get (InFile current_lines) asked line text in_file at in
          absurd (
            serve_round-served (upsert_lines [] live_rows) asked (length current_lines) line text at
              lo hi skip)
      | inr (inl (x, reuse)) ↦
          let (other, at', found, key) =
            serve_round-reused (upsert_lines [] live_rows) asked (length current_lines) line x
              reuse in
          let kept : Map.get after.entries line ≡ some x =
            called.other line (misses_of-reused round_at asked line x reuse)
            ∙ reusing-get line
            ∙ sym (by_line line)
            ∙ found in
          let text_same : other ≡ text = some-injective other text (sym at' ∙ at) in
          let entry_same : x ≡ entry_of x.anchor text =
            ap (λ k. record { anchor = x.anchor; content_key = k })
              (key ∙ ap content_key text_same) in
          let named : anchor_in after.entries line ≡ x.anchor = rw (kept, anchor_in) in
          let filled : x.anchor ≢ [] = after-named line x kept in
          (
            (
              kept ∙ ap some (entry_same ∙ ap (λ a. entry_of a text) (sym named)),
              λ e. filled (sym named ∙ e),
            ),
            rw (reuse, final_anchor, ===_of_ne x.anchor [] filled) (sym named),
          )
      | inr (inr (other, missing)) ↦
          let (at', lo, hi) =
            serve_round-missed (upsert_lines [] live_rows) asked (length current_lines) line other
              missing in
          let text_same : other ≡ text = some-injective other text (sym at' ∙ at) in
          let (found, missed_line) = misses_of-missed round_at asked line other member missing in
          let held =
            All-get
              (λ m. Map.get after.entries m.0 ≡ some (entry_of (anchor_in after.entries m.0) m.1))
              misses line other
              (Served-All misses (length current_lines) after.entries misses fresh after-served
                misses-found)
              found in
          let minted =
            get-minted_by_line misses (length current_lines) after.entries [] misses fresh line
              after-served misses-found after-named in
          (
            (
              held ∙ ap (λ t. some (entry_of (anchor_in after.entries line) t)) text_same,
              after-named line (entry_of (anchor_in after.entries line) other) held,
            ),
            rw (missing, final_anchor, minted_at, minted, missed_line),
          )
    ]
