-- ===== src/Session/AnchorEntry/Mint/Accepted.antt =====
-- src/domain/session/anchor-entry.ts: a whole call of `anchorFor` on a loaded state, with the probe behind it.
use mathlib.Core.Option.{some-injective}
use dsh_hashline_edittool.Base.{
  ℕ, ◌≡◌, refl, sym, ap, ◌∙◌, subst, Bool, true, List, [], ◌∷◌, ◌++◌, map, some, >>=-eq-some,
  length, Text, nat_eq, text_eq, All, All-map, All-both, has, Ensures-some,
}
use dsh_hashline_edittool.Base.Map
use dsh_hashline_edittool.Base.Map.{Keyed, Keyed-All}
use dsh_hashline_edittool.Infra.Lines.{split_lines}
use dsh_hashline_edittool.Hashline.Alloc.Rows.{
  AnchorEntry, SparseState, row_lines, live_anchors, allocate_into_rows,
}
use dsh_hashline_edittool.Hashline.Alloc.Rows.Live.{Apart}
use dsh_hashline_edittool.Hashline.Alloc.Rows.Call.{
  Called, allocate_into_rows-Called, live_anchors-Covered,
}
use dsh_hashline_edittool.Session.AnchorRows.{FileRows, PersistedAnchorLine, upsert_lines}
use dsh_hashline_edittool.Session.ServedCodec.{Served}
use dsh_hashline_edittool.Session.AnchorState.{
  PathState, lines_of, normalize_content, persist_anchor_state,
}
use dsh_hashline_edittool.Session.AnchorState.Persist.{
  IsWhole, IsCommitted, persist_anchor_state-IsCommitted,
}
use dsh_hashline_edittool.Session.AnchorEntry.{EntryState, persisted_anchor_lines}
use dsh_hashline_edittool.Session.AnchorEntry.Mint.{
  AnchorForResult, Round, serve_round, misses_of, finish, text_by_line, final_anchor,
  minted_by_line, minted_of, served_entries, persist, serve,
}
use dsh_hashline_edittool.Session.AnchorEntry.Mint.Rounds.{
  Ascending, Ascending-Keyed, text_by_line-Keyed,
}
use dsh_hashline_edittool.Session.AnchorEntry.Mint.Reuse.{rounds_of, keep_reused-Keyed, anchor_in}
use dsh_hashline_edittool.Session.AnchorEntry.Mint.Shown.{
  Holds, served_lines, get-served_entries, served_entries-Keyed, get-extend_served,
}
use dsh_hashline_edittool.Session.AnchorEntry.Mint.Writable.{
  after-Apart, after-AllValid, IsLoaded, InFile, misses, reusing, round_at, misses-Keyed, given,
  Given, has-append_left,
}
use dsh_hashline_edittool.Session.AnchorEntry.Mint.Places.{
  has-row_lines, All-over, the_result, places_of, anchors_of_places, lines_of_places,
}
use dsh_hashline_edittool.Session.AnchorEntry.Probe.{probe_ok, probe_lines}
use dsh_hashline_edittool.Session.AnchorEntry.Probe.Complete.{ref_to, Shows, probe_lines-Shows}

module _ (content_checksum : Text → Text) (entry : EntryState) (degraded : Bool) (rows : FileRows)
    (state : SparseState) (loaded : IsLoaded rows state) (content : Text) (asked : List (ℕ × Text))
    (ascending : Ascending asked)
    (in_file : All (InFile (split_lines (normalize_content content))) asked) (checksum : Text) where
  abbrev current_lines : List Text
  current_lines = split_lines (normalize_content content)

  abbrev missing : List (ℕ × Text)
  missing = misses rows state loaded current_lines asked ascending in_file

  abbrev before : SparseState
  before = reusing rows state loaded current_lines asked ascending in_file

  abbrev used : List Text
  used = live_anchors (persisted_anchor_lines (some rows)) ++ entry.release_pool

  abbrev rounds : List (ℕ × Round)
  rounds = rounds_of (round_at rows state loaded current_lines asked ascending in_file) asked

  abbrev path : PathState
  path = record { rows = some rows; degraded = degraded }

  serve-eq-finish :
      serve content_checksum entry path state asked checksum (length current_lines)
      ≡ finish content_checksum entry path state asked rounds missing used checksum
          (length current_lines)
  unfolding serve
  serve-eq-finish =
      ap
        (λ texts.
          let served =
            map
              (λ row. (
                row.0,
                serve_round (upsert_lines [] (persisted_anchor_lines (some rows))) texts
                    (length current_lines) row.0,
              ))
              asked in
          finish content_checksum entry path state texts served (text_by_line [] (misses_of served))
            used checksum (length current_lines))
        (text_by_line-Keyed asked (Ascending-Keyed asked ascending))
      ∙ ap
          (λ miss_rows.
            finish content_checksum entry path state asked rounds miss_rows used checksum
              (length current_lines))
          (text_by_line-Keyed missing
            (misses-Keyed rows state loaded current_lines asked ascending in_file))

  covers :
      (i : ℕ) (x : AnchorEntry)
      → Map.get (persisted_anchor_lines (some rows)) i ≡ some x
      → has x.anchor used ≡ true
  covers i x e =
      has-append_left x.anchor (live_anchors (persisted_anchor_lines (some rows)))
        entry.release_pool (live_anchors-Covered (persisted_anchor_lines (some rows)) i x e)

  module _ (fresh : List Text) (after : SparseState)
      (called : Called before missing (length current_lines) (some used) (fresh, after)) where
    asked-Given :
        All
          (λ row.
            (Map.get asked row.0 ≡ some row.1)
            × Given rows state loaded current_lines asked ascending in_file used fresh after covers
                called row)
          asked
    asked-Given =
        All-map
          (λ row found. (
            found,
            given rows state loaded current_lines asked ascending in_file used fresh after covers
                called row.0 row.1 found (has-row_lines asked row.0 row.1 found),
          ))
          asked (Keyed-All asked (Ascending-Keyed asked ascending))

    served_places :
        (lines : List (ℕ × Text))
        → All
            (λ row.
              Given rows state loaded current_lines asked ascending in_file used fresh after covers
                called row)
            lines
        → map
            (λ r. (r.0, final_anchor (minted_by_line [] missing fresh) r.0 r.1))
            (rounds_of (round_at rows state loaded current_lines asked ascending in_file) lines)
          ≡ served_lines after.entries lines
    served_places [] h = refl
    served_places (row ∷ lines) ((held, final), h) = rw (final, served_places lines h)

    abbrev after' : SparseState
    after' = record after { checksum = checksum; line_count = length current_lines }

    abbrev shown : Served
    shown = served_entries content_checksum asked [] (served_lines after.entries asked)

    abbrev done : EntryState
    done = persist entry path after' shown

    after-Keyed : Keyed after.entries
    after-Keyed = called.keyed (keep_reused-Keyed _ state.entries asked loaded.keyed)

    committed :
        IsCommitted after' (persist_anchor_state rows after')
        × IsWhole (persist_anchor_state rows after')
    committed = persist_anchor_state-IsCommitted rows after' loaded.whole after-Keyed (
        after-AllValid rows state loaded current_lines asked ascending in_file used fresh after
          covers called)

    stored : List PersistedAnchorLine
    stored = committed.0.0

    done-lines : persisted_anchor_lines done.path_state.rows ≡ stored
    unfolding persisted_anchor_lines persist stored
    done-lines = let (lines, read, found, keyed) = committed.0 in ap (λ r. lines_of r.0) read

    done-get :
        (i : ℕ) → Map.get (persisted_anchor_lines done.path_state.rows) i ≡ Map.get after.entries i
    unfolding stored
    done-get i =
        let (lines, read, found, keyed) = committed.0 in
        ap (λ rows. Map.get rows i) done-lines ∙ found i

    done-Keyed : Keyed (persisted_anchor_lines done.path_state.rows)
    unfolding stored
    done-Keyed = let (lines, read, found, keyed) = committed.0 in subst Keyed (sym done-lines) keyed

    entries-Apart : Apart after.entries
    entries-Apart =
        after-Apart rows state loaded current_lines asked ascending in_file used fresh after covers
          called

    done-Apart : Apart (persisted_anchor_lines done.path_state.rows)
    done-Apart i j x y ei ej = entries-Apart i j x y (sym (done-get i) ∙ ei) (sym (done-get j) ∙ ej)

    asked-Holds : All (λ row. (Map.get asked row.0 ≡ some row.1) × Holds after.entries row) asked
    asked-Holds = All-map (λ row p. (p.0, p.1.0)) asked asked-Given

    done-Shows :
        (row : ℕ × Text)
        → InFile current_lines row
        → (Map.get asked row.0 ≡ some row.1) × Holds after.entries row
        → Shows content_checksum done.served
            (persisted_anchor_lines done.path_state.rows)
            current_lines
            done-Keyed
            done-Apart
            (anchor_in after.entries row.0)
            row.0
    unfolding persist
    done-Shows row (lo, hi, text_at) (found, (entry_at, filled)) =
        let recorded =
          get-served_entries content_checksum asked after.entries entries-Apart [] asked row.0 row.1
            asked-Holds (entry_at, filled) found in
        let shown_keyed =
          served_entries-Keyed content_checksum asked after.entries entries-Apart [] asked
            asked-Holds tt in
        record {
          filled = filled;
          text = row.1;
          text_at = text_at;
          row = done-get row.0 ∙ entry_at;
          shown =
              get-extend_served entry.served shown (anchor_in after.entries row.0) shown_keyed
              ∙ rw (recorded, has-row_lines asked row.0 row.1 found);
        }

    done-probe :
        (mapped : List (Text × ℕ)) × (probe_lines content_checksum done content
            (map ref_to (places_of after.entries asked))
          ≡ some (probe_ok (places_of after.entries asked) mapped))
    done-probe =
        probe_lines-Shows content_checksum done content (places_of after.entries asked) done-Keyed
          done-Apart
          (All-over _ (λ row. (anchor_in after.entries row.0, row.0)) asked
            (All-map (λ row p. done-Shows row p.0 p.1) asked
              (All-both (InFile current_lines)
                (λ row. (Map.get asked row.0 ≡ some row.1) × Holds after.entries row) asked in_file
                asked-Holds)))

  -- The anchors of a call, and a probe of them.
  abbrev pub Accepts : AnchorForResult → EntryState → Type 0
  Accepts result entry' =
      (places : List (Text × ℕ)) × (mapped : List (Text × ℕ)) × (map (λ place. place.0) places
        ≡ result.anchors)
      × (map (λ place. place.1) places ≡ row_lines asked)
      × (probe_lines content_checksum entry' content (map ref_to places)
          ≡ some (probe_ok places mapped))

  -- The anchors that a call returns for lines of a file, asked for in ascending order with their present
  -- texts, are accepted: a probe of them by the same session, on the store as the call leaves it and
  -- with the same content, resolves each to the line that it was returned for. The loaded state stands
  -- for the store's rows, which are whole, valid and without a repeated anchor.
  pub serve-Accepts :
      {result : AnchorForResult} {entry' : EntryState}
      → serve content_checksum entry
          (record { rows = some rows; degraded = degraded })
          state
          asked
          checksum
          (length current_lines)
        ≡ some (result, entry')
      → Accepts result entry'
  unfolding finish
  serve-Accepts e =
      let (r, allocated, concluded) =
        >>=-eq-some (allocate_into_rows before missing (length current_lines) (some used)) _
          (sym serve-eq-finish ∙ e) in
      let (fresh, after) = r in
      let called =
        Ensures-some (allocate_into_rows-Called before missing (length current_lines) (some used))
          allocated in
      let same =
        served_places fresh after called asked
          (All-map (λ row p. p.1) asked (asked-Given fresh after called)) in
      let outcome = some-injective _ _ (
        ap
          (λ anchors. some (
            the_result anchors (minted_of missing fresh),
            persist entry path (after' fresh after called)
                (served_entries content_checksum asked [] anchors),
          ))
          (sym same)
        ∙ concluded) in
      let (mapped, probed) = done-probe fresh after called in
      subst (λ made. Accepts made.0 made.1) outcome
        (
          places_of after.entries asked,
          mapped,
          anchors_of_places after.entries asked,
          lines_of_places after.entries asked,
          probed,
        )
