-- ===== src/Session/AnchorState.antt =====
-- src/domain/session/anchor-state.ts: what is kept of a path's anchors, and how it follows the file. The
-- checksum of a text is a parameter, as is the aligner's budget.
pub mod Persist
pub mod Update
mod Examples
use dsh_hashline_edittool.Base.{
  ℕ, zero, suc, ◌+◌, ◌-◌, ◌≡◌, refl, Bool, true, false, not, ◌&&◌, ◌||◌, List, [], ◌∷◌, ◌++◌, map,
  Option, none, some, ltb, leb, ◌==◌, if◌then◌else◌, ◌>>=◌, length, get_elem?, replicate, Text,
  codes, newline, has, nat_eq, text_eq, ◌===◌,
}
use dsh_hashline_edittool.Base.Map
use dsh_hashline_edittool.Base.Sort.{sort}
use dsh_hashline_edittool.Infra.Lines.{split_lines}
use dsh_hashline_edittool.Hashline.Align.Lcs.{Pairs}
use dsh_hashline_edittool.Hashline.Align.Blocks.{AlignResult}
use dsh_hashline_edittool.Hashline.Align.Bounded.{align_preserved_bounded, five_percent}
use dsh_hashline_edittool.Hashline.Alloc.Hash.{content_key}
use dsh_hashline_edittool.Hashline.Alloc.Rows.{AnchorEntry, SparseState}
use dsh_hashline_edittool.Session.AnchorRows.{
  PersistedAnchorLine, PersistedAnchorState, FileRows, line_le, probe_checksum, get_state,
  upsert_lines, put_state, put_lines, put_meta,
}

-- `bom.replace(/\r\n/g, "\n")`
fold_line_ends : Text → Text
fold_line_ends [] = []
fold_line_ends (c ∷ []) = c ∷ []
fold_line_ends (c ∷ d ∷ text) =
    let behind = fold_line_ends text in
    let next = fold_line_ends (d ∷ text) in
    if c == b'\r' && d == newline then newline ∷ behind else c ∷ next

unfoldable pub normalize_content : Text → Text
unfolding fold_line_ends
normalize_content [] = []
normalize_content (c ∷ content) =
    if c == 0xfeff then fold_line_ends content else fold_line_ends (c ∷ content)

-- The store's rows for a path, if a store is open, and the path's pending notice.
pub record PathState : Type 0 where
  pub rows : Option FileRows
  pub degraded : Bool

-- the rows of a state in the order of their lines
unfoldable pub projection_of : SparseState → PersistedAnchorState
unfolding sort
projection_of state = record {
  checksum = state.checksum;
  line_count = state.line_count;
  lines = sort line_le state.entries;
}

-- `!now || now.anchor !== row.anchor || now.contentKey !== row.contentKey`
unfoldable pub differs : Option AnchorEntry → AnchorEntry → Bool
differs none entry = true
differs (some now) entry =
    not (now.anchor === entry.anchor) || not (now.content_key == entry.content_key)

-- the lines of `previous` whose row is not in `next_by_line`
unfoldable pub dropped_lines : List PersistedAnchorLine → List PersistedAnchorLine → List ℕ
unfolding Map.get differs
dropped_lines next_by_line [] = []
dropped_lines next_by_line ((line, entry) ∷ previous) =
    let rest = dropped_lines next_by_line previous in
    if differs (Map.get next_by_line line) entry then line ∷ rest else rest

unfoldable pub drop_rows : Text → ℕ → FileRows → List ℕ → FileRows
unfolding put_meta
drop_rows checksum line_count rows [] = rows
drop_rows checksum line_count rows (line ∷ lines) =
    drop_rows checksum line_count (put_meta rows checksum line_count (some line)) lines

-- the rows that `previous` does not have
unfoldable pub upserts_of :
    List PersistedAnchorLine → List PersistedAnchorLine → List PersistedAnchorLine
unfolding Map.get differs
upserts_of previous [] = []
upserts_of previous ((line, entry) ∷ lines) =
    let rest = upserts_of previous lines in
    if differs (Map.get previous line) entry then (line, entry) ∷ rest else rest

-- `stored?.lines ?? []`
abbrev pub lines_of : Option PersistedAnchorState → List PersistedAnchorLine
lines_of none = []
lines_of (some state) = state.lines

unfoldable pub persist_anchor_state : FileRows → SparseState → FileRows
unfolding get_state projection_of dropped_lines drop_rows upserts_of put_lines put_meta upsert_lines
persist_anchor_state rows state =
    let (stored, rows') = get_state rows in
    let previous = upsert_lines [] (lines_of stored) in
    let next = projection_of state in
    let dropped = dropped_lines (upsert_lines [] next.lines) previous in
    let kept = drop_rows next.checksum next.line_count rows' dropped in
    put_meta (put_lines kept (upserts_of previous next.lines)) next.checksum next.line_count none

-- `disk.lines.filter(...)` with the anchors seen so far
unfoldable pub keep_first : List Text → List PersistedAnchorLine → List PersistedAnchorLine
keep_first seen [] = []
keep_first seen ((line, entry) ∷ lines) =
    let rest = keep_first (entry.anchor ∷ seen) lines in
    if has entry.anchor seen then rest else (line, entry) ∷ rest

-- `realigned.set(newIdx + 1, ordered[oldIdx]![1])`; the aligner names old indices in range only
unfoldable pub realigned_entries :
    List PersistedAnchorLine → List (ℕ × AnchorEntry) → Pairs → List (ℕ × AnchorEntry)
unfolding Map.put
realigned_entries ordered out [] = out
realigned_entries ordered out ((new_idx, old_idx) ∷ pairs) = elim (get_elem? ordered old_idx) [
  | none ↦ realigned_entries ordered out pairs
  | some row ↦ realigned_entries ordered (Map.put out (suc new_idx) row.1) pairs
]

-- the rows without the repeated anchors, and whether there were any
unfoldable pub heal_rows : FileRows → PersistedAnchorState → PersistedAnchorState × FileRows
unfolding keep_first put_state
heal_rows rows disk =
    let kept = keep_first [] disk.lines in
    let healed : PersistedAnchorState = record disk { lines = kept } in
    (healed, if length kept == length disk.lines then rows else put_state rows healed)

-- What `ensureState` returns, or `E_ANCHOR_REALIGN`, with the path's state as the call leaves it.
pub data Ensured : Type 0 where
  ensured : SparseState → PathState → Ensured
  realign_error : PathState → Ensured

unfoldable pub realign : ℕ → SparseState → Text → ℕ → Text → AlignResult × SparseState
unfolding sort realigned_entries align_preserved_bounded split_lines
realign effective state checksum line_count content =
    let ordered = sort line_le state.entries in
    let aligned =
      align_preserved_bounded (map (λ row. row.1.content_key) ordered)
        (map content_key (split_lines content)) effective five_percent in
    (
      aligned,
      record {
        checksum = checksum;
        line_count = line_count;
        entries = realigned_entries ordered [] aligned.pairs;
      },
    )

-- the state of rows that hold no repeated anchor, followed to the content when it has changed
unfoldable pub follow :
    ℕ → Bool → FileRows → PersistedAnchorState → Text → ℕ → Option Text → Ensured
unfolding realign persist_anchor_state upsert_lines
follow effective degraded rows disk checksum line_count content =
    let state : SparseState = record {
      checksum = disk.checksum;
      line_count = disk.line_count;
      entries = upsert_lines [] disk.lines;
    } in
    if (disk.checksum === checksum) && (disk.line_count == line_count)
    then ensured state (record { rows = some rows; degraded = degraded })
    else elim content [
      | none ↦ realign_error (record { rows = some rows; degraded = degraded })
      | some text ↦
          let (aligned, state') = realign effective state checksum line_count text in
          ensured state' (record {
            rows = some (persist_anchor_state rows state');
            degraded = degraded || aligned.degraded;
          })
    ]

unfoldable pub ensure_state_at : ℕ → PathState → Text → ℕ → Option Text → Ensured
unfolding get_state heal_rows follow
ensure_state_at effective path checksum line_count content =
    let empty : SparseState = record {
      checksum = checksum;
      line_count = line_count;
      entries = [];
    } in
    elim path.rows [
      | none ↦ ensured empty path
      | some rows ↦
          let (disk, rows') = get_state rows in
          elim disk [
            | none ↦ ensured empty (record path { rows = some rows' })
            | some stored ↦
                let (healed, rows'') = heal_rows rows' stored in
                follow effective path.degraded rows'' healed checksum line_count content
          ]
    ]
