-- ===== src/Session/AnchorState/Update.antt =====
-- src/domain/session/anchor-state.ts, `updateAnchorsAfterEdit`: the anchors of a file behind an edit, with
-- `anchorsFor` and the notices of a degraded alignment. A thrown error is `none`.
pub mod Outside
pub mod Kept
use dsh_hashline_edittool.Base.{
  ℕ, zero, suc, ◌+◌, ◌-◌, ◌≡◌, min, Bool, true, false, not, ◌&&◌, ◌||◌, List, [], ◌∷◌, ◌++◌, map,
  Option, none, some, ltb, leb, ◌==◌, if◌then◌else◌, ◌>>=◌, length, get_elem?, replicate, slice,
  Text, has, nat_eq, text_eq, ◌===◌,
}
use dsh_hashline_edittool.Base.Map
use dsh_hashline_edittool.Base.Sort.{sort}
use dsh_hashline_edittool.Infra.Lines.{split_lines}
use dsh_hashline_edittool.Edit.Batch.{EditHunk}
use dsh_hashline_edittool.Hashline.Align.Lcs.{Pairs}
use dsh_hashline_edittool.Hashline.Align.Blocks.{AlignResult}
use dsh_hashline_edittool.Hashline.Align.Bounded.{align_preserved_bounded, five_percent}
use dsh_hashline_edittool.Hashline.Alloc.Hash.{content_key}
use dsh_hashline_edittool.Hashline.Alloc.Rows.{
  AnchorEntry, SparseState, live_anchors, allocate_into,
}
use dsh_hashline_edittool.Session.AnchorRows.{
  PersistedAnchorLine, PersistedAnchorState, FileRows, get_state,
}
use dsh_hashline_edittool.Session.AnchorState.{
  PathState, Ensured, ensured, realign_error, ensure_state_at, normalize_content, lines_of,
  persist_anchor_state,
}

-- `noteAlignmentDegraded`
unfoldable pub note_alignment_degraded : PathState → PathState
note_alignment_degraded path = record path { degraded = true }

-- `takeAlignmentNotice`: whether there was a notice
unfoldable pub take_alignment_notice : PathState → Bool × PathState
take_alignment_notice path = (path.degraded, record path { degraded = false })

-- `clearAlignmentNotice`
unfoldable pub clear_alignment_notice : PathState → PathState
clear_alignment_notice path = record path { degraded = false }

-- `out[index] = value`, for an index in range
unfoldable pub set_at : List Text → ℕ → Text → List Text
set_at [] index value = []
set_at (x ∷ xs) zero value = value ∷ xs
set_at (x ∷ xs) (suc index) value = x ∷ set_at xs index value

-- the loop of `anchorsFor`
unfoldable pub dense_view : List Text → List PersistedAnchorLine → List Text
unfolding set_at
dense_view out [] = out
dense_view out ((line, entry) ∷ rows) =
    dense_view
      (if leb 1 line && leb line (length out) then set_at out (line - 1) entry.anchor else out) rows

unfoldable pub anchors_for : Option FileRows → Text → List Text
unfolding dense_view get_state normalize_content split_lines
anchors_for rows content =
    dense_view (replicate (length (split_lines (normalize_content content))) [])
      (elim rows [ none ↦ [] | some held ↦ lines_of (get_state held).0 ])

-- the entries with those that the caller's anchors name and the state does not have: `i + 1`, and the
-- anchors and lines from there on
unfoldable pub seed_entries :
    ℕ → List (ℕ × AnchorEntry) → List Text → List Text → List (ℕ × AnchorEntry)
unfolding Map.get Map.put content_key
seed_entries line entries [] lines = entries
seed_entries line entries (anchor ∷ anchors) [] = entries
seed_entries line entries (anchor ∷ anchors) (text ∷ lines) =
    let seeded : List (ℕ × AnchorEntry) = elim (Map.get entries line) [
      | none ↦ Map.put entries line (record { anchor = anchor; content_key = content_key text })
      | some entry ↦ entries
    ] in
    seed_entries (suc line) (if anchor === [] then entries else seeded) anchors lines

-- What the loop over the hunks changes: `shifted`, `freshLines`, `survivors` and the notice.
pub record Walk : Type 0 where
  pub shifted : List (ℕ × AnchorEntry)
  pub fresh_lines : List ℕ
  pub survivors : List ℕ
  pub degraded : Bool

-- the loop over the surviving lines of a hunk
unfoldable pub carry_over : List (ℕ × AnchorEntry) → EditHunk → Walk → Pairs → Walk
unfolding Map.get Map.put
carry_over entries h walk [] = walk
carry_over entries h walk ((new_idx, old_idx) ∷ pairs) =
    let old_line = h.old_start1 + old_idx in
    elim (Map.get entries old_line) [
      | none ↦ carry_over entries h walk pairs
      | some entry ↦
          carry_over entries h
            (record walk {
              shifted = Map.put walk.shifted (h.final_start1 + new_idx) entry;
              survivors = old_line ∷ walk.survivors;
            })
            pairs
    ]

-- the new lines of a hunk that are no survivors, from the index `k` on
unfoldable pub fresh_of : EditHunk → Pairs → ℕ → List Text → List ℕ
unfolding Map.get
fresh_of h preserved k [] = []
fresh_of h preserved k (text ∷ new_seg) =
    let rest = fresh_of h preserved (suc k) new_seg in
    elim (Map.get preserved k) [ none ↦ (h.final_start1 + k) ∷ rest | some old_idx ↦ rest ]

module _ (effective : ℕ) (old_lines new_lines : List Text) (entries : List (ℕ × AnchorEntry)) where
  -- one round of the loop over the hunks
  unfoldable pub walk_hunk : Walk → EditHunk → Walk
  unfolding align_preserved_bounded carry_over fresh_of
  walk_hunk walk h =
      let old_seg = slice old_lines (h.old_start1 - 1) (min h.old_end1 (length old_lines)) in
      let new_seg = slice new_lines (h.final_start1 - 1) (min h.final_end1 (length new_lines)) in
      let aligned = align_preserved_bounded old_seg new_seg effective five_percent in
      let carried = carry_over entries h walk aligned.pairs in
      record carried {
        fresh_lines = carried.fresh_lines ++ fresh_of h aligned.pairs 0 new_seg;
        degraded = carried.degraded || aligned.degraded;
      }

  unfoldable pub walk_hunks : Walk → List EditHunk → Walk
  unfolding walk_hunk
  walk_hunks walk [] = walk
  walk_hunks walk (h ∷ hunks) = walk_hunks (walk_hunk walk h) hunks

-- an empty range ends one line in front of its start
-- where a line goes that no hunk replaces, with what the hunks above it add and remove so far; `none` in a hunk
unfoldable pub new_position : ℕ → ℕ → ℕ → List EditHunk → Option ℕ
new_position line added removed [] = some (line + added - removed)
new_position line added removed (h ∷ hunks) =
    let above =
      new_position line (added + (h.final_end1 + 1 - h.final_start1))
        (removed + (h.old_end1 + 1 - h.old_start1)) hunks in
    let below = new_position line added removed hunks in
    if leb h.old_start1 line && leb line h.old_end1
    then none
    else if ltb h.old_end1 line
    then above
    else below

-- What the loop over the entries changes: `shifted`, `released` and `releasedAnchors`.
pub record Shift : Type 0 where
  pub shifted : List (ℕ × AnchorEntry)
  pub released : List ℕ
  pub released_anchors : List Text

unfoldable pub shift_entry : List EditHunk → List ℕ → Shift → ℕ × AnchorEntry → Shift
unfolding new_position Map.put
shift_entry hunks survivors shift (line, entry) = elim (new_position line 0 0 hunks) [
  | some new_pos ↦ record shift { shifted = Map.put shift.shifted new_pos entry }
  | none ↦ if has line survivors then shift else record shift {
    released = shift.released ++ line ∷ [];
    released_anchors = shift.released_anchors ++ entry.anchor ∷ [];
  }
]

unfoldable pub shift_entries : List EditHunk → List ℕ → Shift → List (ℕ × AnchorEntry) → Shift
unfolding shift_entry
shift_entries hunks survivors shift [] = shift
shift_entries hunks survivors shift (entry ∷ entries) =
    shift_entries hunks survivors (shift_entry hunks survivors shift entry) entries

abbrev hunk_le : EditHunk → EditHunk → Bool
hunk_le a b = leb a.old_start1 b.old_start1

-- What a call returns, with `released`, `releasedAnchors` and the path's state as it leaves them.
pub record Updated : Type 0 where
  pub anchors : List Text
  pub released : List ℕ
  pub released_anchors : List Text
  pub path_state : PathState

-- the caller's set and the anchors of the state
unfoldable pub avoided : List Text → List (ℕ × AnchorEntry) → List Text
avoided avoid [] = avoid
avoided avoid ((line, entry) ∷ entries) =
    avoided (if entry.anchor === [] then avoid else entry.anchor ∷ avoid) entries

-- the write-back and the result
unfoldable pub updated : PathState → Bool → Shift → Text → SparseState → Updated
unfolding persist_anchor_state anchors_for
updated path degraded shift new_content state =
    let rows : Option FileRows = elim path.rows [
      | none ↦ none
      | some held ↦ some (persist_anchor_state held state)
    ] in
    record {
      anchors = anchors_for rows new_content;
      released = shift.released;
      released_anchors = shift.released_anchors;
      path_state = record { rows = rows; degraded = degraded };
    }

-- the loop over the hunks, and the one over the entries behind it
unfoldable pub move :
    ℕ → Bool → List Text → List Text → List (ℕ × AnchorEntry) → List EditHunk → Walk × Shift
unfolding walk_hunks shift_entries
move effective degraded old_lines new_lines entries ordered =
    let walk =
      walk_hunks effective old_lines new_lines entries
        (record { shifted = []; fresh_lines = []; survivors = []; degraded = degraded }) ordered in
    (
      walk,
      shift_entries ordered walk.survivors
          (record { shifted = walk.shifted; released = []; released_anchors = [] }) entries,
    )

-- the body behind the state's load, for normalized texts
unfoldable pub advance :
    ℕ
    → PathState
    → SparseState
    → Text
    → Text
    → Text
    → List Text
    → List EditHunk
    → Option (List Text)
    → Option Updated
unfolding seed_entries move avoided allocate_into updated sort split_lines
advance effective path state new_checksum old_content new_content old_anchors hunks used =
    let old_lines = split_lines old_content in
    let new_lines = split_lines new_content in
    let entries = seed_entries 1 state.entries old_anchors old_lines in
    let ordered = sort hunk_le hunks in
    let (walk, shift) = move effective path.degraded old_lines new_lines entries ordered in
    let moved : SparseState = record {
      checksum = new_checksum;
      line_count = length new_lines;
      entries = shift.shifted;
    } in
    do
      (served, state') ←
          allocate_into moved new_content walk.fresh_lines
            (some (avoided (elim used [ none ↦ [] | some avoid ↦ avoid ]) shift.shifted))
      some (updated path walk.degraded shift new_content state')

-- whether the stored rows are for this content already
unfoldable pub is_advanced : Option FileRows → Text → ℕ → Bool
unfolding get_state
is_advanced none checksum line_count = false
is_advanced (some rows) checksum line_count = elim (get_state rows).0 [
  | none ↦ false
  | some persisted ↦ (persisted.checksum === checksum) && (persisted.line_count == line_count)
]

unfoldable pub update_anchors_after_edit :
    (Text → Text)
    → ℕ
    → PathState
    → Text
    → Text
    → List Text
    → List EditHunk
    → Option (List Text)
    → Option Updated
unfolding normalize_content split_lines is_advanced anchors_for ensure_state_at advance
update_anchors_after_edit content_checksum effective path old_text new_text old_anchors hunks used =
    let new_content = normalize_content new_text in
    let old_content = normalize_content old_text in
    let new_checksum = content_checksum new_content in
    if is_advanced path.rows new_checksum (length (split_lines new_content))
    then some (record {
      anchors = anchors_for path.rows new_content;
      released = [];
      released_anchors = [];
      path_state = path;
    })
    else elim (ensure_state_at effective path (content_checksum old_content)
        (length (split_lines old_content)) (some old_content)) [
          | ensured state path' ↦
              advance effective path' state new_checksum old_content new_content old_anchors hunks
                used
          | realign_error path' ↦ none
        ]
