-- ===== src/Session/AnchorEntry/Load.antt =====
-- src/domain/session/anchor-state.ts, `ensureStateAt`: a state loaded from rows that may repeat an anchor.
mod First
mod Earlier
use Earlier.{IsFirst}
use mathlib.Core.Option.{some-injective}
use dsh_hashline_edittool.Base.{
  ℕ, suc, ◌≤◌, ◌≡◌, ◌≢◌, Bool, true, false, List, [], ◌∷◌, Option, some, arith, nat_eq, text_eq,
  ◌===◌, has, all, same_text_refl,
}
use dsh_hashline_edittool.Base.Map
use dsh_hashline_edittool.Base.Sort.{sort}
use dsh_hashline_edittool.Hashline.Alloc.Rows.{AnchorEntry, SparseState}
use dsh_hashline_edittool.Session.AnchorRows.{
  PersistedAnchorLine, PersistedAnchorState, FileRows, line_le, get_state, put_state, upsert_lines,
  is_valid_row,
}
use dsh_hashline_edittool.Session.AnchorState.{PathState, keep_first, heal_rows}
use dsh_hashline_edittool.Session.AnchorState.Persist.{IsWhole}

-- the state that rows without a repeated anchor stand for
abbrev state_of : PersistedAnchorState → SparseState
state_of disk = record {
  checksum = disk.checksum;
  line_count = disk.line_count;
  entries = upsert_lines [] disk.lines;
}

-- The state keeps of the stored rows exactly the first one with each anchor.
pub record KeepsFirst (stored : List PersistedAnchorLine) (state : SparseState) : Type 0 where
  pub was_stored :
      (i : ℕ) (x : AnchorEntry) → Map.get state.entries i ≡ some x → Map.get stored i ≡ some x
  pub is_first :
      (i : ℕ) (x : AnchorEntry) → Map.get state.entries i ≡ some x → IsFirst stored i x.anchor
  pub first_stays :
      (i : ℕ) (x : AnchorEntry)
      → Map.get stored i ≡ some x
      → IsFirst stored i x.anchor
      → Map.get state.entries i ≡ some x

module _ (rows : FileRows) (disk : PersistedAnchorState) (whole : IsWhole rows)
    (filled : (i : ℕ) (x : AnchorEntry) → Map.get rows.line_rows i ≡ some x → x.anchor ≢ [])
    (read : get_state rows ≡ (some disk, rows))
    (lines_eq : disk.lines ≡ sort line_le rows.line_rows)
    (accepted : all is_valid_row disk.lines ≡ true) where
  kept : List PersistedAnchorLine
  kept = keep_first [] disk.lines

  -- the rows that the repair writes
  repaired : FileRows
  repaired = put_state rows (record disk { lines = kept })

-- a path with the rows that a repair leaves
abbrev healed_path : PersistedAnchorState → Bool → FileRows → PathState
healed_path disk degraded rows = record { rows = some (heal_rows rows disk).1; degraded = degraded }
