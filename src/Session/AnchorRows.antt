-- ===== src/Session/AnchorRows.antt =====
-- src/domain/session/hash-store.ts, `anchorStateAdapter`: the rows of `anchor_meta` and `anchor_lines` that
-- a store holds for one path. A statement of SQL is what it does to them; busy retries, transactions
-- and the budget's counter are not kept.
pub mod Lookup
use dsh_hashline_edittool.Base.{
  ℕ, ◌≡◌, refl, Bool, true, false, ◌&&◌, ◌||◌, List, [], ◌∷◌, Option, none, some, leb,
  if◌then◌else◌, length, Text, codes, all, is_base62, nat_eq,
}
use dsh_hashline_edittool.Base.Map
use dsh_hashline_edittool.Base.Sort.{sort}
use dsh_hashline_edittool.Hashline.Alloc.Rows.{AnchorEntry}
use dsh_hashline_edittool.Hashline.Alloc.Probe.{max_anchor_depth}

-- `PersistedAnchorLine`: the line, and its anchor with its content key
abbrev pub PersistedAnchorLine : Type 0
PersistedAnchorLine = ℕ × AnchorEntry

pub record PersistedAnchorState : Type 0 where
  pub checksum : Text
  pub line_count : ℕ
  pub lines : List PersistedAnchorLine

-- the row of `anchor_meta`, and the rows of `anchor_lines`, whose key is the line
pub record FileRows : Type 0 where
  pub file_row : Option (Text × ℕ)
  pub line_rows : List PersistedAnchorLine

-- `ORDER BY line`
abbrev pub line_le : PersistedAnchorLine → PersistedAnchorLine → Bool
line_le a b = leb a.0 b.0

-- `isValidHashList([anchor])`
unfoldable pub is_valid_anchor : Text → Bool
unfolding all
is_valid_anchor [] = true
is_valid_anchor (c ∷ anchor) =
    all is_base62 (c ∷ anchor) && leb (length (c ∷ anchor)) max_anchor_depth

-- a content key is a natural number here, so that only the line and the anchor can be corrupt
unfoldable pub is_valid_row : PersistedAnchorLine → Bool
unfolding is_valid_anchor
is_valid_row row = leb 1 row.0 && is_valid_anchor row.1.anchor

-- `probe`
unfoldable pub probe_checksum : FileRows → Option Text
probe_checksum rows = elim rows.file_row [
  | none ↦ none
  | some (checksum, line_count) ↦ some checksum
]

-- `get`, with the rows as the call leaves them
unfoldable pub get_state : FileRows → Option PersistedAnchorState × FileRows
unfolding sort all is_valid_row
get_state rows = elim rows.file_row [
  | none ↦ (none, rows)
  | some (checksum, line_count) ↦
      let lines = sort line_le rows.line_rows in
      if all is_valid_row lines
      then (some (record { checksum = checksum; line_count = line_count; lines = lines }), rows)
      else (none, record { file_row = none; line_rows = [] })
]

-- the loop of `put` and of `putLines`
unfoldable pub upsert_lines :
    List PersistedAnchorLine → List PersistedAnchorLine → List PersistedAnchorLine
unfolding Map.put
upsert_lines rows [] = rows
upsert_lines rows ((line, entry) ∷ lines) = upsert_lines (Map.put rows line entry) lines

unfoldable pub put_state : FileRows → PersistedAnchorState → FileRows
unfolding upsert_lines
put_state rows state = record {
  file_row = some (state.checksum, state.line_count);
  line_rows = upsert_lines [] state.lines;
}

unfoldable pub put_lines : FileRows → List PersistedAnchorLine → FileRows
unfolding upsert_lines
put_lines rows lines = record rows { line_rows = upsert_lines rows.line_rows lines }

unfoldable pub put_meta : FileRows → Text → ℕ → Option ℕ → FileRows
unfolding Map.delete
put_meta rows checksum line_count none = record rows { file_row = some (checksum, line_count) }
put_meta rows checksum line_count (some drop_line) = record {
  file_row = some (checksum, line_count);
  line_rows = Map.delete rows.line_rows drop_line;
}
