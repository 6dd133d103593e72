-- ===== src/Session/AnchorEntry/Mint.antt =====
-- src/domain/session/anchor-entry.ts, `anchorFor`: an anchor for each line that a tool is about to return, and the
-- session's record of it. A thrown error undoes the transaction, so that it is `none`.
pub mod Rounds
pub mod Reuse
pub mod Shown
pub mod Writable
pub mod Places
pub mod Accepted
use dsh_hashline_edittool.Base.{
  ℕ, ◌-◌, ◌||◌, List, [], ◌∷◌, ◌++◌, map, Option, none, some, ltb, ◌==◌, if◌then◌else◌, ◌>>=◌,
  length, get_or, Text, nat_eq, text_eq, ◌===◌,
}
use dsh_hashline_edittool.Base.Map
use dsh_hashline_edittool.Infra.Lines.{split_lines}
use dsh_hashline_edittool.Hashline.Alloc.Hash.{content_key}
use dsh_hashline_edittool.Hashline.Alloc.Rows.{
  AnchorEntry, SparseState, live_anchors, allocate_into_rows,
}
use dsh_hashline_edittool.Session.ServedCodec.{Served}
use dsh_hashline_edittool.Session.AnchorRows.{PersistedAnchorLine, upsert_lines}
use dsh_hashline_edittool.Session.AnchorState.{
  PathState, ensured, realign_error, ensure_state_at, normalize_content, persist_anchor_state,
}
use dsh_hashline_edittool.Session.AnchorEntry.{EntryState, persisted_anchor_lines, fingerprint}

-- `AnchorForResult`; what is minted is read out of range for a repeated line, which is `none`
pub record AnchorForResult : Type 0 where
  pub anchors : List Text
  pub minted : List (Option Text)

-- `anchorRowsFromContent`: the rows, the checksum and line count, and the normalized text
unfoldable pub anchor_rows_from_content :
    (Text → Text) → Text → List ℕ → List (ℕ × Text) × (Text × ℕ) × Text
unfolding normalize_content split_lines
anchor_rows_from_content content_checksum content lines =
    let normalized = normalize_content content in
    let texts = split_lines normalized in
    (
      map (λ line. (line, get_or texts (line - 1) [])) lines,
      (content_checksum normalized, length texts),
      normalized,
    )

-- `textByLine`, and `missRows` by it
unfoldable pub text_by_line : List (ℕ × Text) → List (ℕ × Text) → List (ℕ × Text)
unfolding Map.put
text_by_line out [] = out
text_by_line out ((line, text) ∷ rows) = text_by_line (Map.put out line text) rows

-- What a round of the first loop does. `mintedByLine` is empty in that loop.
pub data Round : Type 0 where
  skipped : Round
  reused : AnchorEntry → Round
  missed : Text → Round

-- the rest of a round, for a line in range with this text
unfoldable pub round_of : Option AnchorEntry → Text → Round
unfolding content_key
round_of none text = missed text
round_of (some existing) text =
    if existing.content_key == content_key text then reused existing else missed text

unfoldable pub serve_round : List PersistedAnchorLine → List (ℕ × Text) → ℕ → ℕ → Round
unfolding Map.get round_of
serve_round rows_by_line texts line_count line =
    if ltb line 1 || ltb line_count line then skipped else elim (Map.get texts line) [
      | none ↦ skipped
      | some text ↦ round_of (Map.get rows_by_line line) text
    ]

-- `anchors[i]` after the first loop
unfoldable pub first_anchor : Round → Text
first_anchor skipped = []
first_anchor (reused existing) = existing.anchor
first_anchor (missed text) = []

-- `state.entries.set(line, { anchor: existing.anchor, contentKey: key })`
unfoldable pub keep_reused : List (ℕ × AnchorEntry) → List (ℕ × Round) → List (ℕ × AnchorEntry)
unfolding Map.put
keep_reused entries [] = entries
keep_reused entries ((line, skipped) ∷ rounds) = keep_reused entries rounds
keep_reused entries ((line, reused existing) ∷ rounds) =
    keep_reused (Map.put entries line existing) rounds
keep_reused entries ((line, missed text) ∷ rounds) = keep_reused entries rounds

-- `misses`, each with its text
unfoldable pub misses_of : List (ℕ × Round) → List (ℕ × Text)
misses_of [] = []
misses_of ((line, skipped) ∷ rounds) = misses_of rounds
misses_of ((line, reused existing) ∷ rounds) = misses_of rounds
misses_of ((line, missed text) ∷ rounds) = (line, text) ∷ misses_of rounds

-- `mintedByLine`: `fresh[i]` goes to `misses[i]`, and is undefined behind the end of `fresh`
unfoldable pub minted_by_line :
    List (ℕ × Option Text) → List (ℕ × Text) → List Text → List (ℕ × Option Text)
unfolding Map.put
minted_by_line out [] fresh = out
minted_by_line out ((line, text) ∷ misses) [] = minted_by_line (Map.put out line none) misses []
minted_by_line out ((line, text) ∷ misses) (anchor ∷ fresh) =
    minted_by_line (if anchor === [] then out else Map.put out line (some anchor)) misses fresh

-- `minted`
unfoldable pub minted_of : List (ℕ × Text) → List Text → List (Option Text)
minted_of [] fresh = []
minted_of (miss ∷ misses) [] = none ∷ minted_of misses []
minted_of (miss ∷ misses) (anchor ∷ fresh) =
    let rest = minted_of misses fresh in if anchor === [] then rest else some anchor ∷ rest

-- `mintedByLine.get(line) ?? ""`
unfoldable pub minted_at : List (ℕ × Option Text) → ℕ → Text
unfolding Map.get
minted_at minted line = elim (Map.get minted line) [
  | none ↦ []
  | some value ↦ elim value [ none ↦ [] | some anchor ↦ anchor ]
]

unfoldable pub final_anchor : List (ℕ × Option Text) → ℕ → Round → Text
unfolding first_anchor minted_at
final_anchor minted line round =
    if first_anchor round === [] then minted_at minted line else first_anchor round

-- `servedEntries`
unfoldable pub served_entries : (Text → Text) → List (ℕ × Text) → Served → List (ℕ × Text) → Served
unfolding Map.get Map.put fingerprint
served_entries content_checksum texts out [] = out
served_entries content_checksum texts out ((line, anchor) ∷ anchors) =
    served_entries content_checksum texts
      (if anchor === [] then out else elim (Map.get texts line) [
        | none ↦ out
        | some text ↦ Map.put out anchor (fingerprint content_checksum text)
      ])
      anchors

-- `for (const [anchor, key] of servedEntries) current.set(anchor, key)`
unfoldable pub extend_served : Served → Served → Served
unfolding Map.put
extend_served served [] = served
extend_served served ((anchor, key) ∷ entries) = extend_served (Map.put served anchor key) entries

-- `persist`
unfoldable pub persist : EntryState → PathState → SparseState → Served → EntryState
unfolding persist_anchor_state extend_served
persist entry path state shown = record entry {
  path_state = record path {
    rows = elim path.rows [ none ↦ none | some rows ↦ some (persist_anchor_state rows state) ];
  };
  served = extend_served entry.served shown;
}

-- the allocation for the misses, and the write-back, behind the first loop
unfoldable pub finish :
    (Text → Text)
    → EntryState
    → PathState
    → SparseState
    → List (ℕ × Text)
    → List (ℕ × Round)
    → List (ℕ × Text)
    → List Text
    → Text
    → ℕ
    → Option (AnchorForResult × EntryState)
unfolding keep_reused misses_of allocate_into_rows minted_by_line minted_of final_anchor
    served_entries persist
finish content_checksum entry path state texts rounds miss_rows used checksum line_count = do
  (fresh, state') ←
      allocate_into_rows (record state { entries = keep_reused state.entries rounds }) miss_rows
        line_count (some used)
  let minted = minted_by_line [] (misses_of rounds) fresh in
      let anchors = map (λ r. (r.0, final_anchor minted r.0 r.1)) rounds in
      some (
        record { anchors = map (λ r. r.1) anchors; minted = minted_of (misses_of rounds) fresh },
        persist entry path (record state' { checksum = checksum; line_count = line_count })
            (served_entries content_checksum texts [] anchors),
      )

-- the body of `anchorForInTransaction` behind the state's load
unfoldable pub serve :
    (Text → Text)
    → EntryState
    → PathState
    → SparseState
    → List (ℕ × Text)
    → Text
    → ℕ
    → Option (AnchorForResult × EntryState)
unfolding persisted_anchor_lines upsert_lines text_by_line serve_round misses_of finish
serve content_checksum entry path state rows checksum line_count =
    let texts = text_by_line [] rows in
    let anchor_rows = persisted_anchor_lines path.rows in
    let used = live_anchors anchor_rows ++ entry.release_pool in
    let rows_by_line = upsert_lines [] anchor_rows in
    let rounds = map (λ row. (row.0, serve_round rows_by_line texts line_count row.0)) rows in
    finish content_checksum entry path state texts rounds (text_by_line [] (misses_of rounds)) used
      checksum line_count

-- `anchorForInTransaction`
unfoldable pub anchor_for :
    (Text → Text)
    → ℕ
    → EntryState
    → List (ℕ × Text)
    → Text × ℕ
    → Option Text
    → Option (AnchorForResult × EntryState)
unfolding ensure_state_at normalize_content split_lines serve
anchor_for content_checksum effective entry rows (checksum, line_count) content =
    let identity : Text × ℕ × Option Text = elim content [
      | none ↦ (checksum, line_count, none)
      | some raw ↦
          let text = normalize_content raw in
          (content_checksum text, length (split_lines text), some text)
    ] in
    elim (ensure_state_at effective entry.path_state identity.0 identity.1 identity.2) [
      | ensured state path ↦ serve content_checksum entry path state rows checksum line_count
      | realign_error path ↦ none
    ]

-- `anchorForContent`
unfoldable pub anchor_for_content :
    (Text → Text) → ℕ → EntryState → Text → List ℕ → Option (AnchorForResult × EntryState)
unfolding anchor_rows_from_content anchor_for
anchor_for_content content_checksum effective entry content lines =
    let (rows, identity, text) = anchor_rows_from_content content_checksum content lines in
    anchor_for content_checksum effective entry rows identity (some text)
