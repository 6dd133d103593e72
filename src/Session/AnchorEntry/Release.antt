-- ===== src/Session/AnchorEntry/Release.antt =====
-- src/domain/session/anchor-entry.ts: `markReleased`, `clearReleasePool`, `allocationUsedSet`, `releaseLines`,
-- `releaseAnchors` and `restoreAnchorBinding`.
pub mod Gone
use dsh_hashline_edittool.Base.{
  suc, ◌==◌, ℕ, List, [], ◌∷◌, ◌++◌, Option, none, some, leb, if◌then◌else◌, length, Text, has, Eq,
  nat_eq, text_eq, ◌===◌,
}
use dsh_hashline_edittool.Base.Map
use dsh_hashline_edittool.Base.Sort.{sort}
use dsh_hashline_edittool.Infra.Lines.{split_lines}
use dsh_hashline_edittool.Hashline.Alloc.Hash.{content_key}
use dsh_hashline_edittool.Hashline.Alloc.Rows.{AnchorEntry, SparseState, live_anchors}
use dsh_hashline_edittool.Session.ServedCodec.{Served}
use dsh_hashline_edittool.Session.AnchorState.{
  PathState, ensured, realign_error, ensure_state_at, normalize_content, persist_anchor_state,
}
use dsh_hashline_edittool.Session.AnchorEntry.{EntryState, persisted_anchor_lines}

-- `for (const anchor of anchors) pool.add(anchor)`
unfoldable pub mark_released : List Text → List Text → List Text
mark_released pool [] = pool
mark_released pool (anchor ∷ anchors) =
    mark_released (if has anchor pool then pool else pool ++ anchor ∷ []) anchors

-- `clearReleasePool(path)`
unfoldable pub clear_release_pool : EntryState → EntryState
clear_release_pool state = record state { release_pool = [] }

-- `usedAnchorsFor(path, persistedAnchorsFor(path))`
unfoldable pub allocation_used_set : EntryState → List Text
unfolding persisted_anchor_lines
allocation_used_set state =
    live_anchors (persisted_anchor_lines state.path_state.rows) ++ state.release_pool

-- `new Set(...)` as a list, in insertion order
unfoldable pub set_of {ℓ} : {A : Type ℓ} ⦃e : Eq A⦄ → List A → List A → List A
set_of out [] = out
set_of out (x ∷ xs) = set_of (if has x out then out else out ++ x ∷ []) xs

-- the loop of `releaseLines`: the anchors released and the entries left
unfoldable pub release_entries :
    List (ℕ × AnchorEntry) → List ℕ → List Text × List (ℕ × AnchorEntry)
unfolding Map.get Map.delete
release_entries entries [] = ([], entries)
release_entries entries (line ∷ lines) = elim (Map.get entries line) [
  | none ↦ release_entries entries lines
  | some entry ↦
      let (released, left) = release_entries (Map.delete entries line) lines in
      (entry.anchor ∷ released, left)
]

-- `for (const anchor of released) served.delete(anchor)`
unfoldable pub unserve : Served → List Text → Served
unfolding Map.delete
unserve served [] = served
unserve served (anchor ∷ anchors) = unserve (Map.delete served anchor) anchors

abbrev persisted : PathState → SparseState → PathState
persisted path state = record path {
  rows = elim path.rows [ none ↦ none | some rows ↦ some (persist_anchor_state rows state) ];
}

-- the release of lines of a loaded state
unfoldable pub release_from : EntryState → PathState → SparseState → List ℕ → List Text × EntryState
unfolding sort set_of release_entries mark_released unserve persist_anchor_state
release_from entry path state lines =
    let (released, left) = release_entries state.entries (sort leb (set_of [] lines)) in
    elim released [
      | [] ↦ ([], record entry { path_state = path })
      | anchor ∷ anchors ↦ (
        anchor ∷ anchors,
        record {
          path_state = persisted path (record state { entries = left });
          served = unserve entry.served (anchor ∷ anchors);
          release_pool = mark_released entry.release_pool (anchor ∷ anchors);
        },
      )
    ]

unfoldable pub release_lines :
    (Text → Text) → ℕ → EntryState → List ℕ → Text → Option (List Text × EntryState)
unfolding ensure_state_at normalize_content split_lines release_from
release_lines content_checksum effective entry lines content =
    let text = normalize_content content in
    elim (ensure_state_at effective entry.path_state (content_checksum text)
      (length (split_lines text)) (some text)) [
        | ensured state path ↦ some (release_from entry path state lines)
        | realign_error path ↦ none
      ]

-- `filter((anchor) => anchor !== "")`
without_empty : List Text → List Text
without_empty [] = []
without_empty (anchor ∷ anchors) =
    let rest = without_empty anchors in if anchor === [] then rest else anchor ∷ rest

unfoldable pub release_anchors : EntryState → List Text → EntryState
unfolding set_of without_empty mark_released unserve
release_anchors entry anchors =
    let released = without_empty (set_of [] anchors) in
    record entry {
      served = unserve entry.served released;
      release_pool = mark_released entry.release_pool released;
    }

-- `rebuilt`: `i + 1`, and the saved anchors and the lines from there on
unfoldable pub rebuild : ℕ → List (ℕ × AnchorEntry) → List Text → List Text → List (ℕ × AnchorEntry)
unfolding Map.put content_key
rebuild line out [] lines = out
rebuild line out (anchor ∷ hashes) [] = out
rebuild line out (anchor ∷ hashes) (text ∷ lines) =
    rebuild (suc line)
      (if anchor === []
        then out
        else Map.put out line (record { anchor = anchor; content_key = content_key text }))
      hashes lines

-- `pool.delete(anchor)`
remove : List Text → Text → List Text
remove [] anchor = []
remove (x ∷ pool) anchor = let rest = remove pool anchor in if x === anchor then rest else x ∷ rest

-- the released anchors without those that are bound again
unfoldable pub unrelease : List Text → List (ℕ × AnchorEntry) → List Text
unfolding remove
unrelease pool [] = pool
unrelease pool ((line, entry) ∷ entries) = unrelease (remove pool entry.anchor) entries

-- `restoreAnchorBinding`, with the number of lines bound again
unfoldable pub restore_anchor_binding :
    (Text → Text) → EntryState → Text → List Text → ℕ × EntryState
unfolding split_lines rebuild unrelease persist_anchor_state
restore_anchor_binding content_checksum entry content hashes =
    let lines = split_lines content in
    let rebuilt = rebuild 1 [] hashes lines in
    let state : SparseState = record {
      checksum = content_checksum content;
      line_count = length lines;
      entries = rebuilt;
    } in
    if length rebuilt == 0 then (0, entry) else (
      length rebuilt,
      record entry {
        path_state = persisted entry.path_state state;
        release_pool = unrelease entry.release_pool rebuilt;
      },
    )
