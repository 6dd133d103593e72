-- ===== src/Session/AnchorEntry/Probe.antt =====
-- src/domain/session/anchor-entry.ts, `probeLines`: whether a session may write the lines it names. The
-- checksum of a text is a parameter.
pub mod Verdict
pub mod Whole
pub mod Complete
use dsh_hashline_edittool.Base.{
  ℕ, zero, suc, ◌+◌, ◌-◌, ◌≡◌, refl, Bool, true, false, not, ◌&&◌, ◌||◌, List, [], ◌∷◌, ◌++◌, map,
  Option, none, some, ltb, leb, ◌==◌, if◌then◌else◌, ◌>>=◌, length, get_elem?, get_or, Text, codes,
  has, nat_eq, text_eq, ◌===◌,
}
use dsh_hashline_edittool.Base.Map
use dsh_hashline_edittool.Base.Sort.{sort}
use dsh_hashline_edittool.Infra.Lines.{split_lines}
use dsh_hashline_edittool.Hashline.Alloc.Hash.{canon, content_key}
use dsh_hashline_edittool.Hashline.Alloc.Rows.{AnchorEntry, SparseState, allocate_into_rows}
use dsh_hashline_edittool.Session.ServedCodec.{Served}
use dsh_hashline_edittool.Session.AnchorEntry.{EntryState, persisted_anchor_lines, fingerprint}
use dsh_hashline_edittool.Session.AnchorRows.{
  PersistedAnchorLine, FileRows, probe_checksum, get_state, upsert_lines,
}
use dsh_hashline_edittool.Session.AnchorState.{
  PathState, Ensured, ensured, realign_error, ensure_state_at, normalize_content, lines_of,
  persist_anchor_state,
}

pub record AnchorRef : Type 0 where
  pub anchor : Text
  pub line : Option ℕ

pub data ProbeReason : Type 0 where
  never_seen rebound line_changed line_moved not_live : ProbeReason

pub record InvalidRow : Type 0 where
  pub line : ℕ
  pub current : Text
  pub given : Text
  pub content_key : ℕ

pub data ProbeResult : Type 0 where
  probe_ok : (resolved mapped : List (Text × ℕ)) → ProbeResult
  probe_fail : List InvalidRow → ProbeReason → ProbeResult

-- Which of the sets a rejected reference is put in; `stale` stands for none of them.
pub data Fault : Type 0 where
  not_live_fault not_served_fault rebound_fault stale : Fault

pub data RefVerdict : Type 0 where
  resolved_at : ℕ → RefVerdict
  rejected : Fault → InvalidRow → RefVerdict

-- `byAnchor`, in which the last row of an anchor stays
unfoldable pub by_anchor :
    List (Text × PersistedAnchorLine) → List PersistedAnchorLine → List (Text × PersistedAnchorLine)
unfolding Map.put
by_anchor out [] = out
by_anchor out (row ∷ rows) = by_anchor (Map.put out row.1.anchor row) rows

-- `byLine.get(at) ?? ""`
unfoldable pub anchor_at : List PersistedAnchorLine → ℕ → Text
unfolding Map.get upsert_lines
anchor_at rows line = elim (Map.get (upsert_lines [] rows) line) [
  | none ↦ []
  | some entry ↦ entry.anchor
]

-- the claimed line, or the first one when the file has no such line
unfoldable pub claimed_line : Option ℕ → ℕ → ℕ
claimed_line none line_count = 1
claimed_line (some claimed) line_count =
    if leb 1 claimed && leb claimed line_count then claimed else 1

module _ (content_checksum : Text → Text) (served : Served) (anchor_rows : List PersistedAnchorLine)
    (current_lines : List Text) where
  -- the row of a reference that names no live anchor
  unfoldable pub row_of_claim : AnchorRef → InvalidRow
  unfolding anchor_at claimed_line content_key
  row_of_claim ref =
      let at = claimed_line ref.line (length current_lines) in
      record {
        line = at;
        current = anchor_at anchor_rows at;
        given = ref.anchor;
        content_key =
            if leb 1 (length current_lines)
            then content_key (get_or current_lines (at - 1) [])
            else 0;
      }

  -- the conditions on a reference whose anchor is live, for the present text of its line
  unfoldable pub check_live : AnchorRef → PersistedAnchorLine → Text → RefVerdict
  unfolding Map.get content_key fingerprint
  check_live ref row text =
      let invalid : InvalidRow = record {
        line = row.0;
        current = row.1.anchor;
        given = ref.anchor;
        content_key = content_key text;
      } in
      if not (row.1.content_key == content_key text)
      then rejected stale invalid
      else elim (Map.get served ref.anchor) [
        | none ↦ rejected not_served_fault invalid
        | some served_key ↦
            if not (served_key === fingerprint content_checksum text)
            then rejected rebound_fault invalid
            else resolved_at row.0
      ]

  -- one round of the loop; `none` is the `TypeError` of `contentKey(undefined)`
  unfoldable pub check_ref : AnchorRef → Option RefVerdict
  unfolding row_of_claim by_anchor Map.get check_live
  check_ref ref =
      if ref.anchor === []
      then some (rejected not_served_fault (row_of_claim ref))
      else elim (Map.get (by_anchor [] anchor_rows) ref.anchor) [
        | none ↦ some (rejected not_live_fault (row_of_claim ref))
        | some row ↦ do text ← get_elem? current_lines (row.0 - 1); some (check_live ref row text)
      ]

  unfoldable pub check_refs : List AnchorRef → Option (List (Text × RefVerdict))
  unfolding check_ref
  check_refs [] = some []
  check_refs (ref ∷ refs) = do
    verdict ← check_ref ref
    verdicts ← check_refs refs
    some ((ref.anchor, verdict) ∷ verdicts)

-- `resolved`
unfoldable pub resolved_of : List (Text × RefVerdict) → List (Text × ℕ)
resolved_of [] = []
resolved_of ((anchor, resolved_at line) ∷ verdicts) = (anchor, line) ∷ resolved_of verdicts
resolved_of ((anchor, rejected fault row) ∷ verdicts) = resolved_of verdicts

-- `rows`
unfoldable pub rejected_of : List (Text × RefVerdict) → List InvalidRow
rejected_of [] = []
rejected_of ((anchor, resolved_at line) ∷ verdicts) = rejected_of verdicts
rejected_of ((anchor, rejected fault row) ∷ verdicts) = row ∷ rejected_of verdicts

abbrev same_fault : Fault → Fault → Bool
same_fault not_live_fault not_live_fault = true
same_fault not_served_fault not_served_fault = true
same_fault rebound_fault rebound_fault = true
same_fault _ _ = false

-- `notLive`, `rebound` and `notServed`
unfoldable pub anchors_with : Fault → List (Text × RefVerdict) → List Text
anchors_with fault [] = []
anchors_with fault ((anchor, resolved_at line) ∷ verdicts) = anchors_with fault verdicts
anchors_with fault ((anchor, rejected found row) ∷ verdicts) =
    let rest = anchors_with fault verdicts in if same_fault fault found then anchor ∷ rest else rest

unfoldable pub reason_of : List (Text × RefVerdict) → Bool → Text → ProbeReason
unfolding anchors_with
reason_of verdicts checksum_changed given =
    if has given (anchors_with not_live_fault verdicts)
    then not_live
    else if has given (anchors_with rebound_fault verdicts)
    then rebound
    else if has given (anchors_with not_served_fault verdicts)
    then (if checksum_changed then line_changed else never_seen)
    else if checksum_changed
    then line_changed
    else line_moved

-- the live anchors that were not named
unfoldable pub mapped_of : List Text → List (Text × ℕ) → List PersistedAnchorLine → List (Text × ℕ)
unfolding Map.put
mapped_of named out [] = out
mapped_of named out ((line, entry) ∷ rows) =
    mapped_of named (if has entry.anchor named then out else Map.put out entry.anchor line) rows

abbrev pub row_le : InvalidRow → InvalidRow → Bool
row_le a b = leb a.line b.line

-- the result for the verdicts on the references
unfoldable pub conclude : List PersistedAnchorLine → Bool → List (Text × RefVerdict) → ProbeResult
unfolding resolved_of rejected_of reason_of mapped_of sort
conclude anchor_rows checksum_changed verdicts = elim (sort row_le (rejected_of verdicts)) [
  | [] ↦
      let resolved = resolved_of verdicts in
      probe_ok resolved (mapped_of (map (λ r. r.0) resolved) [] anchor_rows)
  | first ∷ rows ↦ probe_fail (first ∷ rows) (reason_of verdicts checksum_changed first.given)
]

-- `probeLines` on what the store holds for a path and the session's served mirror for it
unfoldable pub probe_lines : (Text → Text) → EntryState → Text → List AnchorRef → Option ProbeResult
unfolding persisted_anchor_lines probe_checksum normalize_content split_lines check_refs conclude
probe_lines content_checksum state content refs =
    let rows = state.path_state.rows in
    let persisted_checksum = rows >>= probe_checksum in
    let anchor_rows = persisted_anchor_lines rows in
    let text = normalize_content content in
    let checksum_changed : Bool = elim persisted_checksum [
      | none ↦ false
      | some checksum ↦ not (checksum === content_checksum text)
    ] in
    do
      verdicts ← check_refs content_checksum state.served anchor_rows (split_lines text) refs
      some (conclude anchor_rows checksum_changed verdicts)
