-- ===== src/Session/AnchorState/Update/Kept.antt =====
-- src/domain/session/anchor-state.ts, `updateAnchorsAfterEdit`: the fresh lines and the lines that no hunk
-- replaces.
use mathlib.Core.Option.{some-injective}
use dsh_hashline_edittool.Base.{
  ℕ, suc, ◌+◌, ◌-◌, ◌≤◌, ◌<◌, ◌≡◌, ◌≢◌, refl, sym, ◌∙◌, subst, min, Bool, ◌&&◌, List, [], ◌∷◌,
  Option, none, some, arith, ltb, leb, length, length-take, drop, slice, Text, nat_eq, text_eq, All,
  All-map, All-append, Bool-cases, Option-cases, inl, inr, ◌⊎◌, ===_of_ne, get_or,
}
use dsh_hashline_edittool.Base.Map
use dsh_hashline_edittool.Base.Map.{Keyed}
use dsh_hashline_edittool.Infra.Lines.{split_lines}
use dsh_hashline_edittool.Edit.Batch.{EditHunk}
use dsh_hashline_edittool.Hashline.Align.Lcs.{Pairs}
use dsh_hashline_edittool.Hashline.Align.Bounded.{align_preserved_bounded, five_percent}
use dsh_hashline_edittool.Hashline.Alloc.Rows.{AnchorEntry, SparseState, rows_of, allocate_into}
use dsh_hashline_edittool.Hashline.Alloc.Rows.Call.{allocate_into_rows-other}
use dsh_hashline_edittool.Session.AnchorState.Update.{
  new_position, Walk, carry_over, fresh_of, walk_hunk, walk_hunks, Shift, shift_entries, move,
}
use dsh_hashline_edittool.Session.AnchorState.Update.Outside.{
  Disjoint, new_position-above, new_position-le, shift_entries-get,
}

-- The hunks' final ranges are where the lines that were added and removed in front of them put them.
abbrev pub FinallyLaid : ℕ → ℕ → List EditHunk → Type 0
FinallyLaid added removed [] = Unit
FinallyLaid added removed (h ∷ hunks) =
    (h.final_start1 ≡ h.old_start1 + added - removed)
    × (1 ≤ h.final_start1)
    × (h.final_start1 ≤ h.final_end1 + 1)
    × FinallyLaid (added + (h.final_end1 + 1 - h.final_start1))
        (removed + (h.old_end1 + 1 - h.old_start1)) hunks

-- A line of the new file is not one that the hunk made.
abbrev pub Misses : ℕ → EditHunk → Type 0
Misses p h = (p < h.final_start1) ⊎ (h.final_end1 < p)

finals-above :
    (added removed low : ℕ) (hunks : List EditHunk)
    → Disjoint low hunks
    → FinallyLaid added removed hunks
    → removed ≤ low + added
    → All (λ h. low + added - removed ≤ h.final_start1) hunks
finals-above added removed low [] d f r = tt
finals-above added removed low (h ∷ hunks) (start, wf, d) (at, one, ends, f) r = (
  omega arith,
  All-map (λ g le. omega arith) hunks
      (finals-above (added + (h.final_end1 + 1 - h.final_start1))
        (removed + (h.old_end1 + 1 - h.old_start1)) (h.old_end1 + 1) hunks d f (omega arith)),
)

new_position-Misses :
    (line added removed low : ℕ) (hunks : List EditHunk) (p : ℕ)
    → Disjoint low hunks
    → FinallyLaid added removed hunks
    → low ≤ line
    → removed ≤ low + added
    → new_position line added removed hunks ≡ some p
    → All (Misses p) hunks
unfolding new_position
new_position-Misses line added removed low [] p d f lo r e = tt
new_position-Misses line added removed low (h ∷ hunks) p (start, wf, d) (at, one, ends, f) lo r e =
    elim (Bool-cases (leb h.old_start1 line && leb line h.old_end1)) [
      | inl inside ↦ absurd (cc (rw (inside, new_position) at e))
      | inr outside ↦ elim (Bool-cases (ltb h.old_end1 line)) [
        | inl behind ↦
            let added' = added + (h.final_end1 + 1 - h.final_start1) in
            let removed' = removed + (h.old_end1 + 1 - h.old_start1) in
            let e' = rw (outside, behind, new_position) at e in
            let low_p =
              new_position-le line added' removed' (h.old_end1 + 1) hunks p d (ground arith)
                (omega arith) e' in
            (
              inr (omega arith),
              new_position-Misses line added' removed' (h.old_end1 + 1) hunks p d f (ground arith)
                  (omega arith) e',
            )
        | inr above ↦
            let stays =
              new_position-above line added removed (h.old_end1 + 1) hunks d (ground arith) in
            let found : line + added - removed ≡ p =
              some-injective _ p (sym stays ∙ rw (outside, above, new_position) at e) in
            let line_above : line < h.old_start1 = ground arith in
            (
              inl (omega arith),
              All-map (λ g le. inl (omega arith)) hunks
                  (finals-above (added + (h.final_end1 + 1 - h.final_start1))
                    (removed + (h.old_end1 + 1 - h.old_start1)) (h.old_end1 + 1) hunks d f
                    (omega arith)),
            )
      ]
    ]

-- fresh lines are lines that the hunk made
fresh_of-within :
    (h : EditHunk) (preserved : Pairs) (k : ℕ) (new_seg : List Text)
    → h.final_start1 + k + length new_seg ≤ h.final_end1 + 1
    → All (λ n. (h.final_start1 ≤ n) × (n ≤ h.final_end1)) (fresh_of h preserved k new_seg)
unfolding fresh_of
fresh_of-within h preserved k [] le = tt
fresh_of-within h preserved k (text ∷ new_seg) le =
    let rest = fresh_of-within h preserved (suc k) new_seg (omega arith) in
    elim (Option-cases (Map.get preserved k)) [
      | inl free ↦ rw (free, fresh_of) ((omega arith, omega arith), rest)
      | inr (i, kept) ↦ rw (kept, fresh_of) rest
    ]

carry_over-fresh :
    (entries : List (ℕ × AnchorEntry)) (h : EditHunk) (pairs : Pairs) (walk : Walk)
    → (carry_over entries h walk pairs).fresh_lines ≡ walk.fresh_lines
unfolding carry_over
carry_over-fresh entries h [] walk = refl
carry_over-fresh entries h ((new_idx, old_idx) ∷ pairs) walk =
    elim (Option-cases (Map.get entries (h.old_start1 + old_idx))) [
      | inl missing ↦ rw (missing, carry_over) (carry_over-fresh entries h pairs walk)
      | inr (entry, found) ↦ rw (found, carry_over) (carry_over-fresh entries h pairs _)
    ]

module _ (effective : ℕ) (old_lines new_lines : List Text) (entries : List (ℕ × AnchorEntry))
    (p : ℕ) where
  walk_hunk-fresh :
      (walk : Walk) (h : EditHunk)
      → Misses p h
      → 1 ≤ h.final_start1
      → h.final_start1 ≤ h.final_end1 + 1
      → All (λ n. n ≢ p) walk.fresh_lines
      → All (λ n. n ≢ p) (walk_hunk effective old_lines new_lines entries walk h).fresh_lines
  unfolding walk_hunk
  walk_hunk-fresh walk h misses one ends free =
      let from = h.final_start1 - 1 in
      let to = min h.final_end1 (length new_lines) in
      let new_seg = slice new_lines from to in
      let old_seg = slice old_lines (h.old_start1 - 1) (min h.old_end1 (length old_lines)) in
      let pairs = (align_preserved_bounded old_seg new_seg effective five_percent).pairs in
      let size : length new_seg ≡ min (to - from) (length (drop from new_lines)) =
        length-take (to - from) (drop from new_lines) in
      All-append (λ n. n ≢ p) (carry_over entries h walk pairs).fresh_lines
        (fresh_of h pairs 0 new_seg)
        (subst (All (λ n. n ≢ p)) (sym (carry_over-fresh entries h pairs walk)) free)
        (All-map
          (λ n within same. elim misses [
            | inl above ↦ absurd (omega arith)
            | inr below ↦ absurd (omega arith)
          ])
          (fresh_of h pairs 0 new_seg) (fresh_of-within h pairs 0 new_seg (omega arith)))

  walk_hunks-fresh :
      (walk : Walk) (hunks : List EditHunk) (added removed : ℕ)
      → All (Misses p) hunks
      → FinallyLaid added removed hunks
      → All (λ n. n ≢ p) walk.fresh_lines
      → All (λ n. n ≢ p) (walk_hunks effective old_lines new_lines entries walk hunks).fresh_lines
  unfolding walk_hunks
  walk_hunks-fresh walk [] added removed m f free = free
  walk_hunks-fresh walk (h ∷ hunks) added removed (m, ms) (at, one, ends, f) free =
      walk_hunks-fresh (walk_hunk effective old_lines new_lines entries walk h) hunks _ _ ms f
        (walk_hunk-fresh walk h m one ends free)

rows_of-none :
    (texts : List Text) (rows : List (ℕ × Text)) (lines : List ℕ) (p : ℕ)
    → All (λ n. n ≢ p) lines
    → Map.get rows p ≡ none
    → Map.get (rows_of texts rows lines) p ≡ none
unfolding rows_of
rows_of-none texts rows [] p h at = at
rows_of-none texts rows (line ∷ lines) p (ne, h) at =
    elim (Bool-cases (leb 1 line && leb line (length texts))) [
      | inr out ↦ rw out (rows_of-none texts rows lines p h at)
      | inl inside ↦ rw inside (
          rows_of-none texts (Map.put rows line (get_or texts (line - 1) [])) lines p h
            (Map.get-put rows line p (get_or texts (line - 1) []) ∙ rw (===_of_ne line p ne) at))
    ]

-- A served line outside the hunks keeps its entry, and so its anchor, through the whole update: the state
-- behind the walk over the hunks, the shift and the allocation of the fresh lines holds it at the
-- position that the line moves to. The hunks are disjoint, in order, and laid out finally as what they
-- add and remove says; a line has one entry.
pub allocate_into-outside :
    (effective : ℕ) (old_lines : List Text) (new_content : Text) (entries : List (ℕ × AnchorEntry))
    (hunks : List EditHunk) (degraded : Bool) (checksum : Text) (used : Option (List Text))
    (line p : ℕ) (entry : AnchorEntry) {served : List Text} {state : SparseState}
    → Disjoint 0 hunks
    → FinallyLaid 0 0 hunks
    → Keyed entries
    → Map.get entries line ≡ some entry
    → new_position line 0 0 hunks ≡ some p
    → (let (walk, shift) =
          move effective degraded old_lines (split_lines new_content) entries hunks in
        allocate_into
          (record {
            checksum = checksum;
            line_count = length (split_lines new_content);
            entries = shift.shifted;
          })
          new_content
          walk.fresh_lines
          used
        ≡ some (served, state))
    → Map.get state.entries p ≡ some entry
unfolding allocate_into move Map.get
allocate_into-outside effective old_lines new_content entries hunks degraded checksum used line p
      entry d f k at moved e =
    let new_lines = split_lines new_content in
    let start : Walk = record {
      shifted = [];
      fresh_lines = [];
      survivors = [];
      degraded = degraded;
    } in
    let walk = walk_hunks effective old_lines new_lines entries start hunks in
    let before : Shift = record { shifted = walk.shifted; released = []; released_anchors = [] } in
    let misses = new_position-Misses line 0 0 0 hunks p d f (omega arith) (omega arith) moved in
    let fresh =
      walk_hunks-fresh effective old_lines new_lines entries p start hunks 0 0 misses f tt in
    allocate_into_rows-other
      (record {
        checksum = checksum;
        line_count = length new_lines;
        entries = (shift_entries hunks walk.survivors before entries).shifted;
      })
      (rows_of new_lines [] walk.fresh_lines) (length new_lines) used p e
      (rows_of-none new_lines [] walk.fresh_lines p fresh refl)
    ∙ shift_entries-get hunks walk.survivors d line p entry moved before entries k at
