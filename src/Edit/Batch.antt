-- ===== src/Edit/Batch.antt =====
-- src/domain/edit/edit-engine.ts: where the hunks of a batch stand in the final file. The offset, which
-- can be negative, is kept as the lines added and the lines removed so far.
pub mod Layout
pub mod Free
pub mod Hunk
pub mod Applied
mod Examples
use dsh_hashline_edittool.Base.{
  ℕ, suc, ◌+◌, ◌-◌, ◌≡◌, refl, max, Bool, true, false, not, ◌&&◌, ◌||◌, List, [], ◌∷◌, Option, none,
  some, leb, ltb, if◌then◌else◌, length, Text, codes, text_eq, ◌===◌,
}
use dsh_hashline_edittool.Infra.Lines.{split_lines}
use dsh_hashline_edittool.Hashline.Span.{RhEdit}
use dsh_hashline_edittool.Base.Sort.{sort, insert}

-- an item of `resolvedEdits`, with the lines of its bounds
pub record Resolved : Type 0 where
  pub index : ℕ
  pub start_line : ℕ
  pub end_line : ℕ
  pub content_lines : List Text
  pub is_ins : Bool

pub record FinalPosition : Type 0 where
  pub index : ℕ
  pub final_start : ℕ
  pub final_end : ℕ

abbrev pub start_le : Resolved → Resolved → Bool
start_le a b = leb a.start_line b.start_line

unfoldable pub position : Resolved → ℕ → ℕ → FinalPosition
position entry added removed =
    let final_start = entry.start_line + added - removed in
    record {
      index = entry.index;
      final_start = final_start;
      final_end = final_start + length entry.content_lines - 1;
    }

-- the loop over the ascending hunks
unfoldable pub positions : List Resolved → ℕ → ℕ → List FinalPosition
unfolding position
positions [] added removed = []
positions (entry ∷ entries) added removed =
    position entry added removed
    ∷ positions entries (added + length entry.content_lines)
        (removed + (entry.end_line - entry.start_line + 1))

unfoldable pub final_positions : List Resolved → List FinalPosition
unfolding positions sort
final_positions resolved = positions (sort start_le resolved) 0 0

-- the order in which the hunks are applied: from the back, an insertion before a replacement of its line
abbrev pub apply_le : Resolved → Resolved → Bool
apply_le a b =
    ltb b.start_line a.start_line || leb b.start_line a.start_line && (a.is_ins || not b.is_ins)

unfoldable pub ordered : List Resolved → List Resolved
unfolding sort
ordered resolved = sort apply_le resolved

pub record EditHunk : Type 0 where
  pub old_start1 : ℕ
  pub old_end1 : ℕ
  pub final_start1 : ℕ
  pub final_end1 : ℕ

unfoldable pub to_anchor_hunk : Bool → ℕ → ℕ → ℕ → ℕ → EditHunk
to_anchor_hunk is_ins old_start1 old_end1 final_start1 final_end1 =
    if not is_ins
    then record {
      old_start1 = old_start1;
      old_end1 = old_end1;
      final_start1 = final_start1;
      final_end1 = final_end1;
    }
    else record {
      old_start1 = old_start1 + 1;
      old_end1 = old_start1;
      final_start1 = final_start1 + 1;
      final_end1 = final_end1;
    }

pub record LineChanges : Type 0 where
  pub total_added_lines : ℕ
  pub total_removed_lines : ℕ

-- `Math.abs(a - b)`
abbrev pub distance : ℕ → ℕ → ℕ
distance a b = (a - b) + (b - a)

-- the lines between two bounds, 0 where one is not known or not a line
unfoldable pub removed_lines : Option ℕ → Option ℕ → ℕ
removed_lines none end_line = 0
removed_lines (some start_line) none = 0
removed_lines (some start_line) (some end_line) =
    if leb 1 start_line && leb 1 end_line then distance end_line start_line + 1 else 0

unfoldable pub count_line_changes : List Text → Option ℕ → Option ℕ → Bool → ℕ → LineChanges
unfolding removed_lines
count_line_changes content_lines start_line end_line is_noop removed_auto_fixes =
    if is_noop then record { total_added_lines = 0; total_removed_lines = 0 } else record {
      total_added_lines = length content_lines - removed_auto_fixes;
      total_removed_lines = removed_lines start_line end_line;
    }

-- `addedCount` and `removedCount` of an edit of lines `start_line` to `end_line` that changed the text
unfoldable pub hunk_counts : Text → Text → ℕ → ℕ → LineChanges
unfolding split_lines
hunk_counts content result start_line end_line =
    let removed_count = end_line - start_line + 1 in
    record {
      total_added_lines =
          length (split_lines result) + removed_count - length (split_lines content);
      total_removed_lines = removed_count;
    }

-- the hunk that `applyOne` passes on for such an edit
unfoldable pub applied_hunk : Bool → Text → Text → ℕ → ℕ → EditHunk
unfolding hunk_counts to_anchor_hunk
applied_hunk is_ins content result start_line end_line =
    to_anchor_hunk is_ins start_line end_line start_line
      (start_line + (hunk_counts content result start_line end_line).total_added_lines - 1)

-- The counts that `applyOne` reports.
unfoldable pub applied_changes : RhEdit → Text → Text → LineChanges
unfolding count_line_changes hunk_counts
applied_changes edit content result =
    if result === content
    then count_line_changes edit.content_lines (some edit.first.line) (some edit.last.line) true 0
    else hunk_counts content result edit.first.line edit.last.line

pub record ChangedRange : Type 0 where
  pub original_start_line : ℕ
  pub original_end_line : ℕ

-- the loop of `replacedOriginalRanges`
unfoldable pub replaced_ranges : List Resolved → List ChangedRange
replaced_ranges [] = []
replaced_ranges (hunk ∷ hunks) =
    let rest = replaced_ranges hunks in
    if hunk.is_ins
    then rest
    else record { original_start_line = hunk.start_line; original_end_line = hunk.end_line } ∷ rest

abbrev pub range_le : ChangedRange → ChangedRange → Bool
range_le a b = leb a.original_start_line b.original_start_line

unfoldable pub replaced_original_ranges : List Resolved → List ChangedRange
unfolding replaced_ranges sort
replaced_original_ranges hunks = sort range_le (replaced_ranges hunks)
