-- ===== src/Edit/Batch/Examples.antt =====
-- src/domain/edit/edit-engine.ts on batches of two hunks in a file of four lines.
use dsh_hashline_edittool.Base.{
  ◌+◌, ◌-◌, ◌≡◌, ◌≢◌, refl, arith, true, false, List, [], ◌∷◌, map, Text, codes, length, slice,
  take, drop, ◌++◌,
}
use dsh_hashline_edittool.Base.Sort.{sort}
use dsh_hashline_edittool.Edit.Conflicts.{detect_range_conflicts}
use dsh_hashline_edittool.Edit.Batch.Free.{edge_of, detect_range_conflicts-Laid}
use dsh_hashline_edittool.Infra.Lines.{split_lines, ends_with_newline}
use dsh_hashline_edittool.Hashline.Span.{RAnchor, RhEdit, written, apply_resolved}
use dsh_hashline_edittool.Hashline.Span.Spans.{blank_end}
use dsh_hashline_edittool.Edit.Batch.{
  Resolved, start_le, final_positions, ordered, applied_hunk, applied_changes,
}
use dsh_hashline_edittool.Edit.Batch.Applied.{applied_changes_lem}
use dsh_hashline_edittool.Edit.Batch.Layout.{Laid, Placed, assembled, final_positions-Placed}

abbrev old_lines : List Text
old_lines = codes "a" ∷ codes "b" ∷ codes "c" ∷ codes "d" ∷ []

abbrev insertion : Resolved
insertion = record {
  index = 0;
  start_line = 3;
  end_line = 3;
  content_lines = codes "c" ∷ codes "new" ∷ [];
  is_ins = true;
}

abbrev replacement : Resolved
replacement = record {
  index = 1;
  start_line = 1;
  end_line = 2;
  content_lines = codes "x" ∷ [];
  is_ins = false;
}

abbrev batch : List Resolved
batch = insertion ∷ replacement ∷ []

new_file :
    assembled old_lines 1 (sort start_le batch)
    ≡ codes "x" ∷ codes "c" ∷ codes "new" ∷ codes "d" ∷ []
unfolding sort
new_file = refl

batch-Laid : Laid 4 1 (sort start_le batch)
unfolding sort
batch-Laid = (
  (omega arith, omega arith),
  omega arith,
  ((omega arith, refl, omega arith), omega arith, omega arith),
)

batch_free : detect_range_conflicts (map edge_of batch) ≡ []
unfolding detect_range_conflicts
batch_free = refl

detect_range_conflicts-Laid_example : Laid 4 1 (sort start_le batch)
detect_range_conflicts-Laid_example =
    detect_range_conflicts-Laid 4 batch
      (
        (omega arith, omega arith, omega arith, λ e. (refl, omega arith)),
        ((omega arith, omega arith, omega arith, λ e. absurd (cc)), tt),
      )
      ((λ e. absurd (omega (arith, e)), tt), (tt, tt)) batch_free

final_positions-Placed_example :
    Placed
      (assembled old_lines 1 (sort start_le batch))
      (sort start_le batch)
      (final_positions batch)
final_positions-Placed_example = final_positions-Placed old_lines batch batch-Laid

-- a line goes behind line 3
abbrev old_text : Text
old_text = codes "a\nb\nc\nd\n"

abbrev new_text : Text
new_text = codes "a\nb\nc\nnew\nd\n"

abbrev line_three : RAnchor
line_three = record {
  anchor = codes "K3";
  line = 3;
  hash_matched = true;
  line_hint_mismatch = false;
}

abbrev behind_three : RhEdit
behind_three = record {
  content_lines = codes "c" ∷ codes "new" ∷ [];
  first = line_three;
  last = line_three;
}

inserted : apply_resolved behind_three old_text ≡ written new_text
unfolding apply_resolved
inserted = refl

not_blank : blank_end behind_three old_text ≡ false
unfolding split_lines ends_with_newline
not_blank = refl

applied_changes_example :
    (let hunk = applied_hunk true old_text new_text 3 3 in
      let reported = applied_changes behind_three old_text new_text in
      (length (split_lines new_text) + reported.total_removed_lines
        ≡ length (split_lines old_text) + reported.total_added_lines)
      × (new_text ≢ old_text
          → (reported.total_added_lines ≡ 2)
            × (slice (split_lines new_text) (hunk.final_start1 - 1) hunk.final_end1
                ≡ codes "new" ∷ [])
            × (take (hunk.old_start1 - 1) (split_lines old_text)
                  ++ (codes "new" ∷ [] ++ drop hunk.old_end1 (split_lines old_text))
                ≡ split_lines new_text)))
unfolding split_lines
applied_changes_example =
    applied_changes_lem true behind_three old_text new_text (omega arith) (omega arith)
      (omega arith) (omega arith) not_blank (refl, refl) inserted

-- an insertion behind line 3, listed in front of a replacement of line 3 by two lines: the insertion is
-- applied first, and its line ends up in line 5
abbrev tied : List Resolved
tied =
    insertion
    ∷ record {
      index = 1;
      start_line = 3;
      end_line = 3;
      content_lines = codes "y" ∷ codes "z" ∷ [];
      is_ins = false;
    }
    ∷ []

tied_order : ordered tied ≡ tied
unfolding ordered
tied_order = refl

tied_positions :
    final_positions tied
    ≡ record { index = 0; final_start = 3; final_end = 4 }
      ∷ record { index = 1; final_start = 4; final_end = 5 }
      ∷ []
unfolding final_positions
tied_positions = refl
