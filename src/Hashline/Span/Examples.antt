-- ===== src/Hashline/Span/Examples.antt =====
-- src/hashline/anchor-pipeline.ts on a text of three lines without a line feed at its end.
use dsh_hashline_edittool.Base.{◌≡◌, refl, arith, false, true, [], Text, codes}
use dsh_hashline_edittool.Infra.Lines.{split_lines, ends_with_newline}
use dsh_hashline_edittool.Hashline.Span.{
  RhEdit, written, would_empty, apply_resolved, changed_range,
}
use dsh_hashline_edittool.Hashline.Span.Spans.{edited, blank_end}
use dsh_hashline_edittool.Hashline.Span.Splice.{Reads, apply_resolved-Reads}
use dsh_hashline_edittool.Hashline.Span.Changed.{IsRange, changed_range-IsRange}

abbrev three : Text
three = codes "a\nbc\nd"

-- the last two lines go
abbrev cut : RhEdit
cut = record {
  content_lines = [];
  first = record { anchor = codes "K2"; line = 2; hash_matched = true; line_hint_mismatch = false };
  last = record { anchor = codes "K3"; line = 3; hash_matched = true; line_hint_mismatch = false };
}

cut_result : apply_resolved cut three ≡ written (codes "a")
unfolding apply_resolved ends_with_newline
cut_result = refl

cut_everything :
    apply_resolved (record cut { first = record cut.first { line = 1 } }) three ≡ would_empty
unfolding apply_resolved
cut_everything = refl

cut-blank_end : blank_end cut three ≡ false
unfolding split_lines ends_with_newline
cut-blank_end = refl

apply_resolved-Reads_example : Reads three (edited cut three) (apply_resolved cut three)
unfolding split_lines
apply_resolved-Reads_example =
    apply_resolved-Reads cut three (omega arith) (omega arith) (omega arith) tt cut-blank_end

changed_range-IsRange_example :
    IsRange (split_lines three) (split_lines (codes "a\nd")) (changed_range three (codes "a\nd"))
changed_range-IsRange_example = changed_range-IsRange three (codes "a\nd")
