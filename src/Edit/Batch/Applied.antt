-- ===== src/Edit/Batch/Applied.antt =====
-- src/domain/edit/edit-engine.ts, `applyOne`: the counts and the hunk of an edit, which are worked out from the
-- sizes of the two texts.
use dsh_hashline_edittool.Base.{
  subst, ◌+◌, ◌-◌, ◌≤◌, ◌≡◌, ◌≢◌, ap, sym, ◌∙◌, Bool, false, [], ◌++◌, arith, Text, length, take,
  drop, slice, All, text_eq, ===_of_ne, ===_sound, ===_false, ◌===◌, length-append, length-take,
  length-drop, inl, inr, Bool-cases, ltb, ◌==◌, ◌&&◌,
}
use dsh_hashline_edittool.Infra.Lines.{split_lines}
use dsh_hashline_edittool.Infra.Lines.RoundTrip.{IsLine}
use dsh_hashline_edittool.Hashline.Span.{
  RhEdit, Span, noop, replace, Applied, unchanged, written, not_emptied, assemble, build_idx,
  res_to_span, apply_resolved,
}
use dsh_hashline_edittool.Hashline.Span.Texts.{nil_of}
use dsh_hashline_edittool.Hashline.Span.Spans.{edited, blank_end}
use dsh_hashline_edittool.Hashline.Span.Reading.{vis_lines-split_lines}
use dsh_hashline_edittool.Hashline.Span.Splice.{Reads, apply_resolved-Reads}
use dsh_hashline_edittool.Edit.Batch.{
  count_line_changes, hunk_counts, applied_hunk, applied_changes,
}
use dsh_hashline_edittool.Edit.Batch.Layout.{brought}
use dsh_hashline_edittool.Edit.Batch.Hunk.{slice-edited, NamesLine, rejoined}

abbrev text_of : Applied → Text
text_of (written text) = text
text_of _ = []

-- A text is emptied only if it was empty.
not_emptied-nil : (content text : Text) → not_emptied content text ≡ written [] → content ≡ []
unfolding not_emptied
not_emptied-nil content text e = elim (Bool-cases (ltb 0 (length content) && length text == 0)) [
  | inl refused ↦ absurd (cc (rw (refused, not_emptied) at e))
  | inr kept ↦
      let nil : written text ≡ written [] = rw (kept, not_emptied) at e in
      nil_of content (ground (arith, ap (λ a. length (text_of a)) nil))
]

span-nil :
    (content : Text) (span : Span)
    → ◌≡◌ {A = Applied}
        (elim span [
          | noop loc current_content ↦ unchanged
          | replace start stop replacement ↦
              not_emptied content (assemble content start stop replacement)
        ])
        (written [])
    → content ≡ []
span-nil content (noop loc current_content) e = absurd (cc e)
span-nil content (replace start stop replacement) e =
    not_emptied-nil content (assemble content start stop replacement) e

apply_resolved-nil :
    (edit : RhEdit) (content : Text) → apply_resolved edit content ≡ written [] → content ≡ []
unfolding apply_resolved
apply_resolved-nil edit content e =
    span-nil content (res_to_span edit content (build_idx content)) e

module _ (edit : RhEdit) (content result : Text) (positive : 1 ≤ edit.first.line)
    (ordered : edit.first.line ≤ edit.last.line)
    (within : edit.last.line ≤ length (split_lines content)) (h : All IsLine edit.content_lines)
    (blank : blank_end edit content ≡ false) (done : apply_resolved edit content ≡ written result)
    (changed : result ≢ content) where
  result_lines : split_lines result ≡ edited edit content
  result_lines =
      let full : result ≢ [] =
        λ nil. changed (nil ∙ sym (apply_resolved-nil edit content (done ∙ ap written nil))) in
      sym (vis_lines-split_lines result full)
      ∙ subst (Reads content (edited edit content)) done
          (apply_resolved-Reads edit content positive ordered within h blank)

  counted :
      (hunk_counts content result edit.first.line edit.last.line).total_added_lines
      ≡ length edit.content_lines
  unfolding hunk_counts
  counted =
      let before = take (edit.first.line - 1) (split_lines content) in
      let behind = drop edit.last.line (split_lines content) in
      omega (
        arith,
        ap length result_lines,
        length-append before (edit.content_lines ++ behind),
        length-append edit.content_lines behind,
        length-take (edit.first.line - 1) (split_lines content),
        length-drop edit.last.line (split_lines content),
      )

  placed :
      (is_ins : Bool)
      → let hunk = applied_hunk is_ins content result edit.first.line edit.last.line in
        slice (split_lines result) (hunk.final_start1 - 1) hunk.final_end1
        ≡ brought is_ins edit.content_lines
  unfolding applied_hunk
  placed is_ins =
      rw (counted, result_lines, applied_hunk)
        (slice-edited (take (edit.first.line - 1) (split_lines content)) edit.content_lines
          (drop edit.last.line (split_lines content)) is_ins edit.first.line edit.last.line
          (omega (arith, length-take (edit.first.line - 1) (split_lines content))))

  joined :
      (is_ins : Bool)
      → NamesLine is_ins (split_lines content) edit.first.line edit.last.line edit.content_lines
      → let hunk = applied_hunk is_ins content result edit.first.line edit.last.line in
        take (hunk.old_start1 - 1) (split_lines content)
          ++ (brought is_ins edit.content_lines ++ drop hunk.old_end1 (split_lines content))
        ≡ split_lines result
  unfolding applied_hunk
  joined is_ins names =
      rejoined is_ins (split_lines content) edit.content_lines edit.first.line edit.last.line _ _
        positive names
      ∙ sym result_lines

  changes :
      applied_changes edit content result
      ≡ hunk_counts content result edit.first.line edit.last.line
  unfolding applied_changes
  changes = rw (===_of_ne result content changed, applied_changes)

sizes :
    (edit : RhEdit) (content result : Text)
    → 1 ≤ edit.first.line
    → edit.first.line ≤ edit.last.line
    → edit.last.line ≤ length (split_lines content)
    → All IsLine edit.content_lines
    → blank_end edit content ≡ false
    → apply_resolved edit content ≡ written result
    → let reported = applied_changes edit content result in
      length (split_lines result) + reported.total_removed_lines
      ≡ length (split_lines content) + reported.total_added_lines
unfolding applied_changes hunk_counts count_line_changes
sizes edit content result positive ordered within h blank done =
    elim (Bool-cases (result === content)) [
      | inl same ↦
          rw (same, applied_changes)
            (ap (λ t. length (split_lines t) + 0) (===_sound result content same))
      | inr other ↦
          let changed = ===_false result content other in
          let lines =
            result_lines edit content result positive ordered within h blank done changed in
          let before = take (edit.first.line - 1) (split_lines content) in
          let behind = drop edit.last.line (split_lines content) in
          rw (other, applied_changes)
            (omega (
              arith,
              ap length lines,
              length-append before (edit.content_lines ++ behind),
              length-append edit.content_lines behind,
              length-take (edit.first.line - 1) (split_lines content),
              length-drop edit.last.line (split_lines content),
            ))
    ]

-- What an applied edit reports of the lines is right. For an edit of lines that are in the file, whose new
-- lines hold no line feed, and which does not replace the last line of a text without a line feed
-- at its end by lines of which the last is empty; the lines of an insertion start with the one line
-- that it names: the lines of the written text and the removed ones that are reported are as
-- many as the lines of the old text and the added ones. If the text changed, exactly the new lines
-- are reported as added, and the hunk that is passed on to the update of the anchors is the
-- change: its new range holds just the lines that the edit brings, which for an insertion are the
-- new ones behind the line that it names, and the old lines with those in place of its old range
-- are the lines of the written text.
pub applied_changes_lem :
    (is_ins : Bool) (edit : RhEdit) (content result : Text)
    → 1 ≤ edit.first.line
    → edit.first.line ≤ edit.last.line
    → edit.last.line ≤ length (split_lines content)
    → All IsLine edit.content_lines
    → blank_end edit content ≡ false
    → NamesLine is_ins (split_lines content) edit.first.line edit.last.line edit.content_lines
    → apply_resolved edit content ≡ written result
    → let hunk = applied_hunk is_ins content result edit.first.line edit.last.line in
      let reported = applied_changes edit content result in
      (length (split_lines result) + reported.total_removed_lines
        ≡ length (split_lines content) + reported.total_added_lines)
      × (result ≢ content
          → (reported.total_added_lines ≡ length edit.content_lines)
            × (slice (split_lines result) (hunk.final_start1 - 1) hunk.final_end1
                ≡ brought is_ins edit.content_lines)
            × (take (hunk.old_start1 - 1) (split_lines content)
                  ++ (brought is_ins edit.content_lines ++ drop hunk.old_end1 (split_lines content))
                ≡ split_lines result))
applied_changes_lem is_ins edit content result positive ordered within h blank names done =
    let told : result ≢ content
        → (applied_changes edit content result).total_added_lines ≡ length edit.content_lines =
      λ changed.
        ap (λ r. r.total_added_lines)
          (changes edit content result positive ordered within h blank done changed)
        ∙ counted edit content result positive ordered within h blank done changed in
    (
      sizes edit content result positive ordered within h blank done,
      λ changed. (
        told changed,
        placed edit content result positive ordered within h blank done changed is_ins,
        joined edit content result positive ordered within h blank done changed is_ins names,
      ),
    )
