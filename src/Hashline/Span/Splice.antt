-- ===== src/Hashline/Span/Splice.antt =====
-- src/hashline/anchor-pipeline.ts: what an edit does to the lines of a file.
use dsh_hashline_edittool.Base.{
  ◌≤◌, ◌≡◌, ◌≢◌, refl, ap, sym, ◌∙◌, false, ◌&&◌, List, [], arith, Text, length, All, inl, inr,
  Bool-cases, ltb, ◌==◌, text_eq,
}
use dsh_hashline_edittool.Infra.Lines.{split_lines, vis_lines}
use dsh_hashline_edittool.Infra.Lines.RoundTrip.{IsLine}
use dsh_hashline_edittool.Hashline.Span.{
  build_idx, RhEdit, Span, replace, noop, res_to_span, assemble, Applied, unchanged, written,
  would_empty, not_emptied, apply_resolved,
}
use dsh_hashline_edittool.Hashline.Span.Spans.{edited, blank_end, SpanReads, span-lines}
use dsh_hashline_edittool.Hashline.Span.Texts.{nil_of}

-- What an outcome says of the lines of the file: an unchanged file has them already, a written text
-- reads as them, and a refusal to empty the file means that a file with text would have none.
abbrev pub Reads : Text → List Text → Applied → Type 0
Reads content lines unchanged = vis_lines content ≡ lines
Reads content lines (written text) = vis_lines text ≡ lines
Reads content lines would_empty = (lines ≡ []) × (content ≢ [])

not_emptied-Reads :
    (content text : Text) (lines : List Text)
    → vis_lines text ≡ lines
    → Reads content lines (not_emptied content text)
unfolding not_emptied
not_emptied-Reads content text lines h =
    elim (Bool-cases (ltb 0 (length content) && length text == 0)) [
      | inl refused ↦
          rw (refused, not_emptied)
            (
              sym h ∙ ap vis_lines (nil_of text (ground arith)) ∙ (unfold vis_lines in refl),
              (λ nil. absurd (ground (arith, ap length nil))),
            )
      | inr kept ↦ rw (kept, not_emptied) h
    ]

-- An edit replaces exactly the lines it names. For an edit of lines that are in the file, whose new
-- lines hold no line feed: the file that is written reads as the old lines in front, the new lines
-- and the old lines behind, on every branch (a replacement, a deletion in the middle, of the end with
-- and without a line feed behind it, of everything); if the edit reports no change, the file has those
-- lines already, and if it refuses, a file with text would have no lines left. The one
-- case left out is a replacement of the last line of a text without a line feed at its end by lines of
-- which the last is empty.
pub apply_resolved-Reads :
    (edit : RhEdit) (content : Text)
    → 1 ≤ edit.first.line
    → edit.first.line ≤ edit.last.line
    → edit.last.line ≤ length (split_lines content)
    → All IsLine edit.content_lines
    → blank_end edit content ≡ false
    → Reads content (edited edit content) (apply_resolved edit content)
unfolding apply_resolved
apply_resolved-Reads edit content positive ordered within h blank =
    outcome (res_to_span edit content (build_idx content))
      (span-lines edit content positive ordered within h blank)
  where
    outcome :
        (span : Span)
        → SpanReads content (edited edit content) span
        → Reads content (edited edit content) (elim span [
          | noop loc current_content ↦ unchanged
          | replace start stop replacement ↦
              not_emptied content (assemble content start stop replacement)
        ])
    outcome (noop loc current_content) reads = reads
    outcome (replace start stop replacement) reads =
        not_emptied-Reads content (assemble content start stop replacement) (edited edit content)
          reads
