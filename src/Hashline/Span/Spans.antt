-- ===== src/Hashline/Span/Spans.antt =====
-- src/hashline/anchor-pipeline.ts: the span of an edit, branch by branch.
use dsh_hashline_edittool.Base.{
  ℕ, ◌+◌, ◌-◌, ◌<◌, ◌≤◌, ◌≡◌, ◌≢◌, refl, ap, sym, ◌∙◌, Bool, true, false, not, ◌&&◌, List, [], ◌∷◌,
  ◌++◌, arith, Text, newline, length, take, drop, get_or, slice, All, take-append-drop, inl, inr,
  Bool-cases, if◌then◌else◌, ltb, leb, ◌==◌, text_eq, ===_sound, slice-append_drop,
}
use dsh_hashline_edittool.Infra.Lines.{join, split_lines, vis_lines, ends_with_newline}
use dsh_hashline_edittool.Infra.Lines.RoundTrip.{IsLine, unlines}
use dsh_hashline_edittool.Hashline.Span.{
  starts, build_idx, RhEdit, Span, replace, noop, same_lines, tail_start, deletion, res_to_span,
  assemble,
}
use dsh_hashline_edittool.Hashline.Span.Texts.{last_line}
use dsh_hashline_edittool.Hashline.Span.Reading.{vis_lines-split_lines}
use dsh_hashline_edittool.Hashline.Span.Offsets.{get_or-starts}
use dsh_hashline_edittool.Hashline.Span.Branches.{
  replaced, offset, replace-text, delete-middle, delete-tail, delete-over,
}

pub same_lines_sound : (xs ys : List Text) → same_lines xs ys ≡ true → xs ≡ ys
same_lines_sound [] [] h = refl
same_lines_sound (x ∷ xs) (y ∷ ys) h = ground (arith, same_lines_sound xs ys, ===_sound x y)
same_lines_sound [] (y ∷ ys) h = cc
same_lines_sound (x ∷ xs) [] h = cc

-- The last line of a text without a line feed at its end is replaced by lines of which the last is empty.
abbrev pub blank_end : RhEdit → Text → Bool
blank_end edit content =
    edit.last.line == length (split_lines content)
    && not (ends_with_newline content)
    && ltb 0 (length edit.content_lines)
    && length (last_line edit.content_lines) == 0

-- The lines of the file behind an edit.
abbrev pub edited : RhEdit → Text → List Text
edited edit content = replaced content (edit.first.line - 1) edit.last.line edit.content_lines

abbrev pub SpanReads : Text → List Text → Span → Type 0
SpanReads content lines (noop loc current_content) = vis_lines content ≡ lines
SpanReads content lines (replace start stop replacement) =
    vis_lines (assemble content start stop replacement) ≡ lines

line_start :
    (content : Text) (i : ℕ)
    → i < length (split_lines content)
    → get_or (starts (split_lines content) 0) i 0 ≡ offset content i
line_start content i h = omega (arith, get_or-starts (split_lines content) 0 i h)

module _ (content : Text) (first last : ℕ) (positive : 1 ≤ first) (ordered : first ≤ last)
    (within : last ≤ length (split_lines content)) where
  start_at : get_or (starts (split_lines content) 0) (first - 1) 0 ≡ offset content (first - 1)
  start_at = line_start content (first - 1) (omega arith)

  tail-lines :
      last ≡ length (split_lines content)
      → 2 ≤ first
      → vis_lines (
          assemble content
            (tail_start (split_lines content) first (offset content (first - 1)))
            (length content)
            [])
        ≡ replaced content (first - 1) last []
  unfolding tail_start
  tail-lines whole several =
      elim (Bool-cases (leb 2 first && length (get_or (split_lines content) (first - 2) []) == 0)) [
        | inl blank ↦
            rw (blank, tail_start) (delete-tail content (first - 1) last (omega arith) within whole)
        | inr full ↦
            rw (full, tail_start)
              (delete-over content (first - 1) last (omega arith) within (first - 2) (omega arith)
                whole (λ nil. absurd (ground (arith, ap length nil))))
      ]

  deletion-lines :
      SpanReads content
        (replaced content (first - 1) last [])
        (deletion first last content (build_idx content))
  unfolding deletion build_idx
  deletion-lines = elim (Bool-cases (first == 1 && last == length (split_lines content))) [
    | inl whole ↦
        let zero_start : offset content (first - 1) ≡ 0 =
          ap (offset content) {x = first - 1} {y = 0} (ground arith) ∙ (unfold unlines in refl) in
        rw (whole, deletion)
          (ap (λ n. vis_lines (assemble content n (length content) [])) (sym zero_start)
            ∙ delete-tail content (first - 1) last (omega arith) within (ground arith))
    | inr part ↦ elim (Bool-cases (ltb last (length (split_lines content)))) [
      | inl more ↦
          rw (part, more, start_at, line_start content last (ground arith), deletion)
            (delete-middle content (first - 1) last (omega arith) within (ground arith))
      | inr end ↦ elim (Bool-cases (ends_with_newline content)) [
        | inl closed ↦
            rw (part, end, closed, start_at, deletion)
              (delete-tail content (first - 1) last (omega arith) within (ground arith))
        | inr unclosed ↦
            rw (part, end, unclosed, start_at, deletion) (tail-lines (ground arith) (ground arith))
      ]
    ]
  ]

  -- what `resToSpan` returns behind the comparison of the lines
  span-replaced :
      (lines : List Text)
      → All IsLine lines
      → (ends_with_newline content ≡ false
          → last ≡ length (split_lines content)
          → 0 < length lines
          → last_line lines ≢ [])
      → SpanReads content (replaced content (first - 1) last lines) (
          if ltb 0 (length lines)
          then replace
              (get_or (starts (split_lines content) 0) (first - 1) 0)
              (get_or (starts (split_lines content) 0) (last - 1) 0
                + length (get_or (split_lines content) (last - 1) []))
              (join newline lines)
          else deletion first last content (build_idx content))
  span-replaced [] h full = deletion-lines
  span-replaced (line ∷ lines) h full =
      let some_line : ltb 0 (length (line ∷ lines)) ≡ true = ground arith in
      rw (some_line, start_at, line_start content (last - 1) (omega arith))
        (replace-text content (first - 1) last (omega arith) within line lines h
          (λ unclosed whole. full unclosed whole (omega arith)) (last - 1) (omega arith))

  noop-lines :
      (lines : List Text)
      → same_lines (slice (split_lines content) (first - 1) last) lines ≡ true
      → content ≢ []
      → vis_lines content ≡ replaced content (first - 1) last lines
  noop-lines lines h full =
      vis_lines-split_lines content full
      ∙ sym (take-append-drop (first - 1) (split_lines content))
      ∙ ap (λ t. take (first - 1) (split_lines content) ++ t)
          (sym (slice-append_drop (first - 1) last (split_lines content) (omega arith))
            ∙ ap (λ t. t ++ drop last (split_lines content))
                (same_lines_sound (slice (split_lines content) (first - 1) last) lines h))

not_blank :
    (edit : RhEdit) (content : Text)
    → blank_end edit content ≡ false
    → ends_with_newline content ≡ false
    → edit.last.line ≡ length (split_lines content)
    → 0 < length edit.content_lines
    → last_line edit.content_lines ≢ []
not_blank edit content blank unclosed whole some_line nil = ground (arith, ap length nil)

-- an unchanged text is not empty
noop_full :
    (edit : RhEdit) (content : Text)
    → 1 ≤ edit.first.line
    → edit.first.line ≤ edit.last.line
    → edit.last.line ≤ length (split_lines content)
    → blank_end edit content ≡ false
    → same_lines
        (slice (split_lines content) (edit.first.line - 1) edit.last.line)
        edit.content_lines
      ≡ true
    → content ≢ []
unfolding split_lines ends_with_newline
noop_full edit content positive ordered within blank same nil =
    let first = edit.first.line in
    let last = edit.last.line in
    let lines : split_lines content ≡ [] ∷ [] = ap split_lines nil in
    let one : last ≡ 1 = omega (arith, positive, ordered, within, ap length lines) in
    let part : slice (split_lines content) (first - 1) last ≡ [] ∷ [] =
      ap (λ t. slice t (first - 1) last) lines
      ∙ ap (λ n. slice ([] ∷ []) n last) {x = first - 1} {y = 0}
          (omega (arith, positive, ordered, one))
      ∙ ap (slice ([] ∷ []) 0) one in
    let new : edit.content_lines ≡ [] ∷ [] =
      sym (same_lines_sound (slice (split_lines content) (first - 1) last) edit.content_lines same)
      ∙ part in
    not_blank edit content blank (ap ends_with_newline nil) (omega (arith, one, ap length lines))
      (omega (arith, ap length new)) (ap last_line new)

pub span-lines :
    (edit : RhEdit) (content : Text)
    → 1 ≤ edit.first.line
    → edit.first.line ≤ edit.last.line
    → edit.last.line ≤ length (split_lines content)
    → All IsLine edit.content_lines
    → blank_end edit content ≡ false
    → SpanReads content (edited edit content) (res_to_span edit content (build_idx content))
unfolding res_to_span build_idx
span-lines edit content positive ordered within h blank =
    let first = edit.first.line in
    let last = edit.last.line in
    elim (Bool-cases
      (same_lines (slice (split_lines content) (first - 1) last) edit.content_lines)) [
        | inl same ↦
            rw (same, res_to_span)
              (noop-lines content first last positive ordered within edit.content_lines same
                (noop_full edit content positive ordered within blank same))
        | inr other ↦
            rw (other, res_to_span)
              (span-replaced content first last positive ordered within edit.content_lines h
                (not_blank edit content blank))
      ]
