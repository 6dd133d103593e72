-- ===== src/Hashline/Span/Branches.antt =====
-- src/hashline/anchor-pipeline.ts: the text that each branch of `resToSpan` splices together.
use dsh_hashline_edittool.Base.{
  ℕ, zero, suc, ◌+◌, ◌-◌, ◌<◌, ◌≤◌, ◌≡◌, ◌≢◌, refl, ap, sym, ◌∙◌, false, List, [], ◌∷◌, ◌++◌,
  append-nil, append_assoc, arith, Text, newline, length, take, drop, get_or, All, All-append,
  All-take, All-drop, drop-all, length-append, take-append-drop, take-append_length, inl, inr,
  Bool-cases, ltb,
}
use dsh_hashline_edittool.Infra.Lines.{join, split_lines, vis_lines, ends_with_newline}
use dsh_hashline_edittool.Infra.Lines.RoundTrip.{IsLine, unlines}
use dsh_hashline_edittool.Hashline.Span.{assemble}
use dsh_hashline_edittool.Hashline.Span.Texts.{
  after, tail, last_line, join-append, join-append_after, unlines-join, text-lines,
}
use dsh_hashline_edittool.Hashline.Span.Reading.{
  lines-IsLine, vis_lines-tail, vis_lines-unlines, vis_lines-join, unclosed-last_long,
  last_line-append,
}
use dsh_hashline_edittool.Hashline.Span.Offsets.{drop-cons, cut-start, cut-stop, cut-next}

last_line-take :
    (lines : List Text) (i : ℕ)
    → i < length lines
    → last_line (take (suc i) lines) ≡ get_or lines i []
last_line-take [] i h = absurd (omega arith)
last_line-take (line ∷ lines) zero h = refl
last_line-take (line ∷ []) (suc i) h = absurd (omega arith)
last_line-take (line ∷ next ∷ lines) (suc i) h = last_line-take (next ∷ lines) i (omega arith)

append-cons-ne-nil {ℓ} : {A : Type ℓ} (xs : List A) (y : A) (ys : List A) → xs ++ y ∷ ys ≢ []
append-cons-ne-nil [] y ys e = cc
append-cons-ne-nil (x ∷ xs) y ys e = cc

unlines-full :
    (lines : List Text) → last_line lines ≢ [] → unlines lines ≡ join newline lines ++ newline ∷ []
unlines-full [] h = absurd (h refl)
unlines-full (line ∷ lines) h = unlines-join line lines

-- The lines of a text with those from `from` on, up to `to`, replaced.
abbrev pub replaced : Text → ℕ → ℕ → List Text → List Text
replaced content from to lines =
    take from (split_lines content) ++ (lines ++ drop to (split_lines content))

-- the offset of a line
abbrev pub offset : Text → ℕ → ℕ
offset content i = length (unlines (take i (split_lines content)))

module _ (content : Text) (from to : ℕ) (below : from < to)
    (within : to ≤ length (split_lines content)) where
  replaced-IsLine :
      (lines : List Text) → All IsLine lines → All IsLine (replaced content from to lines)
  replaced-IsLine lines h =
      All-append IsLine (take from (split_lines content)) _
        (All-take IsLine from (split_lines content) (lines-IsLine content))
        (All-append IsLine lines _ h
          (All-drop IsLine to (split_lines content) (lines-IsLine content)))

  before-text : take (offset content from) content ≡ unlines (take from (split_lines content))
  before-text =
      ap (take (offset content from)) (text-lines content)
      ∙ cut-start (split_lines content) from (tail content) (omega arith)

  -- the last line is an old one
  replaced-last :
      (lines : List Text)
      → to < length (split_lines content)
      → ends_with_newline content ≡ false
      → last_line (replaced content from to lines) ≢ []
  replaced-last lines more unclosed nil =
      let rest = drop-cons (split_lines content) to [] more in
      let first = get_or (split_lines content) to [] in
      let later = drop (suc to) (split_lines content) in
      unclosed-last_long content (split_lines content) unclosed refl (omega arith) (
        ap last_line (sym (take-append-drop to (split_lines content)))
        ∙ ap (λ t. last_line (take to (split_lines content) ++ t)) rest
        ∙ last_line-append (take to (split_lines content)) first later
        ∙ sym (last_line-append (take from (split_lines content) ++ lines) first later)
        ∙ ap last_line (append_assoc (take from (split_lines content)) lines (first ∷ later))
        ∙ ap (λ t. last_line (take from (split_lines content) ++ (lines ++ t))) (sym rest)
        ∙ nil)

  replace-last :
      (line : Text) (lines : List Text)
      → (ends_with_newline content ≡ false
          → to ≡ length (split_lines content)
          → last_line (line ∷ lines) ≢ [])
      → ends_with_newline content ≡ false
      → last_line (replaced content from to (line ∷ lines)) ≢ []
  replace-last line lines full unclosed =
      elim (Bool-cases (ltb to (length (split_lines content)))) [
        | inl more ↦ replaced-last (line ∷ lines) (ground arith) unclosed
        | inr end ↦ (λ nil. full unclosed (ground arith) (
            sym (last_line-append (take from (split_lines content)) line lines)
            ∙ ap (λ t. last_line (take from (split_lines content) ++ line ∷ t))
                (sym (append-nil lines)
                  ∙ ap (λ t. lines ++ t) (sym (drop-all to (split_lines content) (ground arith))))
            ∙ nil))
      ]

  -- other lines take their place
  pub replace-text :
      (line : Text) (lines : List Text)
      → All IsLine (line ∷ lines)
      → (ends_with_newline content ≡ false
          → to ≡ length (split_lines content)
          → last_line (line ∷ lines) ≢ [])
      → (last : ℕ) → last + 1 ≡ to
      → vis_lines (
          assemble content
            (offset content from)
            (offset content last + length (get_or (split_lines content) last []))
            (join newline (line ∷ lines)))
        ≡ replaced content from to (line ∷ lines)
  unfolding assemble
  replace-text line lines h full last e =
      let start = get_or (split_lines content) last [] in
      let end = tail content in
      let behind : drop (suc last) (split_lines content) ≡ drop to (split_lines content) =
        ap (λ n. drop n (split_lines content)) {x = suc last} {y = to} (omega (arith, e)) in
      let stop : drop (offset content last + length start) content
          ≡ after (drop to (split_lines content)) end =
        ap (drop (offset content last + length start)) (text-lines content)
        ∙ cut-stop (split_lines content) last end (omega (arith, e))
        ∙ ap (λ t. after t end) behind in
      let text : assemble content (offset content from) (offset content last + length start)
            (join newline (line ∷ lines))
          ≡ join newline (replaced content from to (line ∷ lines)) ++ end =
        rw (before-text, stop)
          (append_assoc _ (join newline (line ∷ lines)) _
            ∙ ap (λ t. unlines (take from (split_lines content)) ++ t)
                (join-append_after line lines (drop to (split_lines content)) end)
            ∙ sym (append_assoc _ _ end)
            ∙ ap (λ t. t ++ end)
                (sym (
                  join-append (take from (split_lines content)) line
                    (lines ++ drop to (split_lines content))))) in
      ap vis_lines text
      ∙ vis_lines-tail content (replaced content from to (line ∷ lines))
          (replaced-IsLine (line ∷ lines) h)
          (λ closed. append-cons-ne-nil (take from (split_lines content)) line _)
          (λ unclosed. inr (replace-last line lines full unclosed))

  -- the lines go, and others stand behind them
  pub delete-middle :
      to < length (split_lines content)
      → vis_lines (assemble content (offset content from) (offset content to) [])
        ≡ replaced content from to []
  unfolding assemble
  delete-middle more =
      let end = tail content in
      let rest = drop-cons (split_lines content) to [] more in
      let first = get_or (split_lines content) to [] in
      let later = drop (suc to) (split_lines content) in
      let stop : drop (offset content to) content ≡ join newline (first ∷ later) ++ end =
        ap (drop (offset content to)) (text-lines content)
        ∙ cut-next (split_lines content) to end more
        ∙ ap (λ t. join newline t ++ end) rest in
      let text : assemble content (offset content from) (offset content to) []
          ≡ join newline (replaced content from to []) ++ end =
        rw (before-text, stop, append-nil (unlines (take from (split_lines content))))
          (sym (append_assoc _ _ end)
            ∙ ap (λ t. t ++ end) (sym (join-append (take from (split_lines content)) first later))
            ∙ ap (λ t. join newline (take from (split_lines content) ++ t) ++ end) (sym rest)) in
      ap vis_lines text
      ∙ vis_lines-tail content (replaced content from to []) (replaced-IsLine [] tt)
          (λ closed nil.
            append-cons-ne-nil (take from (split_lines content)) first later
              (ap (λ t. take from (split_lines content) ++ t) (sym rest) ∙ nil))
          (λ unclosed. inr (replaced-last [] more unclosed))

  -- the last lines go, with everything from their offset on
  pub delete-tail :
      to ≡ length (split_lines content)
      → vis_lines (assemble content (offset content from) (length content) [])
        ≡ replaced content from to []
  unfolding assemble
  delete-tail whole =
      rw
        (
          before-text,
          drop-all (length content) content (omega arith),
          drop-all to (split_lines content) (omega (arith, whole)),
          append-nil (unlines (take from (split_lines content))),
          append-nil (unlines (take from (split_lines content))),
          append-nil (take from (split_lines content)),
        )
        (vis_lines-unlines (take from (split_lines content))
          (All-take IsLine from (split_lines content) (lines-IsLine content)))

  -- and with the line feed in front of them
  pub delete-over :
      (previous : ℕ)
      → from ≡ previous + 1
      → to ≡ length (split_lines content)
      → get_or (split_lines content) previous [] ≢ []
      → vis_lines (assemble content (offset content from - 1) (length content) [])
        ≡ replaced content from to []
  unfolding assemble
  delete-over previous e whole full =
      let kept = take from (split_lines content) in
      let last : last_line kept ≢ [] = (λ nil. full (
        sym (last_line-take (split_lines content) previous (omega (arith, e)))
        ∙ ap (λ n. last_line (take n (split_lines content))) {x = suc previous} {y = from}
            (omega (arith, e))
        ∙ nil)) in
      let lines : unlines kept ≡ join newline kept ++ newline ∷ [] = unlines-full kept last in
      let size : offset content from ≡ length (join newline kept) + 1 =
        ap length lines ∙ length-append (join newline kept) (newline ∷ []) in
      let text : content ≡ join newline kept ++ newline ∷ drop (offset content from) content =
        sym (take-append-drop (offset content from) content)
        ∙ ap (λ t. t ++ drop (offset content from) content) (before-text ∙ lines)
        ∙ append_assoc (join newline kept) (newline ∷ []) _ in
      let front : take (offset content from - 1) content ≡ join newline kept =
        ap (λ n. take n content) {x = offset content from - 1} {y = length (join newline kept)}
          (omega (arith, size))
        ∙ ap (take (length (join newline kept))) text
        ∙ take-append_length (join newline kept) _ in
      rw
        (
          front,
          drop-all (length content) content (omega arith),
          drop-all to (split_lines content) (omega (arith, whole)),
          append-nil (join newline kept),
          append-nil (join newline kept),
          append-nil kept,
        )
        (vis_lines-join kept (All-take IsLine from (split_lines content) (lines-IsLine content))
          (inr last))
