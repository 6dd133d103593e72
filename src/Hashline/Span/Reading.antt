-- ===== src/Hashline/Span/Reading.antt =====
-- src/infra/utils.ts: the lines of a text, read from the text and from its lines.
use dsh_hashline_edittool.Base.{
  ◌<◌, ◌≡◌, ◌≢◌, refl, ap, sym, ◌∙◌, true, false, List, [], ◌∷◌, ◌++◌, ◌⊎◌, append-nil, arith, Text,
  newline, length, All, inl, inr, Bool-cases,
}
use dsh_hashline_edittool.Infra.Lines.{
  split, join, ends_with_newline, drop_last, split_lines, vis_lines,
}
use dsh_hashline_edittool.Infra.Lines.RoundTrip.{
  IsLine, unlines, split-IsLine, join-split, split-line, split_lines-split, split_lines-unlines,
  unlines-ne-nil,
}
use dsh_hashline_edittool.Hashline.Span.Texts.{
  tail, last_line, ends_nil, unclosed_lines, unlines-join, join-nil, ends-join-false,
  ends-join-true,
}

drop_last-IsLine : (lines : List Text) → All IsLine lines → All IsLine (drop_last lines)
unfolding drop_last
drop_last-IsLine [] h = tt
drop_last-IsLine (line ∷ []) h = tt
drop_last-IsLine (line ∷ next ∷ lines) (p, h) = (p, drop_last-IsLine (next ∷ lines) h)

pub lines-IsLine : (text : Text) → All IsLine (split_lines text)
lines-IsLine text = elim (Bool-cases (ends_with_newline text)) [
  | inl closed ↦
      rw (split_lines-split text (λ q. cc (closed, ap ends_with_newline q, ends_nil)) closed)
        (drop_last-IsLine (split newline text) (split-IsLine text))
  | inr unclosed ↦ rw (unclosed_lines text unclosed) (split-IsLine text)
]

-- The last of several lines is not empty when no line feed ends the text.
pub unclosed-last :
    (text : Text) (line next : Text) (lines : List Text)
    → ends_with_newline text ≡ false
    → split_lines text ≡ line ∷ next ∷ lines
    → last_line (next ∷ lines) ≢ []
unclosed-last text line next lines unclosed e nil =
    let whole : text ≡ join newline (line ∷ next ∷ lines) =
      sym (join-split newline text) ∙ ap (join newline) (sym (unclosed_lines text unclosed) ∙ e) in
    cc (unclosed, ap ends_with_newline whole, ends-join-true line next lines nil)

split-one : (line : Text) → IsLine line → split newline line ≡ line ∷ []
unfolding split
split-one [] h = refl
split-one (c ∷ line) (p, h) = ground (arith, split-one line h)

split-join :
    (line : Text) (lines : List Text)
    → All IsLine (line ∷ lines)
    → split newline (join newline (line ∷ lines)) ≡ line ∷ lines
unfolding join
split-join line [] (p, h) = split-one line p
split-join line (next ∷ lines) (p, h) =
    split-line line _ p ∙ ap (λ t. line ∷ t) (split-join next lines h)

pub vis_lines-split_lines : (text : Text) → text ≢ [] → vis_lines text ≡ split_lines text
unfolding vis_lines split_lines
vis_lines-split_lines [] n = absurd (n refl)
vis_lines-split_lines (c ∷ text) n = refl

pub vis_lines-unlines : (lines : List Text) → All IsLine lines → vis_lines (unlines lines) ≡ lines
vis_lines-unlines [] h = unfold vis_lines unlines in refl
vis_lines-unlines (line ∷ lines) h =
    vis_lines-split_lines _ (unlines-ne-nil line lines)
    ∙ split_lines-unlines (line ∷ lines) (λ e. cc) h

pub vis_lines-join :
    (lines : List Text)
    → All IsLine lines
    → (lines ≡ []) ⊎ (last_line lines ≢ [])
    → vis_lines (join newline lines) ≡ lines
vis_lines-join [] h _ = unfold vis_lines join in refl
vis_lines-join (line ∷ lines) h (inl nil) = absurd (cc nil)
vis_lines-join (line ∷ lines) h (inr full) =
    vis_lines-split_lines _ (λ e. full (join-nil line lines e))
    ∙ unclosed_lines _ (ends-join-false line lines h full)
    ∙ split-join line lines h

pub unclosed-last_long :
    (text : Text) (lines : List Text)
    → ends_with_newline text ≡ false
    → split_lines text ≡ lines
    → 1 < length lines
    → last_line lines ≢ []
unclosed-last_long text [] h e long = absurd (omega arith)
unclosed-last_long text (line ∷ []) h e long = absurd (omega arith)
unclosed-last_long text (line ∷ next ∷ lines) h e long = unclosed-last text line next lines h e

pub last_line-append :
    (lines : List Text) (line : Text) (more : List Text)
    → last_line (lines ++ line ∷ more) ≡ last_line (line ∷ more)
last_line-append [] line more = refl
last_line-append (a ∷ []) line more = refl
last_line-append (a ∷ b ∷ lines) line more = last_line-append (b ∷ lines) line more

unlines-tail : (lines : List Text) → lines ≢ [] → join newline lines ++ newline ∷ [] ≡ unlines lines
unlines-tail [] n = absurd (n refl)
unlines-tail (line ∷ lines) n = sym (unlines-join line lines)

-- Lines are read back in front of the line feed that ends a given text, or of none.
pub vis_lines-tail :
    (text : Text) (lines : List Text)
    → All IsLine lines
    → (ends_with_newline text ≡ true → lines ≢ [])
    → (ends_with_newline text ≡ false → (lines ≡ []) ⊎ (last_line lines ≢ []))
    → vis_lines (join newline lines ++ tail text) ≡ lines
vis_lines-tail text lines h some_line full = elim (Bool-cases (ends_with_newline text)) [
  | inl closed ↦ rw (closed, unlines-tail lines (some_line closed)) (vis_lines-unlines lines h)
  | inr unclosed ↦
      rw (unclosed, append-nil (join newline lines)) (vis_lines-join lines h (full unclosed))
]
