-- ===== src/Hashline/Span/Texts.antt =====
-- src/infra/utils.ts: a text as its lines and the line feed behind the last one, if there is one.
use dsh_hashline_edittool.Base.{
  ℕ, ◌≡◌, ◌≢◌, refl, ap, sym, ◌∙◌, true, false, List, [], ◌∷◌, ◌++◌, ◌⊎◌, append-nil, append_assoc,
  length, if◌then◌else◌, arith, Text, newline, All, inl, inr, Bool-cases,
}
use dsh_hashline_edittool.Infra.Lines.{split, join, ends_with_newline, drop_last, split_lines}
use dsh_hashline_edittool.Infra.Lines.RoundTrip.{
  IsLine, unlines, join-split, split-ne-nil, split_lines-split, split-IsLine, ends-append,
}

-- the line feed at the end
abbrev pub tail : Text → Text
tail text = if ends_with_newline text then newline ∷ [] else []

abbrev pub last_line : List Text → Text
last_line [] = []
last_line (line ∷ []) = line
last_line (line ∷ next ∷ lines) = last_line (next ∷ lines)

-- what stands behind a line, in front of the end of the text
abbrev pub after : List Text → Text → Text
after [] end = end
after (line ∷ lines) end = newline ∷ join newline (line ∷ lines) ++ end

pub join-after :
    (line : Text) (lines : List Text) (end : Text)
    → join newline (line ∷ lines) ++ end ≡ line ++ after lines end
unfolding join
join-after line [] end = refl
join-after line (next ∷ lines) end = append_assoc line _ end

pub join-append :
    (before : List Text) (line : Text) (lines : List Text)
    → join newline (before ++ line ∷ lines) ≡ unlines before ++ join newline (line ∷ lines)
unfolding join unlines
join-append [] line lines = refl
join-append (a ∷ []) line lines = sym (append_assoc a (newline ∷ []) _)
join-append (a ∷ b ∷ before) line lines =
    rw (join-append (b ∷ before) line lines) (sym (append_assoc a _ _))

pub unlines-join :
    (line : Text) (lines : List Text)
    → unlines (line ∷ lines) ≡ join newline (line ∷ lines) ++ newline ∷ []
unfolding join unlines
unlines-join line [] = refl
unlines-join line (next ∷ lines) = rw (unlines-join next lines) (sym (append_assoc line _ _))

-- lines in the place of others
pub join-append_after :
    (line : Text) (lines rest : List Text) (end : Text)
    → join newline (line ∷ lines) ++ after rest end ≡ join newline (line ∷ lines ++ rest) ++ end
unfolding join
join-append_after line [] rest end = sym (join-after line rest end)
join-append_after line (next ∷ lines) rest end =
    append_assoc line _ _
    ∙ ap (λ t. line ++ newline ∷ t) (join-append_after next lines rest end)
    ∙ sym (append_assoc line _ _)

ends-line : (line : Text) → IsLine line → ends_with_newline line ≡ false
unfolding ends_with_newline
ends-line [] h = refl
ends-line (c ∷ []) (p, h) = ground arith
ends-line (c ∷ d ∷ line) (p, h) = ends-line (d ∷ line) h

ends-cons :
    (c : ℕ) (text : Text) → text ≢ [] → ends_with_newline (c ∷ text) ≡ ends_with_newline text
unfolding ends_with_newline
ends-cons c [] h = absurd (h refl)
ends-cons c (d ∷ text) h = refl

append-ne-nil : (text : Text) (c : ℕ) (rest : Text) → text ++ c ∷ rest ≢ []
append-ne-nil [] c rest e = cc
append-ne-nil (d ∷ text) c rest e = cc

pub join-nil :
    (line : Text) (lines : List Text)
    → join newline (line ∷ lines) ≡ []
    → last_line (line ∷ lines) ≡ []
unfolding join
join-nil line [] h = h
join-nil line (next ∷ lines) h = absurd (append-ne-nil line newline _ h)

-- A text of lines ends in a line feed when its last line is empty and behind another, only then.
pub ends-join-false :
    (line : Text) (lines : List Text)
    → All IsLine (line ∷ lines)
    → last_line (line ∷ lines) ≢ []
    → ends_with_newline (join newline (line ∷ lines)) ≡ false
unfolding join
ends-join-false line [] (p, h) e = ends-line line p
ends-join-false line (next ∷ lines) (p, h) e =
    ends-append line newline _
    ∙ ends-cons newline _ (λ q. e (join-nil next lines q))
    ∙ ends-join-false next lines h e

pub ends-join-true :
    (line next : Text) (lines : List Text)
    → last_line (next ∷ lines) ≡ []
    → ends_with_newline (join newline (line ∷ next ∷ lines)) ≡ true
unfolding join
ends-join-true line next [] e =
    ends-append line newline next ∙ rw e (unfold ends_with_newline in refl)
ends-join-true line next (more ∷ lines) e =
    ends-append line newline _
    ∙ ends-cons newline _ (append-ne-nil next newline _)
    ∙ ends-join-true next more lines e

split-last : (parts : List Text) → parts ≢ [] → parts ≡ drop_last parts ++ last_line parts ∷ []
unfolding drop_last
split-last [] h = absurd (h refl)
split-last (part ∷ []) h = refl
split-last (part ∷ next ∷ parts) h = ap (λ t. part ∷ t) (split-last (next ∷ parts) (λ e. cc))

pub nil-or-not : (text : Text) → (text ≡ []) ⊎ (text ≢ [])
nil-or-not [] = inl refl
nil-or-not (c ∷ text) = inr (λ e. cc)

last_line-closed :
    (parts : List Text)
    → parts ≢ []
    → All IsLine parts
    → ends_with_newline (join newline parts) ≡ true
    → last_line parts ≡ []
last_line-closed [] n h e = absurd (n refl)
last_line-closed (line ∷ lines) n h e = elim (nil-or-not (last_line (line ∷ lines))) [
  | inl nil ↦ nil
  | inr full ↦ absurd (cc (e, ends-join-false line lines h full))
]

pub ends_nil : ends_with_newline [] ≡ false
unfolding ends_with_newline
ends_nil = refl

-- A text that ends in a line feed is its lines, each with its line feed.
closed-text :
    (text : Text)
    → ends_with_newline text ≡ true
    → (text ≡ unlines (split_lines text)) × (split_lines text ≢ [])
closed-text text e =
    let parts = split newline text in
    let ending : ends_with_newline (join newline parts) ≡ true = rw (join-split newline text) e in
    let none_last = last_line-closed parts (split-ne-nil newline text) (split-IsLine text) ending in
    let nonempty : text ≢ [] = (λ q. cc (e, ap ends_with_newline q, ends_nil)) in
    let lines = split_lines-split text nonempty e in
    let whole : parts ≡ drop_last parts ++ [] ∷ [] =
      split-last parts (split-ne-nil newline text)
      ∙ ap (λ t. drop_last parts ++ t ∷ []) none_last in
    let text_is : text ≡ unlines (drop_last parts) =
      sym (join-split newline text)
      ∙ ap (join newline) whole
      ∙ join-append (drop_last parts) [] []
      ∙ (unfold join in append-nil (unlines (drop_last parts))) in
    (
      text_is ∙ ap unlines (sym lines),
      (λ q. nonempty (text_is ∙ ap unlines (sym lines ∙ q) ∙ (unfold unlines in refl))),
    )

pub unclosed_lines :
    (text : Text) → ends_with_newline text ≡ false → split_lines text ≡ split newline text
unfolding split_lines
unclosed_lines [] e = unfold split in refl
unclosed_lines (c ∷ text) e = rw e

unlines-tail : (lines : List Text) → lines ≢ [] → unlines lines ≡ join newline lines ++ newline ∷ []
unlines-tail [] n = absurd (n refl)
unlines-tail (line ∷ lines) n = unlines-join line lines

-- A text is its lines, joined, and the line feed at its end.
pub text-lines : (text : Text) → text ≡ join newline (split_lines text) ++ tail text
text-lines text = elim (Bool-cases (ends_with_newline text)) [
  | inl closed ↦
      let both = closed-text text closed in
      rw closed (both.0 ∙ unlines-tail (split_lines text) both.1)
  | inr unclosed ↦ rw unclosed (
      sym (join-split newline text)
      ∙ ap (join newline) (sym (unclosed_lines text unclosed))
      ∙ sym (append-nil _))
]

pub lines-ne-nil : (text : Text) → split_lines text ≢ []
lines-ne-nil text = elim (Bool-cases (ends_with_newline text)) [
  | inl closed ↦ (closed-text text closed).1
  | inr unclosed ↦ (λ e. split-ne-nil newline text (sym (unclosed_lines text unclosed) ∙ e))
]

pub nil_of : (text : Text) → length text ≡ 0 → text ≡ []
nil_of [] h = refl
nil_of (c ∷ text) h = absurd (omega (arith, h))
