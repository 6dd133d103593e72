-- ===== src/Infra/Lines/RoundTrip.antt =====
-- src/infra/utils.ts: splitting a text into lines and writing the lines back.
use dsh_hashline_edittool.Base.{
  ℕ, ◌≡◌, ◌≢◌, refl, ap, sym, ◌∙◌, true, List, [], ◌∷◌, ◌++◌, ◌==◌, arith, Text, newline, All, inl,
  inr, Bool-cases,
}
use mathlib.Core.List.{cons-ne-nil}
use dsh_hashline_edittool.Infra.Lines.{
  split, join, ends_with_newline, drop_last, cons_head, split_lines,
}

-- A line as the reader sees it: no line feed inside.
abbrev pub IsLine : Text → Type 0
IsLine = All (λ c. c ≢ newline)

-- The text whose lines are given, each with its line feed.
unfoldable pub unlines : List Text → Text
unlines [] = []
unlines (line ∷ lines) = line ++ newline ∷ unlines lines

cons_head-ne-nil : (c : ℕ) (parts : List Text) → cons_head c parts ≢ []
unfolding cons_head
cons_head-ne-nil c [] e = cc
cons_head-ne-nil c (part ∷ parts) e = cc

pub split-ne-nil : (separator : ℕ) (text : Text) → split separator text ≢ []
unfolding split
split-ne-nil separator [] e = cc
split-ne-nil separator (c ∷ text) e = elim (Bool-cases (c == separator)) [
  | inl p ↦ absurd (cons-ne-nil [] (split separator text) (rw p at e))
  | inr p ↦ absurd (cons_head-ne-nil c (split separator text) (rw p at e))
]

join-cons_head :
    (separator c : ℕ) (parts : List Text)
    → parts ≢ []
    → join separator (cons_head c parts) ≡ c ∷ join separator parts
unfolding join cons_head
join-cons_head separator c [] h = absurd (h refl)
join-cons_head separator c (part ∷ []) h = refl
join-cons_head separator c (part ∷ next ∷ parts) h = refl

join-nil_head :
    (separator : ℕ) (parts : List Text)
    → parts ≢ []
    → join separator ([] ∷ parts) ≡ separator ∷ join separator parts
unfolding join
join-nil_head separator [] h = absurd (h refl)
join-nil_head separator (part ∷ parts) h = refl

-- Joining the parts of a split gives the text back, for every text and separator.
pub join-split : (separator : ℕ) (text : Text) → join separator (split separator text) ≡ text
unfolding split
join-split separator [] = unfold join in refl
join-split separator (c ∷ text) = elim (Bool-cases (c == separator)) [
  | inl p ↦ rw p (
      join-nil_head separator _ (split-ne-nil separator text)
      ∙ ground (arith, join-split separator text))
  | inr p ↦ rw p (
      join-cons_head separator c _ (split-ne-nil separator text)
      ∙ ap (λ t. c ∷ t) (join-split separator text))
]

pub split-line :
    (line rest : Text)
    → IsLine line
    → split newline (line ++ newline ∷ rest) ≡ line ∷ split newline rest
unfolding split cons_head
split-line [] rest h = refl
split-line (c ∷ line) rest (p, h) = ground (arith, split-line line rest h)

pub split-unlines :
    (lines : List Text) → All IsLine lines → split newline (unlines lines) ≡ lines ++ [] ∷ []
unfolding unlines
split-unlines [] h = unfold split in refl
split-unlines (line ∷ lines) (p, h) =
    split-line line (unlines lines) p ∙ ap (λ t. line ∷ t) (split-unlines lines h)

pub ends-append :
    (text : Text) (c : ℕ) (rest : Text)
    → ends_with_newline (text ++ c ∷ rest) ≡ ends_with_newline (c ∷ rest)
unfolding ends_with_newline
ends-append [] c rest = refl
ends-append (d ∷ []) c rest = refl
ends-append (d ∷ e ∷ text) c rest = ends-append (e ∷ text) c rest

pub ends-unlines :
    (line : Text) (lines : List Text) → ends_with_newline (unlines (line ∷ lines)) ≡ true
unfolding unlines
ends-unlines line [] = ends-append line newline [] ∙ (unfold ends_with_newline in refl)
ends-unlines line (next ∷ lines) =
    ends-append line newline (unlines (next ∷ lines))
    ∙ ends-append (newline ∷ next) newline (unlines lines)
    ∙ sym (ends-append next newline (unlines lines))
    ∙ ends-unlines next lines

pub unlines-ne-nil : (line : Text) (lines : List Text) → unlines (line ∷ lines) ≢ []
unfolding ends_with_newline
unlines-ne-nil line lines e = cc (ends-unlines line lines, ap ends_with_newline e)

pub drop_last-concat {ℓ} : {A : Type ℓ} (xs : List A) (x : A) → drop_last (xs ++ x ∷ []) ≡ xs
unfolding drop_last
drop_last-concat [] x = refl
drop_last-concat (y ∷ []) x = refl
drop_last-concat (y ∷ z ∷ xs) x = ap (λ t. y ∷ t) (drop_last-concat (z ∷ xs) x)

pub split_lines-split :
    (text : Text)
    → text ≢ []
    → ends_with_newline text ≡ true
    → split_lines text ≡ drop_last (split newline text)
unfolding split_lines
split_lines-split [] h e = absurd (h refl)
split_lines-split (c ∷ text) h e = rw e

pub split_lines-unlines :
    (lines : List Text) → lines ≢ [] → All IsLine lines → split_lines (unlines lines) ≡ lines
split_lines-unlines [] h _ = absurd (h refl)
split_lines-unlines (line ∷ lines) _ h =
    split_lines-split _ (unlines-ne-nil line lines) (ends-unlines line lines)
    ∙ ap drop_last (split-unlines (line ∷ lines) h)
    ∙ drop_last-concat (line ∷ lines) []

cons_head-IsLine :
    (c : ℕ) (parts : List Text) → c ≢ newline → All IsLine parts → All IsLine (cons_head c parts)
unfolding cons_head
cons_head-IsLine c [] n h = ((n, tt), tt)
cons_head-IsLine c (part ∷ parts) n (p, h) = ((n, p), h)

pub split-IsLine : (text : Text) → All IsLine (split newline text)
unfolding split
split-IsLine [] = (tt, tt)
split-IsLine (c ∷ text) = elim (Bool-cases (c == newline)) [
  | inl p ↦ rw (p, split) (tt, split-IsLine text)
  | inr p ↦
      rw (p, split) (cons_head-IsLine c (split newline text) (ground arith) (split-IsLine text))
]
