-- ===== src/Lsp/TextEdits/Assemble.antt =====
-- src/lsp/format/text-edits.ts: the application of edits against a text written from front to back.
use mathlib.Core.Option.{some-injective}
use dsh_hashline_edittool.Base.{
  ℕ, zero, suc, ◌-◌, ◌≤◌, ◌≡◌, refl, sym, ap, ◌∙◌, Bool, true, List, [], ◌∷◌, ◌++◌, none, some,
  length, take, drop, slice, Text, arith, Bool-cases, inl, inr, All, Ensures-some, take-append_le,
  drop-append_length, length-take, take-append-drop, append_assoc,
}
use dsh_hashline_edittool.Base.Sort.{sort, insert}
use dsh_hashline_edittool.Lsp.TextEdits.{
  TextEdit, ResolvedEdit, LineEnding, line_starts, resolve_edits, all_forward, edit_le, all_apart,
  no_overlap, apply_back, restore_endings, apply_resolved, apply_text_edits,
}
use dsh_hashline_edittool.Lsp.TextEdits.Offsets.{IsInside, resolve_edits-All}

-- The text with the edits in it, from offset `from` on: what stands before an edit, its new text, and
-- what follows.
unfoldable pub assemble : Text → ℕ → List ResolvedEdit → Text
assemble text from [] = drop from text
assemble text from (edit ∷ edits) =
    slice text from edit.start ++ edit.new_text ++ assemble text edit.end edits

-- The edits lie one behind the other.
abbrev Ordered : ℕ → List ResolvedEdit → Type 0
Ordered from [] = Unit
Ordered from (edit ∷ edits) =
    (from ≤ edit.start) × ((edit.start ≤ edit.end) × Ordered edit.end edits)

module _ {ℓ κ} {A : Type ℓ} (P : A → Type κ) (le : A → A → Bool) where
  insert-All : (x : A) (xs : List A) → P x → All P xs → All P (insert le x xs)
  unfolding insert
  insert-All x [] p h = (p, tt)
  insert-All x (y ∷ ys) p (q, h) = elim (Bool-cases (le x y)) [
    | inl e ↦ rw (e, insert) (p, (q, h))
    | inr e ↦ rw (e, insert) (q, insert-All x ys p h)
  ]

  sort-All : (xs : List A) → All P xs → All P (sort le xs)
  unfolding sort
  sort-All [] h = tt
  sort-All (x ∷ xs) (p, h) = insert-All x (sort le xs) p (sort-All xs h)

all_forward-All :
    (edits : List ResolvedEdit) → all_forward edits ≡ true → All (λ e. e.start ≤ e.end) edits
unfolding all_forward
all_forward-All [] h = tt
all_forward-All (edit ∷ edits) h =
    let forward : edit.start ≤ edit.end = ground arith in
    (forward, all_forward-All edits (ground arith))

all_apart-Ordered :
    (prev : ResolvedEdit) (edits : List ResolvedEdit)
    → All (λ e. e.start ≤ e.end) edits
    → all_apart prev edits ≡ true
    → Ordered prev.end edits
unfolding all_apart
all_apart-Ordered prev [] f h = tt
all_apart-Ordered prev (cur ∷ edits) (c, f) h =
    let behind : prev.end ≤ cur.start = ground arith in
    (behind, (c, all_apart-Ordered cur edits f (ground arith)))

no_overlap-Ordered :
    (edits : List ResolvedEdit)
    → All (λ e. e.start ≤ e.end) edits
    → no_overlap edits ≡ true
    → Ordered 0 edits
unfolding no_overlap
no_overlap-Ordered [] f h = tt
no_overlap-Ordered (edit ∷ edits) (c, f) h = (omega arith, (c, all_apart-Ordered edit edits f h))

nil-take : (n : ℕ) → [] ≡ take {A = ℕ} n []
nil-take zero = refl
nil-take (suc n) = refl

take-slice :
    (from upto : ℕ) (text : Text)
    → from ≤ upto
    → take upto text ≡ take from text ++ slice text from upto
take-slice zero upto text h = let same : upto ≡ upto - 0 = omega arith in ap (λ n. take n text) same
take-slice (suc from) zero text h = elim h [ ]
take-slice (suc from) (suc upto) [] h = nil-take (suc upto - suc from)
take-slice (suc from) (suc upto) (c ∷ text) h =
    let same : upto - from ≡ suc upto - suc from = omega arith in
    ap (λ t. c ∷ t) (take-slice from upto text (omega arith))
    ∙ ap (λ n. c ∷ (take from text ++ take n (drop from text))) same

-- In front of `from` the text is unchanged.
apply_back-assemble :
    (text : Text) (from : ℕ) (edits : List ResolvedEdit)
    → Ordered from edits
    → All (IsInside text) edits
    → apply_back text edits ≡ take from text ++ assemble text from edits
unfolding apply_back assemble
apply_back-assemble text from [] o i = sym (take-append-drop from text)
apply_back-assemble text from (edit ∷ edits) (lo, (forward, o)) (inside, i) =
    let later = apply_back-assemble text edit.end edits o i in
    let tail = assemble text edit.end edits in
    let kept = take edit.end text in
    let full : length kept ≡ edit.end = omega (arith, length-take edit.end text) in
    let fits : edit.start ≤ length kept = omega arith in
    let front : take edit.start (kept ++ tail) ≡ take from text ++ slice text from edit.start =
      take-append_le edit.start kept tail fits
      ∙ sym (take-append_le edit.start kept (drop edit.end text) fits)
      ∙ ap (take edit.start) (take-append-drop edit.end text)
      ∙ take-slice from edit.start text lo in
    let back : drop edit.end (kept ++ tail) ≡ tail =
      ap (λ n. drop n (kept ++ tail)) (sym full) ∙ drop-append_length kept tail in
    rw (later, front, back)
      (ap (λ t. t ++ tail)
          (append_assoc (take from text) (slice text from edit.start) edit.new_text)
        ∙ append_assoc (take from text) (slice text from edit.start ++ edit.new_text) tail)

apply_resolved-assemble :
    (text : Text) (resolved : List ResolvedEdit) (bom : Text) (eol : LineEnding) {out : Text}
    → All (IsInside text) resolved
    → apply_resolved text resolved bom eol ≡ some out
    → out ≡ bom ++ restore_endings (assemble text 0 (sort edit_le resolved)) eol
unfolding apply_resolved
apply_resolved-assemble text resolved bom eol {out} i e = elim (Bool-cases (all_forward resolved)) [
  | inr f ↦ let gone : none ≡ some out = rw f at e in ground arith
  | inl f ↦
      let sorted = sort edit_le resolved in
      elim (Bool-cases (no_overlap sorted)) [
        | inr o ↦ let gone : none ≡ some out = rw (f, o) at e in ground arith
        | inl o ↦
            let forward = sort-All _ edit_le resolved (all_forward-All resolved f) in
            let same =
              apply_back-assemble text 0 sorted (no_overlap-Ordered sorted forward o)
                (sort-All (IsInside text) edit_le resolved i) in
            sym (some-injective _ _ (rw (f, o) at e)) ∙ ap (λ t. bom ++ restore_endings t eol) same
      ]
]

-- When the server's edits resolve to offsets and are applied, the result is the byte-order mark and,
-- with the line endings restored, the text written once from front to back: what stands before each
-- edit in the order of the offsets, the edit's new text, and what follows the last one.
pub apply_text_edits-assemble :
    (text : Text) (edits : List TextEdit) (bom : Text) (eol : LineEnding) {out : Text}
    {resolved : List ResolvedEdit}
    → resolve_edits (line_starts text) (length text) edits ≡ some resolved
    → apply_text_edits text edits bom eol ≡ some out
    → out ≡ bom ++ restore_endings (assemble text 0 (sort edit_le resolved)) eol
unfolding apply_text_edits
apply_text_edits-assemble text edits bom eol {out} {resolved} r e =
    apply_resolved-assemble text resolved bom eol (Ensures-some (resolve_edits-All text edits) r)
      (rw r at e)
