-- ===== src/Edit/Batch/Hunk.antt =====
-- src/domain/edit/edit-engine.ts: the old and the new range of one hunk, on the lines in front of it, its own and
-- those behind it.
use dsh_hashline_edittool.Base.{
  ℕ, zero, suc, ◌+◌, ◌-◌, ◌≤◌, ◌≡◌, refl, ap, sym, ◌∙◌, Bool, true, false, List, [], ◌∷◌, ◌++◌,
  append_assoc, arith, Text, length, take, drop, take-nil, slice, length-append,
}
use dsh_hashline_edittool.Edit.Batch.{to_anchor_hunk}
use dsh_hashline_edittool.Edit.Batch.Layout.{brought, slice-middle}

-- the lines behind those in front, up to their number
pub slice-edited :
    (front content back : List Text) (is_ins : Bool) (start1 end1 : ℕ)
    → length front + 1 ≡ start1
    → let hunk = to_anchor_hunk is_ins start1 end1 start1 (start1 + length content - 1) in
      slice (front ++ (content ++ back)) (hunk.final_start1 - 1) hunk.final_end1
      ≡ brought is_ins content
unfolding to_anchor_hunk
slice-edited front content back false start1 end1 e =
    slice-middle front content back _ _ (omega arith) (omega arith)
slice-edited front [] back true start1 end1 e =
    ap (λ n. take n (drop (start1 + 1 - 1) (front ++ back))) {x = start1 + 0 - 1 - (start1 + 1 - 1)}
      {y = 0} (omega arith)
slice-edited front (line ∷ content) back true start1 end1 e =
    ap (λ t. slice t (start1 + 1 - 1) (start1 + length (line ∷ content) - 1))
      (sym (append_assoc front (line ∷ []) (content ++ back)))
    ∙ slice-middle (front ++ line ∷ []) content back _ _
        (omega (arith, length-append front (line ∷ []))) (omega arith)

take-slice :
    (from to : ℕ) (xs : List Text) → from ≤ to → take from xs ++ slice xs from to ≡ take to xs
take-slice zero to xs h = ap (λ n. take n xs) {x = to - 0} {y = to} (omega arith)
take-slice (suc from) zero xs h = absurd (omega arith)
take-slice (suc from) (suc to) [] h = take-nil (suc to - suc from)
take-slice (suc from) (suc to) (x ∷ xs) h =
    ap (λ n. x ∷ (take from xs ++ take n (drop from xs))) {x = suc to - suc from} {y = to - from}
      (omega arith)
    ∙ ap (λ t. x ∷ t) (take-slice from to xs (omega arith))

-- The lines of an insertion start with the line that it stands behind.
abbrev pub NamesLine : Bool → List Text → ℕ → ℕ → List Text → Type 0
NamesLine false lines first last content = Unit
NamesLine true lines first last content =
    (first ≡ last) × (take 1 content ≡ slice lines (first - 1) first)

take-brought : (content : List Text) → take 1 content ++ brought true content ≡ content
take-brought [] = refl
take-brought (line ∷ content) = refl

-- the old lines that a hunk takes, replaced by those that it brings
pub rejoined :
    (is_ins : Bool) (lines content : List Text) (first last final_start final_end : ℕ)
    → 1 ≤ first
    → NamesLine is_ins lines first last content
    → let hunk = to_anchor_hunk is_ins first last final_start final_end in
      take (hunk.old_start1 - 1) lines ++ (brought is_ins content ++ drop hunk.old_end1 lines)
      ≡ take (first - 1) lines ++ (content ++ drop last lines)
unfolding to_anchor_hunk
rejoined false lines content first last final_start final_end h names = refl
rejoined true lines content first last final_start final_end h (one, names) =
    let behind = brought true content ++ drop first lines in
    ap (λ n. take n lines ++ behind) {x = first + 1 - 1} {y = first} (omega arith)
    ∙ ap (λ t. t ++ behind) (sym (take-slice (first - 1) first lines (omega arith)))
    ∙ append_assoc (take (first - 1) lines) (slice lines (first - 1) first) behind
    ∙ ap (λ t. take (first - 1) lines ++ (t ++ behind)) (sym names)
    ∙ ap (λ t. take (first - 1) lines ++ t)
        (sym (append_assoc (take 1 content) (brought true content) (drop first lines)))
    ∙ ap (λ t. take (first - 1) lines ++ (t ++ drop first lines)) (take-brought content)
    ∙ ap (λ n. take (first - 1) lines ++ (content ++ drop n lines)) one
