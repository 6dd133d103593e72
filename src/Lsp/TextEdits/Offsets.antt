-- ===== src/Lsp/TextEdits/Offsets.antt =====
-- src/lsp/format/text-edits.ts: the offsets that positions resolve to.
use dsh_hashline_edittool.Base.{
  ℕ, zero, suc, ◌+◌, ◌-◌, ◌≤◌, ◌<◌, List, [], ◌∷◌, leb, ◌==◌, length, get_or, Text, newline, arith,
  Bool-cases, inl, inr, All, Ensures, thrown, returned, Ensures-bind,
}
use dsh_hashline_edittool.Lsp.TextEdits.{
  Coordinate, count, below_zero, fraction, Position, TextEdit, ResolvedEdit, starts_from,
  line_starts, clamp, offset_in, resolve_line, resolve_offset, resolve_edits,
}

-- The starts rise up to the end of the list, one behind the length of the text.
starts_from-get_or :
    (text : Text) (prev at i : ℕ)
    → prev ≤ at
    → i < length (starts_from text at)
    → (get_or (prev ∷ starts_from text at) i 0 < get_or (starts_from text at) i 0)
      × (get_or (starts_from text at) i 0 ≤ at + length text + 1)
unfolding starts_from
starts_from-get_or [] prev at zero p h = ground arith
starts_from-get_or [] prev at (suc i) p h = ground arith
starts_from-get_or (c ∷ text) prev at zero p h = elim (Bool-cases (c == newline)) [
  | inr e ↦
      let later : zero < length (starts_from text (at + 1)) = rw (e, starts_from) at h in
      rw (e, starts_from)
        (ground (arith, starts_from-get_or text prev (at + 1) zero (omega arith) later))
  | inl e ↦ rw (e, starts_from) (ground arith)
]
starts_from-get_or (c ∷ text) prev at (suc i) p h = elim (Bool-cases (c == newline)) [
  | inr e ↦
      let later : suc i < length (starts_from text (at + 1)) = rw (e, starts_from) at h in
      rw (e, starts_from)
        (ground (arith, starts_from-get_or text prev (at + 1) (suc i) (omega arith) later))
  | inl e ↦
      let later : suc i < suc (length (starts_from text (at + 1))) = rw (e, starts_from) at h in
      rw (e, starts_from)
        (ground (arith, starts_from-get_or text (at + 1) (at + 1) i (omega arith) (omega arith)))
]

clamp-le : (character : Coordinate) (line_length : ℕ) → clamp character line_length ≤ line_length
clamp-le (count n) line_length = omega arith
clamp-le below_zero line_length = omega arith
clamp-le fraction line_length = omega arith

offset_in-le :
    (text : Text) (line : ℕ) (character : Coordinate)
    → line < length (line_starts text) - 1
    → offset_in (line_starts text) (length text) line character ≤ length text
unfolding offset_in line_starts
offset_in-le text line character h =
    let bound = starts_from-get_or text 0 0 line (omega arith) (omega arith) in
    let ends = get_or (line_starts text) (suc line) 0 in
    let begins = get_or (line_starts text) line 0 in
    ground (
      arith,
      bound,
      clamp-le character (length text - begins),
      clamp-le character (ends - 1 - begins),
    )

abbrev pub IsInside : Text → ResolvedEdit → Type 0
IsInside text edit = edit.end ≤ length text

resolve_line-le :
    (text : Text) (line character : Coordinate)
    → Ensures (λ o. o ≤ length text) (resolve_line (line_starts text) (length text) line character)
unfolding resolve_line
resolve_line-le text (count line) character =
    elim (Bool-cases (leb (length (line_starts text) - 1) line)) [
      | inl e ↦ rw (e, resolve_line) thrown
      | inr e ↦ rw (e, resolve_line) (returned (offset_in-le text line character (ground arith)))
    ]
resolve_line-le text below_zero character = thrown
resolve_line-le text fraction character = thrown

resolve_offset-le :
    (text : Text) (position : Position)
    → Ensures (λ o. o ≤ length text) (resolve_offset (line_starts text) (length text) position)
unfolding resolve_offset
resolve_offset-le text position = resolve_line-le text position.line position.character

pub resolve_edits-All :
    (text : Text) (edits : List TextEdit)
    → Ensures (All (IsInside text)) (resolve_edits (line_starts text) (length text) edits)
unfolding resolve_edits
resolve_edits-All text [] = returned tt
resolve_edits-All text (edit ∷ edits) = Ensures-bind (resolve_offset-le text edit.start) λ start p.
    Ensures-bind (resolve_offset-le text edit.end)
      λ end q. Ensures-bind (resolve_edits-All text edits) λ resolved r. returned (q, r)
