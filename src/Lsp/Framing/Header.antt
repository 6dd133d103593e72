-- ===== src/Lsp/Framing/Header.antt =====
-- src/lsp/framing.ts: `parseContentLength`, on the ASCII text of a header block.
use dsh_hashline_edittool.Base.{
  ℕ, ◌+◌, ◌-◌, ◌^◌, ◌&&◌, List, [], ◌∷◌, Option, none, some, ltb, leb, ◌==◌, if◌then◌else◌, Text,
  codes, map, same_text, is_digit,
}
use dsh_hashline_edittool.Base.Decimal.{read_digits}
use dsh_hashline_edittool.Base.Space.{trim}

unfoldable pub cons_part : ℕ → List Text → List Text
cons_part c [] = (c ∷ []) ∷ []
cons_part c (part ∷ parts) = (c ∷ part) ∷ parts

-- `header.split("\r\n")`
unfoldable pub split_crlf : Text → List Text
unfolding cons_part
split_crlf [] = [] ∷ []
split_crlf (c ∷ []) = (c ∷ []) ∷ []
split_crlf (c ∷ d ∷ text) =
    let after_break = split_crlf text in
    let more = split_crlf (d ∷ text) in
    if c == 13 && d == 10 then [] ∷ after_break else cons_part c more

abbrev pub lower : ℕ → ℕ
lower c = if leb b'A' c && leb c b'Z' then c + 32 else c

-- what stands before and behind the first colon
unfoldable pub cut_colon : Text → Option (Text × Text)
cut_colon [] = none
cut_colon (c ∷ text) =
    if c == b':'
    then some ([], text)
    else elim (cut_colon text) [ none ↦ none | some (name, raw) ↦ some (c ∷ name, raw) ]

-- the number that `Number.parseInt(raw, 10)` gives when it is an integer from 0 on: an optional sign
-- and digits, and no more digits than a finite number has
unfoldable pub parse_digits : Text → Option ℕ
unfolding read_digits
parse_digits [] = none
parse_digits (c ∷ raw) =
    let n = read_digits (c ∷ raw) 0 in
    if is_digit c && ltb n (2 ^ 1024 - 2 ^ 970) then some n else none

unfoldable pub parse_length : Text → Option ℕ
unfolding parse_digits
parse_length [] = none
parse_length (c ∷ raw) =
    if c == b'+'
    then parse_digits raw
    else if c == b'-'
    then (elim (parse_digits raw) [ none ↦ none | some n ↦ if n == 0 then some 0 else none ])
    else parse_digits (c ∷ raw)

-- What a header says of the length: the two throws are `missing` and `malformed`.
pub data ContentLength : Type 0 where
  found : ℕ → ContentLength
  missing malformed : ContentLength

-- the loop over the header's lines, with `value` so far
unfoldable pub read_lines : List Text → Option ℕ → ContentLength
unfolding cut_colon trim parse_length
read_lines [] none = missing
read_lines [] (some value) = found value
read_lines (line ∷ lines) value =
    let skip = read_lines lines value in
    elim (cut_colon line) [
      | none ↦ skip
      | some (name, raw) ↦
          if same_text (map lower (trim name)) (codes "content-length")
          then (elim (parse_length (trim raw)) [
            | none ↦ malformed
            | some n ↦ read_lines lines (some n)
          ])
          else skip
    ]

unfoldable pub parse_content_length : Text → ContentLength
unfolding split_crlf read_lines
parse_content_length header = read_lines (split_crlf header) none
