-- ===== src/Infra/Lines.antt =====
-- src/infra/utils.ts: texts as lines.
pub mod RoundTrip
mod Examples
use dsh_hashline_edittool.Base.{
  ℕ, zero, suc, ◌+◌, ◌-◌, ◌<◌, ◌≡◌, refl, Bool, true, false, List, [], ◌∷◌, ◌++◌, Option, none,
  some, ◌==◌, if◌then◌else◌, ltb, Text, codes, newline, length, get_elem?, take,
}

-- puts a code unit in front of the first of some parts
cons_head : ℕ → List Text → List Text
cons_head c [] = (c ∷ []) ∷ []
cons_head c (part ∷ parts) = (c ∷ part) ∷ parts

-- `text.split(separator)` at one code unit
unfoldable pub split : ℕ → Text → List Text
unfolding cons_head
split separator [] = [] ∷ []
split separator (c ∷ text) =
    if c == separator then [] ∷ split separator text else cons_head c (split separator text)

-- `parts.join(separator)` at one code unit
unfoldable pub join : ℕ → List Text → Text
join separator [] = []
join separator (part ∷ []) = part
join separator (part ∷ next ∷ parts) = part ++ separator ∷ join separator (next ∷ parts)

-- `text.endsWith("\n")`
unfoldable pub ends_with_newline : Text → Bool
ends_with_newline [] = false
ends_with_newline (c ∷ []) = c == newline
ends_with_newline (c ∷ d ∷ text) = ends_with_newline (d ∷ text)

-- `lines.slice(0, -1)`
unfoldable pub drop_last {ℓ} : {A : Type ℓ} → List A → List A
drop_last [] = []
drop_last (x ∷ []) = []
drop_last (x ∷ y ∷ xs) = x ∷ drop_last (y ∷ xs)

unfoldable pub split_lines : Text → List Text
unfolding split ends_with_newline drop_last
split_lines [] = [] ∷ []
split_lines (c ∷ text) =
    let lines = split newline (c ∷ text) in
    if ends_with_newline (c ∷ text) then drop_last lines else lines

unfoldable pub vis_lines : Text → List Text
unfolding split ends_with_newline drop_last
vis_lines [] = []
vis_lines (c ∷ text) =
    let lines = split newline (c ∷ text) in
    if ends_with_newline (c ∷ text) then drop_last lines else lines

two_lines : split_lines (codes "a\nbc\n") ≡ codes "a" ∷ codes "bc" ∷ []
unfolding split_lines
two_lines = refl

open_end : split_lines (codes "a\n\nb") ≡ codes "a" ∷ [] ∷ codes "b" ∷ []
unfolding split_lines
open_end = refl
