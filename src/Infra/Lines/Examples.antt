-- ===== src/Infra/Lines/Examples.antt =====
-- src/infra/utils.ts on a text of two lines.
use dsh_hashline_edittool.Base.{List, [], ◌∷◌, Text, codes}

abbrev two_lines : List Text
two_lines = codes "a" ∷ [] ∷ []
