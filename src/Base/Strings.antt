-- ===== src/Base/Strings.antt =====
-- Texts as the source's strings: sequences of UTF-16 code units.
use Prim.Native.Nat.{ℕ}
use Prim.Native.Char.{code}
use Prim.Native.String.{String}
use mathlib.Core.Bool.{Bool, true, ◌&&◌, ◌||◌}
use mathlib.Core.List.{List, [], ◌∷◌}
use dsh_hashline_edittool.Base.Tests.{leb}

abbrev pub Text : Type 0
Text = List ℕ

-- the code units of a literal, which is ASCII
abbrev pub codes : String → Text
codes String.[] = []
codes (String.◌∷◌ c s) = code c ∷ codes s

abbrev pub newline : ℕ
newline = 10

abbrev pub is_digit : ℕ → Bool
is_digit c = leb b'0' c && leb c b'9'

abbrev pub is_base62 : ℕ → Bool
is_base62 c = is_digit c || leb b'a' c && leb c b'z' || leb b'A' c && leb c b'Z'

-- `every` of a test
unfoldable pub all {ℓ} : {A : Type ℓ} → (A → Bool) → List A → Bool
all p [] = true
all p (x ∷ xs) = p x && all p xs
