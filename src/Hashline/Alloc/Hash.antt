-- ===== src/Hashline/Alloc/Hash.antt =====
-- src/hashline/alloc.ts: `cyrb53`, `canon` and `contentKey`. A 32-bit word is its bit pattern.
use dsh_hashline_edittool.Base.{
  ℕ, ◌+◌, ◌*◌, ◌/◌, ◌%◌, ◌^◌, ◌<◌, ◌≡◌, refl, Bool, ◌||◌, [], ◌∷◌, ◌==◌, if◌then◌else◌, arith, Text,
  codes,
}
use dsh_hashline_edittool.Base.Number.{imul, ◌^^◌, two_32, two_53}

-- the loop over the code units
mix : Text → ℕ → ℕ → ℕ × ℕ
mix [] h1 h2 = (h1, h2)
mix (ch ∷ str) h1 h2 = mix str (imul (h1 ^^ ch) 2654435761) (imul (h2 ^^ ch) 1597334677)

-- the two last assignments, the second of which reads the new `h1`
finish : ℕ → ℕ → ℕ
finish h1 h2 =
    let h1' = imul (h1 ^^ (h1 / 2 ^ 16)) 2246822507 ^^ imul (h2 ^^ (h2 / 2 ^ 13)) 3266489909 in
    let h2' = imul (h2 ^^ (h2 / 2 ^ 16)) 2246822507 ^^ imul (h1' ^^ (h1' / 2 ^ 13)) 3266489909 in
    4294967296 * (h2' % 2 ^ 21) + h1' % two_32

unfoldable pub cyrb53 : Text → ℕ → ℕ
unfolding mix finish imul ◌^^◌
cyrb53 str seed = let (h1, h2) = mix str (0xdeadbeef ^^ seed) (0x41c6ce57 ^^ seed) in finish h1 h2

abbrev pub is_folded : ℕ → Bool
is_folded c = c == b' ' || c == b'\t' || c == b'\r' || c == b'\n'

unfoldable pub canon : Text → Text
canon [] = []
canon (c ∷ line) = if is_folded c then canon line else c ∷ canon line

unfoldable pub content_key : Text → ℕ
unfolding cyrb53 canon
content_key content = cyrb53 (canon content) 0

-- Every key is a number that the source holds exactly.
pub content_key-lt : (content : Text) → content_key content < two_53
unfolding content_key finish
content_key-lt content = omega arith

key_of_abc : content_key (codes " a\tb c") ≡ content_key (codes "abc")
unfolding content_key
key_of_abc = refl
