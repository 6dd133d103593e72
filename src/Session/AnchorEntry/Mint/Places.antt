-- ===== src/Session/AnchorEntry/Mint/Places.antt =====
-- src/domain/session/anchor-entry.ts, `anchorFor`: lines with the anchors that they are given.
use dsh_hashline_edittool.Base.{
  ℕ, ◌≡◌, refl, true, List, [], ◌∷◌, map, Option, some, arith, Text, nat_eq, text_eq, All, has,
  ===_sound,
}
use dsh_hashline_edittool.Base.Map
use dsh_hashline_edittool.Base.Map.{Keyed, Keyed-All}
use dsh_hashline_edittool.Hashline.Alloc.Rows.{AnchorEntry, row_lines}
use dsh_hashline_edittool.Session.AnchorEntry.Mint.{AnchorForResult}
use dsh_hashline_edittool.Session.AnchorEntry.Mint.Reuse.{anchor_in}
use dsh_hashline_edittool.Session.AnchorEntry.Mint.Shown.{served_lines}

pub has-row_lines :
    (lines : List (ℕ × Text)) (i : ℕ) (text : Text)
    → Map.get lines i ≡ some text
    → has i (row_lines lines) ≡ true
unfolding Map.get
has-row_lines [] i text h = absurd (cc h)
has-row_lines ((line, t) ∷ lines) i text h =
    ground (arith, has-row_lines lines i text, ===_sound line i)

pub All-over {ℓ κ κ'} :
    {A : Type ℓ} {B : Type κ} (P : B → Type κ') (f : A → B) (xs : List A)
    → All (λ x. P (f x)) xs
    → All P (map f xs)
All-over P f [] h = tt
All-over P f (x ∷ xs) (p, h) = (p, All-over P f xs h)

-- a result from the lines with their anchors
abbrev pub the_result : List (ℕ × Text) → List (Option Text) → AnchorForResult
the_result anchors minted = record { anchors = map (λ r. r.1) anchors; minted = minted }

-- Each line with the anchor that it was given.
abbrev pub places_of : List (ℕ × AnchorEntry) → List (ℕ × Text) → List (Text × ℕ)
places_of entries lines = map (λ row. (anchor_in entries row.0, row.0)) lines

pub anchors_of_places :
    (entries : List (ℕ × AnchorEntry)) (lines : List (ℕ × Text))
    → map (λ place. place.0) (places_of entries lines) ≡ map (λ r. r.1) (served_lines entries lines)
anchors_of_places entries [] = refl
anchors_of_places entries (row ∷ lines) = rw (anchors_of_places entries lines)

pub lines_of_places :
    (entries : List (ℕ × AnchorEntry)) (lines : List (ℕ × Text))
    → map (λ place. place.1) (places_of entries lines) ≡ row_lines lines
lines_of_places entries [] = refl
lines_of_places entries (row ∷ lines) = rw (lines_of_places entries lines)
