-- ===== src/Edit/Batch/Layout.antt =====
-- src/domain/edit/edit-engine.ts: the final file that a batch describes, read from the front, and the
-- positions of its hunks in it.
use dsh_hashline_edittool.Base.{
  ℕ, ◌+◌, ◌-◌, ◌<◌, ◌≤◌, ◌≡◌, refl, ap, sym, ◌∙◌, subst, Bool, true, false, List, [], ◌∷◌, ◌++◌,
  append_assoc, arith, length, Text, take, drop, slice, length-append, length-take, length-drop,
  take-append_length, drop-append_length,
}
use dsh_hashline_edittool.Base.Sort.{sort}
use dsh_hashline_edittool.Edit.Batch.{
  start_le, final_positions, Resolved, FinalPosition, position, positions, EditHunk, to_anchor_hunk,
}

-- The first old line that a hunk takes; an insertion takes none, and stands behind its line.
abbrev pub first_taken : Bool → ℕ → ℕ
first_taken false start = start
first_taken true start = start + 1

-- The lines that a hunk brings; those of an insertion start with the line it stands behind.
abbrev pub brought : Bool → List Text → List Text
brought false content = content
brought true [] = []
brought true (line ∷ content) = content

abbrev pub InOrder : Bool → ℕ → ℕ → ℕ → List Text → Type 0
InOrder false from start end content = (from ≤ start) × (start ≤ end)
InOrder true from start end content = (from ≤ start + 1) × (start ≡ end) × (0 < length content)

-- The hunks take disjoint parts of a file of `limit` lines from line `from` on, in ascending order.
abbrev pub Laid : ℕ → ℕ → List Resolved → Type 0
Laid limit from [] = from ≤ limit + 1
Laid limit from (hunk ∷ hunks) =
    InOrder hunk.is_ins from hunk.start_line hunk.end_line hunk.content_lines
    × (hunk.end_line ≤ limit)
    × Laid limit (hunk.end_line + 1) hunks

-- The final file from line `from` of the old file on.
abbrev pub assembled : List Text → ℕ → List Resolved → List Text
assembled lines from [] = drop (from - 1) lines
assembled lines from (hunk ∷ hunks) =
    slice lines (from - 1) (first_taken hunk.is_ins hunk.start_line - 1)
    ++ (brought hunk.is_ins hunk.content_lines ++ assembled lines (hunk.end_line + 1) hunks)

abbrev pub hunk_at : Resolved → FinalPosition → EditHunk
hunk_at hunk place =
    to_anchor_hunk hunk.is_ins hunk.start_line hunk.end_line place.final_start place.final_end

-- Each hunk's lines stand in a file where its position says.
abbrev pub Placed : List Text → List Resolved → List FinalPosition → Type 0
Placed file [] [] = Unit
Placed file (hunk ∷ hunks) (place ∷ places) =
    (slice file ((hunk_at hunk place).final_start1 - 1) (hunk_at hunk place).final_end1
      ≡ brought hunk.is_ins hunk.content_lines)
    × Placed file hunks places
Placed file _ _ = ⊥

length-brought :
    (content : List Text) → 0 < length content → length (brought true content) + 1 ≡ length content
length-brought [] h = absurd (omega arith)
length-brought (line ∷ content) h = omega arith

-- the arithmetic of one hunk behind `size` lines of the final file
placing :
    (hunk : Resolved) (is_ins : Bool) (from added removed size : ℕ)
    → hunk.is_ins ≡ is_ins
    → 1 ≤ from
    → InOrder is_ins from hunk.start_line hunk.end_line hunk.content_lines
    → size + removed + 1 ≡ from + added
    → let taken = first_taken is_ins hunk.start_line in
      let rows = length (brought is_ins hunk.content_lines) in
      let place = hunk_at hunk (position hunk added removed) in
      (place.final_start1 - 1 ≡ size + (taken - from))
      × (place.final_end1 - (place.final_start1 - 1) ≡ rows)
      × (size + (taken - from) + rows + (removed + (hunk.end_line - hunk.start_line + 1)) + 1
          ≡ hunk.end_line + 1 + (added + length hunk.content_lines))
      × (from ≤ taken)
      × (taken ≤ hunk.end_line + 1)
unfolding position to_anchor_hunk
placing hunk false from added removed size kind h o e =
    rw kind (omega arith, omega arith, omega arith, omega arith, omega arith)
placing hunk true from added removed size kind h (low, same, some_line) e =
    let rows = length-brought hunk.content_lines some_line in
    rw kind (omega arith, omega (arith, rows), omega (arith, rows, same), low, omega (arith, same))

pub slice-middle {ℓ} :
    {A : Type ℓ} (front middle back : List A) (from to : ℕ)
    → from ≡ length front
    → to - from ≡ length middle
    → slice (front ++ (middle ++ back)) from to ≡ middle
slice-middle front middle back from to start size =
    ap (λ n. take n (drop from (front ++ (middle ++ back)))) size
    ∙ ap (λ n. take (length middle) (drop n (front ++ (middle ++ back)))) start
    ∙ ap (take (length middle)) (drop-append_length front (middle ++ back))
    ∙ take-append_length middle back

positions-Placed :
    (lines front : List Text) (from added removed : ℕ) (hunks : List Resolved)
    → 1 ≤ from
    → Laid (length lines) from hunks
    → length front + removed + 1 ≡ from + added
    → Placed (front ++ assembled lines from hunks) hunks (positions hunks added removed)
unfolding positions
positions-Placed lines front from added removed [] h laid e = tt
positions-Placed lines front from added removed (hunk ∷ hunks) h (order, limit, laid) e =
    let taken = first_taken hunk.is_ins hunk.start_line in
    let gap = slice lines (from - 1) (taken - 1) in
    let rows = brought hunk.is_ins hunk.content_lines in
    let rest = assembled lines (hunk.end_line + 1) hunks in
    let (start, size, next, low, high) =
      placing hunk hunk.is_ins from added removed (length front) refl h order e in
    let gap_size : length gap ≡ taken - from = omega (
      arith,
      length-take (taken - 1 - (from - 1)) (drop (from - 1) lines),
      length-drop (from - 1) lines,
      limit,
      low,
      high,
    ) in
    let added' = added + length hunk.content_lines in
    let removed' = removed + (hunk.end_line - hunk.start_line + 1) in
    let front_size = length-append front gap in
    let whole : front ++ (gap ++ (rows ++ rest)) ≡ (front ++ gap) ++ (rows ++ rest) =
      sym (append_assoc front gap (rows ++ rest)) in
    (
      ap
            (λ t.
              slice t ((hunk_at hunk (position hunk added removed)).final_start1 - 1)
                (hunk_at hunk (position hunk added removed)).final_end1)
            whole
          ∙ slice-middle (front ++ gap) rows rest _ _ (omega (arith, start, front_size, gap_size))
              size,
      subst (λ t. Placed t hunks (positions hunks added' removed'))
          (append_assoc (front ++ gap) rows rest ∙ sym whole)
          (positions-Placed lines ((front ++ gap) ++ rows) (hunk.end_line + 1) added' removed' hunks
            (omega arith) laid
            (omega (arith, next, front_size, gap_size, length-append (front ++ gap) rows))),
    )

-- Every hunk's lines stand where its final position says. For a batch whose ascending hunks are in the
-- file and take disjoint parts of it, an insertion standing behind the line it names: each hunk's new
-- lines are the lines of the final file from the first to the last line of its range, as it is passed
-- on to the update of the anchors.
pub final_positions-Placed :
    (lines : List Text) (resolved : List Resolved)
    → Laid (length lines) 1 (sort start_le resolved)
    → Placed
        (assembled lines 1 (sort start_le resolved))
        (sort start_le resolved)
        (final_positions resolved)
unfolding final_positions
final_positions-Placed lines resolved laid =
    positions-Placed lines [] 1 0 0 (sort start_le resolved) (omega arith) laid (omega arith)
