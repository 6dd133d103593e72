-- ===== src/Hashline/Alloc/Rows.antt =====
-- src/hashline/alloc.ts: `assignAnchors`, `allocateInto`, `allocateIntoRows` and `anchorsPure`. A
-- `Map` is the list of its entries, and `none` is the `E_HASH_SPACE` error of `allocateAnchor`.
pub mod Assigned
pub mod Live
pub mod Call
use dsh_hashline_edittool.Base.{
  ℕ, zero, suc, ◌+◌, ◌-◌, Bool, true, false, ◌||◌, ◌&&◌, get_or, List, [], ◌∷◌, ◌++◌, Option, none,
  some, map, ◌==◌, ltb, leb, if◌then◌else◌, ◌>>=◌, Text, codes, ◌≡◌, refl, length, get_elem?,
  nat_eq,
}
use dsh_hashline_edittool.Base.Map
use dsh_hashline_edittool.Base.Sort.{sort}
use dsh_hashline_edittool.Infra.Lines.{split_lines}
use dsh_hashline_edittool.Hashline.Alloc.Hash.{content_key}
use dsh_hashline_edittool.Hashline.Alloc.Probe.{Cursor, Allocated, allocate_anchor}

-- `cursorByKey`
abbrev pub Cursors : Type 0
Cursors = List (ℕ × Cursor)

-- `cursorByKey.get(key)`, or a new cursor
unfoldable pub cursor_for : Cursors → ℕ → Cursor
unfolding Map.get
cursor_for cursors key = elim (Map.get cursors key) [ none ↦ [] | some cursor ↦ cursor ]

-- the cursor object is shared with the map, which so keeps what the call wrote to it
unfoldable pub keep_cursor : Cursors → ℕ → Option Cursor → Cursors
unfolding Map.put
keep_cursor cursors key none = cursors
keep_cursor cursors key (some cursor) = Map.put cursors key cursor

-- One anchor with the cursor of its content, and the cursors behind it.
unfoldable pub mint : List Text → Cursors → Text → Option (Text × Cursors)
unfolding cursor_for keep_cursor allocate_anchor
mint used cursors text = do
  allocated ← allocate_anchor used text (some (cursor_for cursors (content_key text)))
  some (allocated.anchor, keep_cursor cursors (content_key text) allocated.cursor)

-- the loop of `assignAnchors`
unfoldable pub assign_lines : List Text → Cursors → List Text → Option (List Text)
unfolding mint
assign_lines used cursors [] = some []
assign_lines used cursors (text ∷ lines) = do
  (anchor, cursors') ← mint used cursors text
  anchors ← assign_lines (anchor ∷ used) cursors' lines
  some (anchor ∷ anchors)

unfoldable pub assign_anchors : List Text → Option (List Text)
unfolding assign_lines
assign_anchors lines = assign_lines [] [] lines

-- the loop of `anchorsPure`, which keeps no cursor
unfoldable pub pure_lines : List Text → List Text → Option (List Text)
unfolding allocate_anchor
pure_lines used [] = some []
pure_lines used (text ∷ lines) = do
  allocated ← allocate_anchor used text none
  anchors ← pure_lines (allocated.anchor ∷ used) lines
  some (allocated.anchor ∷ anchors)

unfoldable pub anchors_pure : Text → Option (List Text)
unfolding pure_lines split_lines
anchors_pure content = pure_lines [] (split_lines content)

pub record AnchorEntry : Type 0 where
  pub anchor : Text
  pub content_key : ℕ

pub record SparseState : Type 0 where
  pub checksum : Text
  pub line_count : ℕ
  pub entries : List (ℕ × AnchorEntry)

-- the variables of the loop of `allocateIntoRows` that change: `avoid`, `cursorByKey` and the
-- state's entries
pub record Working : Type 0 where
  pub avoid : List Text
  pub cursors : Cursors
  pub entries : List (ℕ × AnchorEntry)

-- the anchor of an entry that was minted for this content
unfoldable pub reusable : Option AnchorEntry → ℕ → Option Text
reusable none key = none
reusable (some existing) key = if existing.content_key == key then some existing.anchor else none

-- the rest of a round, for a line in range
unfoldable pub serve_line : Working → ℕ → Text → Option (Text × Working)
unfolding mint Map.get Map.put reusable
serve_line w line text = elim (reusable (Map.get w.entries line) (content_key text)) [
  | some anchor ↦ some (anchor, w)
  | none ↦ do
    (anchor, cursors') ← mint w.avoid w.cursors text
    some (
      anchor,
      record {
        avoid = anchor ∷ w.avoid;
        cursors = cursors';
        entries =
            Map.put w.entries line (record { anchor = anchor; content_key = content_key text });
      },
    )
]

module _ (rows : List (ℕ × Text)) (line_count : ℕ) where
  -- one round of the loop
  unfoldable pub serve_row : Working → ℕ → Option (Text × Working)
  unfolding serve_line
  serve_row w line =
      if ltb line 1 || ltb line_count line
      then some ([], w)
      else do text ← Map.get rows line; serve_line w line text

  unfoldable pub serve_rows : Working → List ℕ → Option (List Text × Working)
  unfolding serve_row
  serve_rows w [] = some ([], w)
  serve_rows w (line ∷ lines) = do
    (anchor, w') ← serve_row w line
    (anchors, w'') ← serve_rows w' lines
    some (anchor ∷ anchors, w'')

abbrev pub row_lines : List (ℕ × Text) → List ℕ
row_lines rows = map (λ row. row.0) rows

-- every anchor that the file has
abbrev pub live_anchors : List (ℕ × AnchorEntry) → List Text
live_anchors entries = map (λ entry. entry.1.anchor) entries

-- `used ?? new Set()` with the state's own anchors in the second case
unfoldable pub avoid_of : SparseState → Option (List Text) → List Text
avoid_of state none = live_anchors state.entries
avoid_of state (some used) = used

unfoldable pub allocate_into_rows :
    SparseState → List (ℕ × Text) → ℕ → Option (List Text) → Option (List Text × SparseState)
unfolding serve_rows sort avoid_of
allocate_into_rows state rows line_count used = do
  (anchors, w) ←
      serve_rows rows line_count
        (record { avoid = avoid_of state used; cursors = []; entries = state.entries })
        (sort leb (row_lines rows))
  some (anchors, record state { entries = w.entries })

-- `rows.set(line, currentLines[line - 1])`, for the lines that the file has
keep_row : List Text → List (ℕ × Text) → ℕ → List (ℕ × Text)
unfolding Map.put
keep_row texts rows line =
    if leb 1 line && leb line (length texts)
    then Map.put rows line (get_or texts (line - 1) [])
    else rows

unfoldable pub rows_of : List Text → List (ℕ × Text) → List ℕ → List (ℕ × Text)
unfolding keep_row
rows_of texts rows [] = rows
rows_of texts rows (line ∷ lines) = rows_of texts (keep_row texts rows line) lines

unfoldable pub allocate_into :
    SparseState → Text → List ℕ → Option (List Text) → Option (List Text × SparseState)
unfolding allocate_into_rows rows_of split_lines
allocate_into state content lines used =
    let current_lines = split_lines content in
    allocate_into_rows state (rows_of current_lines [] lines) (length current_lines) used
