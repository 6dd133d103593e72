-- ===== src/Session/AnchorState/Persist.antt =====
-- src/domain/session/anchor-state.ts, `persistAnchorState`: what the store holds after a state was committed.
use dsh_hashline_edittool.Base.{
  ℕ, ◌≡◌, refl, ◌∙◌, sym, Bool, true, false, List, [], ◌∷◌, Option, none, some, arith,
  if◌then◌else◌, all, Bool-cases, Option-cases, inl, inr, nat_eq, text_eq, has, Text,
  same_text_refl, ===_sound,
}
use dsh_hashline_edittool.Base.Map
use dsh_hashline_edittool.Base.Map.{Keyed}
use dsh_hashline_edittool.Base.Sort.{sort}
use dsh_hashline_edittool.Hashline.Alloc.Rows.{AnchorEntry, SparseState}
use dsh_hashline_edittool.Session.AnchorRows.{
  PersistedAnchorLine, PersistedAnchorState, FileRows, line_le, get_state, upsert_lines, put_lines,
  put_meta, is_valid_row,
}
use dsh_hashline_edittool.Session.AnchorRows.Lookup.{
  or_else, get-sort, sort-Keyed, get-upsert_lines, upsert_lines-Keyed, delete-Keyed, AllValid,
  AllValid-all, all-AllValid,
}
use dsh_hashline_edittool.Session.AnchorState.{
  projection_of, differs, dropped_lines, drop_rows, upserts_of, lines_of, persist_anchor_state,
}

-- the entry that a map has and whose counterpart differs
abbrev unlike : Option AnchorEntry → Option AnchorEntry → Option AnchorEntry
unlike other none = none
unlike other (some x) = if differs other x then some x else none

abbrev is_some : Option AnchorEntry → Bool
is_some none = false
is_some (some x) = true

has-dropped_lines :
    (next previous : List PersistedAnchorLine) (i : ℕ)
    → Keyed previous
    → has i (dropped_lines next previous) ≡ is_some (unlike (Map.get next i) (Map.get previous i))
unfolding Map.get dropped_lines
has-dropped_lines next [] i k = refl
has-dropped_lines next ((line, x) ∷ previous) i (g, k) = ground (
  arith,
  has-dropped_lines next previous i k,
  has-dropped_lines next previous line k,
  ===_sound line i,
)

get-drop_rows :
    (checksum : Text) (line_count : ℕ) (rows : FileRows) (lines : List ℕ) (i : ℕ)
    → Map.get (drop_rows checksum line_count rows lines).line_rows i
      ≡ (if has i lines then none else Map.get rows.line_rows i)
unfolding drop_rows put_meta
get-drop_rows checksum line_count rows [] i = refl
get-drop_rows checksum line_count rows (line ∷ lines) i = ground (
  arith,
  get-drop_rows checksum line_count (put_meta rows checksum line_count (some line)) lines i,
  Map.get-delete rows.line_rows line i,
)

drop_rows-Keyed :
    (checksum : Text) (line_count : ℕ) (rows : FileRows) (lines : List ℕ)
    → Keyed rows.line_rows
    → Keyed (drop_rows checksum line_count rows lines).line_rows
unfolding drop_rows put_meta
drop_rows-Keyed checksum line_count rows [] k = k
drop_rows-Keyed checksum line_count rows (line ∷ lines) k =
    drop_rows-Keyed checksum line_count (put_meta rows checksum line_count (some line)) lines
      (delete-Keyed rows.line_rows line k)

get-upserts_of :
    (previous lines : List PersistedAnchorLine) (i : ℕ)
    → Keyed lines
    → Map.get (upserts_of previous lines) i ≡ unlike (Map.get previous i) (Map.get lines i)
unfolding Map.get upserts_of
get-upserts_of previous [] i k = refl
get-upserts_of previous ((line, x) ∷ lines) i (g, k) =
    ground (arith, get-upserts_of previous lines i k, get-upserts_of previous lines line k)

upserts_of-Keyed :
    (previous lines : List PersistedAnchorLine) → Keyed lines → Keyed (upserts_of previous lines)
unfolding Map.get upserts_of
upserts_of-Keyed previous [] k = tt
upserts_of-Keyed previous ((line, x) ∷ lines) (g, k) =
    elim (Bool-cases (differs (Map.get previous line) x)) [
      | inl p ↦
          let free : Map.get (upserts_of previous lines) line ≡ none =
            ground (arith, get-upserts_of previous lines line k) in
          rw (p, upserts_of) (free, upserts_of-Keyed previous lines k)
      | inr p ↦ rw (p, upserts_of) (upserts_of-Keyed previous lines k)
    ]

-- A line has one row, and there are rows only for a file that has its own.
pub record IsWhole (rows : FileRows) : Type 0 where
  pub keyed : Keyed rows.line_rows
  pub filed : rows.file_row ≡ none → rows.line_rows ≡ []

-- What a read returns is what the rows hold afterwards.
record Reads (r : Option PersistedAnchorState × FileRows) : Type 0 where
  found : (i : ℕ) → Map.get (lines_of r.0) i ≡ Map.get r.1.line_rows i
  keyed : Keyed (lines_of r.0)
  rows_keyed : Keyed r.1.line_rows
  valid : AllValid r.1.line_rows

nothing-AllValid : AllValid []
unfolding Map.get
nothing-AllValid i x e = ground arith

get_state-Reads : (rows : FileRows) → IsWhole rows → Reads (get_state rows)
unfolding get_state
get_state-Reads rows w = elim (Option-cases rows.file_row) [
  | inl p ↦
      rw (p, get_state)
        (record {
          found = λ i. rw (w.filed p);
          keyed = tt;
          rows_keyed = w.keyed;
          valid = rw (w.filed p) nothing-AllValid;
        })
  | inr (file, p) ↦ elim (Bool-cases (all is_valid_row (sort line_le rows.line_rows))) [
    | inl v ↦
        rw (p, v, get_state)
          (record {
            found = λ i. get-sort rows.line_rows i w.keyed;
            keyed = sort-Keyed rows.line_rows w.keyed;
            rows_keyed = w.keyed;
            valid = λ i x e.
                AllValid-all (sort line_le rows.line_rows) v i x
                  (get-sort rows.line_rows i w.keyed ∙ e);
          })
    | inr v ↦
        rw (p, v, get_state)
          (record { found = λ i. refl; keyed = tt; rows_keyed = tt; valid = nothing-AllValid })
  ]
]

-- The store holds the state: reading it gives the state's checksum and line count, and for each line
-- the entry that the state has for it.
abbrev pub IsCommitted : SparseState → FileRows → Type 0
IsCommitted state stored =
    (lines : List PersistedAnchorLine) × (get_state stored ≡ (
      some (record { checksum = state.checksum; line_count = state.line_count; lines = lines }),
      stored,
    ))
    × ((i : ℕ) → Map.get lines i ≡ Map.get state.entries i)
    × Keyed lines

pub or_else-none : (x : Option AnchorEntry) → or_else x none ≡ x
or_else-none none = refl
or_else-none (some x) = refl

-- what a commit makes of a row and of the entry that is to be there
commit-eq :
    (was next : Option AnchorEntry)
    → or_else (unlike was next) (if is_some (unlike next was) then none else was) ≡ next
unfolding differs
commit-eq none none = refl
commit-eq none (some x) = refl
commit-eq (some y) none = refl
commit-eq (some y) (some x) =
    ground
      (arith, ===_sound y.anchor x.anchor, ===_sound x.anchor y.anchor, same_text_refl x.anchor)

module _ (rows : FileRows) (state : SparseState) (w : IsWhole rows) (k : Keyed state.entries) where
  -- A line's row after a commit is its entry in the state.
  get-persist_anchor_state :
      (i : ℕ) → Map.get (persist_anchor_state rows state).line_rows i ≡ Map.get state.entries i
  unfolding persist_anchor_state projection_of put_lines put_meta
  get-persist_anchor_state i =
      let r = get_state rows in
      let reads = get_state-Reads rows w in
      let next = sort line_le state.entries in
      let next_keyed = sort-Keyed state.entries k in
      let previous = upsert_lines [] (lines_of r.0) in
      let upserts = upserts_of previous next in
      let dropped = dropped_lines (upsert_lines [] next) previous in
      let kept = drop_rows state.checksum state.line_count r.1 dropped in
      let was : Map.get previous i ≡ Map.get r.1.line_rows i =
        get-upsert_lines [] (lines_of r.0) i reads.keyed
        ∙ or_else-none (Map.get (lines_of r.0) i)
        ∙ reads.found i in
      let to_be : Map.get (upsert_lines [] next) i ≡ Map.get next i =
        get-upsert_lines [] next i next_keyed ∙ or_else-none (Map.get next i) in
      let previous_keyed : Keyed previous = upsert_lines-Keyed [] (lines_of r.0) tt in
      rw
        (
          get-upsert_lines kept.line_rows upserts i (upserts_of-Keyed previous next next_keyed),
          get-upserts_of previous next i next_keyed,
          get-drop_rows state.checksum state.line_count r.1 dropped i,
          has-dropped_lines (upsert_lines [] next) previous i previous_keyed,
          to_be,
          was,
        )
        (commit-eq (Map.get r.1.line_rows i) (Map.get next i) ∙ get-sort state.entries i k)

  persist_anchor_state-Keyed : Keyed (persist_anchor_state rows state).line_rows
  unfolding persist_anchor_state put_lines put_meta
  persist_anchor_state-Keyed =
      let r = get_state rows in
      let next = (projection_of state).lines in
      let previous = upsert_lines [] (lines_of r.0) in
      let dropped = dropped_lines (upsert_lines [] next) previous in
      upsert_lines-Keyed (drop_rows state.checksum state.line_count r.1 dropped).line_rows
        (upserts_of previous next)
        (drop_rows-Keyed state.checksum state.line_count r.1 dropped
          (get_state-Reads rows w).rows_keyed)

  -- Whatever rows a file has, one for a line at most and none without its own row, a commit of a state
  -- leaves exactly that state in the store, when the state has one entry for a line and every entry
  -- is one that a read accepts: reading the rows gives the state's checksum and line count and, for each
  -- line, the state's entry or none.
  pub persist_anchor_state-IsCommitted :
      AllValid state.entries
      → IsCommitted state (persist_anchor_state rows state)
        × IsWhole (persist_anchor_state rows state)
  unfolding get_state persist_anchor_state put_meta projection_of
  persist_anchor_state-IsCommitted valid =
      let stored = persist_anchor_state rows state in
      let keyed = persist_anchor_state-Keyed in
      let sorted = sort line_le stored.line_rows in
      let found : (i : ℕ) → Map.get sorted i ≡ Map.get state.entries i =
        λ i. get-sort stored.line_rows i keyed ∙ get-persist_anchor_state i in
      let accepted : all is_valid_row sorted ≡ true =
        all-AllValid sorted (sort-Keyed stored.line_rows keyed)
          (λ i x e. valid i x (sym (found i) ∙ e)) in
      (
        rw (accepted, get_state) (sorted, refl, found, sort-Keyed stored.line_rows keyed),
        record { keyed = keyed; filed = λ e. absurd (cc e) },
      )
