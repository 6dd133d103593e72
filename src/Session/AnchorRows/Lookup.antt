-- ===== src/Session/AnchorRows/Lookup.antt =====
-- src/domain/session/hash-store.ts: looking up a line in rows that were sorted, upserted and deleted.
use mathlib.Core.Option.{some-injective}
use dsh_hashline_edittool.Base.{
  ℕ, ◌≡◌, refl, ◌∙◌, true, List, [], ◌∷◌, Option, none, some, arith, leb, if◌then◌else◌, all,
  Bool-cases, inl, inr, nat_eq, ◌===◌, ===_sound,
}
use dsh_hashline_edittool.Base.Map
use dsh_hashline_edittool.Base.Map.{Keyed, put-Keyed}
use dsh_hashline_edittool.Base.Sort.{insert, sort}
use dsh_hashline_edittool.Hashline.Alloc.Rows.{AnchorEntry}
use dsh_hashline_edittool.Session.AnchorRows.{
  PersistedAnchorLine, line_le, upsert_lines, is_valid_row,
}

module _ (line : ℕ) (entry : AnchorEntry) where
  get-insert :
      (rows : List PersistedAnchorLine) (i : ℕ)
      → Map.get rows line ≡ none
      → Map.get (insert line_le (line, entry) rows) i
        ≡ (if line === i then some entry else Map.get rows i)
  unfolding Map.get insert
  get-insert [] i h = refl
  get-insert ((j, w) ∷ rows) i h = ground (arith, get-insert rows i)

  insert-Keyed :
      (rows : List PersistedAnchorLine)
      → Map.get rows line ≡ none
      → Keyed rows
      → Keyed (insert line_le (line, entry) rows)
  unfolding Map.get insert
  insert-Keyed [] h k = (refl, tt)
  insert-Keyed ((j, w) ∷ rows) h (g, k) = elim (Bool-cases (leb line j)) [
    | inl p ↦ rw (p, insert) (h, (g, k))
    | inr p ↦
        let behind : Map.get rows line ≡ none = ground arith in
        let other : Map.get (insert line_le (line, entry) rows) j ≡ none =
          ground (arith, get-insert rows j behind) in
        rw (p, insert) (other, insert-Keyed rows behind k)
  ]

pub get-sort :
    (rows : List PersistedAnchorLine) (i : ℕ)
    → Keyed rows
    → Map.get (sort line_le rows) i ≡ Map.get rows i
unfolding Map.get sort
get-sort [] i k = refl
get-sort ((line, entry) ∷ rows) i (g, k) =
    get-insert line entry (sort line_le rows) i (get-sort rows line k ∙ g)
    ∙ rw (get-sort rows i k, Map.get)

pub sort-Keyed : (rows : List PersistedAnchorLine) → Keyed rows → Keyed (sort line_le rows)
unfolding sort
sort-Keyed [] k = tt
sort-Keyed ((line, entry) ∷ rows) (g, k) =
    insert-Keyed line entry (sort line_le rows) (get-sort rows line k ∙ g) (sort-Keyed rows k)

-- the entry of the first map, or else that of the second
abbrev pub or_else : Option AnchorEntry → Option AnchorEntry → Option AnchorEntry
or_else none y = y
or_else (some x) y = some x

pub get-upsert_lines :
    (rows lines : List PersistedAnchorLine) (i : ℕ)
    → Keyed lines
    → Map.get (upsert_lines rows lines) i ≡ or_else (Map.get lines i) (Map.get rows i)
unfolding Map.get upsert_lines
get-upsert_lines rows [] i k = refl
get-upsert_lines rows ((line, entry) ∷ lines) i (g, k) =
    ground
      (arith, get-upsert_lines (Map.put rows line entry) lines i k, Map.get-put rows line i entry)

pub upsert_lines-Keyed :
    (rows lines : List PersistedAnchorLine) → Keyed rows → Keyed (upsert_lines rows lines)
unfolding upsert_lines
upsert_lines-Keyed rows [] k = k
upsert_lines-Keyed rows ((line, entry) ∷ lines) k =
    upsert_lines-Keyed (Map.put rows line entry) lines (put-Keyed rows line entry k)

pub delete-Keyed :
    (rows : List PersistedAnchorLine) (line : ℕ) → Keyed rows → Keyed (Map.delete rows line)
unfolding Map.get Map.delete
delete-Keyed [] line k = tt
delete-Keyed ((j, w) ∷ rows) line (g, k) = elim (Bool-cases (j === line)) [
  | inl p ↦ rw (p, Map.delete) (delete-Keyed rows line k)
  | inr p ↦
      rw (p, Map.delete) (ground (arith, Map.get-delete rows line j), delete-Keyed rows line k)
]

-- Every entry that a lookup finds is valid.
abbrev pub AllValid : List PersistedAnchorLine → Type 0
AllValid rows = (i : ℕ) (x : AnchorEntry) → Map.get rows i ≡ some x → is_valid_row (i, x) ≡ true

pub all-AllValid :
    (rows : List PersistedAnchorLine) → Keyed rows → AllValid rows → all is_valid_row rows ≡ true
unfolding Map.get all
all-AllValid [] k v = refl
all-AllValid ((j, w) ∷ rows) (g, k) v =
    let rest : AllValid rows = λ i x e. v i x (ground arith) in
    let here : is_valid_row (j, w) ≡ true = v j w (ground arith) in
    rw (here, all) (all-AllValid rows k rest)

pub AllValid-all : (rows : List PersistedAnchorLine) → all is_valid_row rows ≡ true → AllValid rows
unfolding Map.get all
AllValid-all [] h i x e = ground arith
AllValid-all ((j, w) ∷ rows) h i x e =
    let rest : Map.get rows i ≡ some x → is_valid_row (i, x) ≡ true =
      AllValid-all rows (ground arith) i x in
    let found : (if j === i then some w else Map.get rows i) ≡ some x = e in
    let here : is_valid_row (j, w) ≡ true = ground arith in
    elim (Bool-cases (j === i)) [
      | inl p ↦ cc (some-injective w x (rw p at found), ===_sound j i p, here)
      | inr p ↦ rest (rw p at found)
    ]
