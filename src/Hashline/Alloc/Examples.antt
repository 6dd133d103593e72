-- ===== src/Hashline/Alloc/Examples.antt =====
-- src/hashline/alloc.ts on small files: the allocator's theorems at concrete inputs.
use dsh_hashline_edittool.Base.{
  ℕ, ◌+◌, ◌*◌, ◌≡◌, refl, List, [], ◌∷◌, none, some, arith, Text, codes, length, Distinct, All,
  text_eq, nat_eq,
}
use dsh_hashline_edittool.Base.Map
use dsh_hashline_edittool.Base.Sort.{sort}
use dsh_hashline_edittool.Infra.Lines.{split_lines}
use dsh_hashline_edittool.Hashline.Alloc.Hash.{content_key}
use dsh_hashline_edittool.Hashline.Alloc.Code.{encode_anchor-injective}
use dsh_hashline_edittool.Hashline.Alloc.Probe.{
  min_anchor_depth, max_anchor_depth, Allocated, allocate_anchor,
}
use dsh_hashline_edittool.Hashline.Alloc.Fresh.{IsMinted, allocate_anchor-IsMinted}
use dsh_hashline_edittool.Hashline.Alloc.Rows.{
  AnchorEntry, SparseState, assign_anchors, anchors_pure, avoid_of, allocate_into_rows,
}
use dsh_hashline_edittool.Hashline.Alloc.Rows.Assigned.{
  IsAnchor, assign_anchors-Distinct, anchors_pure-Distinct,
}
use dsh_hashline_edittool.Hashline.Alloc.Rows.Live.{Apart, Covered}
use dsh_hashline_edittool.Hashline.Alloc.Rows.Call.{
  live_anchors-Covered, allocate_into_rows-Apart, allocate_into_rows-get, allocate_into_rows-other,
  allocate_into_rows-kept,
}

abbrev xs : List Text
xs = codes "x" ∷ codes "x" ∷ []

duplicates : assign_anchors xs ≡ some (codes "yR" ∷ codes "yS" ∷ [])
unfolding assign_anchors
duplicates = refl

abbrev ent : Text → Text → AnchorEntry
ent a t = record { anchor = a; content_key = content_key t }

abbrev start_state : SparseState
start_state = record {
  checksum = codes "c";
  line_count = 3;
  entries = (2, ent (codes "aB") (codes "y")) ∷ [];
}

abbrev asked : List (ℕ × Text)
asked = (3, codes "x") ∷ (1, codes "x") ∷ (2, codes "y") ∷ []

abbrev end_state : SparseState
end_state = record {
  checksum = codes "c";
  line_count = 3;
  entries =
      (2, ent (codes "aB") (codes "y"))
      ∷ (1, ent (codes "yR") (codes "x"))
      ∷ (3, ent (codes "yS") (codes "x"))
      ∷ [];
}

abbrev got : List Text
got = codes "yR" ∷ codes "aB" ∷ codes "yS" ∷ []

served_call : allocate_into_rows start_state asked 3 none ≡ some (got, end_state)
unfolding allocate_into_rows
served_call = refl

start_state-Apart : Apart start_state.entries
unfolding Map.get
start_state-Apart i j x y p q ne = ground arith

start_state-Covered : Covered (avoid_of start_state none) start_state.entries
unfolding avoid_of
start_state-Covered = live_anchors-Covered start_state.entries

allocate_into_rows-Apart_example : Apart end_state.entries
allocate_into_rows-Apart_example =
    allocate_into_rows-Apart start_state asked 3 none {anchors = got} {state' = end_state}
      start_state-Covered start_state-Apart served_call

allocate_into_rows-get_example : Map.get end_state.entries 3 ≡ some (ent (codes "yS") (codes "x"))
unfolding sort Map.get
allocate_into_rows-get_example =
    allocate_into_rows-get start_state asked 3 none {anchors = got} {state' = end_state} 2 3
      (codes "yS") (codes "x") served_call refl refl (omega arith) (omega arith) refl

allocate_into_rows-other_example : Map.get end_state.entries 7 ≡ Map.get start_state.entries 7
unfolding Map.get
allocate_into_rows-other_example =
    allocate_into_rows-other start_state asked 3 none {anchors = got} {state' = end_state} 7
      served_call refl

allocate_into_rows-kept_example : Map.get end_state.entries 2 ≡ some (ent (codes "aB") (codes "y"))
unfolding Map.get
allocate_into_rows-kept_example =
    allocate_into_rows-kept start_state asked 3 none {anchors = got} {state' = end_state} 2
      (ent (codes "aB") (codes "y")) (codes "y") served_call refl refl refl

abbrev second : Allocated
second = record {
  anchor = codes "yS";
  stats = record { depth = 2; probes = 2 };
  cursor = some ((2, 2) ∷ []);
}

allocate_anchor-IsMinted_example :
    IsMinted (codes "yR" ∷ []) min_anchor_depth max_anchor_depth second
unfolding allocate_anchor
allocate_anchor-IsMinted_example =
    allocate_anchor-IsMinted (codes "yR" ∷ []) (codes "x") (some []) {a = second} refl

assign_anchors-Distinct_example :
    (length (codes "yR" ∷ codes "yS" ∷ []) ≡ length xs)
    × Distinct (codes "yR" ∷ codes "yS" ∷ [])
    × All IsAnchor (codes "yR" ∷ codes "yS" ∷ [])
assign_anchors-Distinct_example =
    assign_anchors-Distinct xs {anchors = codes "yR" ∷ codes "yS" ∷ []} duplicates

pure_duplicates : anchors_pure (codes "x\nx\n") ≡ some (codes "yR" ∷ codes "yS" ∷ [])
unfolding anchors_pure
pure_duplicates = refl

anchors_pure-Distinct_example :
    (length (codes "yR" ∷ codes "yS" ∷ []) ≡ length (split_lines (codes "x\nx\n")))
    × Distinct (codes "yR" ∷ codes "yS" ∷ [])
    × All IsAnchor (codes "yR" ∷ codes "yS" ∷ [])
anchors_pure-Distinct_example =
    anchors_pure-Distinct (codes "x\nx\n") {anchors = codes "yR" ∷ codes "yS" ∷ []} pure_duplicates

abbrev index : ℕ
index = 3 * 62 + 6

encode_anchor-injective_example : index ≡ 192
encode_anchor-injective_example =
    encode_anchor-injective 2 index 192 (omega arith) (omega arith) refl
