-- ===== src/Hashline/Alloc/Rows/Call.antt =====
-- src/hashline/alloc.ts: a whole call of `allocateIntoRows`.
use mathlib.Core.Option.{some-injective}
use dsh_hashline_edittool.Base.{
  subst, get_elem?, zero, ℕ, suc, ◌≤◌, ◌≡◌, false, List, [], ◌∷◌, Option, none, some, arith, ◌⊎◌,
  Text, has, text_eq, nat_eq, Ensures, returned, leb, Ensures-bind, Ensures-some, same_text_refl,
}
use dsh_hashline_edittool.Base.Map
use dsh_hashline_edittool.Base.Map.{Keyed}
use dsh_hashline_edittool.Base.Sort.{sort}
use dsh_hashline_edittool.Hashline.Alloc.Hash.{content_key}
use dsh_hashline_edittool.Hashline.Alloc.Rows.{
  AnchorEntry, SparseState, row_lines, live_anchors, avoid_of, allocate_into_rows,
}
use dsh_hashline_edittool.Hashline.Alloc.Rows.Assigned.{IsAnchor}
use dsh_hashline_edittool.Hashline.Alloc.Rows.Live.{Apart, Covered, Served, serve_rows-Serves}

-- The state's own anchors cover it.
pub live_anchors-Covered :
    (entries : List (ℕ × AnchorEntry)) → Covered (live_anchors entries) entries
unfolding Map.get
live_anchors-Covered [] i x e = ground arith
live_anchors-Covered ((j, y) ∷ entries) i x e =
    ground (arith, live_anchors-Covered entries i x, same_text_refl y.anchor)

module _ (state : SparseState) (rows : List (ℕ × Text)) (line_count : ℕ)
    (used : Option (List Text)) where
  -- What a call that returns did, in terms of the entries before and after it.
  pub record Called (r : List Text × SparseState) : Type 0 where
    pub apart :
        Covered (avoid_of state used) state.entries → Apart state.entries → Apart r.1.entries
    pub served : Served rows line_count (sort leb (row_lines rows)) r.0 r.1.entries
    pub kept :
        (i : ℕ) (x : AnchorEntry) (text : Text)
        → Map.get rows i ≡ some text
        → Map.get state.entries i ≡ some x
        → x.content_key ≡ content_key text
        → Map.get r.1.entries i ≡ some x
    pub other : (i : ℕ) → Map.get rows i ≡ none → Map.get r.1.entries i ≡ Map.get state.entries i
    pub origin :
        (i : ℕ) (x : AnchorEntry)
        → Map.get r.1.entries i ≡ some x
        → (Map.get state.entries i ≡ some x) ⊎ (has x.anchor (avoid_of state used) ≡ false)
    pub keyed : Keyed state.entries → Keyed r.1.entries
    pub formed :
        (i : ℕ) (x : AnchorEntry)
        → Map.get r.1.entries i ≡ some x
        → (Map.get state.entries i ≡ some x) ⊎ IsAnchor x.anchor

  pub allocate_into_rows-Called : Ensures Called (allocate_into_rows state rows line_count used)
  unfolding allocate_into_rows
  allocate_into_rows-Called =
      Ensures-bind
        (serve_rows-Serves rows line_count
          (record { avoid = avoid_of state used; cursors = []; entries = state.entries })
          (sort leb (row_lines rows)))
        λ r p. returned (record {
          apart = p.0.apart;
          served = p.1;
          kept = p.0.kept;
          other = p.0.other;
          origin = p.0.origin;
          formed = p.0.formed;
          keyed = p.0.keyed;
        })

-- No two lines of a file share an anchor: if that holds of the state and the call avoids every anchor
-- that the state has, it holds of the state that the call leaves, whatever lines were asked for.
pub allocate_into_rows-Apart :
    (state : SparseState) (rows : List (ℕ × Text)) (line_count : ℕ) (used : Option (List Text))
    {anchors : List Text} {state' : SparseState}
    → Covered (avoid_of state used) state.entries
    → Apart state.entries
    → allocate_into_rows state rows line_count used ≡ some (anchors, state')
    → Apart state'.entries
allocate_into_rows-Apart state rows line_count used c a e =
    (Ensures-some (allocate_into_rows-Called state rows line_count used) e).apart c a

Served-get :
    (rows : List (ℕ × Text)) (line_count : ℕ) (lines : List ℕ) (anchors : List Text)
    (entries : List (ℕ × AnchorEntry)) (k line : ℕ) (anchor text : Text)
    → Served rows line_count lines anchors entries
    → get_elem? lines k ≡ some line
    → get_elem? anchors k ≡ some anchor
    → 1 ≤ line
    → line ≤ line_count
    → Map.get rows line ≡ some text
    → Map.get entries line ≡ some (record { anchor = anchor; content_key = content_key text })
Served-get rows line_count [] anchors entries k line anchor text h el ea lo hi row =
    ground (arith, el)
Served-get rows line_count (l ∷ lines) [] entries k line anchor text h el ea lo hi row = absurd h
Served-get rows line_count (l ∷ lines) (a ∷ anchors) entries zero line anchor text h el ea lo hi
      row =
    subst (λ b. Map.get entries line ≡ some (record { anchor = b; content_key = content_key text }))
      (some-injective a anchor ea)
      (subst
        (λ n.
          1 ≤ n
          → n ≤ line_count
          → (t : Text) → Map.get rows n ≡ some t
          → Map.get entries n ≡ some (record { anchor = a; content_key = content_key t }))
        (some-injective l line el) h.0 lo hi text row)
Served-get rows line_count (l ∷ lines) (a ∷ anchors) entries (suc k) line anchor text h el ea lo hi
      row =
    Served-get rows line_count lines anchors entries k line anchor text h.1 el ea lo hi row

-- The anchor that comes back at a place is for the line at that place of the asked lines in their
-- order. When that line is one of the file, the state holds it afterwards for that line, with the
-- key of the line's present content.
pub allocate_into_rows-get :
    (state : SparseState) (rows : List (ℕ × Text)) (line_count : ℕ) (used : Option (List Text))
    {anchors : List Text} {state' : SparseState} (k line : ℕ) (anchor text : Text)
    → allocate_into_rows state rows line_count used ≡ some (anchors, state')
    → get_elem? (sort leb (row_lines rows)) k ≡ some line
    → get_elem? anchors k ≡ some anchor
    → 1 ≤ line
    → line ≤ line_count
    → Map.get rows line ≡ some text
    → Map.get state'.entries line
      ≡ some (record { anchor = anchor; content_key = content_key text })
allocate_into_rows-get state rows line_count used k line anchor text e =
    Served-get rows line_count _ _ _ k line anchor text
      (Ensures-some (allocate_into_rows-Called state rows line_count used) e).served

-- A call leaves the entry of a line that it was not asked for.
pub allocate_into_rows-other :
    (state : SparseState) (rows : List (ℕ × Text)) (line_count : ℕ) (used : Option (List Text))
    {anchors : List Text} {state' : SparseState} (i : ℕ)
    → allocate_into_rows state rows line_count used ≡ some (anchors, state')
    → Map.get rows i ≡ none
    → Map.get state'.entries i ≡ Map.get state.entries i
allocate_into_rows-other state rows line_count used i e =
    (Ensures-some (allocate_into_rows-Called state rows line_count used) e).other i

-- An asked line keeps its entry, and with it its anchor, when its present content has the key that
-- the anchor was minted for.
pub allocate_into_rows-kept :
    (state : SparseState) (rows : List (ℕ × Text)) (line_count : ℕ) (used : Option (List Text))
    {anchors : List Text} {state' : SparseState} (i : ℕ) (x : AnchorEntry) (text : Text)
    → allocate_into_rows state rows line_count used ≡ some (anchors, state')
    → Map.get rows i ≡ some text
    → Map.get state.entries i ≡ some x
    → x.content_key ≡ content_key text
    → Map.get state'.entries i ≡ some x
allocate_into_rows-kept state rows line_count used i x text e =
    (Ensures-some (allocate_into_rows-Called state rows line_count used) e).kept i x text
