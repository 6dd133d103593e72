-- ===== src/Hashline/Alloc/Rows/Live.antt =====
-- src/hashline/alloc.ts, `allocateIntoRows`: what a call changes in a file's sparse state.
use mathlib.Core.Option.{some-injective}
use dsh_hashline_edittool.Base.{
  sym, subst, ℕ, ◌≤◌, ◌≡◌, ◌≢◌, refl, ◌∙◌, true, false, List, [], ◌∷◌, Option, none, some, arith,
  ◌⊎◌, inl, inr, Text, has, text_eq, nat_eq, ◌===◌, Ensures, thrown, returned, ltb, ◌||◌,
  if◌then◌else◌, Ensures-map, Ensures-bind, Option-cases, Bool-cases, same_text_refl,
}
use dsh_hashline_edittool.Base.Map
use dsh_hashline_edittool.Base.Map.{Keyed, put-Keyed}
use dsh_hashline_edittool.Hashline.Alloc.Hash.{content_key}
use dsh_hashline_edittool.Hashline.Alloc.Rows.{
  AnchorEntry, Working, reusable, serve_line, serve_row, serve_rows,
}
use dsh_hashline_edittool.Hashline.Alloc.Rows.Assigned.{IsAnchor, mint-Ensures}

-- Different lines have different anchors.
abbrev pub Apart : List (ℕ × AnchorEntry) → Type 0
Apart entries =
    (i j : ℕ) (x y : AnchorEntry)
    → Map.get entries i ≡ some x
    → Map.get entries j ≡ some y
    → i ≢ j
    → x.anchor ≢ y.anchor

-- Every anchor of the file is avoided.
abbrev pub Covered : List Text → List (ℕ × AnchorEntry) → Type 0
Covered avoid entries =
    (i : ℕ) (x : AnchorEntry) → Map.get entries i ≡ some x → has x.anchor avoid ≡ true

-- What serving lines of `rows` may do to the working state.
pub record Grows (rows : List (ℕ × Text)) (w w' : Working) : Type 0 where
  pub apart : Covered w.avoid w.entries → Apart w.entries → Apart w'.entries
  pub covered : Covered w.avoid w.entries → Covered w'.avoid w'.entries
  pub kept :
      (i : ℕ) (x : AnchorEntry) (text : Text)
      → Map.get rows i ≡ some text
      → Map.get w.entries i ≡ some x
      → x.content_key ≡ content_key text
      → Map.get w'.entries i ≡ some x
  pub other : (i : ℕ) → Map.get rows i ≡ none → Map.get w'.entries i ≡ Map.get w.entries i
  pub origin :
      (i : ℕ) (x : AnchorEntry)
      → Map.get w'.entries i ≡ some x
      → (Map.get w.entries i ≡ some x) ⊎ (has x.anchor w.avoid ≡ false)
  pub formed :
      (i : ℕ) (x : AnchorEntry)
      → Map.get w'.entries i ≡ some x
      → (Map.get w.entries i ≡ some x) ⊎ IsAnchor x.anchor
  pub keyed : Keyed w.entries → Keyed w'.entries
  pub avoids : (t : Text) → has t w.avoid ≡ true → has t w'.avoid ≡ true

Grows-refl : (rows : List (ℕ × Text)) (w : Working) → Grows rows w w
Grows-refl rows w = record {
  apart = λ c a. a;
  covered = λ c. c;
  kept = λ i x text r e k. e;
  other = λ i r. refl;
  origin = λ i x e. inl e;
  formed = λ i x e. inl e;
  keyed = λ k. k;
  avoids = λ t h. h;
}

Grows-trans :
    (rows : List (ℕ × Text)) (u v w : Working) → Grows rows u v → Grows rows v w → Grows rows u w
Grows-trans rows u v w g h = record {
  apart = λ c a. h.apart (g.covered c) (g.apart c a);
  covered = λ c. h.covered (g.covered c);
  kept = λ i x text r e k. h.kept i x text r (g.kept i x text r e k) k;
  other = λ i r. h.other i r ∙ g.other i r;
  origin = λ i x e. elim (h.origin i x e) [
    | inl before ↦ g.origin i x before
    | inr new ↦ elim (Bool-cases (has x.anchor u.avoid)) [
      | inl old ↦ absurd (cc (g.avoids x.anchor old, new))
      | inr free ↦ inr free
    ]
  ];
  formed = λ i x e. elim (h.formed i x e) [ inl before ↦ g.formed i x before | inr new ↦ inr new ];
  keyed = λ k. h.keyed (g.keyed k);
  avoids = λ t e. h.avoids t (g.avoids t e);
}

-- The entry that a served line has afterwards.
abbrev pub entry_of : Text → Text → AnchorEntry
entry_of anchor text = record { anchor = anchor; content_key = content_key text }

reusable-eq-some :
    (o : Option AnchorEntry) (key : ℕ) (anchor : Text)
    → reusable o key ≡ some anchor
    → o ≡ some (record { anchor = anchor; content_key = key })
unfolding reusable
reusable-eq-some none key anchor e = ground arith
reusable-eq-some (some x) key anchor e = ground arith

reusable-eq-none :
    (o : Option AnchorEntry) (key : ℕ) (x : AnchorEntry)
    → reusable o key ≡ none
    → o ≡ some x
    → x.content_key ≢ key
unfolding reusable
reusable-eq-none none key x e f = ground arith
reusable-eq-none (some y) key x e f = ground arith

module _ (rows : List (ℕ × Text)) (w : Working) (line : ℕ) (text anchor : Text) where
  -- the working state after a mint, whatever the cursors
  abbrev minted : List (ℕ × List (ℕ × ℕ)) → Working
  minted cursors = record {
    avoid = anchor ∷ w.avoid;
    cursors = cursors;
    entries = Map.put w.entries line (entry_of anchor text);
  }

  after :
      (j : ℕ)
      → Map.get (Map.put w.entries line (entry_of anchor text)) j
        ≡ (if line === j then some (entry_of anchor text) else Map.get w.entries j)
  after j = Map.get-put w.entries line j (entry_of anchor text)

  minted-Apart :
      has anchor w.avoid ≡ false
      → Covered w.avoid w.entries
      → Apart w.entries
      → Apart (Map.put w.entries line (entry_of anchor text))
  minted-Apart free c a i j x y ei ej ne p =
      ground (arith, after i, after j, c i x, c j y, a i j x y)

  minted-Grows :
      (cursors : List (ℕ × List (ℕ × ℕ)))
      → Map.get rows line ≡ some text
      → reusable (Map.get w.entries line) (content_key text) ≡ none
      → has anchor w.avoid ≡ false
      → IsAnchor anchor
      → Grows rows w (minted cursors)
  minted-Grows cursors row stale free form = record {
    apart = minted-Apart free;
    covered = λ c i x e. ground (arith, after i, c i x, same_text_refl anchor);
    kept = λ i x text' r e k.
        ground
          (arith, after i, reusable-eq-none (Map.get w.entries line) (content_key text) x stale);
    other = λ i r. ground (arith, after i);
    origin = λ i x e. ground (arith, after i);
    formed = λ i x e.
        let found = after i in
        elim (Bool-cases (line === i)) [
          | inr p ↦ inl (sym (rw p at found) ∙ e)
          | inl p ↦
              let same : entry_of anchor text ≡ x = some-injective _ x (sym (rw p at found) ∙ e) in
              inr (subst (λ y. IsAnchor y.anchor) same form)
        ];
    keyed = put-Keyed w.entries line (entry_of anchor text);
    avoids = λ t h. ground arith;
  }

-- What a served line has afterwards.
record Serves (rows : List (ℕ × Text)) (w : Working) (line : ℕ) (text : Text) (r : Text × Working)
    : Type 0 where
  grows : Grows rows w r.1
  entry : Map.get r.1.entries line ≡ some (entry_of r.0 text)

module _ (rows : List (ℕ × Text)) (w : Working) where
  serve_line-Serves :
      (line : ℕ) (text : Text)
      → Map.get rows line ≡ some text
      → Ensures (Serves rows w line text) (serve_line w line text)
  unfolding serve_line
  serve_line-Serves line text row =
      elim (Option-cases (reusable (Map.get w.entries line) (content_key text))) [
        | inl stale ↦
            rw (stale, serve_line)
              (Ensures-bind (mint-Ensures w.avoid w.cursors text) λ r m. returned (record {
                grows = minted-Grows rows w line text r.0 r.1 row stale m.0 m.1;
                entry = ground (arith, after rows w line text r.0 line);
              }))
        | inr (anchor, known) ↦
            rw (known, serve_line)
              (returned (record {
                grows = Grows-refl rows w;
                entry = reusable-eq-some (Map.get w.entries line) (content_key text) anchor known;
              }))
      ]

  abbrev ServesRow : ℕ → ℕ → Text × Working → Type 0
  ServesRow line_count line r =
      Grows rows w r.1
      × (1 ≤ line
          → line ≤ line_count
          → (text : Text) → Map.get rows line ≡ some text
          → Map.get r.1.entries line ≡ some (entry_of r.0 text))

  serve_row-Serves :
      (line_count line : ℕ) → Ensures (ServesRow line_count line) (serve_row rows line_count w line)
  unfolding serve_row
  serve_row-Serves line_count line = elim (Bool-cases (ltb line 1 || ltb line_count line)) [
    | inl out ↦ rw (out, serve_row) (returned (Grows-refl rows w, λ lo hi. absurd (ground arith)))
    | inr inside ↦ elim (Option-cases (Map.get rows line)) [
      | inl missing ↦ rw (inside, missing, serve_row) thrown
      | inr (text, row) ↦
          rw (inside, row, serve_row)
            (Ensures-map (serve_line-Serves line text row)
              λ r s. (s.grows, λ lo hi text' row'. ground (arith, s.entry)))
    ]
  ]

module _ (rows : List (ℕ × Text)) (line_count : ℕ) where
  -- Each anchor that a call returns is the one that its line has, for the line's present content.
  abbrev pub Served : List ℕ → List Text → List (ℕ × AnchorEntry) → Type 0
  Served [] anchors entries = Unit
  Served (line ∷ lines) [] entries = ⊥
  Served (line ∷ lines) (anchor ∷ anchors) entries =
      (1 ≤ line
        → line ≤ line_count
        → (text : Text) → Map.get rows line ≡ some text
        → Map.get entries line ≡ some (entry_of anchor text))
      × Served lines anchors entries

  abbrev pub ServesRows : Working → List ℕ → List Text × Working → Type 0
  ServesRows w lines r = Grows rows w r.1 × Served lines r.0 r.1.entries

  pub serve_rows-Serves :
      (w : Working) (lines : List ℕ)
      → Ensures (ServesRows w lines) (serve_rows rows line_count w lines)
  unfolding serve_rows
  serve_rows-Serves w [] = returned (Grows-refl rows w, tt)
  serve_rows-Serves w (line ∷ lines) = Ensures-bind (serve_row-Serves rows w line_count line) λ r p.
      Ensures-bind (serve_rows-Serves r.1 lines) λ r' q. returned (
        Grows-trans rows w r.1 r'.1 p.0 q.0,
        (
          λ lo hi text row. q.0.kept line (entry_of r.0 text) text row (p.1 lo hi text row) refl,
          q.1,
        ),
      )
