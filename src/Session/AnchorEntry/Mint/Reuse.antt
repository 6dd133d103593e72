-- ===== src/Session/AnchorEntry/Mint/Reuse.antt =====
-- src/domain/session/anchor-entry.ts, `anchorFor`: what the rounds of the first loop make of the lines.
use dsh_hashline_edittool.Base.{
  ℕ, ◌≤◌, ◌<◌, ◌≡◌, ◌≢◌, refl, sym, ap, ◌∙◌, subst, true, false, ◌||◌, List, [], ◌∷◌, map, Option,
  none, some, arith, ltb, ◌==◌, if◌then◌else◌, Text, nat_eq, text_eq, ◌===◌, All, Bool-cases,
  Option-cases, inl, inr, ◌⊎◌, has, ===_sound, ===_of_ne, ===_false,
}
use dsh_hashline_edittool.Base.Map
use dsh_hashline_edittool.Base.Map.{Keyed, put-Keyed}
use dsh_hashline_edittool.Hashline.Alloc.Hash.{content_key}
use dsh_hashline_edittool.Hashline.Alloc.Rows.{AnchorEntry, row_lines}
use dsh_hashline_edittool.Hashline.Alloc.Rows.Live.{Served, entry_of}
use dsh_hashline_edittool.Session.AnchorRows.{PersistedAnchorLine}
use dsh_hashline_edittool.Session.AnchorEntry.Mint.{
  Round, skipped, reused, missed, round_of, serve_round, keep_reused, misses_of, minted_by_line,
}
use dsh_hashline_edittool.Session.AnchorEntry.Mint.Rounds.{Ascending}

abbrev pub RoundCases : Round → Type 0
RoundCases r =
    (r ≡ skipped) ⊎ ((e : AnchorEntry) × (r ≡ reused e)) ⊎ ((text : Text) × (r ≡ missed text))

pub round_cases : (r : Round) → RoundCases r
round_cases skipped = inl refl
round_cases (reused e) = inr (inl (e, refl))
round_cases (missed text) = inr (inr (text, refl))

-- what a round looked at
pub serve_round-reused :
    (rows : List PersistedAnchorLine) (texts : List (ℕ × Text)) (line_count line : ℕ)
    (e : AnchorEntry)
    → serve_round rows texts line_count line ≡ reused e
    → (text : Text) × (Map.get texts line ≡ some text)
      × (Map.get rows line ≡ some e)
      × (e.content_key ≡ content_key text)
unfolding serve_round round_of
serve_round-reused rows texts line_count line e h =
    elim (Bool-cases (ltb line 1 || ltb line_count line)) [
      | inl p ↦ absurd (cc (rw (p, serve_round) at h))
      | inr p ↦ elim (Option-cases (Map.get texts line)) [
        | inl q ↦ absurd (cc (rw (p, q, serve_round) at h))
        | inr (text, q) ↦ elim (Option-cases (Map.get rows line)) [
          | inl r ↦ absurd (cc (rw (p, q, r, serve_round) at h))
          | inr (x, r) ↦ elim (Bool-cases (x.content_key == content_key text)) [
            | inr s ↦ absurd (cc (rw (p, q, r, s, serve_round) at h))
            | inl s ↦
                let same : x ≡ e = cc (rw (p, q, r, s, serve_round) at h) in
                (
                  text,
                  q,
                  r ∙ ap some same,
                  subst (λ y. y.content_key ≡ content_key text) same
                      (===_sound x.content_key (content_key text) s),
                )
          ]
        ]
      ]
    ]

pub serve_round-missed :
    (rows : List PersistedAnchorLine) (texts : List (ℕ × Text)) (line_count line : ℕ) (text : Text)
    → serve_round rows texts line_count line ≡ missed text
    → (Map.get texts line ≡ some text) × (1 ≤ line) × (line ≤ line_count)
unfolding serve_round round_of
serve_round-missed rows texts line_count line text h =
    elim (Bool-cases (ltb line 1 || ltb line_count line)) [
      | inl p ↦ absurd (cc (rw (p, serve_round) at h))
      | inr p ↦ elim (Option-cases (Map.get texts line)) [
        | inl q ↦ absurd (cc (rw (p, q, serve_round) at h))
        | inr (other, q) ↦
            let same : other ≡ text = elim (Option-cases (Map.get rows line)) [
              | inl r ↦ cc (rw (p, q, r, serve_round) at h)
              | inr (x, r) ↦ elim (Bool-cases (x.content_key == content_key other)) [
                | inr s ↦ cc (rw (p, q, r, s, serve_round) at h)
                | inl s ↦ absurd (cc (rw (p, q, r, s, serve_round) at h))
              ]
            ] in
            (q ∙ ap some same, ground arith, ground arith)
      ]
    ]

module _ (R : ℕ → Round) where
  -- the rounds of some lines
  abbrev pub rounds_of : List (ℕ × Text) → List (ℕ × Round)
  rounds_of rows = map (λ row. (row.0, R row.0)) rows

  pub misses_of-All {ℓ} :
      (Q : ℕ × Text → Type ℓ) (rows : List (ℕ × Text))
      → ((line : ℕ) (text : Text) → R line ≡ missed text → Q (line, text))
      → All Q (misses_of (rounds_of rows))
  unfolding misses_of
  misses_of-All Q [] q = tt
  misses_of-All Q ((line, text) ∷ rows) q = elim (round_cases (R line)) [
    | inl p ↦ rw (p, misses_of) (misses_of-All Q rows q)
    | inr (inl (e, p)) ↦ rw (p, misses_of) (misses_of-All Q rows q)
    | inr (inr (t, p)) ↦ rw (p, misses_of) (q line t p, misses_of-All Q rows q)
  ]

  misses_of-above :
      (low : ℕ) (rows : List (ℕ × Text))
      → All (λ row. low < row.0) rows
      → All (λ miss. low < miss.0) (misses_of (rounds_of rows))
  unfolding misses_of
  misses_of-above low [] h = tt
  misses_of-above low ((line, text) ∷ rows) (b, h) = elim (round_cases (R line)) [
    | inl p ↦ rw (p, misses_of) (misses_of-above low rows h)
    | inr (inl (e, p)) ↦ rw (p, misses_of) (misses_of-above low rows h)
    | inr (inr (t, p)) ↦ rw (p, misses_of) (b, misses_of-above low rows h)
  ]

  pub misses_of-Ascending :
      (rows : List (ℕ × Text)) → Ascending rows → Ascending (misses_of (rounds_of rows))
  unfolding misses_of
  misses_of-Ascending [] h = tt
  misses_of-Ascending ((line, text) ∷ rows) (above, h) = elim (round_cases (R line)) [
    | inl p ↦ rw (p, misses_of) (misses_of-Ascending rows h)
    | inr (inl (e, p)) ↦ rw (p, misses_of) (misses_of-Ascending rows h)
    | inr (inr (t, p)) ↦
        rw (p, misses_of) (misses_of-above line rows above, misses_of-Ascending rows h)
  ]

  -- a line that was reused is no miss
  pub misses_of-reused :
      (rows : List (ℕ × Text)) (i : ℕ) (e : AnchorEntry)
      → R i ≡ reused e
      → Map.get (misses_of (rounds_of rows)) i ≡ none
  unfolding misses_of Map.get
  misses_of-reused [] i e h = refl
  misses_of-reused ((line, text) ∷ rows) i e h = elim (round_cases (R line)) [
    | inl p ↦ rw (p, misses_of) (misses_of-reused rows i e h)
    | inr (inl (x, p)) ↦ rw (p, misses_of) (misses_of-reused rows i e h)
    | inr (inr (t, p)) ↦
        let other : (line === i) ≡ false = ===_of_ne line i λ same. absurd (cc (p, h, ap R same)) in
        rw (p, misses_of) (rw (other, Map.get) (misses_of-reused rows i e h))
  ]

  -- a miss is looked up with its text
  pub misses_of-missed :
      (rows : List (ℕ × Text)) (i : ℕ) (text : Text)
      → has i (row_lines rows) ≡ true
      → R i ≡ missed text
      → (Map.get (misses_of (rounds_of rows)) i ≡ some text)
        × (has i (row_lines (misses_of (rounds_of rows))) ≡ true)
  unfolding misses_of Map.get
  misses_of-missed [] i text m h = absurd (cc m)
  misses_of-missed ((line, other) ∷ rows) i text m h = elim (Bool-cases (i === line)) [
    | inl p ↦
        let same = ===_sound i line p in
        let here : R line ≡ missed text = ap R (sym same) ∙ h in
        rw (here, misses_of) (ground (arith, same), ground (arith, same))
    | inr p ↦
        let rest = misses_of-missed rows i text (ground arith) h in
        let apart : (line === i) ≡ false = ===_of_ne line i λ e. ===_false i line p (sym e) in
        elim (round_cases (R line)) [
          | inl q ↦ rw (q, misses_of) rest
          | inr (inl (e, q)) ↦ rw (q, misses_of) rest
          | inr (inr (t, q)) ↦ rw (q, misses_of) (rw (apart, Map.get) rest.0, rw p rest.1)
        ]
  ]

  -- the loop sets what the entries have already
  pub get-keep_reused :
      (entries : List (ℕ × AnchorEntry)) (rows : List (ℕ × Text)) (i : ℕ)
      → ((j : ℕ) (e : AnchorEntry) → R j ≡ reused e → Map.get entries j ≡ some e)
      → Map.get (keep_reused entries (rounds_of rows)) i ≡ Map.get entries i
  unfolding keep_reused
  get-keep_reused entries [] i h = refl
  get-keep_reused entries ((line, text) ∷ rows) i h = elim (round_cases (R line)) [
    | inl p ↦ rw (p, keep_reused) (get-keep_reused entries rows i h)
    | inr (inr (t, p)) ↦ rw (p, keep_reused) (get-keep_reused entries rows i h)
    | inr (inl (e, p)) ↦
        let same : (j : ℕ) → Map.get (Map.put entries line e) j ≡ Map.get entries j =
          λ j. ground (arith, Map.get-put entries line j e, h line e, ===_sound line j) in
        rw (p, keep_reused)
          (get-keep_reused (Map.put entries line e) rows i (λ j x r. same j ∙ h j x r) ∙ same i)
  ]

  pub keep_reused-Keyed :
      (entries : List (ℕ × AnchorEntry)) (rows : List (ℕ × Text))
      → Keyed entries
      → Keyed (keep_reused entries (rounds_of rows))
  unfolding keep_reused
  keep_reused-Keyed entries [] k = k
  keep_reused-Keyed entries ((line, text) ∷ rows) k = elim (round_cases (R line)) [
    | inl p ↦ rw (p, keep_reused) (keep_reused-Keyed entries rows k)
    | inr (inr (t, p)) ↦ rw (p, keep_reused) (keep_reused-Keyed entries rows k)
    | inr (inl (e, p)) ↦
        rw (p, keep_reused)
          (keep_reused-Keyed (Map.put entries line e) rows (put-Keyed entries line e k))
  ]

pub serve_round-served :
    (rows : List PersistedAnchorLine) (texts : List (ℕ × Text)) (line_count line : ℕ) (text : Text)
    → Map.get texts line ≡ some text
    → 1 ≤ line
    → line ≤ line_count
    → serve_round rows texts line_count line ≢ skipped
unfolding serve_round round_of
serve_round-served rows texts line_count line text at lo hi h =
    let inside : (ltb line 1 || ltb line_count line) ≡ false = ground arith in
    elim (Option-cases (Map.get rows line)) [
      | inl r ↦ absurd (cc (rw (inside, at, r, serve_round) at h))
      | inr (x, r) ↦ elim (Bool-cases (x.content_key == content_key text)) [
        | inl s ↦ absurd (cc (rw (inside, at, r, s, serve_round) at h))
        | inr s ↦ absurd (cc (rw (inside, at, r, s, serve_round) at h))
      ]
    ]

-- the anchor that a line has
abbrev pub anchor_in : List (ℕ × AnchorEntry) → ℕ → Text
anchor_in entries line = elim (Map.get entries line) [ none ↦ [] | some entry ↦ entry.anchor ]

module _ (asked : List (ℕ × Text)) (line_count : ℕ) (entries : List (ℕ × AnchorEntry)) where
  -- `mintedByLine` gives each missed line the anchor that the allocation gave it
  pub get-minted_by_line :
      (out : List (ℕ × Option Text)) (misses : List (ℕ × Text)) (fresh : List Text) (i : ℕ)
      → Served asked line_count (row_lines misses) fresh entries
      → All (λ m. (1 ≤ m.0) × (m.0 ≤ line_count) × (Map.get asked m.0 ≡ some m.1)) misses
      → ((line : ℕ) (x : AnchorEntry) → Map.get entries line ≡ some x → x.anchor ≢ [])
      → Map.get (minted_by_line out misses fresh) i
        ≡ (if has i (row_lines misses) then some (some (anchor_in entries i)) else Map.get out i)
  unfolding minted_by_line
  get-minted_by_line out [] fresh i s h n = refl
  get-minted_by_line out ((line, text) ∷ misses) [] i s h n = absurd s
  get-minted_by_line out ((line, text) ∷ misses) (anchor ∷ fresh) i (s, rest) ((lo, hi, at), h) n =
      let found = s lo hi text at in
      let filled : (anchor === []) ≡ false =
        ===_of_ne anchor [] (n line (entry_of anchor text) found) in
      let next = get-minted_by_line (Map.put out line (some anchor)) misses fresh i rest h n in
      let written = Map.get-put out line i (some anchor) in
      let named : anchor_in entries line ≡ anchor = rw (found, anchor_in) in
      rw (filled, minted_by_line)
        (next ∙ ground (arith, written, ===_sound line i, ===_sound i line, named))

  -- and the allocation put each missed line's entry in the state
  pub Served-All :
      (misses : List (ℕ × Text)) (fresh : List Text)
      → Served asked line_count (row_lines misses) fresh entries
      → All (λ m. (1 ≤ m.0) × (m.0 ≤ line_count) × (Map.get asked m.0 ≡ some m.1)) misses
      → All (λ m. Map.get entries m.0 ≡ some (entry_of (anchor_in entries m.0) m.1)) misses
  Served-All [] fresh s h = tt
  Served-All ((line, text) ∷ misses) [] s h = absurd s
  Served-All ((line, text) ∷ misses) (anchor ∷ fresh) (s, rest) ((lo, hi, at), h) =
      let found = s lo hi text at in
      let named : anchor ≡ anchor_in entries line = rw (found, anchor_in) in
      (found ∙ ap (λ a. some (entry_of a text)) named, Served-All misses fresh rest h)
