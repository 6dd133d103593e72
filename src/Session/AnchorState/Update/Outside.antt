-- ===== src/Session/AnchorState/Update/Outside.antt =====
-- src/domain/session/anchor-state.ts, `updateAnchorsAfterEdit`: lines that no hunk replaces.
use mathlib.Core.Option.{some-injective}
use dsh_hashline_edittool.Base.{
  ℕ, ◌+◌, ◌-◌, ◌≤◌, ◌<◌, ◌≡◌, ◌≢◌, refl, sym, ap, ◌∙◌, true, false, ◌&&◌, List, [], ◌∷◌, none, some,
  arith, ltb, leb, nat_eq, ◌===◌, has, Bool-cases, Option-cases, inl, inr, ===_sound, ===_of_ne,
  ===_false, ===_refl,
}
use dsh_hashline_edittool.Base.Map
use dsh_hashline_edittool.Base.Map.{Keyed}
use dsh_hashline_edittool.Edit.Batch.{EditHunk}
use dsh_hashline_edittool.Hashline.Alloc.Rows.{AnchorEntry}
use dsh_hashline_edittool.Session.AnchorState.Update.{
  new_position, Shift, shift_entry, shift_entries,
}

-- Hunks from a line on, one behind the other; an empty one ends in front of its start.
abbrev pub Disjoint : ℕ → List EditHunk → Type 0
Disjoint low [] = Unit
Disjoint low (h ∷ hunks) =
    (low ≤ h.old_start1) × (h.old_start1 ≤ h.old_end1 + 1) × Disjoint (h.old_end1 + 1) hunks

module _ (line added removed : ℕ) where
  -- a line above all hunks only moves by what was counted before
  pub new_position-above :
      (low : ℕ) (hunks : List EditHunk)
      → Disjoint low hunks
      → line < low
      → new_position line added removed hunks ≡ some (line + added - removed)
  unfolding new_position
  new_position-above low [] d h = refl
  new_position-above low (g ∷ hunks) (lo, wf, d) h =
      ground (arith, new_position-above (g.old_end1 + 1) hunks d)

-- a line from `low` on does not come to stand above what `low` comes to
pub new_position-le :
    (line added removed low : ℕ) (hunks : List EditHunk) (p : ℕ)
    → Disjoint low hunks
    → low ≤ line
    → removed ≤ low + added
    → new_position line added removed hunks ≡ some p
    → low + added - removed ≤ p
unfolding new_position
new_position-le line added removed low [] p d lo r e = ground (arith, some-injective _ p e)
new_position-le line added removed low (h ∷ hunks) p (start, wf, d) lo r e =
    elim (Bool-cases (leb h.old_start1 line && leb line h.old_end1)) [
      | inl inside ↦ absurd (cc (rw (inside, new_position) at e))
      | inr outside ↦ elim (Bool-cases (ltb h.old_end1 line)) [
        | inl behind ↦
            let rest =
              new_position-le line (added + (h.final_end1 + 1 - h.final_start1))
                (removed + (h.old_end1 + 1 - h.old_start1)) (h.old_end1 + 1) hunks p d
                (ground arith) (omega arith) (rw (outside, behind, new_position) at e) in
            omega arith
        | inr above ↦
            let stays =
              new_position-above line added removed (h.old_end1 + 1) hunks d (ground arith) in
            let at : line + added - removed ≡ p =
              some-injective _ p (sym stays ∙ rw (outside, above, new_position) at e) in
            omega arith
      ]
    ]

-- Two lines outside the hunks keep their order, and do not come together.
new_position-lt :
    (a b added removed low : ℕ) (hunks : List EditHunk) (p q : ℕ)
    → Disjoint low hunks
    → low ≤ a
    → a < b
    → removed ≤ low + added
    → new_position a added removed hunks ≡ some p
    → new_position b added removed hunks ≡ some q
    → p < q
unfolding new_position
new_position-lt a b added removed low [] p q d lo ab r ea eb =
    let ap' = some-injective _ p ea in let bq = some-injective _ q eb in omega arith
new_position-lt a b added removed low (h ∷ hunks) p q (start, wf, d) lo ab r ea eb =
    elim (Bool-cases (leb h.old_start1 a && leb a h.old_end1)) [
      | inl inside ↦ absurd (cc (rw (inside, new_position) at ea))
      | inr outside_a ↦ elim (Bool-cases (leb h.old_start1 b && leb b h.old_end1)) [
        | inl inside ↦ absurd (cc (rw (inside, new_position) at eb))
        | inr outside_b ↦ elim (Bool-cases (ltb h.old_end1 a)) [
          | inl behind ↦
              let b_behind : ltb h.old_end1 b ≡ true = ground arith in
              new_position-lt a b (added + (h.final_end1 + 1 - h.final_start1))
                (removed + (h.old_end1 + 1 - h.old_start1)) (h.old_end1 + 1) hunks p q d
                (ground arith) ab (omega arith) (rw (outside_a, behind, new_position) at ea)
                (rw (outside_b, b_behind, new_position) at eb)
          | inr above ↦
              let stays =
                new_position-above a added removed (h.old_end1 + 1) hunks d (ground arith) in
              let at : a + added - removed ≡ p =
                some-injective _ p (sym stays ∙ rw (outside_a, above, new_position) at ea) in
              elim (Bool-cases (ltb h.old_end1 b)) [
                | inl behind ↦
                    let rest =
                      new_position-le b (added + (h.final_end1 + 1 - h.final_start1))
                        (removed + (h.old_end1 + 1 - h.old_start1)) (h.old_end1 + 1) hunks q d
                        (ground arith) (omega arith) (rw (outside_b, behind, new_position) at eb) in
                    let a_above : a < h.old_start1 = ground arith in omega arith
                | inr also ↦
                    let stays_too =
                      new_position-above b added removed (h.old_end1 + 1) hunks d (ground arith) in
                    let at_too : b + added - removed ≡ q =
                      some-injective _ q
                        (sym stays_too ∙ rw (outside_b, also, new_position) at eb) in
                    omega arith
              ]
        ]
      ]
    ]

-- Two lines that come to one position are one.
pub new_position-injective :
    (a b : ℕ) (hunks : List EditHunk) (p : ℕ)
    → Disjoint 0 hunks
    → new_position a 0 0 hunks ≡ some p
    → new_position b 0 0 hunks ≡ some p
    → a ≡ b
new_position-injective a b hunks p d ea eb = elim (Bool-cases (ltb a b)) [
  | inl below ↦ absurd (
      omega (
        arith,
        new_position-lt a b 0 0 0 hunks p p d (omega arith) (ground arith) (omega arith) ea eb,
      ))
  | inr not_below ↦ elim (Bool-cases (ltb b a)) [
    | inl above ↦ absurd (
        omega (
          arith,
          new_position-lt b a 0 0 0 hunks p p d (omega arith) (ground arith) (omega arith) eb ea,
        ))
    | inr not_above ↦ ground arith
  ]
]

module _ (hunks : List EditHunk) (survivors : List ℕ) (disjoint : Disjoint 0 hunks) (line p : ℕ)
    (entry : AnchorEntry) (outside : new_position line 0 0 hunks ≡ some p) where
  -- the entry of another line does not take the position
  shift_entry-leaves :
      (shift : Shift) (j : ℕ) (x : AnchorEntry)
      → j ≢ line
      → Map.get shift.shifted p ≡ some entry
      → Map.get (shift_entry hunks survivors shift (j, x)).shifted p ≡ some entry
  unfolding shift_entry
  shift_entry-leaves shift j x ne at = elim (Option-cases (new_position j 0 0 hunks)) [
    | inl inside ↦ elim (Bool-cases (has j survivors)) [
      | inl kept ↦ rw (inside, kept, shift_entry) at
      | inr gone ↦ rw (inside, gone, shift_entry) at
    ]
    | inr (q, moved) ↦
        let apart : (q === p) ≡ false = ===_of_ne q p λ same.
          ne (new_position-injective j line hunks p disjoint (moved ∙ ap some same) outside) in
        rw (moved, shift_entry) (Map.get-put shift.shifted q p x ∙ rw apart at)
  ]

  shift_entry-put :
      (shift : Shift) (j : ℕ) (x : AnchorEntry)
      → new_position j 0 0 hunks ≡ some p
      → Map.get (shift_entry hunks survivors shift (j, x)).shifted p ≡ some x
  unfolding shift_entry
  shift_entry-put shift j x moved =
      rw (moved, shift_entry) (Map.get-put shift.shifted p p x ∙ rw (===_refl p))

  shift_entries-leaves :
      (shift : Shift) (entries : List (ℕ × AnchorEntry))
      → Map.get entries line ≡ none
      → Map.get shift.shifted p ≡ some entry
      → Map.get (shift_entries hunks survivors shift entries).shifted p ≡ some entry
  unfolding shift_entries Map.get
  shift_entries-leaves shift [] free at = at
  shift_entries-leaves shift ((j, x) ∷ entries) free at = elim (Bool-cases (j === line)) [
    | inl p ↦ absurd (cc (rw (p, Map.get) at free))
    | inr apart ↦
        shift_entries-leaves (shift_entry hunks survivors shift (j, x)) entries
          (rw (apart, Map.get) at free) (shift_entry-leaves shift j x (===_false j line apart) at)
  ]

  -- A line outside the hunks keeps its entry, and with it its anchor, at the position that it moves to, if
  -- the hunks are disjoint and in the order of their starts and a line has one entry, whatever has
  -- been shifted before.
  pub shift_entries-get :
      (shift : Shift) (entries : List (ℕ × AnchorEntry))
      → Keyed entries
      → Map.get entries line ≡ some entry
      → Map.get (shift_entries hunks survivors shift entries).shifted p ≡ some entry
  unfolding shift_entries Map.get
  shift_entries-get shift [] k at = absurd (cc at)
  shift_entries-get shift ((j, x) ∷ entries) (free, k) at = elim (Bool-cases (j === line)) [
    | inr apart ↦
        shift_entries-get (shift_entry hunks survivors shift (j, x)) entries k
          (rw (apart, Map.get) at at)
    | inl here ↦
        let line_same = ===_sound j line here in
        let entry_same : x ≡ entry = some-injective x entry (rw (here, Map.get) at at) in
        shift_entries-leaves (shift_entry hunks survivors shift (j, x)) entries
          (ap (Map.get entries) (sym line_same) ∙ free)
          (shift_entry-put shift j x (ap (λ l. new_position l 0 0 hunks) line_same ∙ outside)
            ∙ ap some entry_same)
  ]
