-- ===== src/Session/AnchorEntry/Mint/Shown.antt =====
-- src/domain/session/anchor-entry.ts, `anchorFor`: what a call adds to the session's served mirror.
use mathlib.Core.Option.{some-injective}
use dsh_hashline_edittool.Base.{
  subst, ℕ, ◌≡◌, ◌≢◌, refl, sym, ap, ◌∙◌, Bool, true, false, List, [], ◌∷◌, map, Option, none, some,
  if◌then◌else◌, Text, nat_eq, text_eq, ◌===◌, All, Bool-cases, inl, inr, has, ===_sound, ===_of_ne,
  ===_false, ===_refl,
}
use dsh_hashline_edittool.Base.Map
use dsh_hashline_edittool.Base.Map.{Keyed, put-Keyed}
use dsh_hashline_edittool.Hashline.Alloc.Rows.{AnchorEntry, row_lines}
use dsh_hashline_edittool.Hashline.Alloc.Rows.Live.{Apart, entry_of}
use dsh_hashline_edittool.Session.ServedCodec.{Served}
use dsh_hashline_edittool.Session.AnchorEntry.{fingerprint}
use dsh_hashline_edittool.Session.AnchorEntry.Mint.{served_entries, extend_served}
use dsh_hashline_edittool.Session.AnchorEntry.Mint.Reuse.{anchor_in}

-- A line holds its anchor for this text.
abbrev pub Holds : List (ℕ × AnchorEntry) → ℕ × Text → Type 0
Holds entries row =
    (Map.get entries row.0 ≡ some (entry_of (anchor_in entries row.0) row.1))
    × (anchor_in entries row.0 ≢ [])

-- each line with its anchor
abbrev pub served_lines : List (ℕ × AnchorEntry) → List (ℕ × Text) → List (ℕ × Text)
served_lines entries rows = map (λ row. (row.0, anchor_in entries row.0)) rows

either_way {ℓ} : {A : Type ℓ} {x : A} (b : Bool) → (if b then x else x) ≡ x
either_way true = refl
either_way false = refl

module _ (content_checksum : Text → Text) (texts : List (ℕ × Text))
    (entries : List (ℕ × AnchorEntry)) (apart : Apart entries) where
  pub get-served_entries :
      (out : Served) (rows : List (ℕ × Text)) (i : ℕ) (text : Text)
      → All (λ row. (Map.get texts row.0 ≡ some row.1) × Holds entries row) rows
      → Holds entries (i, text)
      → Map.get texts i ≡ some text
      → Map.get
          (served_entries content_checksum texts out (served_lines entries rows))
          (anchor_in entries i)
        ≡ (if has i (row_lines rows)
            then some (fingerprint content_checksum text)
            else Map.get out (anchor_in entries i))
  unfolding served_entries
  get-served_entries out [] i text h held at = refl
  get-served_entries out ((line, t) ∷ rows) i text ((known, (entry, filled)), h) held at =
      let named : (anchor_in entries line === []) ≡ false =
        ===_of_ne (anchor_in entries line) [] filled in
      let key = fingerprint content_checksum t in
      let next =
        get-served_entries (Map.put out (anchor_in entries line) key) rows i text h held at in
      let written = Map.get-put out (anchor_in entries line) (anchor_in entries i) key in
      elim (Bool-cases (i === line)) [
        | inl p ↦
            let same = ===_sound i line p in
            let text_same : t ≡ text =
              some-injective t text (sym known ∙ ap (Map.get texts) (sym same) ∙ at) in
            let equal : (anchor_in entries line === anchor_in entries i) ≡ true =
              subst (λ l. (anchor_in entries l === anchor_in entries i) ≡ true) same
                (===_refl (anchor_in entries i)) in
            let wrote : Map.get (Map.put out (anchor_in entries line) key) (anchor_in entries i)
                ≡ some (fingerprint content_checksum text) =
              written ∙ rw equal (ap (λ s. some (fingerprint content_checksum s)) text_same) in
            rw (named, known, served_entries)
              (next ∙ rw (p, wrote) (either_way (has i (row_lines rows))))
        | inr p ↦
            let other : (anchor_in entries line === anchor_in entries i) ≡ false =
              ===_of_ne (anchor_in entries line) (anchor_in entries i)
                (apart line i _ _ entry held.0 λ e. ===_false i line p (sym e)) in
            rw (named, known, served_entries) (next ∙ rw (p, written, other))
      ]

  pub served_entries-Keyed :
      (out : Served) (rows : List (ℕ × Text))
      → All (λ row. (Map.get texts row.0 ≡ some row.1) × Holds entries row) rows
      → Keyed out
      → Keyed (served_entries content_checksum texts out (served_lines entries rows))
  unfolding served_entries
  served_entries-Keyed out [] h k = k
  served_entries-Keyed out ((line, t) ∷ rows) ((known, (entry, filled)), h) k =
      let named : (anchor_in entries line === []) ≡ false =
        ===_of_ne (anchor_in entries line) [] filled in
      rw (named, known, served_entries)
        (served_entries-Keyed
          (Map.put out (anchor_in entries line) (fingerprint content_checksum t)) rows h
          (put-Keyed out (anchor_in entries line) (fingerprint content_checksum t) k))

-- the fingerprint of the first mirror, or else that of the second
abbrev or_else : Option Text → Option Text → Option Text
or_else none y = y
or_else (some x) y = some x

-- the mirror after the loop
pub get-extend_served :
    (served shown : Served) (anchor : Text)
    → Keyed shown
    → Map.get (extend_served served shown) anchor
      ≡ or_else (Map.get shown anchor) (Map.get served anchor)
unfolding Map.get extend_served
get-extend_served served [] anchor k = refl
get-extend_served served ((a, key) ∷ shown) anchor (g, k) =
    let next = get-extend_served (Map.put served a key) shown anchor k in
    let written = Map.get-put served a anchor key in
    elim (Bool-cases (a === anchor)) [
      | inl p ↦
          let other : Map.get shown anchor ≡ none =
            ap (Map.get shown) (sym (===_sound a anchor p)) ∙ g in
          rw p (next ∙ rw (other, written, p))
      | inr p ↦ rw p (next ∙ rw (written, p))
    ]
