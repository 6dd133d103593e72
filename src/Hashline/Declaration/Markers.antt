-- ===== src/Hashline/Declaration/Markers.antt =====
-- src/hashline/declaration.ts: a declared text that is a copied row, with the marker in front of its line.
use dsh_hashline_edittool.Base.{
  ℕ, ◌≤◌, ◌≡◌, ◌≢◌, refl, ap, sym, ◌∙◌, Bool, true, false, ◌&&◌, [], ◌∷◌, ◌++◌, ◌⊎◌, append_assoc,
  Option, none, some, arith, leb, if◌then◌else◌, length, Text, subst, All, is_digit, is_base62,
  Bool-cases, inl, inr, text_eq, ◌===◌, ===_refl, ===_of_ne, ===_false,
}
use dsh_hashline_edittool.Base.Space.{is_space, trim_end}
use dsh_hashline_edittool.Base.Decimal.{show, show-Digits, show-ne-nil}
use dsh_hashline_edittool.Hashline.Declaration.{
  skip_blanks, run, behind_run, behind_colon, strip_line, behind_bar, strip_anchor, strip_marker,
  declared_line_matches,
}

abbrev pub Base62 : Text → Type 0
Base62 = All (λ c. is_base62 c ≡ true)

-- A row as it may be copied: the line number and a colon, if it has them, the anchor, a bar, a space
-- and the line.
abbrev pub row : Option ℕ → Text → Text → Text
row none anchor line = anchor ++ b'|' ∷ b' ' ∷ line
row (some number) anchor line = show number ++ b':' ∷ anchor ++ b'|' ∷ b' ' ∷ line

Text-cases : (t : Text) → (t ≡ []) ⊎ ((c : ℕ) × (rest : Text) × (t ≡ c ∷ rest))
Text-cases [] = inl refl
Text-cases (c ∷ t) = inr (c, t, refl)

trim_end-append :
    (front text : Text) → trim_end text ≢ [] → trim_end (front ++ text) ≡ front ++ trim_end text
unfolding trim_end
trim_end-append [] text h = refl
trim_end-append (c ∷ front) text h =
    rw (trim_end-append front text h)
      (keeps (front ++ trim_end text) (append_ne front (trim_end text) h))
  where
    append_ne : (s t : Text) → t ≢ [] → s ++ t ≢ []
    append_ne [] t n e = n e
    append_ne (d ∷ s) t n e = cc

    keeps :
        (t : Text)
        → t ≢ []
        → (elim t [ [] ↦ if is_space c then [] else c ∷ [] | d ∷ rest ↦ c ∷ d ∷ rest ]) ≡ c ∷ t
    keeps [] n = absurd (n refl)
    keeps (d ∷ t) n = refl

trim_end_idem : (text : Text) → trim_end (trim_end text) ≡ trim_end text
unfolding trim_end
trim_end_idem [] = refl
trim_end_idem (c ∷ text) = again (trim_end text) (trim_end_idem text)
  where
    again :
        (t : Text)
        → trim_end t ≡ t
        → trim_end (elim t [ [] ↦ if is_space c then [] else c ∷ [] | d ∷ rest ↦ c ∷ d ∷ rest ])
          ≡ (elim t [ [] ↦ if is_space c then [] else c ∷ [] | d ∷ rest ↦ c ∷ d ∷ rest ])
    again [] e = ground arith
    again (d ∷ t) e = rw e

-- the bar in front of a trimmed line
abbrev barred : Text → Text
barred [] = b'|' ∷ []
barred (c ∷ text) = b'|' ∷ b' ' ∷ c ∷ text

trim_end-barred : (line : Text) → trim_end (b'|' ∷ b' ' ∷ line) ≡ barred (trim_end line)
unfolding trim_end
trim_end-barred line = elim (Text-cases (trim_end line)) [ inl e ↦ rw e | inr (c, rest, e) ↦ rw e ]

behind_bar-barred : (t : Text) → behind_bar (barred t) ≡ some t
behind_bar-barred [] = refl
behind_bar-barred (c ∷ t) = refl

run-append :
    (p : ℕ → Bool) (s : Text) (c : ℕ) (t : Text)
    → All (λ d. p d ≡ true) s
    → p c ≡ false
    → (run p (s ++ c ∷ t) ≡ s) × (behind_run p (s ++ c ∷ t) ≡ c ∷ t)
unfolding run behind_run
run-append p [] c t h n = (rw n, rw n)
run-append p (d ∷ s) c t (q, h) n =
    let (front, back) = run-append p s c t h n in (rw q (ap (λ u. d ∷ u) front), rw q back)

barred-cons : (t : Text) → (rest : Text) × (barred t ≡ b'|' ∷ rest)
barred-cons [] = ([], refl)
barred-cons (c ∷ t) = (b' ' ∷ c ∷ t, refl)

-- the first character of a marker is no blank
skip_blanks-marker : (c : ℕ) (text : Text) → is_base62 c ≡ true → skip_blanks (c ∷ text) ≡ c ∷ text
unfolding skip_blanks
skip_blanks-marker c text h = ground arith

-- no colon stands behind the digits at the start of an anchor
digits-anchor :
    (anchor rest : Text)
    → Base62 anchor
    → behind_colon (behind_run is_digit (anchor ++ b'|' ∷ rest)) ≡ none
unfolding behind_run
digits-anchor [] rest h = refl
digits-anchor (c ∷ anchor) rest (p, h) = elim (Bool-cases (is_digit c)) [
  | inl digit ↦ rw digit (digits-anchor anchor rest h)
  | inr other ↦ rw other (ground arith)
]

strip_anchor-row :
    (anchor t : Text)
    → Base62 anchor
    → 2 ≤ length anchor
    → length anchor ≤ 4
    → strip_anchor (anchor ++ barred t) ≡ some t
unfolding strip_anchor
strip_anchor-row anchor t h low high =
    let (rest, e) = barred-cons t in
    let (front, back) = run-append is_base62 anchor b'|' rest h refl in
    let size : (leb 2 (length anchor) && leb (length anchor) 4) ≡ true = ground arith in
    ap (λ u. strip_anchor (anchor ++ u)) e
    ∙ rw (front, back, size) (ap behind_bar (sym e) ∙ behind_bar-barred t)

strip_line-row :
    (anchor t : Text) → Base62 anchor → strip_line (anchor ++ barred t) ≡ anchor ++ barred t
unfolding strip_line
strip_line-row anchor t h =
    let (rest, e) = barred-cons t in
    ap (λ u. strip_line (anchor ++ u)) e
    ∙ rw (digits-anchor anchor rest h, strip_line) (ap (λ u. anchor ++ u) (sym e))

at_least_one : (t : Text) → t ≢ [] → leb 1 (length t) ≡ true
at_least_one [] n = absurd (n refl)
at_least_one (c ∷ t) n = ground arith

strip_line-numbered : (number : ℕ) (text : Text) → strip_line (show number ++ b':' ∷ text) ≡ text
unfolding strip_line
strip_line-numbered number text =
    let (front, back) = run-append is_digit (show number) b':' text (show-Digits number) refl in
    let some_digit : leb 1 (length (show number)) ≡ true =
      at_least_one (show number) (show-ne-nil number) in
    rw (back, front, some_digit, strip_line)

-- the text in front of the bar
abbrev front_of : Option ℕ → Text → Text
front_of none anchor = anchor
front_of (some number) anchor = show number ++ b':' ∷ anchor

row-front_of :
    (number : Option ℕ) (anchor line : Text)
    → row number anchor line ≡ front_of number anchor ++ b'|' ∷ b' ' ∷ line
row-front_of none anchor line = refl
row-front_of (some number) anchor line = refl

marked :
    (first : ℕ) (text t : Text)
    → is_base62 first ≡ true
    → strip_anchor (strip_line (first ∷ text)) ≡ some t
    → strip_marker (first ∷ text) ≡ t
unfolding strip_marker
marked first text t h e = rw (skip_blanks-marker first text h, e, strip_marker)

strip_marker-row :
    (number : Option ℕ) (anchor t : Text)
    → Base62 anchor
    → 2 ≤ length anchor
    → length anchor ≤ 4
    → strip_marker (front_of number anchor ++ barred t) ≡ t
strip_marker-row none [] t h low high = absurd (omega arith)
strip_marker-row none (c ∷ anchor) t h low high =
    marked c (anchor ++ barred t) t h.0 (
      ap strip_anchor (strip_line-row (c ∷ anchor) t h)
      ∙ strip_anchor-row (c ∷ anchor) t h low high)
strip_marker-row (some number) anchor t h low high = elim (Text-cases (show number)) [
  | inl nil ↦ absurd (show-ne-nil number nil)
  | inr (c, digits, e) ↦
      let text : front_of (some number) anchor ++ barred t
          ≡ c ∷ (digits ++ (b':' ∷ (anchor ++ barred t))) =
        append_assoc (show number) (b':' ∷ anchor) (barred t)
        ∙ ap (λ u. u ++ (b':' ∷ (anchor ++ barred t))) e in
      let digit : is_digit c ≡ true =
        (subst (All (λ d. is_digit d ≡ true)) e (show-Digits number)).0 in
      ap strip_marker text
      ∙ marked c (digits ++ (b':' ∷ (anchor ++ barred t))) t (ground arith) (
          ap (λ u. strip_anchor (strip_line (u ++ (b':' ∷ (anchor ++ barred t))))) (sym e)
          ∙ ap strip_anchor (strip_line-numbered number (anchor ++ barred t))
          ∙ strip_anchor-row anchor t h low high)
]

-- A declared row that was copied with its marker is accepted: for a marker that is an anchor of
-- two to four Base62 characters, with or without a line number and a colon in front of it, followed by
-- a bar and a space, the row matches the line it shows, whatever the line is.
pub declared_line_matches-row :
    (number : Option ℕ) (anchor line : Text)
    → Base62 anchor
    → 2 ≤ length anchor
    → length anchor ≤ 4
    → declared_line_matches (row number anchor line) line ≡ true
unfolding declared_line_matches
declared_line_matches-row number anchor line h low high =
    let a = trim_end line in
    let d = trim_end (row number anchor line) in
    let ended : trim_end (b'|' ∷ b' ' ∷ line) ≢ [] =
      (λ nil. barred_ne a (sym (trim_end-barred line) ∙ nil)) in
    let text : d ≡ front_of number anchor ++ barred a =
      ap trim_end (row-front_of number anchor line)
      ∙ trim_end-append (front_of number anchor) (b'|' ∷ b' ' ∷ line) ended
      ∙ ap (λ u. front_of number anchor ++ u) (trim_end-barred line) in
    let stripped : strip_marker d ≡ a =
      ap strip_marker text ∙ strip_marker-row number anchor a h low high in
    elim (Bool-cases (d === a)) [
      | inl same ↦ rw same
      | inr other ↦
          let apart : (a === d) ≡ false = ===_of_ne a d (λ e. ===_false d a other (sym e)) in
          rw (other, stripped, apart, trim_end_idem line) (===_refl a)
    ]
  where
    barred_ne : (t : Text) → barred t ≢ []
    barred_ne [] e = cc
    barred_ne (c ∷ t) e = cc
