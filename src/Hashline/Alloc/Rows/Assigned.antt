-- ===== src/Hashline/Alloc/Rows/Assigned.antt =====
-- src/hashline/alloc.ts: the anchors of `assignAnchors` and `anchorsPure`.
use dsh_hashline_edittool.Base.{
  suc, ◌≤◌, ◌≡◌, ◌≢◌, refl, ap, true, false, List, [], ◌∷◌, none, some, arith, Ensures, returned,
  Ensures-bind, Ensures-some, Text, length, All, All-map, Distinct, has, has-false, text_eq, all,
  is_base62,
}
use dsh_hashline_edittool.Infra.Lines.{split_lines}
use dsh_hashline_edittool.Hashline.Alloc.Code.{is_numeric_anchor}
use dsh_hashline_edittool.Hashline.Alloc.Hash.{content_key}
use dsh_hashline_edittool.Hashline.Alloc.Probe.{min_anchor_depth, max_anchor_depth, Allocated}
use dsh_hashline_edittool.Hashline.Alloc.Fresh.{IsMinted, allocate_anchor-Ensures}
use dsh_hashline_edittool.Hashline.Alloc.Rows.{
  Cursors, cursor_for, mint, assign_lines, assign_anchors, pure_lines, anchors_pure,
}

-- The form of an anchor: Base62, never only digits, 2 to 8 characters long.
pub record IsAnchor (anchor : Text) : Type 0 where
  pub no_number : is_numeric_anchor anchor ≡ false
  pub base62 : all is_base62 anchor ≡ true
  pub short : length anchor ≤ max_anchor_depth
  pub long : min_anchor_depth ≤ length anchor

pub IsMinted-IsAnchor :
    {used : List Text} {a : Allocated}
    → IsMinted used min_anchor_depth max_anchor_depth a
    → IsAnchor a.anchor
IsMinted-IsAnchor m = record {
  no_number = m.no_number;
  base62 = m.base62;
  short = omega (arith, m.size, m.shallow);
  long = omega (arith, m.size, m.deep);
}

pub mint-Ensures :
    (used : List Text) (cursors : Cursors) (text : Text)
    → Ensures (λ r. (has r.0 used ≡ false) × IsAnchor r.0) (mint used cursors text)
unfolding mint
mint-Ensures used cursors text =
    Ensures-bind (allocate_anchor-Ensures used text (some (cursor_for cursors (content_key text))))
      (λ a m. returned (m.fresh, IsMinted-IsAnchor m))

-- Anchors that a call has made, with those that it had to avoid.
record IsNew (used anchors : List Text) : Type 0 where
  fresh : All (λ a. has a used ≡ false) anchors
  apart : Distinct anchors
  formed : All IsAnchor anchors

has-cons_false :
    (a b : Text) (used : List Text) → has a (b ∷ used) ≡ false → (b ≢ a) × (has a used ≡ false)
has-cons_false a b used h = ((has-false a (b ∷ used) h).0, ground arith)

IsNew-cons :
    (used anchors : List Text) (a : Text)
    → has a used ≡ false
    → IsAnchor a
    → IsNew (a ∷ used) anchors
    → IsNew used (a ∷ anchors)
IsNew-cons used anchors a free formed n = record {
  fresh = (free, All-map (λ b h. (has-cons_false b a used h).1) anchors n.fresh);
  apart = (All-map (λ b h. (has-cons_false b a used h).0) anchors n.fresh, n.apart);
  formed = (formed, n.formed);
}

abbrev Assigns : List Text → List Text → List Text → Type 0
Assigns used lines anchors = IsNew used anchors × (length anchors ≡ length lines)

assign_lines-Ensures :
    (used : List Text) (cursors : Cursors) (lines : List Text)
    → Ensures (Assigns used lines) (assign_lines used cursors lines)
unfolding assign_lines
assign_lines-Ensures used cursors [] =
    returned (record { fresh = tt; apart = tt; formed = tt }, refl)
assign_lines-Ensures used cursors (text ∷ lines) =
    Ensures-bind (mint-Ensures used cursors text) λ r p.
      Ensures-bind (assign_lines-Ensures (r.0 ∷ used) r.1 lines)
        λ anchors q. returned (IsNew-cons used anchors r.0 p.0 p.1 q.0, ap suc q.1)

pure_lines-Ensures : (used lines : List Text) → Ensures (Assigns used lines) (pure_lines used lines)
unfolding pure_lines
pure_lines-Ensures used [] = returned (record { fresh = tt; apart = tt; formed = tt }, refl)
pure_lines-Ensures used (text ∷ lines) =
    Ensures-bind (allocate_anchor-Ensures used text none) λ a m.
      Ensures-bind (pure_lines-Ensures (a.anchor ∷ used) lines) λ anchors q.
        returned (IsNew-cons used anchors a.anchor m.fresh (IsMinted-IsAnchor m) q.0, ap suc q.1)

-- A full-file allocation that does not throw gives one anchor for each line; no two lines share an
-- anchor, also where their contents are equal, and each anchor has the form of an anchor.
pub assign_anchors-Distinct :
    (lines : List Text) {anchors : List Text}
    → assign_anchors lines ≡ some anchors
    → (length anchors ≡ length lines) × Distinct anchors × All IsAnchor anchors
unfolding assign_anchors
assign_anchors-Distinct lines e =
    let (new, size) = Ensures-some (assign_lines-Ensures [] [] lines) e in
    (size, new.apart, new.formed)

-- The same holds of the transient anchors of a whole content, counted by its lines.
pub anchors_pure-Distinct :
    (content : Text) {anchors : List Text}
    → anchors_pure content ≡ some anchors
    → (length anchors ≡ length (split_lines content)) × Distinct anchors × All IsAnchor anchors
unfolding anchors_pure
anchors_pure-Distinct content e =
    let (new, size) = Ensures-some (pure_lines-Ensures [] (split_lines content)) e in
    (size, new.apart, new.formed)
