-- ===== src/Hashline/Alloc/Fresh.antt =====
-- src/hashline/alloc.ts: the anchors that `allocateAnchor` returns.
use mathlib.Core.Option.{some-injective}
use dsh_hashline_edittool.Base.{
  Ensures, Ensures-of, ℕ, zero, suc, ◌+◌, ◌%◌, ◌^◌, ◌≤◌, ◌≡◌, refl, Bool, true, false, List, Option,
  some, inl, inr, arith, Text, length, all, is_base62, has, nat_eq, text_eq, subst, ◌⊎◌,
  if◌then◌else◌, ◌-◌,
}
use dsh_hashline_edittool.Hashline.Alloc.Hash.{content_key}
use dsh_hashline_edittool.Hashline.Alloc.Code.{
  encode_anchor, is_numeric_anchor, length-encode_anchor, encode_anchor-base62,
}
use dsh_hashline_edittool.Hashline.Alloc.Probe.{
  min_anchor_depth, max_anchor_depth, probe_limit, Cursor, Allocated, Layer, found, spilled,
  offset_at, slot, advance, probe_layer, allocate_layers, allocate_anchor,
}

-- An anchor that the model may be shown: not taken, never only digits, Base62, as long as its layer
-- says, in a layer between `lo` and `hi` and within the probe limit.
pub record IsMinted (used : List Text) (lo hi : ℕ) (a : Allocated) : Type 0 where
  pub fresh : has a.anchor used ≡ false
  pub no_number : is_numeric_anchor a.anchor ≡ false
  pub base62 : all is_base62 a.anchor ≡ true
  pub size : length a.anchor ≡ a.stats.depth
  pub shallow : a.stats.depth ≤ hi
  pub deep : lo ≤ a.stats.depth
  pub probed : a.stats.probes ≤ probe_limit

-- A probe that settles a layer, or the probes behind it.
settled :
    (numeric taken : Bool) (rest : Layer) (here a : Allocated)
    → (if numeric then rest else if taken then rest else found here) ≡ found a
    → (rest ≡ found a) ⊎ ((numeric ≡ false) × (taken ≡ false) × (here ≡ a))
settled true taken rest here a e = inl e
settled false true rest here a e = inl e
settled false false rest here a e = inr (refl, refl, ground arith)

module _ (used : List Text) (h depth : ℕ) where
  probe_layer-IsMinted :
      (rounds probe begin_offset : ℕ) (cursor : Option Cursor) {a : Allocated}
      → probe + rounds ≤ probe_limit
      → probe_layer used h depth rounds probe begin_offset cursor ≡ found a
      → IsMinted used depth depth a
  unfolding probe_layer
  probe_layer-IsMinted zero probe begin_offset cursor fits e = cc
  probe_layer-IsMinted (suc rounds) probe begin_offset cursor {a} fits e =
      let offset = (begin_offset + probe) % 62 ^ depth in
      let idx = slot used h depth offset in
      let cursor' = advance cursor depth ((offset + 1) % 62 ^ depth) in
      elim (settled (is_numeric_anchor (encode_anchor idx depth))
        (has (encode_anchor idx depth) used) _ _ a e) [
          | inl later ↦
              probe_layer-IsMinted rounds (probe + 1) begin_offset cursor' {a = a} (omega arith)
                later
          | inr (plain, free, here) ↦ subst (IsMinted used depth depth) here (record {
            fresh = free;
            no_number = plain;
            base62 = encode_anchor-base62 idx depth;
            size = length-encode_anchor idx depth;
            shallow = omega arith;
            deep = omega arith;
            probed = omega arith;
          })
        ]

IsMinted-widen :
    {used : List Text} {lo hi lo' hi' : ℕ} {a : Allocated}
    → lo' ≤ lo
    → hi ≤ hi'
    → IsMinted used lo hi a
    → IsMinted used lo' hi' a
IsMinted-widen below above m = record {
  fresh = m.fresh;
  no_number = m.no_number;
  base62 = m.base62;
  size = m.size;
  shallow = omega arith;
  deep = omega arith;
  probed = m.probed;
}

module _ (used : List Text) (h : ℕ) where
  allocate_layers-IsMinted :
      (layers depth : ℕ) (cursor : Option Cursor) {a : Allocated}
      → allocate_layers used h layers depth cursor ≡ some a
      → IsMinted used depth (depth + layers - 1) a
  unfolding allocate_layers
  allocate_layers-IsMinted zero depth cursor e = cc
  allocate_layers-IsMinted (suc layers) depth cursor {a} e =
      go (probe_layer used h depth probe_limit 0 (offset_at cursor depth % 62 ^ depth) cursor) refl
        e (λ c. allocate_layers-IsMinted layers (depth + 1) c {a = a})
    where
      go :
          (l : Layer)
          → probe_layer used h depth probe_limit 0 (offset_at cursor depth % 62 ^ depth) cursor ≡ l
          → (elim l [ found b ↦ some b | spilled c ↦ allocate_layers used h layers (depth + 1) c ])
            ≡ some a
          → ((c : Option Cursor)
              → allocate_layers used h layers (depth + 1) c ≡ some a
              → IsMinted used (depth + 1) (depth + 1 + layers - 1) a)
          → IsMinted used depth (depth + suc layers - 1) a
      go (found b) l e' later = IsMinted-widen (omega arith) (omega arith) (
          subst (IsMinted used depth depth) (some-injective _ _ e')
            (probe_layer-IsMinted used h depth probe_limit 0 _ cursor (omega arith) l))
      go (spilled c) l e' later = IsMinted-widen (omega arith) (omega arith) (later c e')

-- An anchor that `allocateAnchor` returns is not in the used set, is not only digits, is Base62, has
-- the length of its layer, which lies between `MIN_ANCHOR_DEPTH` and `MAX_ANCHOR_DEPTH`, and took at
-- most `PROBE_LIMIT` probes of that layer.
pub allocate_anchor-IsMinted :
    (used : List Text) (content : Text) (cursor : Option Cursor) {a : Allocated}
    → allocate_anchor used content cursor ≡ some a
    → IsMinted used min_anchor_depth max_anchor_depth a
unfolding allocate_anchor
allocate_anchor-IsMinted used content cursor e =
    allocate_layers-IsMinted used (content_key content) 7 2 cursor e

pub allocate_anchor-Ensures :
    (used : List Text) (content : Text) (cursor : Option Cursor)
    → Ensures
        (IsMinted used min_anchor_depth max_anchor_depth)
        (allocate_anchor used content cursor)
allocate_anchor-Ensures used content cursor =
    Ensures-of (allocate_anchor used content cursor)
      (λ a. allocate_anchor-IsMinted used content cursor)
