-- ===== src/Hashline/Align/Sound.antt =====
-- src/hashline/align-bounded.ts: the pairs of `blockedAlign`.
use mathlib.Core.Path.{subst₂}
use native.Mathlib.Nat.{zero-add}
use dsh_hashline_edittool.Base.{
  ℕ, zero, suc, ◌+◌, ◌-◌, ◌≤◌, ◌<◌, min, ◌≡◌, sym, ◌∙◌, ap, Bool, true, false, List, [], ◌∷◌, arith,
  ltb, leb, length, get_elem?, get_or, drop, slice, All, All-map, All-get_or, All-both, length-take,
  get_elem?-drop, get_elem?-take, inl, inr, Bool-cases, Eq, nat_eq,
}
use dsh_hashline_edittool.Base.Sort.{sort}
use dsh_hashline_edittool.Hashline.Align.Lcs.{Pairs, lcs_backtrace}
use dsh_hashline_edittool.Hashline.Align.Lcs.Trace.{lcs_backtrace-Descending, Below}
use dsh_hashline_edittool.Hashline.Align.Blocks.{
  Block, Score, blocks_from, blocks, empty_block, put_shifted, stitch, stitched, picked, settle,
  blocked_align,
}
use dsh_hashline_edittool.Hashline.Align.Puts.{shift, put_shifted-put_all, put_all-All, shift-All}

module _ {ℓ} {A : Type ℓ} where
  -- The block is a piece of the `len` items of `source` from `offset` on.
  pub record IsBlock (source : List A) (offset len : ℕ) (b : Block A) : Type ℓ where
    pub inside : b.start + length b.items ≤ len
    pub copy :
        (k : ℕ)
        → k < length b.items
        → get_elem? b.items k ≡ get_elem? source (offset + (b.start + k))

  -- New item `p.0` and old item `p.1`, counted from the offsets, are the same item of the segments.
  pub record Survives (old_seg new_seg : List A) (old_offset old_len new_offset new_len : ℕ)
      (p : ℕ × ℕ) : Type ℓ where
    pub equal : get_elem? old_seg (old_offset + p.1) ≡ get_elem? new_seg (new_offset + p.0)
    pub old_in : p.1 < old_len
    pub new_in : p.0 < new_len

  slice-IsBlock :
      (source : List A) (offset len s stop : ℕ)
      → s ≤ stop
      → stop ≤ len
      → IsBlock source offset len
          (record { start = s; stop = stop; items = slice source (offset + s) (offset + stop) })
  slice-IsBlock source offset len s stop lo hi =
      let size = length-take (offset + stop - (offset + s)) (drop (offset + s) source) in
      record {
        inside = omega (arith, size);
        copy = λ k h.
            get_elem?-take (offset + stop - (offset + s)) (drop (offset + s) source) k
              (omega (arith, size))
            ∙ get_elem?-drop (offset + s) source k
            ∙ ap (get_elem? source) (omega arith);
      }

module _ {ℓ} {A : Type ℓ} ⦃e : Eq A⦄ where
  empty_block-IsBlock : (source : List A) (offset len : ℕ) → IsBlock source offset len empty_block
  empty_block-IsBlock source offset len = record {
    inside = omega arith;
    copy = λ k h. absurd (omega arith);
  }

  blocks_from-IsBlock :
      (source : List A) (offset len block_size rounds s : ℕ)
      → All (IsBlock source offset len) (blocks_from source len offset block_size rounds s)
  unfolding blocks_from
  blocks_from-IsBlock source offset len block_size zero s = tt
  blocks_from-IsBlock source offset len block_size (suc rounds) s = elim (Bool-cases (ltb s len)) [
    | inl more ↦
        rw (more, blocks_from)
          (
            slice-IsBlock source offset len s (min (s + block_size) len) (ground arith)
                (omega arith),
            blocks_from-IsBlock source offset len block_size rounds (s + block_size),
          )
    | inr done ↦ rw (done, blocks_from) tt
  ]

module _ {ℓ} {A : Type ℓ} ⦃e : Eq A⦄ (old_seg new_seg : List A)
    (old_offset old_len new_offset new_len : ℕ) where
  abbrev pub Surviving : ℕ × ℕ → Type ℓ
  Surviving = Survives old_seg new_seg old_offset old_len new_offset new_len

  -- the pairs of two blocks, put where the blocks stand
  pair_blocks :
      (ob nb : Block A)
      → IsBlock old_seg old_offset old_len ob
      → IsBlock new_seg new_offset new_len nb
      → (out : Pairs) → All Surviving out
      → All Surviving (
          put_shifted nb.start ob.start out
            (lcs_backtrace ob.items nb.items 0 0 (length ob.items) (length nb.items)))
  pair_blocks ob nb o n out h =
      let found = lcs_backtrace ob.items nb.items 0 0 (length ob.items) (length nb.items) in
      let longest =
        lcs_backtrace-Descending ob.items nb.items 0 0 (length ob.items) (length nb.items) in
      rw (put_shifted-put_all nb.start ob.start out found) (
        put_all-All Surviving out (shift nb.start ob.start found) h (
          shift-All Surviving nb.start ob.start found (
            All-map moved found
              (All-both _ (Below (length ob.items) (length nb.items)) found longest.0 longest.1))))
    where
      moved :
          (p : ℕ × ℕ)
          → (get_elem? ob.items (0 + p.1) ≡ get_elem? nb.items (0 + p.0))
            × Below (length ob.items) (length nb.items) p
          → Surviving (nb.start + p.0, ob.start + p.1)
      moved p (same, below) = record {
        equal =
            sym (o.copy p.1 below.1)
            ∙ subst₂ (λ i j. get_elem? ob.items i ≡ get_elem? nb.items j) (zero-add p.1)
                (zero-add p.0) same
            ∙ n.copy p.0 below.0;
        old_in = omega (arith, o.inside);
        new_in = omega (arith, n.inside);
      }

  stitch-All :
      (old_blocks new_blocks : List (Block A))
      → All (IsBlock old_seg old_offset old_len) old_blocks
      → All (IsBlock new_seg new_offset new_len) new_blocks
      → (picked : List Score) (out : Pairs) → All Surviving out
      → All Surviving (stitch old_blocks new_blocks out picked)
  unfolding stitch
  stitch-All old_blocks new_blocks o n [] out h = h
  stitch-All old_blocks new_blocks o n (s ∷ picked) out h =
      stitch-All old_blocks new_blocks o n picked _ (
        pair_blocks (get_or old_blocks s.oi empty_block) (get_or new_blocks s.ni empty_block)
          (All-get_or (IsBlock old_seg old_offset old_len) old_blocks s.oi empty_block o
            (empty_block-IsBlock old_seg old_offset old_len))
          (All-get_or (IsBlock new_seg new_offset new_len) new_blocks s.ni empty_block n
            (empty_block-IsBlock new_seg new_offset new_len))
          out h)

  settle-All : (b c : Bool) (out : Pairs) → All Surviving out → All Surviving (settle b c out).pairs
  settle-All true c out h = tt
  settle-All false true out h = tt
  settle-All false false out h = h

  pub blocked_align-All :
      (block_size : ℕ) (low_floor : ℕ → ℕ)
      → All Surviving
          (blocked_align old_seg new_seg old_offset old_len new_offset new_len block_size
            low_floor).pairs
  unfolding blocked_align blocks stitched
  blocked_align-All block_size low_floor =
      let old_blocks = blocks old_seg old_len old_offset block_size in
      let new_blocks = blocks new_seg new_len new_offset block_size in
      settle-All _ _ (stitched old_blocks new_blocks) (
        stitch-All old_blocks new_blocks
          (blocks_from-IsBlock old_seg old_offset old_len block_size old_len 0)
          (blocks_from-IsBlock new_seg new_offset new_len block_size new_len 0)
          (sort (λ a b. leb a.oi b.oi) (picked old_blocks new_blocks)) [] tt)
