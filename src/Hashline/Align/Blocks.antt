-- ===== src/Hashline/Align/Blocks.antt =====
-- src/hashline/align-bounded.ts: `blockSimilarity` and `blockedAlign`. The similarity floor is the
-- function from the length of the smaller side to `Math.ceil` of that share of it.
use dsh_hashline_edittool.Base.{
  ℕ, zero, suc, ◌+◌, ◌-◌, ◌*◌, min, Bool, true, false, ◌||◌, List, [], ◌∷◌, ◌++◌, ltb, leb, ◌==◌,
  if◌then◌else◌, length, get_or, slice, has, nat_eq, Eq,
}
use dsh_hashline_edittool.Base.Map
use dsh_hashline_edittool.Base.Sort.{sort}
use dsh_hashline_edittool.Hashline.Align.Lcs.{Pairs, same_at, lcs_backtrace}

pub record AlignResult : Type 0 where
  pub pairs : Pairs
  pub degraded : Bool

pub record Block {ℓ} (A : Type ℓ) : Type ℓ where
  pub start : ℕ
  pub stop : ℕ
  pub items : List A

-- an old and a new block by their numbers, with their similarity
pub record Score : Type 0 where
  pub oi : ℕ
  pub ni : ℕ
  pub score : ℕ

module _ {ℓ} {A : Type ℓ} ⦃e : Eq A⦄ where
  -- `while (lcp < len && a[lcp] === b[lcp]) lcp++`
  unfoldable pub count_head : List A → List A → ℕ → ℕ → ℕ
  unfolding same_at
  count_head a b zero lcp = lcp
  count_head a b (suc rounds) lcp =
      let more = count_head a b rounds (suc lcp) in if same_at a lcp b lcp then more else lcp

  -- the same loop from the two ends
  unfoldable pub count_tail : List A → List A → ℕ → ℕ → ℕ
  unfolding same_at
  count_tail a b zero tail = tail
  count_tail a b (suc rounds) tail =
      let more = count_tail a b rounds (suc tail) in
      if same_at a (length a - 1 - tail) b (length b - 1 - tail) then more else tail

  unfoldable pub block_similarity : List A → List A → ℕ
  unfolding count_head count_tail same_at
  block_similarity a b =
      let len = min (length a) (length b) in
      let anchor_bonus : ℕ = if same_at a 0 b 0 then 5 else 0 in
      if len == 0 then 0 else count_head a b len 0 * 3 + count_tail a b (min len 4) 0 + anchor_bonus

  -- the loop from `s`: the rounds are more than the blocks that there are
  unfoldable pub blocks_from : List A → ℕ → ℕ → ℕ → ℕ → ℕ → List (Block A)
  blocks_from source len offset block_size zero s = []
  blocks_from source len offset block_size (suc rounds) s =
      let stop = min (s + block_size) len in
      let rest = blocks_from source len offset block_size rounds (s + block_size) in
      if ltb s len
      then record { start = s; stop = stop; items = slice source (offset + s) (offset + stop) }
        ∷ rest
      else []

  unfoldable pub blocks : List A → ℕ → ℕ → ℕ → List (Block A)
  unfolding blocks_from
  blocks source len offset block_size = blocks_from source len offset block_size len 0

  -- the inner loop over the new blocks
  unfoldable pub score_row : ℕ → Block A → ℕ → List (Block A) → List Score
  unfolding block_similarity
  score_row oi ob ni [] = []
  score_row oi ob ni (nb ∷ new_blocks) =
      let s = block_similarity ob.items nb.items in
      let rest = score_row oi ob (suc ni) new_blocks in
      if ltb 0 s then record { oi = oi; ni = ni; score = s } ∷ rest else rest

  unfoldable pub score_rows : ℕ → List (Block A) → List (Block A) → List Score
  unfolding score_row
  score_rows oi [] new_blocks = []
  score_rows oi (ob ∷ old_blocks) new_blocks =
      score_row oi ob 0 new_blocks ++ score_rows (suc oi) old_blocks new_blocks

-- the two ways to bail out, no picked block and too few pairs, and the result without them
abbrev pub settle : Bool → Bool → Pairs → AlignResult
settle no_block too_few out =
    if no_block
    then record { pairs = []; degraded = true }
    else if too_few
    then record { pairs = []; degraded = true }
    else record { pairs = out; degraded = false }

-- the greedy pick, best score first
unfoldable pub pick : List ℕ → List ℕ → List Score → List Score
pick used_old used_new [] = []
pick used_old used_new (s ∷ scores) =
    let skip = pick used_old used_new scores in
    let take_it = pick (s.oi ∷ used_old) (s.ni ∷ used_new) scores in
    if has s.oi used_old || has s.ni used_new
    then skip
    else if leb s.score 0
    then skip
    else s ∷ take_it

-- `out.set(nb.start + j, ob.start + i)` for the pairs of one block
unfoldable pub put_shifted : ℕ → ℕ → Pairs → Pairs → Pairs
unfolding Map.put
put_shifted new_start old_start out [] = out
put_shifted new_start old_start out ((j, i) ∷ pairs) =
    put_shifted new_start old_start (Map.put out (new_start + j) (old_start + i)) pairs

module _ {ℓ} {A : Type ℓ} ⦃e : Eq A⦄ where
  abbrev pub empty_block : Block A
  empty_block = record { start = 0; stop = 0; items = [] }

  -- the stitching loop over the picked pairs of blocks
  unfoldable pub stitch : List (Block A) → List (Block A) → Pairs → List Score → Pairs
  unfolding put_shifted lcs_backtrace
  stitch old_blocks new_blocks out [] = out
  stitch old_blocks new_blocks out (s ∷ picked) =
      let ob = get_or old_blocks s.oi empty_block in
      let nb = get_or new_blocks s.ni empty_block in
      let found = lcs_backtrace ob.items nb.items 0 0 (length ob.items) (length nb.items) in
      stitch old_blocks new_blocks (put_shifted nb.start ob.start out found) picked

  -- the greedily picked pairs of blocks
  unfoldable pub picked : List (Block A) → List (Block A) → List Score
  unfolding score_rows pick sort
  picked old_blocks new_blocks =
      pick [] [] (sort (λ a b. leb b.score a.score) (score_rows 0 old_blocks new_blocks))

  -- their pairs of lines, in the order of the old blocks
  unfoldable pub stitched : List (Block A) → List (Block A) → Pairs
  unfolding picked sort stitch
  stitched old_blocks new_blocks =
      stitch old_blocks new_blocks [] (sort (λ a b. leb a.oi b.oi) (picked old_blocks new_blocks))

  unfoldable pub blocked_align : List A → List A → ℕ → ℕ → ℕ → ℕ → ℕ → (ℕ → ℕ) → AlignResult
  unfolding blocks picked stitched
  blocked_align old_seg new_seg old_offset old_len new_offset new_len block_size low_floor =
      let old_blocks = blocks old_seg old_len old_offset block_size in
      let new_blocks = blocks new_seg new_len new_offset block_size in
      let out = stitched old_blocks new_blocks in
      let min_side = min old_len new_len in
      let abs_floor : ℕ = if ltb min_side 20 then 1 else min 4 (low_floor min_side) in
      settle (length (picked old_blocks new_blocks) == 0) (ltb (length out) abs_floor) out
