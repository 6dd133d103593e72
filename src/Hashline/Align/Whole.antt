-- ===== src/Hashline/Align/Whole.antt =====
-- src/hashline/align-bounded.ts: the pairs of `alignPreservedBounded`, path by path.
use dsh_hashline_edittool.Base.{
  ℕ, zero, suc, ◌+◌, ◌-◌, ◌*◌, ◌≤◌, ◌<◌, min, max, ◌≡◌, Bool, true, false, ◌||◌, List, [], arith,
  leb, ◌==◌, if◌then◌else◌, length, get_elem?, All, All-map, All-both, Eq, nat_eq,
}
use dsh_hashline_edittool.Hashline.Align.Lcs.{Pairs, same_at, lcs_backtrace}
use dsh_hashline_edittool.Hashline.Align.Lcs.Trace.{same_at_sound, lcs_backtrace-Descending, Below}
use dsh_hashline_edittool.Hashline.Align.Blocks.{AlignResult, blocked_align}
use dsh_hashline_edittool.Hashline.Align.Bounded.{
  put_prefix, put_suffix, put_middle, identity_pairs, assemble_all_pairs, count_prefix,
  count_suffix, align_middle, align_preserved_bounded, floor_sqrt,
}
use dsh_hashline_edittool.Hashline.Align.Puts.{
  diagonal, tails, shift, put_prefix-put_all, put_suffix-put_all, put_middle-put_all, put_all-All,
  shift-All, diagonal-All, tails-All,
}
use dsh_hashline_edittool.Hashline.Align.Sound.{Survives, blocked_align-All}

-- the ends of `alignPreservedBounded`
abbrev branch : Bool → Bool → Bool → Pairs → Pairs → Pairs → AlignResult
branch all_trimmed affordable degraded x y z =
    if all_trimmed
    then record { pairs = x; degraded = false }
    else if affordable
    then record { pairs = y; degraded = false }
    else if degraded
    then record { pairs = []; degraded = true }
    else record { pairs = z; degraded = false }

abbrev unless_empty : Bool → AlignResult → AlignResult
unless_empty b r = if b then record { pairs = []; degraded = false } else r

module _ {κ} (P : ℕ × ℕ → Type κ) where
  branch-All :
      (b c d : Bool) (x y z : Pairs)
      → All P x
      → All P y
      → All P z
      → All P (branch b c d x y z).pairs
  branch-All true c d x y z hx hy hz = hx
  branch-All false true d x y z hx hy hz = hy
  branch-All false false true x y z hx hy hz = tt
  branch-All false false false x y z hx hy hz = hz

  empty-All : (b : Bool) (r : AlignResult) → All P r.pairs → All P (unless_empty b r).pairs
  empty-All true r h = tt
  empty-All false r h = h

module _ {ℓ} {A : Type ℓ} ⦃e : Eq A⦄ (old_seg new_seg : List A) where
  -- New line `p.0` is old line `p.1`.
  pub record IsPair (p : ℕ × ℕ) : Type ℓ where
    pub equal : get_elem? old_seg p.1 ≡ get_elem? new_seg p.0
    pub old_in : p.1 < length old_seg
    pub new_in : p.0 < length new_seg

  pub count_prefix-le : (rounds p : ℕ) → count_prefix old_seg new_seg rounds p ≤ p + rounds
  unfolding count_prefix
  count_prefix-le zero p = omega arith
  count_prefix-le (suc rounds) p = ground (arith, count_prefix-le rounds (suc p))

  count_prefix-same :
      (rounds p k : ℕ)
      → p ≤ k
      → k < count_prefix old_seg new_seg rounds p
      → same_at old_seg k new_seg k ≡ true
  unfolding count_prefix
  count_prefix-same zero p k lo hi = absurd (omega arith)
  count_prefix-same (suc rounds) p k lo hi = ground (arith, count_prefix-same rounds (suc p) k)

  pub count_suffix-le : (rounds p : ℕ) → count_suffix old_seg new_seg rounds p ≤ p + rounds
  unfolding count_suffix
  count_suffix-le zero p = omega arith
  count_suffix-le (suc rounds) p = ground (arith, count_suffix-le rounds (suc p))

  count_suffix-same :
      (rounds p k : ℕ)
      → p ≤ k
      → k < count_suffix old_seg new_seg rounds p
      → same_at old_seg (length old_seg - 1 - k) new_seg (length new_seg - 1 - k) ≡ true
  unfolding count_suffix
  count_suffix-same zero p k lo hi = absurd (omega arith)
  count_suffix-same (suc rounds) p k lo hi = ground (arith, count_suffix-same rounds (suc p) k)

  -- What the two loops at the start find.
  pub record IsTrim (prefix suffix : ℕ) : Type ℓ where
    pub old_room : prefix + suffix ≤ length old_seg
    pub new_room : prefix + suffix ≤ length new_seg
    pub head : (k : ℕ) → k < prefix → same_at old_seg k new_seg k ≡ true
    pub tail :
        (k : ℕ)
        → k < suffix
        → same_at old_seg (length old_seg - 1 - k) new_seg (length new_seg - 1 - k) ≡ true

  counts-IsTrim :
      let m = length old_seg in
      let n = length new_seg in
      let prefix = count_prefix old_seg new_seg (min m n) 0 in
      IsTrim prefix (count_suffix old_seg new_seg (min (m - prefix) (n - prefix)) 0)
  counts-IsTrim =
      let m = length old_seg in
      let n = length new_seg in
      let prefix = count_prefix old_seg new_seg (min m n) 0 in
      let rounds = min (m - prefix) (n - prefix) in
      let fits = count_prefix-le (min m n) 0 in
      record {
        old_room = omega (arith, count_suffix-le rounds 0);
        new_room = omega (arith, count_suffix-le rounds 0);
        head = λ k h. count_prefix-same (min m n) 0 k (omega arith) h;
        tail = λ k h. count_suffix-same rounds 0 k (omega arith) h;
      }

  module _ (prefix suffix : ℕ) (t : IsTrim prefix suffix) where
    prefix-All : (out : Pairs) → All IsPair out → All IsPair (put_prefix prefix 0 out)
    prefix-All out h = rw (put_prefix-put_all prefix 0 out) (
        put_all-All IsPair out (diagonal prefix 0) h (
          diagonal-All IsPair prefix 0 (λ k lo hi. record {
            equal = same_at_sound old_seg new_seg k k (t.head k (omega arith));
            old_in = omega (arith, t.old_room);
            new_in = omega (arith, t.new_room);
          })))

    suffix-All :
        (out : Pairs)
        → All IsPair out
        → All IsPair (put_suffix (length old_seg) (length new_seg) suffix 0 out)
    suffix-All out h = rw (put_suffix-put_all (length old_seg) (length new_seg) suffix 0 out) (
        put_all-All IsPair out (tails (length old_seg) (length new_seg) suffix 0) h (
          tails-All IsPair (length old_seg) (length new_seg) suffix 0 (λ k lo hi. record {
            equal = same_at_sound old_seg new_seg _ _ (t.tail k (omega arith));
            old_in = omega (arith, t.old_room);
            new_in = omega (arith, t.new_room);
          })))

    abbrev Middle : ℕ × ℕ → Type ℓ
    Middle =
        Survives old_seg new_seg prefix (length old_seg - prefix - suffix) prefix
          (length new_seg - prefix - suffix)

    put_middle-All :
        (out pairs : Pairs)
        → All IsPair out
        → All Middle pairs
        → All IsPair (put_middle prefix pairs out)
    put_middle-All out pairs h k = rw (put_middle-put_all prefix pairs out) (
        put_all-All IsPair out (shift prefix prefix pairs) h (
          shift-All IsPair prefix prefix pairs (
            All-map
              (λ p s. record {
                equal = s.equal;
                old_in = omega (arith, s.old_in);
                new_in = omega (arith, s.new_in);
              })
              pairs k)))

    assembled-All :
        (pairs : Pairs)
        → All Middle pairs
        → All IsPair (assemble_all_pairs (length old_seg) (length new_seg) prefix suffix pairs)
    unfolding assemble_all_pairs
    assembled-All pairs k = suffix-All _ (put_middle-All _ pairs (prefix-All [] tt) k)

    identity-All : All IsPair (identity_pairs (length old_seg) (length new_seg) prefix suffix)
    unfolding identity_pairs
    identity-All = suffix-All _ (prefix-All [] tt)

    lcs-All : All Middle (
        lcs_backtrace old_seg new_seg prefix prefix
          (length old_seg - prefix - suffix)
          (length new_seg - prefix - suffix))
    lcs-All =
        let m_mid = length old_seg - prefix - suffix in
        let n_mid = length new_seg - prefix - suffix in
        let longest = lcs_backtrace-Descending old_seg new_seg prefix prefix m_mid n_mid in
        All-map (λ p q. record { equal = q.0; old_in = q.1.1; new_in = q.1.0 }) _
          (All-both _ (Below m_mid n_mid) _ longest.0 longest.1)

    align_middle-All :
        (effective : ℕ) (low_floor : ℕ → ℕ)
        → All IsPair (align_middle old_seg new_seg effective low_floor prefix suffix).pairs
    unfolding align_middle
    align_middle-All effective low_floor =
        let m_mid = length old_seg - prefix - suffix in
        let n_mid = length new_seg - prefix - suffix in
        let size = max 1 (floor_sqrt effective) in
        let result = blocked_align old_seg new_seg prefix m_mid prefix n_mid size low_floor in
        branch-All IsPair (leb m_mid 0 || leb n_mid 0) (leb (m_mid * n_mid) effective)
          result.degraded _ _ _ identity-All (assembled-All _ lcs-All)
          (assembled-All result.pairs
            (blocked_align-All old_seg new_seg prefix m_mid prefix n_mid size low_floor))

  -- On every path, with the whole table, in blocks or degraded, each pair names a new line that the
  -- file has and an old line that the file had, and the two have the same content.
  pub align_preserved_bounded-IsPair :
      (effective : ℕ) (low_floor : ℕ → ℕ)
      → All IsPair (align_preserved_bounded old_seg new_seg effective low_floor).pairs
  unfolding align_preserved_bounded
  align_preserved_bounded-IsPair effective low_floor =
      let m = length old_seg in
      let n = length new_seg in
      let prefix = count_prefix old_seg new_seg (min m n) 0 in
      let suffix = count_suffix old_seg new_seg (min (m - prefix) (n - prefix)) 0 in
      empty-All IsPair (m == 0 || n == 0) _
        (align_middle-All prefix suffix counts-IsTrim effective low_floor)
