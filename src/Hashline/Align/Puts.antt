-- ===== src/Hashline/Align/Puts.antt =====
-- The loops of src/hashline/align-bounded.ts that write pairs into a `Map`, as one loop over a list.
use dsh_hashline_edittool.Base.{
  ℕ, zero, suc, ◌+◌, ◌-◌, ◌≤◌, ◌<◌, ◌≡◌, ◌≢◌, refl, sym, subst, inl, inr, Bool-cases, ◌==◌, ==_iff,
  Pairwise-middle, [], ◌∷◌, ◌++◌, arith, All, Pairwise, append-nil, append_assoc, nat_eq,
}
use dsh_hashline_edittool.Base.Map
use dsh_hashline_edittool.Hashline.Align.Lcs.{Pairs}
use dsh_hashline_edittool.Hashline.Align.Blocks.{put_shifted}
use dsh_hashline_edittool.Hashline.Align.Bounded.{put_prefix, put_suffix, put_middle}

pub put_all : Pairs → Pairs → Pairs
put_all out [] = out
put_all out ((j, i) ∷ pairs) = put_all (Map.put out j i) pairs

-- `(i, i)`, `(i + 1, i + 1)`, …
pub diagonal : ℕ → ℕ → Pairs
diagonal zero i = []
diagonal (suc rounds) i = (i, i) ∷ diagonal rounds (suc i)

-- the same from the ends of two sequences of `m` and `n` items
pub tails : ℕ → ℕ → ℕ → ℕ → Pairs
tails m n zero i = []
tails m n (suc rounds) i = (n - 1 - i, m - 1 - i) ∷ tails m n rounds (suc i)

pub shift : ℕ → ℕ → Pairs → Pairs
shift new_start old_start [] = []
shift new_start old_start ((j, i) ∷ pairs) =
    (new_start + j, old_start + i) ∷ shift new_start old_start pairs

pub put_prefix-put_all :
    (rounds i : ℕ) (out : Pairs) → put_prefix rounds i out ≡ put_all out (diagonal rounds i)
unfolding put_prefix put_all diagonal
put_prefix-put_all zero i out = refl
put_prefix-put_all (suc rounds) i out = put_prefix-put_all rounds (suc i) (Map.put out i i)

pub put_suffix-put_all :
    (m n rounds i : ℕ) (out : Pairs)
    → put_suffix m n rounds i out ≡ put_all out (tails m n rounds i)
unfolding put_suffix put_all tails
put_suffix-put_all m n zero i out = refl
put_suffix-put_all m n (suc rounds) i out =
    put_suffix-put_all m n rounds (suc i) (Map.put out (n - 1 - i) (m - 1 - i))

pub put_middle-put_all :
    (prefix : ℕ) (pairs out : Pairs)
    → put_middle prefix pairs out ≡ put_all out (shift prefix prefix pairs)
unfolding put_middle put_all shift
put_middle-put_all prefix [] out = refl
put_middle-put_all prefix ((j, i) ∷ pairs) out =
    put_middle-put_all prefix pairs (Map.put out (prefix + j) (prefix + i))

pub put_shifted-put_all :
    (new_start old_start : ℕ) (out pairs : Pairs)
    → put_shifted new_start old_start out pairs ≡ put_all out (shift new_start old_start pairs)
unfolding put_shifted put_all shift
put_shifted-put_all new_start old_start out [] = refl
put_shifted-put_all new_start old_start out ((j, i) ∷ pairs) =
    put_shifted-put_all new_start old_start (Map.put out (new_start + j) (old_start + i)) pairs

module _ {κ} (P : ℕ × ℕ → Type κ) where
  put-All : (out : Pairs) (j i : ℕ) → All P out → P (j, i) → All P (Map.put out j i)
  unfolding Map.put
  put-All [] j i h p = (p, tt)
  put-All ((k, v) ∷ out) j i (q, h) p = elim (Bool-cases (k == j)) [
    | inl here ↦ rw here (subst (λ t. P (t, i)) (sym ((==_iff k j).0 here)) p, h)
    | inr other ↦ rw other (q, put-All out j i h p)
  ]

  pub put_all-All : (out pairs : Pairs) → All P out → All P pairs → All P (put_all out pairs)
  unfolding put_all
  put_all-All out [] h k = h
  put_all-All out ((j, i) ∷ pairs) h (p, k) =
      put_all-All (Map.put out j i) pairs (put-All out j i h p) k

  pub shift-All :
      (new_start old_start : ℕ) (pairs : Pairs)
      → All (λ p. P (new_start + p.0, old_start + p.1)) pairs
      → All P (shift new_start old_start pairs)
  unfolding shift
  shift-All new_start old_start [] h = tt
  shift-All new_start old_start ((j, i) ∷ pairs) (p, h) = (p, shift-All new_start old_start pairs h)

  pub diagonal-All :
      (rounds i : ℕ) → ((k : ℕ) → i ≤ k → k < i + rounds → P (k, k)) → All P (diagonal rounds i)
  unfolding diagonal
  diagonal-All zero i h = tt
  diagonal-All (suc rounds) i h = (
    h i (omega arith) (omega arith),
    diagonal-All rounds (suc i) (λ k lo hi. h k (omega arith) (omega arith)),
  )

  pub tails-All :
      (m n rounds i : ℕ)
      → ((k : ℕ) → i ≤ k → k < i + rounds → P (n - 1 - k, m - 1 - k))
      → All P (tails m n rounds i)
  unfolding tails
  tails-All m n zero i h = tt
  tails-All m n (suc rounds) i h = (
    h i (omega arith) (omega arith),
    tails-All m n rounds (suc i) (λ k lo hi. h k (omega arith) (omega arith)),
  )

put_new :
    (pairs : Pairs) (j i : ℕ) → All (λ p. p.0 ≢ j) pairs → Map.put pairs j i ≡ pairs ++ (j, i) ∷ []
unfolding Map.put
put_new [] j i h = refl
put_new ((k, v) ∷ pairs) j i (p, h) = ground (arith, put_new pairs j i h)

-- Pairs with new keys go behind the others.
pub put_all-append :
    (out pairs : Pairs)
    → Pairwise (λ p q. p.0 ≢ q.0) (out ++ pairs)
    → put_all out pairs ≡ out ++ pairs
unfolding put_all
put_all-append out [] h = sym (append-nil out)
put_all-append out ((j, i) ∷ pairs) h =
    rw (put_new out j i (Pairwise-middle (λ p q. p.0 ≢ q.0) out (j, i) pairs h)) (
      rw (← append_assoc out ((j, i) ∷ []) pairs)
        (put_all-append (out ++ (j, i) ∷ []) pairs (rw (append_assoc out ((j, i) ∷ []) pairs) h)))
