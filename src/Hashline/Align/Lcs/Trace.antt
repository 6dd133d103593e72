-- ===== src/Hashline/Align/Lcs/Trace.antt =====
-- src/hashline/align-bounded.ts: the backtrace of `lcsBacktrace` against the recursive lengths.
use dsh_hashline_edittool.Base.{
  ℕ, zero, suc, ◌+◌, ◌≤◌, ◌<◌, ◌≡◌, refl, sym, ap, ◌∙◌, Bool, true, false, List, [], ◌∷◌, ◌++◌,
  arith, if◌then◌else◌, inl, inr, leb, length, get_or, get_elem?, Eq, ===_sound, Option, none, some,
  All, All-map, All-append, Bool-cases, append-nil, append_assoc, nat_eq, ◌===◌,
}
use dsh_hashline_edittool.Base.Map
use dsh_hashline_edittool.Hashline.Align.Lcs.{Pairs, same_at, back_trace, lcs_backtrace}
use dsh_hashline_edittool.Hashline.Align.Lcs.Common.{lcs, Matching, Matching-le-lcs}
use dsh_hashline_edittool.Hashline.Align.Lcs.Table.{same, IsTable, dp_table-IsTable}

-- A pair of a new index below `j` and an old index below `i`.
abbrev pub Below : ℕ → ℕ → ℕ × ℕ → Type 0
Below i j p = (p.0 < j) × (p.1 < i)

-- Both indices fall along the list: no old line is paired twice, no new line either, and no two pairs
-- cross.
abbrev pub Descending : Pairs → Type 0
Descending [] = Unit
Descending (p ∷ pairs) = All (Below p.1 p.0) pairs × Descending pairs

module _ (same' : ℕ → ℕ → Bool) where
  -- the pairs of the backtrace, from the recursive lengths
  trace : ℕ → ℕ → Pairs
  trace zero j = []
  trace (suc i) zero = []
  trace (suc i) (suc j) =
      if same' i j
      then (j, i) ∷ trace i j
      else if leb (lcs same' (suc i) j) (lcs same' i (suc j))
      then trace i (suc j)
      else trace (suc i) j

  trace_step :
      (i j : ℕ)
      → trace (suc i) (suc j) ≡ (
          if same' i j
          then (j, i) ∷ trace i j
          else if leb (lcs same' (suc i) j) (lcs same' i (suc j))
          then trace i (suc j)
          else trace (suc i) j)
  unfolding trace
  trace_step i j = refl

  Below-widen :
      (i j i' j' : ℕ)
      → i ≤ i'
      → j ≤ j'
      → (pairs : Pairs) → All (Below i j) pairs
      → All (Below i' j') pairs
  Below-widen i j i' j' hi hj pairs = All-map (λ p h. omega arith) pairs

  -- What the pairs of the first `i` old and the first `j` new items are.
  pub record IsTrace (i j : ℕ) (pairs : Pairs) : Type 0 where
    pub below : All (Below i j) pairs
    pub falls : Descending pairs
    pub equal : All (λ p. same' p.1 p.0 ≡ true) pairs
    pub size : length pairs ≡ lcs same' i j

  IsTrace-pair :
      (i j : ℕ) (pairs : Pairs)
      → same' i j ≡ true
      → IsTrace i j pairs
      → IsTrace (suc i) (suc j) ((j, i) ∷ pairs)
  unfolding lcs
  IsTrace-pair i j pairs e t = record {
    below =
        (omega arith, Below-widen i j (suc i) (suc j) (omega arith) (omega arith) pairs t.below);
    falls = (t.below, t.falls);
    equal = (e, t.equal);
    size = rw (e, lcs) (omega (arith, t.size));
  }

  IsTrace-up :
      (i j : ℕ) (pairs : Pairs)
      → same' i j ≡ false
      → leb (lcs same' (suc i) j) (lcs same' i (suc j)) ≡ true
      → IsTrace i (suc j) pairs
      → IsTrace (suc i) (suc j) pairs
  unfolding lcs
  IsTrace-up i j pairs e more t = record {
    below = Below-widen i (suc j) (suc i) (suc j) (omega arith) (omega arith) pairs t.below;
    falls = t.falls;
    equal = t.equal;
    size = rw (e, lcs) (ground (arith, t.size));
  }

  IsTrace-left :
      (i j : ℕ) (pairs : Pairs)
      → same' i j ≡ false
      → leb (lcs same' (suc i) j) (lcs same' i (suc j)) ≡ false
      → IsTrace (suc i) j pairs
      → IsTrace (suc i) (suc j) pairs
  unfolding lcs
  IsTrace-left i j pairs e less t = record {
    below = Below-widen (suc i) j (suc i) (suc j) (omega arith) (omega arith) pairs t.below;
    falls = t.falls;
    equal = t.equal;
    size = rw (e, lcs) (ground (arith, t.size));
  }

  trace-IsTrace : (i j : ℕ) → IsTrace i j (trace i j)
  unfolding trace lcs
  trace-IsTrace zero j = record { below = tt; falls = tt; equal = tt; size = refl }
  trace-IsTrace (suc i) zero = record { below = tt; falls = tt; equal = tt; size = refl }
  trace-IsTrace (suc i) (suc j) =
      let both = trace-IsTrace i j in
      let up = trace-IsTrace i (suc j) in
      let left = trace-IsTrace (suc i) j in
      elim (Bool-cases (same' i j)) [
        | inl e ↦ rw (e, trace) (IsTrace-pair i j (trace i j) e both)
        | inr e ↦ elim (Bool-cases (leb (lcs same' (suc i) j) (lcs same' i (suc j)))) [
          | inl more ↦ rw (e, more, trace) (IsTrace-up i j (trace i (suc j)) e more up)
          | inr less ↦ rw (e, less, trace) (IsTrace-left i j (trace (suc i) j) e less left)
        ]
      ]

pub same_at_sound {ℓ} :
    {A : Type ℓ} ⦃e : Eq A⦄ (a b : List A) (i j : ℕ)
    → same_at a i b j ≡ true
    → get_elem? a i ≡ get_elem? b j
unfolding same_at
same_at_sound {A} ⦃e⦄ a b i j h = go (get_elem? a i) (get_elem? b j) h
  where
    go :
        (x y : Option A)
        → (elim x [
          | none ↦ elim y [ none ↦ true | some w ↦ false ]
          | some v ↦ elim y [ none ↦ false | some w ↦ v === w ]
        ])
          ≡ true
        → x ≡ y
    go none none p = refl
    go (some v) none p = cc
    go none (some w) p = cc
    go (some v) (some w) p = ap some (===_sound v w p)

-- A new key goes behind the other entries.
put_fresh :
    (pairs : Pairs) (j i : ℕ) → All (λ p. j < p.0) pairs → Map.put pairs j i ≡ pairs ++ (j, i) ∷ []
unfolding Map.put
put_fresh [] j i h = refl
put_fresh ((k, v) ∷ pairs) j i (p, h) = ground (arith, put_fresh pairs j i h)

put_kept :
    (pairs : Pairs) (j i : ℕ)
    → All (λ p. suc j ≤ p.0) pairs
    → All (λ p. j ≤ p.0) (Map.put pairs j i)
put_kept pairs j i h = rw (put_fresh pairs j i h) (
    All-append (λ p. j ≤ p.0) pairs ((j, i) ∷ []) (All-map (λ p k. omega arith) pairs h)
      (omega arith))

put-append :
    (pairs rest : Pairs) (j i : ℕ)
    → All (λ p. suc j ≤ p.0) pairs
    → Map.put pairs j i ++ rest ≡ pairs ++ (j, i) ∷ rest
put-append pairs rest j i h = rw (put_fresh pairs j i h) (append_assoc pairs ((j, i) ∷ []) rest)

module _ {ℓ} {A : Type ℓ} ⦃e : Eq A⦄ (old_seg new_seg : List A) (old_offset new_offset : ℕ) where
  abbrev pub alike : ℕ → ℕ → Bool
  alike = same old_seg new_seg old_offset new_offset

  back_trace_step :
      (dp : List (List ℕ)) (i j : ℕ) (pairs both up left : Pairs)
      → get_or (get_or dp (suc i) []) j 0 ≡ lcs alike (suc i) j
      → get_or (get_or dp i []) (suc j) 0 ≡ lcs alike i (suc j)
      → back_trace old_seg new_seg old_offset new_offset dp i j (Map.put pairs j i)
        ≡ pairs ++ (j, i) ∷ both
      → back_trace old_seg new_seg old_offset new_offset dp i (suc j) pairs ≡ pairs ++ up
      → back_trace old_seg new_seg old_offset new_offset dp (suc i) j pairs ≡ pairs ++ left
      → back_trace old_seg new_seg old_offset new_offset dp (suc i) (suc j) pairs
        ≡ pairs
          ++ (if alike i j
              then (j, i) ∷ both
              else if leb (lcs alike (suc i) j) (lcs alike i (suc j))
              then up
              else left)
  unfolding back_trace
  back_trace_step dp i j pairs both up left across above eb eu el =
      rw (across, above)
        (elim (Bool-cases (alike i j)) [
          | inl e ↦ rw e eb
          | inr e ↦ elim (Bool-cases (leb (lcs alike (suc i) j) (lcs alike i (suc j)))) [
            | inl more ↦ rw (e, more) eu
            | inr less ↦ rw (e, less) el
          ]
        ])

  -- Behind the pairs found so far, whose new indices are higher, the loop adds the trace.
  back_trace-trace :
      (new_len old_len : ℕ) (dp : List (List ℕ))
      → IsTable old_seg new_seg old_offset new_offset new_len (suc old_len) dp
      → (i j : ℕ) (pairs : Pairs) → i ≤ old_len
      → j ≤ new_len
      → All (λ p. j ≤ p.0) pairs
      → back_trace old_seg new_seg old_offset new_offset dp i j pairs ≡ pairs ++ trace alike i j
  unfolding back_trace trace
  back_trace-trace new_len old_len dp t zero j pairs hi hj h = sym (append-nil pairs)
  back_trace-trace new_len old_len dp t (suc i) zero pairs hi hj h = sym (append-nil pairs)
  back_trace-trace new_len old_len dp t (suc i) (suc j) pairs hi hj h =
      back_trace_step dp i j pairs (trace alike i j) (trace alike i (suc j)) (trace alike (suc i) j)
        ((t.cells (suc i) (omega arith)).cells j (omega arith))
        ((t.cells i (omega arith)).cells (suc j) (omega arith))
        (back_trace-trace new_len old_len dp t i j (Map.put pairs j i) (omega arith) (omega arith)
            (put_kept pairs j i h)
          ∙ put-append pairs (trace alike i j) j i h)
        (back_trace-trace new_len old_len dp t i (suc j) pairs (omega arith) hj h)
        (back_trace-trace new_len old_len dp t (suc i) j pairs hi (omega arith)
          (All-map (λ p k. omega arith) pairs h))

  lcs_backtrace-trace :
      (old_len new_len : ℕ)
      → lcs_backtrace old_seg new_seg old_offset new_offset old_len new_len
        ≡ trace alike old_len new_len
  unfolding lcs_backtrace
  lcs_backtrace-trace old_len new_len =
      back_trace-trace new_len old_len _
        (dp_table-IsTable old_seg new_seg old_offset new_offset old_len new_len) old_len new_len []
        (omega arith) (omega arith) tt

  pub lcs_backtrace-IsTrace :
      (old_len new_len : ℕ)
      → IsTrace alike old_len new_len
          (lcs_backtrace old_seg new_seg old_offset new_offset old_len new_len)
  lcs_backtrace-IsTrace old_len new_len =
      rw (lcs_backtrace-trace old_len new_len) (trace-IsTrace alike old_len new_len)

  -- The backtrace pairs only lines with the same content inside the two ranges, and its old and its
  -- new indices both fall strictly from pair to pair, so no line is paired twice and no pairs cross.
  pub lcs_backtrace-Descending :
      (old_len new_len : ℕ)
      → All
          (λ p. get_elem? old_seg (old_offset + p.1) ≡ get_elem? new_seg (new_offset + p.0))
          (lcs_backtrace old_seg new_seg old_offset new_offset old_len new_len)
        × All
            (Below old_len new_len)
            (lcs_backtrace old_seg new_seg old_offset new_offset old_len new_len)
        × Descending (lcs_backtrace old_seg new_seg old_offset new_offset old_len new_len)
  lcs_backtrace-Descending old_len new_len =
      let t = lcs_backtrace-IsTrace old_len new_len in
      (
        All-map (λ p. same_at_sound old_seg new_seg (old_offset + p.1) (new_offset + p.0)) _
            t.equal,
        t.below,
        t.falls,
      )

  -- No way to pair equal lines of the two ranges in order finds more pairs than the backtrace.
  pub lcs_backtrace-longest :
      (old_len new_len : ℕ) {k : ℕ}
      → Matching alike old_len new_len k
      → k ≤ length (lcs_backtrace old_seg new_seg old_offset new_offset old_len new_len)
  lcs_backtrace-longest old_len new_len m =
      let t = lcs_backtrace-IsTrace old_len new_len in
      omega (arith, Matching-le-lcs alike m, t.size)
