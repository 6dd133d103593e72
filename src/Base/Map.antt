-- ===== src/Base/Map.antt =====
-- A `Map` or a plain object as the list of its entries in insertion order.
use mathlib.Core.Path.{◌≡◌, refl, ap, subst, ◌∙◌}
use mathlib.Core.Option.{Option, none, some, some-injective}
use mathlib.Core.List.{List, [], ◌∷◌, ◌++◌}
use native.Mathlib.Omega.{arith}
use dsh_hashline_edittool.Base.Tests.{if◌then◌else◌, Bool-cases}
use mathlib.Core.Logic.{inl, inr}
use mathlib.Core.Bool.{false}
use dsh_hashline_edittool.Base.Equality.{Eq, ◌===◌, ===_refl, ===_of_ne, ===_sound}
use dsh_hashline_edittool.Base.Lists.{All, All-map}

module _ {ℓ κ} {K : Type ℓ} {V : Type κ} ⦃e : Eq K⦄ where
  -- `m.get(k)`
  unfoldable pub get : List (K × V) → K → Option V
  get [] k = none
  get ((j, v) ∷ m) k = if j === k then some v else get m k

  -- `m.set(k, v)`: the entry of a known key keeps its place
  unfoldable pub put : List (K × V) → K → V → List (K × V)
  put [] k v = (k, v) ∷ []
  put ((j, w) ∷ m) k v = if j === k then (j, v) ∷ m else (j, w) ∷ put m k v

  pub get-put :
      (m : List (K × V)) (k j : K) (v : V)
      → get (put m k v) j ≡ (if k === j then some v else get m j)
  unfolding get put
  get-put [] k j v = refl
  get-put ((i, w) ∷ m) k j v =
      ground (arith, get-put m k j v, e.equals_iff i k, e.equals_iff i j, e.equals_iff k j)

  -- `m.delete(k)`; a key has one entry
  unfoldable pub delete : List (K × V) → K → List (K × V)
  delete [] k = []
  delete ((j, v) ∷ m) k = if j === k then delete m k else (j, v) ∷ delete m k

  pub get-delete :
      (m : List (K × V)) (k j : K) → get (delete m k) j ≡ (if k === j then none else get m j)
  unfolding get delete
  get-delete [] k j = ground arith
  get-delete ((i, w) ∷ m) k j =
      ground (arith, get-delete m k j, e.equals_iff i k, e.equals_iff i j, e.equals_iff k j)

  pub delete-none : (m : List (K × V)) (k : K) → get m k ≡ none → delete m k ≡ m
  unfolding get delete
  delete-none [] k h = refl
  delete-none ((i, w) ∷ m) k h = ground (arith, delete-none m k)

  pub get-append :
      (m : List (K × V)) (k j : K) (v : V)
      → get m j ≡ none
      → get (m ++ (k, v) ∷ []) j ≡ (if k === j then some v else none)
  unfolding get
  get-append [] k j v h = refl
  get-append ((i, w) ∷ m) k j v h = ground (arith, get-append m k j v)

  -- a last entry hides none in front of it
  pub get-append_some :
      (m : List (K × V)) (k j : K) (v w : V) → get m j ≡ some w → get (m ++ (k, v) ∷ []) j ≡ some w
  unfolding get
  get-append_some [] k j v w h = ground arith
  get-append_some ((i, u) ∷ m) k j v w h = ground (arith, get-append_some m k j v w)

  -- No key has two entries.
  abbrev pub Keyed : List (K × V) → Type κ
  Keyed [] = Unit
  Keyed ((k, v) ∷ m) = (get m k ≡ none) × Keyed m

  pub put-Keyed : (m : List (K × V)) (k : K) (v : V) → Keyed m → Keyed (put m k v)
  unfolding get put
  put-Keyed [] k v h = (refl, tt)
  put-Keyed ((j, w) ∷ m) k v (g, h) = elim (Bool-cases (j === k)) [
    | inl p ↦ rw (p, put) (g, h)
    | inr p ↦
        let apart : (k === j) ≡ false = ground (arith, e.equals_iff k j, e.equals_iff j k) in
        rw (p, put) (get-put m k j v ∙ rw apart g, put-Keyed m k v h)
  ]

  -- every entry is what a lookup of its key finds
  pub Keyed-All : (m : List (K × V)) → Keyed m → All (λ row. get m row.0 ≡ some row.1) m
  unfolding get
  Keyed-All [] h = tt
  Keyed-All ((k, v) ∷ m) (g, h) = (
    rw (===_refl k),
    All-map
        (λ row found. rw (===_of_ne k row.0 λ same. absurd (cc (found, g, ap (get m) same))) found)
        m (Keyed-All m h),
  )

  -- what holds of every entry holds of one that a lookup finds
  pub All-get {κ'} :
      (P : K × V → Type κ') (m : List (K × V)) (k : K) (v : V)
      → All P m
      → get m k ≡ some v
      → P (k, v)
  unfolding get
  All-get P [] k v h found = absurd (cc found)
  All-get P ((j, w) ∷ m) k v (p, h) found = elim (Bool-cases (j === k)) [
    | inr q ↦ All-get P m k v h (rw (q, get) at found)
    | inl q ↦
        subst (λ key. P (key, v)) (===_sound j k q)
          (subst (λ value. P (j, value)) (some-injective w v (rw (q, get) at found)) p)
  ]
