-- ===== src/Base/Equality.antt =====
-- The source's `===` as an interface, with its instances at numbers, texts and booleans.
use Prim.Native.Nat.{ℕ}
use mathlib.Core.Path.{◌≡◌, refl, sym}
use mathlib.Core.Logic.{◌↔◌, ◌≢◌, inl, inr}
use mathlib.Core.Bool.{Bool, true, false, ◌&&◌, ◌||◌}
use mathlib.Core.List.{List, [], ◌∷◌}
use native.Mathlib.Omega.{arith}
use dsh_hashline_edittool.Base.Tests.{◌==◌, ==_iff, Bool-cases}
use dsh_hashline_edittool.Base.Lists.{All}

pub record Eq {ℓ} (A : Type ℓ) : Type ℓ where
  pub equals : A → A → Bool
  pub equals_iff : (a b : A) → (equals a b ≡ true) ↔ (a ≡ b)

abbrev same_number : ℕ → ℕ → Bool
same_number a b = a == b

instance abbrev pub nat_eq : Eq ℕ
nat_eq = record { equals = same_number; equals_iff = ==_iff }

-- Two texts are the same sequence of code units.
abbrev pub same_text : List ℕ → List ℕ → Bool
same_text [] [] = true
same_text (c ∷ s) (d ∷ t) = c == d && same_text s t
same_text _ _ = false

pub same_text_sound : (s t : List ℕ) → same_text s t ≡ true → s ≡ t
same_text_sound [] [] h = refl
same_text_sound (c ∷ s) (d ∷ t) h = ground (arith, same_text_sound s t)
same_text_sound [] (d ∷ t) h = cc
same_text_sound (c ∷ s) [] h = cc

pub same_text_refl : (s : List ℕ) → same_text s s ≡ true
same_text_refl [] = refl
same_text_refl (c ∷ s) = ground (arith, same_text_refl s)

pub same_text_iff : (s t : List ℕ) → (same_text s t ≡ true) ↔ (s ≡ t)
same_text_iff s t = (same_text_sound s t, λ e. ground (arith, same_text_refl s))

instance abbrev pub text_eq : Eq (List ℕ)
text_eq = record { equals = same_text; equals_iff = same_text_iff }

infix 50 ◌===◌
abbrev pub ◌===◌ {ℓ} : {A : Type ℓ} ⦃e : Eq A⦄ → A → A → Bool
◌===◌ ⦃e⦄ = e.equals

module _ {ℓ} {A : Type ℓ} ⦃e : Eq A⦄ where
  pub ===_refl : (a : A) → (a === a) ≡ true
  ===_refl a = (e.equals_iff a a).1 refl

  pub ===_sound : (a b : A) → (a === b) ≡ true → a ≡ b
  ===_sound a b = (e.equals_iff a b).0

  pub ===_false : (a b : A) → (a === b) ≡ false → a ≢ b
  ===_false a b h p = cc (h, (e.equals_iff a b).1 p)

  pub ===_of_ne : (a b : A) → a ≢ b → (a === b) ≡ false
  ===_of_ne a b h = elim (Bool-cases (a === b)) [ inl p ↦ absurd (h (===_sound a b p)) | inr p ↦ p ]

  -- `Set.has` on a set that is kept as the list of its items
  abbrev pub has : A → List A → Bool
  has a [] = false
  has a (x ∷ xs) = a === x || has a xs

  pub has-false : (a : A) (xs : List A) → has a xs ≡ false → All (λ x. x ≢ a) xs
  has-false a [] h = tt
  has-false a (x ∷ xs) h = elim (Bool-cases (a === x)) [
    | inl p ↦ absurd (cc (p, h))
    | inr p ↦ ((λ q. ===_false a x p (sym q)), has-false a xs (cc (p, h)))
  ]
