-- ===== src/Patch/Readers.antt =====
-- src/domain/patch/parse.ts: the results of the readers of headers.
use mathlib.Core.Option.{some-injective}
use dsh_hashline_edittool.Base.{
  ℕ, ◌≡◌, ◌≢◌, refl, true, false, ◌&&◌, ◌||◌, List, [], ◌∷◌, Option, none, some, Text, Bool-cases,
  Option-cases, inl, inr, arith, subst, is_digit, ◌==◌,
}
use dsh_hashline_edittool.Base.Space.{trim}
use dsh_hashline_edittool.Patch.Types.{
  SectionKind, file, new, move, remove, HunkKind, replace, insert, delete, Parsed, parsed, refused,
  ◌>>=◌, Reason,
}
use dsh_hashline_edittool.Patch.Reading.{
  is_empty, is_anchor, weak_tail, weak_anchor, read_anchor, cut_first, cut_last, is_insert,
  read_hunk_header, is_move, read_section_header,
}

-- A result that holds of `P` unless it is a refusal.
pub data Yields {ℓ κ} {A : Type ℓ} (P : A → Type κ) : Parsed A → Type (ℓ ⊔ κ) where
  refuses : {line : ℕ} {reason : Reason} → Yields P (refused line reason)
  yields : {a : A} → P a → Yields P (parsed a)

module _ {ℓ κ ℓ' κ'} {A : Type ℓ} {B : Type ℓ'} {P : A → Type κ} {Q : B → Type κ'} where
  pub Yields-bind :
      {m : Parsed A} {f : A → Parsed B}
      → Yields P m
      → ((a : A) → P a → Yields Q (f a))
      → Yields Q (m >>= f)
  Yields-bind refuses k = refuses
  Yields-bind (yields p) k = k _ p

pub Yields-parsed {ℓ κ} :
    {A : Type ℓ} {P : A → Type κ} {m : Parsed A} {a : A} → Yields P m → m ≡ parsed a → P a
Yields-parsed refuses e = ground arith
Yields-parsed {P = P} {a = b} (yields {a} p) e = let same : a ≡ b = ground arith in subst P same p

pub is_empty-ne-nil {ℓ} : {A : Type ℓ} (xs : List A) → is_empty xs ≡ false → xs ≢ []
is_empty-ne-nil [] h e = cc
is_empty-ne-nil (x ∷ xs) h e = cc

weak_tail-is_anchor :
    (text : Text) {anchor : Text} → weak_tail text ≡ some anchor → is_anchor anchor ≡ true
unfolding weak_tail
weak_tail-is_anchor [] h = ground arith
weak_tail-is_anchor (c ∷ text) {anchor} h = elim (Bool-cases (is_digit c)) [
  | inl d ↦ weak_tail-is_anchor text (rw d at h)
  | inr d ↦ elim (Bool-cases (c == b':' && is_anchor text)) [
    | inl both ↦
        let same : text ≡ anchor = some-injective _ _ (rw (d, both) at h) in
        subst (λ t. is_anchor t ≡ true) same (ground arith)
    | inr neither ↦ ground arith
  ]
]

weak_anchor-is_anchor :
    (text : Text) {anchor : Text} → weak_anchor text ≡ some anchor → is_anchor anchor ≡ true
unfolding weak_anchor
weak_anchor-is_anchor [] h = ground arith
weak_anchor-is_anchor (c ∷ text) {anchor} h =
    ground (arith, weak_tail-is_anchor text {anchor = anchor})

pub read_anchor-is_anchor :
    (spec : Text) (line_number : ℕ)
    → Yields (λ a. is_anchor a ≡ true) (read_anchor spec line_number)
unfolding read_anchor
read_anchor-is_anchor spec line_number = elim (Bool-cases (is_empty (trim spec))) [
  | inl e ↦ rw (e, read_anchor) refuses
  | inr e ↦ elim (Option-cases (weak_anchor (trim spec))) [
    | inr (anchor, w) ↦ rw (e, w, read_anchor) (yields (weak_anchor-is_anchor (trim spec) w))
    | inl w ↦ elim (Bool-cases (is_anchor (trim spec))) [
      | inl a ↦ rw (e, w, a, read_anchor) (yields a)
      | inr a ↦ rw (e, w, a, read_anchor) refuses
    ]
  ]
]

-- The end of a range is an anchor; an insertion has none.
abbrev pub IsEnd : HunkKind → Option Text → Type 0
IsEnd kind none = Unit
IsEnd insert (some anchor_end) = ⊥
IsEnd replace (some anchor_end) = is_anchor anchor_end ≡ true
IsEnd delete (some anchor_end) = is_anchor anchor_end ≡ true

IsEnd-range :
    (kind : HunkKind) (anchor : Text)
    → is_insert kind ≡ false
    → is_anchor anchor ≡ true
    → IsEnd kind (some anchor)
IsEnd-range insert anchor i a = cc
IsEnd-range replace anchor i a = a
IsEnd-range delete anchor i a = a

pub read_hunk_header-IsEnd :
    (payload : Text) (kind : HunkKind) (line_number : ℕ)
    → Yields
        (λ r. (is_anchor r.0 ≡ true) × IsEnd kind r.1)
        (read_hunk_header payload kind line_number)
unfolding read_hunk_header
read_hunk_header-IsEnd payload kind line_number =
    elim (Option-cases (cut_first b'.' b'.' payload)) [
      | inl c ↦
          rw (c, read_hunk_header)
            (Yields-bind (read_anchor-is_anchor payload line_number) λ a p. yields (p, tt))
      | inr ((before, behind), c) ↦ elim (Bool-cases (is_insert kind)) [
        | inl i ↦ rw (c, i, read_hunk_header) refuses
        | inr i ↦
            rw (c, i, read_hunk_header)
              (Yields-bind (read_anchor-is_anchor before line_number) λ a p.
                Yields-bind (read_anchor-is_anchor behind line_number)
                  λ b q. yields (p, IsEnd-range kind b i q))
      ]
    ]

-- A `move` names where the file goes, the other sections do not.
abbrev pub IsDestination : SectionKind → Option Text → Type 0
IsDestination file destination = destination ≡ none
IsDestination new destination = destination ≡ none
IsDestination remove destination = destination ≡ none
IsDestination move none = ⊥
IsDestination move (some destination) = destination ≢ []

IsDestination-none : (kind : SectionKind) → is_move kind ≡ false → IsDestination kind none
IsDestination-none file m = refl
IsDestination-none new m = refl
IsDestination-none remove m = refl
IsDestination-none move m = cc

IsDestination-some :
    (kind : SectionKind) (d : Text) → is_move kind ≡ true → d ≢ [] → IsDestination kind (some d)
IsDestination-some file d m h = absurd (ground arith)
IsDestination-some new d m h = absurd (ground arith)
IsDestination-some remove d m h = absurd (ground arith)
IsDestination-some move d m h = h

pub read_section_header-IsDestination :
    (payload : Text) (kind : SectionKind) (line_number : ℕ)
    → Yields
        (λ r. (r.0 ≢ []) × IsDestination kind r.1)
        (read_section_header payload kind line_number)
unfolding read_section_header
read_section_header-IsDestination payload kind line_number = elim (Bool-cases (is_move kind)) [
  | inl m ↦ elim (Option-cases (cut_last b'-' b'>' payload)) [
    | inl c ↦ rw (m, c, read_section_header) refuses
    | inr ((before, behind), c) ↦
        elim (Bool-cases (is_empty (trim before) || is_empty (trim behind))) [
          | inl e ↦ rw (m, c, e, read_section_header) refuses
          | inr e ↦
              rw (m, c, e, read_section_header)
                (yields (
                  is_empty-ne-nil (trim before) (ground arith),
                  IsDestination-some kind (trim behind) m
                      (is_empty-ne-nil (trim behind) (ground arith)),
                ))
        ]
  ]
  | inr m ↦ elim (Bool-cases (is_empty payload)) [
    | inl e ↦ rw (m, e, read_section_header) refuses
    | inr e ↦
        rw (m, e, read_section_header)
          (yields (is_empty-ne-nil payload e, IsDestination-none kind m))
  ]
]
