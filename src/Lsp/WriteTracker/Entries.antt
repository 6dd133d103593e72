-- ===== src/Lsp/WriteTracker/Entries.antt =====
-- src/lsp/write-tracker.ts: the entries as they enter and leave the map.
use dsh_hashline_edittool.Base.{
  ℕ, suc, ◌+◌, ◌-◌, ◌≤◌, ◌<◌, ◌≡◌, refl, sym, ap, ◌∙◌, subst, false, ◌||◌, [], ◌∷◌, ◌++◌, none,
  some, arith, ltb, length, Text, text_eq, ◌===◌, ===_sound, Bool-cases, inl, inr,
}
use mathlib.Core.Option.{some-injective}
use dsh_hashline_edittool.Base.Map
use dsh_hashline_edittool.Lsp.WriteTracker.{
  TrackedWrite, max_tracked, max_bytes, Writes, freed, evict,
}

-- The code units of all texts.
abbrev pub total : Writes → ℕ
total [] = 0
total ((uri, write) ∷ writes) = length write.text + total writes

-- No document has two entries.
abbrev pub Keyed : Writes → Type 0
Keyed [] = Unit
Keyed ((uri, write) ∷ writes) = (Map.get writes uri ≡ none) × Keyed writes

-- Each entry is newer than those in front of it, and none is newer than `newest`.
abbrev pub Ascending : ℕ → ℕ → Writes → Type 0
Ascending oldest newest [] = oldest ≤ newest
Ascending oldest newest ((uri, write) ∷ writes) =
    (oldest < write.generation) × Ascending write.generation newest writes

pub total-append : (writes more : Writes) → total (writes ++ more) ≡ total writes + total more
total-append [] more = omega arith
total-append ((uri, write) ∷ writes) more = omega (arith, total-append writes more)

pub total-delete :
    (writes : Writes) (uri : Text)
    → Keyed writes
    → total (Map.delete writes uri) + freed (Map.get writes uri) ≡ total writes
unfolding Map.get Map.delete
total-delete [] uri h = refl
total-delete ((other, write) ∷ writes) uri (h, k) = elim (Bool-cases (other === uri)) [
  | inl e ↦
      let gone : Map.get writes uri ≡ none =
        subst (λ u. Map.get writes u ≡ none) (===_sound other uri e) h in
      rw (e, Map.delete, Map.get) (omega (arith, ap total (Map.delete-none writes uri gone)))
  | inr e ↦ rw (e, Map.delete, Map.get) (omega (arith, total-delete writes uri k))
]

pub Keyed-delete : (writes : Writes) (uri : Text) → Keyed writes → Keyed (Map.delete writes uri)
unfolding Map.delete
Keyed-delete [] uri h = tt
Keyed-delete ((other, write) ∷ writes) uri (h, k) = elim (Bool-cases (other === uri)) [
  | inl e ↦ rw (e, Map.delete) (Keyed-delete writes uri k)
  | inr e ↦
      rw (e, Map.delete) (Map.get-delete writes uri other ∙ ground arith, Keyed-delete writes uri k)
]

pub Keyed-append :
    (writes : Writes) (uri : Text) (write : TrackedWrite)
    → Keyed writes
    → Map.get writes uri ≡ none
    → Keyed (writes ++ (uri, write) ∷ [])
unfolding Map.get
Keyed-append [] uri write k h = (refl, tt)
Keyed-append ((other, w) ∷ writes) uri write (g, k) h = elim (Bool-cases (other === uri)) [
  | inl e ↦ let found : some w ≡ none = (rw (e, Map.get) at h) in absurd (ground arith)
  | inr e ↦
      let absent : (uri === other) ≡ false =
        ground (arith, text_eq.equals_iff uri other, text_eq.equals_iff other uri) in
      (
        rw (absent) at (Map.get-append writes uri other write g),
        Keyed-append writes uri write k (rw (e, Map.get) at h),
      )
]

pub Ascending-tail :
    (oldest newest : ℕ) (entry : Text × TrackedWrite) (writes : Writes)
    → Ascending oldest newest (entry ∷ writes)
    → Ascending oldest newest writes
Ascending-tail oldest newest (uri, write) [] a = omega arith
Ascending-tail oldest newest (uri, write) ((other, w) ∷ writes) (lo, (mid, a)) = (omega arith, a)

pub Ascending-lower :
    (older oldest newest : ℕ) (writes : Writes)
    → older ≤ oldest
    → Ascending oldest newest writes
    → Ascending older newest writes
Ascending-lower older oldest newest [] h a = omega arith
Ascending-lower older oldest newest ((uri, write) ∷ writes) h (lo, a) = (omega arith, a)

pub Ascending-delete :
    (oldest newest : ℕ) (writes : Writes) (uri : Text)
    → Ascending oldest newest writes
    → Ascending oldest newest (Map.delete writes uri)
unfolding Map.delete
Ascending-delete oldest newest [] uri a = a
Ascending-delete oldest newest ((other, write) ∷ writes) uri (lo, a) =
    elim (Bool-cases (other === uri)) [
      | inl e ↦
          rw (e, Map.delete)
            (Ascending-lower oldest write.generation newest (Map.delete writes uri) (omega arith)
              (Ascending-delete write.generation newest writes uri a))
      | inr e ↦ rw (e, Map.delete) (lo, Ascending-delete write.generation newest writes uri a)
    ]

pub Ascending-append :
    (oldest newest : ℕ) (writes : Writes) (uri : Text) (write : TrackedWrite)
    → write.generation ≡ suc newest
    → Ascending oldest newest writes
    → Ascending oldest (suc newest) (writes ++ (uri, write) ∷ [])
Ascending-append oldest newest [] uri write g a = (omega arith, omega arith)
Ascending-append oldest newest ((other, w) ∷ writes) uri write g (lo, a) =
    (lo, Ascending-append w.generation newest writes uri write g a)

-- What survives when an entry leaves at the front survives the loop.
pub evict-tail {κ} :
    (P : Writes → Type κ)
    → ((entry : Text × TrackedWrite) (writes : Writes) → P (entry ∷ writes) → P writes)
    → (writes : Writes) (held : ℕ) → P writes
    → P (evict writes held).0
unfolding evict
evict-tail P tail [] held p = p
evict-tail P tail ((uri, write) ∷ writes) held p =
    elim (Bool-cases (ltb max_tracked (length ((uri, write) ∷ writes)) || ltb max_bytes held)) [
      | inl e ↦
          rw (e, evict)
            (evict-tail P tail writes (held - length write.text) (tail (uri, write) writes p))
      | inr e ↦ rw (e, evict) p
    ]

pub evict-counted :
    (writes : Writes) (held : ℕ)
    → held ≡ total writes
    → ((evict writes held).1 ≡ total (evict writes held).0)
      × ((evict writes held).1 ≤ max_bytes)
      × (length (evict writes held).0 ≤ max_tracked)
unfolding evict
evict-counted [] held h = (h, omega arith, omega arith)
evict-counted ((uri, write) ∷ writes) held h =
    elim (Bool-cases (ltb max_tracked (length ((uri, write) ∷ writes)) || ltb max_bytes held)) [
      | inl e ↦ rw (e, evict) (evict-counted writes (held - length write.text) (omega arith))
      | inr e ↦ rw (e, evict) (h, ground arith, ground arith)
    ]

pub length-delete : (writes : Writes) (uri : Text) → length (Map.delete writes uri) ≤ length writes
unfolding Map.delete
length-delete [] uri = omega arith
length-delete ((other, write) ∷ writes) uri = ground (arith, length-delete writes uri)

-- an entry rewritten in its place, with its text and its generation
pub put-total :
    (writes : Writes) (uri : Text) (old write : TrackedWrite)
    → Map.get writes uri ≡ some old
    → length write.text ≡ length old.text
    → (total (Map.put writes uri write) ≡ total writes)
      × (length (Map.put writes uri write) ≡ length writes)
unfolding Map.get Map.put
put-total [] uri old write h t = absurd (ground arith)
put-total ((other, w) ∷ writes) uri old write h t = elim (Bool-cases (other === uri)) [
  | inl e ↦
      let same : some w ≡ some old = rw (e, Map.get) at h in
      rw (e, Map.put) (omega (arith, t, ap (λ o. length o.text) (some-injective w old same)), refl)
  | inr e ↦
      let rest = put-total writes uri old write (rw (e, Map.get) at h) t in
      rw (e, Map.put) (omega (arith, rest.0), ap suc rest.1)
]

pub put-Ascending :
    (oldest newest : ℕ) (writes : Writes) (uri : Text) (old write : TrackedWrite)
    → Map.get writes uri ≡ some old
    → write.generation ≡ old.generation
    → Ascending oldest newest writes
    → Ascending oldest newest (Map.put writes uri write)
unfolding Map.get Map.put
put-Ascending oldest newest [] uri old write h g a = absurd (ground arith)
put-Ascending oldest newest ((other, w) ∷ writes) uri old write h g (lo, a) =
    elim (Bool-cases (other === uri)) [
      | inl e ↦
          let same : some w ≡ some old = rw (e, Map.get) at h in
          let kept : w.generation ≡ write.generation =
            ap (λ o. o.generation) (some-injective w old same) ∙ sym g in
          rw (e, Map.put) (omega (arith, kept), subst (λ n. Ascending n newest writes) kept a)
      | inr e ↦
          rw (e, Map.put)
            (lo, put-Ascending w.generation newest writes uri old write (rw (e, Map.get) at h) g a)
    ]

pub put-Keyed :
    (writes : Writes) (uri : Text) (old write : TrackedWrite)
    → Map.get writes uri ≡ some old
    → Keyed writes
    → Keyed (Map.put writes uri write)
unfolding Map.get Map.put
put-Keyed [] uri old write h k = absurd (ground arith)
put-Keyed ((other, w) ∷ writes) uri old write h (g, k) = elim (Bool-cases (other === uri)) [
  | inl e ↦ rw (e, Map.put) (g, k)
  | inr e ↦
      let apart : (uri === other) ≡ false =
        ground (arith, text_eq.equals_iff uri other, text_eq.equals_iff other uri) in
      rw (e, Map.put)
        (
          Map.get-put writes uri other write ∙ rw apart g,
          put-Keyed writes uri old write (rw (e, Map.get) at h) k,
        )
]
