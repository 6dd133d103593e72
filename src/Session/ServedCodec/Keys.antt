-- ===== src/Session/ServedCodec/Keys.antt =====
-- src/domain/session/served-codec.ts: the fingerprints that the groups hold.
use dsh_hashline_edittool.Base.{
  ℕ, suc, ◌+◌, ◌≤◌, ◌≡◌, refl, ap, sym, ◌∙◌, subst, true, false, List, [], ◌∷◌, Option, some, arith,
  if◌then◌else◌, length, All, Text, Bool-cases, Option-cases, inl, inr, nat_eq, text_eq, ◌===◌,
  ===_sound, ===_refl, ===_false, ===_of_ne,
}
use mathlib.Core.Option.{some-injective}
use dsh_hashline_edittool.Base.Map
use dsh_hashline_edittool.Session.ServedCodec.{anchor_value, anchor_of_length}
use dsh_hashline_edittool.Session.ServedCodec.Anchors.{anchor_of_length-anchor_value}
use dsh_hashline_edittool.Session.ServedCodec.Encode.{
  Groups, group_of, truncate_served_key, extended, add_entry, by_length,
}
use dsh_hashline_edittool.Session.ServedCodec.Lookup.{held}
use dsh_hashline_edittool.Session.ServedCodec.Collected.{
  IsStored, IsCollected, get-extended, add_entry-IsCollected,
}

-- The fingerprint of an anchor in some pairs: that of its last pair.
abbrev pub last_key : List (Text × Text) → Text → Option Text → Option Text
last_key [] anchor known = known
last_key ((other, key) ∷ entries) anchor known =
    last_key entries anchor (if other === anchor then some (truncate_served_key key) else known)

pub by_length-IsCollected :
    (n : ℕ) (groups : Groups) (entries : List (Text × Text))
    → All IsStored entries
    → IsCollected n groups
    → IsCollected (n + length entries) (by_length groups entries)
unfolding by_length
by_length-IsCollected n groups [] h c = subst (λ m. IsCollected m groups) (omega arith) c
by_length-IsCollected n groups (entry ∷ entries) (p, h) c =
    subst (λ m. IsCollected m (by_length (add_entry groups entry) entries)) (omega arith)
      (by_length-IsCollected (suc n) (add_entry groups entry) entries h
        (add_entry-IsCollected n groups entry p c))

pub nothing-IsCollected : IsCollected 0 []
unfolding Map.get
nothing-IsCollected = record {
  group = λ size. record { keyed = tt; few = omega arith; sized = tt; short = tt };
  sizes = tt;
  count = omega arith;
}

module _ (anchor : Text) (value : ℕ) (known : anchor_value anchor ≡ some value)
    (short : length anchor ≤ 8) where
  same_anchor :
      (other : Text) (v : ℕ)
      → anchor_value other ≡ some v
      → length other ≤ 8
      → length other ≡ length anchor
      → v ≡ value
      → other ≡ anchor
  same_anchor other v read fits sizes values =
      sym (anchor_of_length-anchor_value other v read fits).0
      ∙ ap (anchor_of_length v) sizes
      ∙ ap (λ n. anchor_of_length n (length anchor)) values
      ∙ (anchor_of_length-anchor_value anchor value known short).0

  held-add_entry :
      (groups : Groups) (other key : Text)
      → length other ≤ 8
      → held anchor value known short (add_entry groups (other, key)) ≡ (
          if other === anchor
          then some (truncate_served_key key)
          else held anchor value known short groups)
  unfolding add_entry
  held-add_entry groups other key fits = elim (Option-cases (anchor_value other)) [
    | inl unread ↦
        let apart : (other === anchor) ≡ false =
          ===_of_ne other anchor (λ e. cc (unread, known, ap anchor_value e)) in
        rw (unread, add_entry, apart)
    | inr (v, read) ↦
        let new = extended (Map.get groups (length other)) v (truncate_served_key key) in
        rw (read, add_entry, Map.get-put groups (length other) (length anchor) new)
          (elim (Bool-cases (length other === length anchor)) [
            | inr p ↦
                let apart : (other === anchor) ≡ false =
                  ===_of_ne other anchor
                    (λ e. ===_false (length other) (length anchor) p (ap length e)) in
                rw (p, apart)
            | inl p ↦
                let sizes = ===_sound (length other) (length anchor) p in
                rw
                  (
                    p,
                    get-extended (Map.get groups (length other)) v (truncate_served_key key) value,
                  )
                  (elim (Bool-cases (v === value)) [
                    | inl q ↦
                        let hit : (other === anchor) ≡ true =
                          ap (λ t. t === anchor)
                            (same_anchor other v read fits sizes (===_sound v value q))
                          ∙ ===_refl anchor in
                        rw (q, hit)
                    | inr q ↦
                        let apart : (other === anchor) ≡ false = ===_of_ne other anchor (λ e.
                          ===_false v value q
                            (some-injective v value (sym read ∙ ap anchor_value e ∙ known))) in
                        rw (q, apart) (ap (λ n. Map.get (group_of (Map.get groups n)) value) sizes)
                  ])
          ])
  ]

  pub held-by_length :
      (groups : Groups) (entries : List (Text × Text))
      → All IsStored entries
      → held anchor value known short (by_length groups entries)
        ≡ last_key entries anchor (held anchor value known short groups)
  unfolding by_length
  held-by_length groups [] h = refl
  held-by_length groups ((other, key) ∷ entries) ((fits, hex), h) =
      held-by_length (add_entry groups (other, key)) entries h
      ∙ ap (last_key entries anchor) (held-add_entry groups other key fits)
