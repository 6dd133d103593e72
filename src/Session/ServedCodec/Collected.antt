-- ===== src/Session/ServedCodec/Collected.antt =====
-- src/domain/session/served-codec.ts: the groups that the encoder collects.
use dsh_hashline_edittool.Base.{
  ℕ, suc, ◌<◌, ◌≤◌, ◌^◌, ◌≡◌, refl, sym, subst, List, [], ◌∷◌, Option, some, none, arith,
  if◌then◌else◌, length, All, length-take, Text, Bool-cases, Option-cases, inl, inr, nat_eq,
  text_eq, ◌===◌, ===_sound,
}
use dsh_hashline_edittool.Base.Map
use dsh_hashline_edittool.Session.ServedCodec.{anchor_value}
use dsh_hashline_edittool.Session.ServedCodec.Anchors.{anchor_of_length-anchor_value}
use dsh_hashline_edittool.Session.ServedCodec.Encode.{
  Group, Groups, group_of, truncate_served_key, extended, add_entry,
}
use dsh_hashline_edittool.Session.ServedCodec.Payload.{IsHex}
use dsh_hashline_edittool.Session.ServedCodec.Lookup.{InSize}

-- An entry as this program stores it: an anchor of at most eight characters, and a fingerprint whose
-- first eight characters are hexadecimal text.
abbrev pub IsStored : Text × Text → Type 0
IsStored (anchor, key) = (length anchor ≤ 8) × IsHex (truncate_served_key key)

abbrev pub IsShort : ℕ × Text → Type 0
IsShort (value, fingerprint) = IsHex fingerprint × (length fingerprint ≤ 8)

-- A group of anchors of `size` characters, of at most `n` of them.
pub record IsGroup (n size : ℕ) (group : Group) : Type 0 where
  pub keyed : Map.Keyed group
  pub few : length group ≤ n
  pub sized : All (InSize size) group
  pub short : All IsShort group

length-put {ℓ} :
    {V : Type ℓ} (m : List (ℕ × V)) (k : ℕ) (v : V) → length (Map.put m k v) ≤ suc (length m)
unfolding Map.put
length-put [] k v = omega arith
length-put ((j, w) ∷ m) k v = ground (arith, length-put m k v)

put-All {ℓ κ} :
    {V : Type ℓ} (P : ℕ × V → Type κ) (m : List (ℕ × V)) (k : ℕ) (v : V)
    → P (k, v)
    → All P m
    → All P (Map.put m k v)
unfolding Map.put
put-All P [] k v p h = (p, tt)
put-All P ((j, w) ∷ m) k v p (q, h) = elim (Bool-cases (j === k)) [
  | inl e ↦ rw (e, Map.put) (subst (λ i. P (i, v)) (sym (===_sound j k e)) p, h)
  | inr e ↦ rw (e, Map.put) (q, put-All P m k v p h)
]

extended-IsGroup :
    (n size : ℕ) (group : Option Group) (value : ℕ) (fingerprint : Text)
    → value < 62 ^ size
    → IsShort (value, fingerprint)
    → IsGroup n size (group_of group)
    → IsGroup (suc n) size (extended group value fingerprint)
unfolding Map.get
extended-IsGroup n size none value fingerprint small short h = record {
  keyed = (refl, tt);
  few = omega arith;
  sized = (small, tt);
  short = (short, tt);
}
extended-IsGroup n size (some group) value fingerprint small short h = record {
  keyed = Map.put-Keyed group value fingerprint h.keyed;
  few = omega (arith, h.few, length-put group value fingerprint);
  sized = put-All (InSize size) group value fingerprint small h.sized;
  short = put-All IsShort group value fingerprint short h.short;
}

pub get-extended :
    (group : Option Group) (value : ℕ) (fingerprint : Text) (v : ℕ)
    → Map.get (extended group value fingerprint) v
      ≡ (if value === v then some fingerprint else Map.get (group_of group) v)
get-extended none value fingerprint v = unfold Map.get in refl
get-extended (some group) value fingerprint v = Map.get-put group value v fingerprint

-- What the encoder has collected from `n` entries.
pub record IsCollected (n : ℕ) (groups : Groups) : Type 0 where
  pub group : (size : ℕ) → IsGroup n size (group_of (Map.get groups size))
  pub sizes : All (λ (entry : ℕ × Group). entry.0 ≤ 8) groups
  pub count : length groups ≤ n

IsGroup-more : (n size : ℕ) (group : Group) → IsGroup n size group → IsGroup (suc n) size group
IsGroup-more n size group h = record {
  keyed = h.keyed;
  few = omega (arith, h.few);
  sized = h.sized;
  short = h.short;
}

pub add_entry-IsCollected :
    (n : ℕ) (groups : Groups) (entry : Text × Text)
    → IsStored entry
    → IsCollected n groups
    → IsCollected (suc n) (add_entry groups entry)
unfolding add_entry truncate_served_key
add_entry-IsCollected n groups (anchor, key) (short, hex) h =
    elim (Option-cases (anchor_value anchor)) [
      | inl none_read ↦
          rw (none_read, add_entry)
            (record {
              group = λ size. IsGroup-more n size _ (h.group size);
              sizes = h.sizes;
              count = omega (arith, h.count);
            })
      | inr (value, read) ↦
          let size = length anchor in
          let new = extended (Map.get groups size) value (truncate_served_key key) in
          let below = (anchor_of_length-anchor_value anchor value read short).1 in
          let stays =
            extended-IsGroup n size (Map.get groups size) value (truncate_served_key key) below
              (hex, omega (arith, length-take 8 key)) (h.group size) in
          rw (read, add_entry)
            (record {
              group = λ other. elim (Bool-cases (size === other)) [
                | inl p ↦
                    rw (Map.get-put groups size other new, p)
                      (subst (λ i. IsGroup (suc n) i new) (===_sound size other p) stays)
                | inr p ↦
                    rw (Map.get-put groups size other new, p)
                      (IsGroup-more n other _ (h.group other))
              ];
              sizes = put-All (λ (entry : ℕ × Group). entry.0 ≤ 8) groups size new short h.sizes;
              count = omega (arith, h.count, length-put groups size new);
            })
    ]
