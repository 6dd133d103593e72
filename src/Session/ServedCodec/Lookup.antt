-- ===== src/Session/ServedCodec/Lookup.antt =====
-- src/domain/session/served-codec.ts: the entries of the decoded map.
use dsh_hashline_edittool.Base.{
  ℕ, ◌<◌, ◌≤◌, ◌^◌, ◌≡◌, ◌≢◌, refl, ap, sym, ◌∙◌, Bool, true, false, ◌||◌, subst, List, [], ◌∷◌,
  map, Option, some, none, arith, leb, if◌then◌else◌, length, has, All, Text, Bool-cases, inl, inr,
  nat_eq, text_eq, ◌===◌, ===_sound, ===_refl, ===_false, ===_of_ne,
}
use dsh_hashline_edittool.Base.Map
use dsh_hashline_edittool.Base.Sort.{sort, insert, All-sort}
use dsh_hashline_edittool.Session.ServedCodec.{Served, anchor_value, anchor_of_length}
use dsh_hashline_edittool.Session.ServedCodec.Anchors.{
  anchor_of_length-anchor_value, anchor_of_length-injective, length-anchor_of_length,
}
use dsh_hashline_edittool.Session.ServedCodec.Encode.{Group, Groups, value_le, group_of, lengths_of}
use dsh_hashline_edittool.Session.ServedCodec.Payload.{put_group, put_groups}

abbrev pub or_else : Option Text → Option Text → Option Text
or_else none other = other
or_else (some key) other = some key

get-insert :
    (value : ℕ) (fingerprint : Text) (values : Group) (v : ℕ)
    → Map.get values value ≡ none
    → Map.get (insert value_le (value, fingerprint) values) v
      ≡ Map.get ((value, fingerprint) ∷ values) v
unfolding Map.get insert
get-insert value fingerprint [] v h = refl
get-insert value fingerprint ((next, key) ∷ values) v h = ground (
  arith,
  get-insert value fingerprint values v,
  nat_eq.equals_iff value v,
  nat_eq.equals_iff next v,
  nat_eq.equals_iff next value,
)

pub get-sort :
    (values : Group) (v : ℕ)
    → Map.Keyed values
    → Map.get (sort value_le values) v ≡ Map.get values v
unfolding Map.get sort
get-sort [] v h = refl
get-sort ((value, fingerprint) ∷ values) v (g, h) =
    get-insert value fingerprint (sort value_le values) v (get-sort values value h ∙ g)
    ∙ (unfold Map.get in ground (arith, get-sort values v h))

insert-Keyed :
    (value : ℕ) (fingerprint : Text) (values : Group)
    → Map.get values value ≡ none
    → Map.Keyed values
    → Map.Keyed (insert value_le (value, fingerprint) values)
unfolding Map.get insert
insert-Keyed value fingerprint [] h k = (refl, tt)
insert-Keyed value fingerprint ((next, key) ∷ values) h (g, k) =
    elim (Bool-cases (leb value next)) [
      | inl p ↦ rw (p, insert) (h, (g, k))
      | inr p ↦
          let behind : Map.get values value ≡ none = ground (arith, nat_eq.equals_iff next value) in
          rw (p, insert)
            (
              get-insert value fingerprint values next behind
                  ∙ ground (arith, nat_eq.equals_iff next value, nat_eq.equals_iff value next),
              insert-Keyed value fingerprint values behind k,
            )
    ]

pub sort-Keyed : (values : Group) → Map.Keyed values → Map.Keyed (sort value_le values)
unfolding sort
sort-Keyed [] h = tt
sort-Keyed ((value, fingerprint) ∷ values) (g, h) =
    insert-Keyed value fingerprint (sort value_le values) (get-sort values value h ∙ g)
      (sort-Keyed values h)

twice :
    (n size : ℕ) (more : Bool) (key base : Option Text)
    → (if more
        then or_else key (if size === n then or_else key base else base)
        else (if size === n then or_else key base else base))
      ≡ (if n === size || more then or_else key base else base)
twice n size more none base = ground (arith, nat_eq.equals_iff n size, nat_eq.equals_iff size n)
twice n size more (some key) base =
    ground (arith, nat_eq.equals_iff n size, nat_eq.equals_iff size n)

-- The value is one of an anchor of `size` characters.
abbrev pub InSize : ℕ → ℕ × Text → Type 0
InSize size (value, fingerprint) = value < 62 ^ size

module _ (anchor : Text) (value : ℕ) (known : anchor_value anchor ≡ some value)
    (short : length anchor ≤ 8) where
  -- anchors of another length are other anchors
  put_group-other :
      (size : ℕ) (values : Group) (out : Served)
      → size ≢ length anchor
      → Map.get (put_group size values out) anchor ≡ Map.get out anchor
  put_group-other size [] out n = refl
  put_group-other size ((w, fingerprint) ∷ values) out n =
      put_group-other size values (Map.put out (anchor_of_length w size) fingerprint) n
      ∙ Map.get-put out (anchor_of_length w size) anchor fingerprint
      ∙ (elim (Bool-cases (anchor_of_length w size === anchor)) [
        | inl p ↦ absurd (
            n (
              sym (length-anchor_of_length w size)
              ∙ ap length (===_sound (anchor_of_length w size) anchor p)))
        | inr p ↦ rw p
      ])

  put_group-own :
      (values : Group) (out : Served)
      → All (InSize (length anchor)) values
      → Map.Keyed values
      → Map.get (put_group (length anchor) values out) anchor
        ≡ or_else (Map.get values value) (Map.get out anchor)
  unfolding Map.get
  put_group-own [] out h k = refl
  put_group-own ((w, fingerprint) ∷ values) out (small, h) (g, k) =
      let (back, below) = anchor_of_length-anchor_value anchor value known short in
      let written = anchor_of_length w (length anchor) in
      put_group-own values (Map.put out written fingerprint) h k
      ∙ ap (or_else (Map.get values value)) (Map.get-put out written anchor fingerprint)
      ∙ (elim (Bool-cases (w === value)) [
        | inl p ↦
            let same = ===_sound w value p in
            let gone : Map.get values value ≡ none = ap (Map.get values) (sym same) ∙ g in
            let hit : (written === anchor) ≡ true =
              ap (λ t. t === anchor) (ap (λ n. anchor_of_length n (length anchor)) same ∙ back)
              ∙ ===_refl anchor in
            rw (hit, gone, p, Map.get)
        | inr p ↦
            let miss : (written === anchor) ≡ false = ===_of_ne written anchor (λ e.
              ===_false w value p
                (anchor_of_length-injective (length anchor) w value small below (e ∙ sym back))) in
            rw (miss, p, Map.get)
      ])

  -- the fingerprint that the groups hold for the anchor
  abbrev pub held : Groups → Option Text
  held groups = Map.get (group_of (Map.get groups (length anchor))) value

  put_group-held :
      (groups : Groups) (size : ℕ) (out : Served)
      → All (InSize size) (group_of (Map.get groups size))
      → Map.Keyed (group_of (Map.get groups size))
      → Map.get (put_group size (sort value_le (group_of (Map.get groups size))) out) anchor ≡ (
          if size === length anchor
          then or_else (held groups) (Map.get out anchor)
          else Map.get out anchor)
  put_group-held groups size out h k = elim (Bool-cases (size === length anchor)) [
    | inr p ↦ rw p (
        put_group-other size (sort value_le (group_of (Map.get groups size))) out
          (===_false size (length anchor) p))
    | inl p ↦
        let same = ===_sound size (length anchor) p in
        let values = group_of (Map.get groups (length anchor)) in
        let keyed = subst (λ n. Map.Keyed (group_of (Map.get groups n))) same k in
        rw p (
          ap (λ n. Map.get (put_group n (sort value_le (group_of (Map.get groups n))) out) anchor)
            same
          ∙ put_group-own (sort value_le values) out
              (All-sort value_le (InSize (length anchor)) values
                (subst (λ n. All (InSize n) (group_of (Map.get groups n))) same h))
              (sort-Keyed values keyed)
          ∙ ap (λ o. or_else o (Map.get out anchor)) (get-sort values value keyed))
  ]

  pub put_groups-held :
      (groups : Groups) (lengths : List ℕ) (out : Served)
      → All
          (λ size.
            All (InSize size) (group_of (Map.get groups size))
            × Map.Keyed (group_of (Map.get groups size)))
          lengths
      → Map.get (put_groups groups lengths out) anchor ≡ (
          if has (length anchor) lengths
          then or_else (held groups) (Map.get out anchor)
          else Map.get out anchor)
  put_groups-held groups [] out h = refl
  put_groups-held groups (size ∷ lengths) out ((small, keyed), h) =
      put_groups-held groups lengths
        (put_group size (sort value_le (group_of (Map.get groups size))) out) h
      ∙ rw (put_group-held groups size out small keyed) (
          twice (length anchor) size (has (length anchor) lengths) (held groups)
            (Map.get out anchor))

has-insert : (n x : ℕ) (xs : List ℕ) → has n (insert leb x xs) ≡ has n (x ∷ xs)
unfolding insert
has-insert n x [] = refl
has-insert n x (y ∷ xs) = ground (arith, has-insert n x xs)

pub has-sort : (n : ℕ) (xs : List ℕ) → has n (sort leb xs) ≡ has n xs
unfolding sort
has-sort n [] = refl
has-sort n (x ∷ xs) = has-insert n x (sort leb xs) ∙ ap (λ b. n === x || b) (has-sort n xs)

get-unlisted :
    (groups : Groups) (n : ℕ)
    → has n (map (λ (size, group). size) groups) ≡ false
    → Map.get groups n ≡ none
unfolding Map.get
get-unlisted [] n h = refl
get-unlisted ((size, group) ∷ groups) n h =
    ground (arith, get-unlisted groups n, nat_eq.equals_iff n size, nat_eq.equals_iff size n)

-- a length that is not written has no group
pub lengths_of-none :
    (groups : Groups) (n : ℕ) → has n (lengths_of groups) ≡ false → Map.get groups n ≡ none
unfolding lengths_of
lengths_of-none groups n h = get-unlisted groups n (sym (has-sort n _) ∙ h)
