-- ===== src/Session/ServedCodec/RoundTrip.antt =====
-- src/domain/session/served-codec.ts: the stored form, decoded.
use dsh_hashline_edittool.Base.{
  ℕ, ◌+◌, ◌<◌, ◌≤◌, ◌≡◌, refl, ap, sym, ◌∙◌, Bool, true, false, List, [], ◌∷◌, append-nil, map,
  Option, some, none, arith, length-map, leb, ◌>>=◌, if◌then◌else◌, length, has, All, All-map,
  All-everywhere, All-append, Text, nat_eq, text_eq,
}
use dsh_hashline_edittool.Base.Map
use dsh_hashline_edittool.Base.Sort.{All-sort, length-sort}
use dsh_hashline_edittool.Base.Number.{two_53}
use dsh_hashline_edittool.Session.ServedCodec.{Runtime, anchor_value, write_varint}
use dsh_hashline_edittool.Session.ServedCodec.Varint.{read_varint-write_varint, write_varint-bytes}
use dsh_hashline_edittool.Session.ServedCodec.Anchors.{eight}
use dsh_hashline_edittool.Session.ServedCodec.Encode.{
  Group, Groups, group_of, by_length, lengths_of, write_groups, write_payload,
  encode_served_anchors,
}
use dsh_hashline_edittool.Session.ServedCodec.Decode.{
  opens_with, read_payload, read_key, decode_served_anchors,
}
use dsh_hashline_edittool.Session.ServedCodec.Payload.{
  IsByte, IsRuntime, IsEntry, Fits, put_groups, read_groups-write_groups, write_groups-bytes,
}
use dsh_hashline_edittool.Session.ServedCodec.Lookup.{
  InSize, or_else, held, put_groups-held, lengths_of-none,
}
use dsh_hashline_edittool.Session.ServedCodec.Collected.{IsStored, IsShort, IsCollected}
use dsh_hashline_edittool.Session.ServedCodec.Keys.{
  last_key, by_length-IsCollected, nothing-IsCollected, held-by_length,
}

or_none : (key : Option Text) → or_else key none ≡ key
or_none none = refl
or_none (some key) = refl

-- the sizes that are written, and their groups
sizes-All :
    (groups : List (ℕ × Group))
    → All (λ (entry : ℕ × Group). entry.0 ≤ 8) groups
    → All (λ size. size ≤ 8) (map (λ (size, group). size) groups)
sizes-All [] h = tt
sizes-All ((size, group) ∷ groups) (p, h) = (p, sizes-All groups h)

lengths_of-All :
    (groups : Groups)
    → All (λ (entry : ℕ × Group). entry.0 ≤ 8) groups
    → All (λ size. size ≤ 8) (lengths_of groups)
unfolding lengths_of
lengths_of-All groups h = All-sort leb (λ size. size ≤ 8) _ (sizes-All groups h)

length-lengths_of : (groups : Groups) → length (lengths_of groups) ≡ length groups
unfolding lengths_of
length-lengths_of groups = length-sort leb _ ∙ length-map _ groups

entries-All :
    (size : ℕ) (group : Group)
    → size ≤ 8
    → All (InSize size) group
    → All IsShort group
    → All IsEntry group
entries-All size [] small h k = tt
entries-All size ((value, fingerprint) ∷ group) small (below, h) ((hex, short), k) =
    ((omega (arith, eight size small), hex, short), entries-All size group small h k)

module _ (n : ℕ) (groups : Groups) (exact : n < two_53) (c : IsCollected n groups) where
  collected-Fits : All (Fits groups) (lengths_of groups)
  collected-Fits =
      All-map
        (λ size small.
          let g = c.group size in
          (omega (arith, small), omega (arith, g.few), entries-All size _ small g.sized g.short))
        (lengths_of groups) (lengths_of-All groups c.sizes)

  collected-sized :
      All
        (λ size.
          All (InSize size) (group_of (Map.get groups size))
          × Map.Keyed (group_of (Map.get groups size)))
        (lengths_of groups)
  collected-sized =
      All-everywhere (lengths_of groups) (λ size. let g = c.group size in (g.sized, g.keyed))

module _ (runtime : Runtime) (laws : IsRuntime runtime) (entries : List (Text × Text)) where
  write_payload-bytes : All IsByte (write_payload runtime entries)
  unfolding write_payload
  write_payload-bytes =
      let groups = by_length [] entries in
      All-append IsByte (write_varint (length (lengths_of groups))) _
        (write_varint-bytes (length (lengths_of groups)))
        (write_groups-bytes runtime laws groups (lengths_of groups))

  read_payload-write_payload :
      All IsStored entries
      → length entries < two_53
      → read_payload (read_key runtime) (write_payload runtime entries)
        ≡ some (put_groups (by_length [] entries) (lengths_of (by_length [] entries)) [])
  unfolding read_payload write_payload
  read_payload-write_payload h exact =
      let groups = by_length [] entries in
      let c = by_length-IsCollected 0 [] entries h nothing-IsCollected in
      let small : 0 + length entries < two_53 = omega arith in
      let lengths = lengths_of groups in
      rw (
        read_varint-write_varint (length lengths) (write_groups runtime groups lengths)
            (omega (arith, length-lengths_of groups, c.count)),
        sym (append-nil (write_groups runtime groups lengths)),
        read_groups-write_groups runtime laws groups lengths [] []
            (collected-Fits (0 + length entries) groups small c),
      )

  decode-encode :
      All IsStored entries
      → length entries < two_53
      → decode_served_anchors runtime (encode_served_anchors runtime entries)
        ≡ some (put_groups (by_length [] entries) (lengths_of (by_length [] entries)) [])
  unfolding decode_served_anchors encode_served_anchors opens_with
  decode-encode h exact =
      ap (read_payload (read_key runtime))
        (laws.base64_back (write_payload runtime entries) write_payload-bytes)
      ∙ read_payload-write_payload h exact

-- What is stored is read back. Given a run-time whose hexadecimal and Base64 forms give their bytes
-- back, and fewer than 2^53 pairs of an anchor with at most eight characters and a fingerprint whose
-- first eight characters are lower-case hexadecimal digits, an even number of them: decoding the
-- stored form succeeds, and for every Base62 anchor of at most eight characters, its leading zeros
-- included, it finds the first eight characters of the fingerprint in the last pair with that anchor,
-- or nothing if no pair has it.
pub decode_served_anchors-encode_served_anchors :
    (runtime : Runtime) (laws : IsRuntime runtime) (entries : List (Text × Text)) (anchor : Text)
    (value : ℕ)
    → All IsStored entries
    → length entries < two_53
    → anchor_value anchor ≡ some value
    → length anchor ≤ 8
    → (decode_served_anchors runtime (encode_served_anchors runtime entries)
        >>= (λ served. some (Map.get served anchor)))
      ≡ some (last_key entries anchor none)
unfolding Map.get
decode_served_anchors-encode_served_anchors runtime laws entries anchor value h exact known short =
    let groups = by_length [] entries in
    let c = by_length-IsCollected 0 [] entries h nothing-IsCollected in
    let small : 0 + length entries < two_53 = omega arith in
    let found =
      put_groups-held anchor value known short groups (lengths_of groups) []
        (collected-sized (0 + length entries) groups small c) in
    rw (decode-encode runtime laws entries h exact) (
      ap some (
        found
        ∙ listed (has (length anchor) (lengths_of groups)) refl
        ∙ held-by_length anchor value known short [] entries h))
  where
    listed :
        (b : Bool)
        → has (length anchor) (lengths_of (by_length [] entries)) ≡ b
        → (if b then or_else (held anchor value known short (by_length [] entries)) none else none)
          ≡ held anchor value known short (by_length [] entries)
    listed true e = or_none (held anchor value known short (by_length [] entries))
    listed false e = rw (lengths_of-none (by_length [] entries) (length anchor) e)
