-- ===== src/Session/ServedCodec/Decode.antt =====
-- src/domain/session/served-codec.ts: `decodeServedAnchors`.
use dsh_hashline_edittool.Base.{
  ℕ, zero, suc, Bool, true, false, ◌&&◌, List, [], ◌∷◌, Option, none, some, ltb, leb, ◌==◌,
  if◌then◌else◌, ◌>>=◌, length, take, drop, Text, codes, all, is_base62, nat_eq, text_eq,
}
use dsh_hashline_edittool.Base.Map
use dsh_hashline_edittool.Base.Number.{◌+ᶠ◌}
use dsh_hashline_edittool.Session.ServedCodec.{
  Octets, anchor_of_length, read_varint, Runtime, Json, JsonItem, null_item, string_item,
  other_item, array, envelope, other, Served,
}

unfoldable pub opens_with : Text → Text → Bool
opens_with s [] = true
opens_with [] (d ∷ t) = false
opens_with (c ∷ s) (d ∷ t) = c == d && opens_with s t

-- the entries that older stores hold as JSON
unfoldable pub anchors_of : List JsonItem → List (Text × Text) → Option (List (Text × Text))
unfolding all Map.put
anchors_of [] out = some out
anchors_of (null_item ∷ items) out = anchors_of items out
anchors_of (other_item ∷ items) out = none
anchors_of (string_item anchor ∷ items) out =
    let rest = anchors_of items (Map.put out anchor []) in
    if all is_base62 anchor && leb 1 (length anchor) && leb (length anchor) 8 then rest else none

unfoldable pub legacy_anchors : Option Json → Option (List (Text × Text))
unfolding anchors_of
legacy_anchors none = none
legacy_anchors (some (array items)) = anchors_of items []
legacy_anchors (some (envelope true (some items))) = anchors_of items []
legacy_anchors (some (envelope true none)) = none
legacy_anchors (some (envelope false items)) = none
legacy_anchors (some other) = none

-- the innermost loop of a payload: how a fingerprint is read, how many anchors are left, their length
unfoldable pub read_anchors :
    (Octets → Option (Text × Octets)) → ℕ → ℕ → ℕ → Octets → Served → Option (Served × Octets)
unfolding read_varint anchor_of_length Map.put
read_anchors read_key zero length previous bytes out = some (out, bytes)
read_anchors read_key (suc count) length previous bytes out = do
  (delta, bytes') ← read_varint bytes
  (fingerprint, bytes'') ← read_key bytes'
  read_anchors read_key count length (previous +ᶠ delta) bytes''
      (Map.put out (anchor_of_length (previous +ᶠ delta) length) fingerprint)

-- the loop over the groups
unfoldable pub read_groups :
    (Octets → Option (Text × Octets)) → ℕ → Octets → Served → Option (Served × Octets)
unfolding read_varint read_anchors
read_groups read_key zero bytes out = some (out, bytes)
read_groups read_key (suc groups) bytes out = do
  (length, bytes') ← read_varint bytes
  (count, bytes'') ← read_varint bytes'
  (out', bytes''') ← read_anchors read_key count length 0 bytes'' out
  read_groups read_key groups bytes''' out'

unfoldable pub read_payload : (Octets → Option (Text × Octets)) → Octets → Option Served
unfolding read_varint read_groups
read_payload read_key bytes = do
  (groups, bytes') ← read_varint bytes
  (out, bytes'') ← read_groups read_key groups bytes' []
  some out

-- the older payload has no fingerprints
abbrev pub no_key : Octets → Option (Text × Octets)
no_key bytes = some ([], bytes)

module _ (runtime : Runtime) where
  -- the bytes of a fingerprint
  abbrev pub key_at : ℕ → Octets → Option (Text × Octets)
  key_at size bytes =
      if ltb (length bytes) size
      then none
      else some (if size == 0 then [] else runtime.to_hex (take size bytes), drop size bytes)

  -- the fingerprint's length, and its bytes
  unfoldable pub read_key : Octets → Option (Text × Octets)
  unfolding read_varint
  read_key bytes = do (size, bytes') ← read_varint bytes; key_at size bytes'

  unfoldable pub decode_served_anchors : Text → Option Served
  unfolding opens_with read_payload read_key legacy_anchors
  decode_served_anchors raw =
      if opens_with raw (codes "~2")
      then read_payload read_key (runtime.from_base64 (drop 2 raw))
      else if opens_with raw (codes "~1")
      then read_payload no_key (runtime.from_base64 (drop 2 raw))
      else if opens_with raw (codes "~")
      then none
      else legacy_anchors (runtime.parse_json raw)
