-- ===== src/Session/ServedCodec/Encode.antt =====
-- src/domain/session/served-codec.ts: `encodeServedAnchors`.
use dsh_hashline_edittool.Base.{
  ℕ, ◌-◌, Bool, List, [], ◌∷◌, ◌++◌, map, Option, none, some, leb, length, take, Text, codes,
  nat_eq, text_eq,
}
use dsh_hashline_edittool.Base.Map
use dsh_hashline_edittool.Base.Sort.{sort}
use dsh_hashline_edittool.Session.ServedCodec.{Octets, anchor_value, write_varint, Runtime}

-- `SERVED_KEY_HEX`
abbrev pub served_key_hex : ℕ
served_key_hex = 8

unfoldable pub truncate_served_key : Text → Text
truncate_served_key key = take served_key_hex key

-- Anchors of one length by their values, and these by the length.
abbrev pub Group : Type 0
Group = List (ℕ × Text)

abbrev pub Groups : Type 0
Groups = List (ℕ × Group)

-- the group with one more entry, or a new one
abbrev pub extended : Option Group → ℕ → Text → Group
extended none value fingerprint = (value, fingerprint) ∷ []
extended (some group) value fingerprint = Map.put group value fingerprint

-- one round of the first loop
unfoldable pub add_entry : Groups → Text × Text → Groups
unfolding anchor_value truncate_served_key Map.get Map.put
add_entry groups (anchor, key) = elim (anchor_value anchor) [
  | none ↦ groups
  | some value ↦
      Map.put groups (length anchor)
        (extended (Map.get groups (length anchor)) value (truncate_served_key key))
]

unfoldable pub by_length : Groups → List (Text × Text) → Groups
unfolding add_entry
by_length groups [] = groups
by_length groups (entry ∷ entries) = by_length (add_entry groups entry) entries

-- the comparisons of the two sorts
abbrev pub value_le : ℕ × Text → ℕ × Text → Bool
value_le (a, s) (b, t) = leb a b

abbrev pub group_of : Option Group → Group
group_of none = []
group_of (some group) = group

-- the keys of the outer map, in order
unfoldable pub lengths_of : Groups → List ℕ
unfolding sort
lengths_of groups = sort leb (map (λ (size, group). size) groups)

module _ (runtime : Runtime) where
  -- the body of the innermost loop of the encoder, and the loop
  unfoldable pub write_anchors : Group → ℕ → Octets
  unfolding write_varint
  write_anchors [] previous = []
  write_anchors ((value, fingerprint) ∷ values) previous =
      write_varint (value - previous)
      ++ (write_varint (length (runtime.from_hex fingerprint))
          ++ (runtime.from_hex fingerprint ++ write_anchors values value))

  -- one length, and all of them
  unfoldable pub write_groups : Groups → List ℕ → Octets
  unfolding write_varint write_anchors sort Map.get
  write_groups groups [] = []
  write_groups groups (size ∷ lengths) =
      let values = sort value_le (group_of (Map.get groups size)) in
      write_varint size
      ++ (write_varint (length values) ++ (write_anchors values 0 ++ write_groups groups lengths))

  unfoldable pub write_payload : List (Text × Text) → Octets
  unfolding write_varint write_groups lengths_of by_length
  write_payload entries =
      let groups = by_length [] entries in
      write_varint (length (lengths_of groups)) ++ write_groups groups (lengths_of groups)

  unfoldable pub encode_served_anchors : List (Text × Text) → Text
  unfolding write_payload
  encode_served_anchors entries = codes "~2" ++ runtime.to_base64 (write_payload entries)
