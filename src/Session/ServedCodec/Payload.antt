-- ===== src/Session/ServedCodec/Payload.antt =====
-- src/domain/session/served-codec.ts: a payload that was written, read byte for byte.
use dsh_hashline_edittool.Base.{
  ℕ, ◌-◌, ◌*◌, ◌%◌, ◌<◌, ◌≤◌, ◌≡◌, refl, ap, sym, ◌∙◌, Bool, true, false, ◌&&◌, ◌||◌, List, [], ◌∷◌,
  ◌++◌, append_assoc, some, arith, ltb, leb, ◌==◌, length, length-append, take-append_length,
  drop-append_length, all, All, All-append, Text, Bool-cases, inl, inr, nat_eq, text_eq,
}
use dsh_hashline_edittool.Base.Map
use dsh_hashline_edittool.Base.Sort.{sort, insert, length-sort, All-sort}
use dsh_hashline_edittool.Base.Number.{two_53, ◌+ᶠ◌}
use dsh_hashline_edittool.Session.ServedCodec.{
  Octets, Runtime, Served, anchor_of_length, write_varint,
}
use dsh_hashline_edittool.Session.ServedCodec.Varint.{
  read_varint-write_varint, write_varint-bytes, plus_exact,
}
use dsh_hashline_edittool.Session.ServedCodec.Encode.{
  Group, Groups, value_le, group_of, write_anchors, write_groups,
}
use dsh_hashline_edittool.Session.ServedCodec.Decode.{read_anchors, read_groups, key_at, read_key}

abbrev pub is_hex : ℕ → Bool
is_hex c = leb b'0' c && leb c b'9' || leb b'a' c && leb c b'f'

-- Lower-case hexadecimal digits, two for each byte.
abbrev pub IsHex : Text → Type 0
IsHex text = (all is_hex text ≡ true) × (length text % 2 ≡ 0)

abbrev pub IsByte : ℕ → Type 0
IsByte byte = byte < 256

-- What the code relies on: hexadecimal text and Base64 text stand for bytes, and give them back.
pub record IsRuntime (runtime : Runtime) : Type 0 where
  pub hex_back : (text : Text) → IsHex text → runtime.to_hex (runtime.from_hex text) ≡ text
  pub hex_size : (text : Text) → IsHex text → length (runtime.from_hex text) * 2 ≡ length text
  pub hex_bytes : (text : Text) → All IsByte (runtime.from_hex text)
  pub base64_back :
      (bytes : Octets) → All IsByte bytes → runtime.from_base64 (runtime.to_base64 bytes) ≡ bytes

-- The values do not fall, from `previous` on.
abbrev pub Chain : ℕ → Group → Type 0
Chain previous [] = Unit
Chain previous ((value, fingerprint) ∷ values) = (previous ≤ value) × Chain value values

insert-Chain :
    (previous value : ℕ) (fingerprint : Text) (values : Group)
    → previous ≤ value
    → Chain previous values
    → Chain previous (insert value_le (value, fingerprint) values)
unfolding insert
insert-Chain previous value fingerprint [] h c = (h, tt)
insert-Chain previous value fingerprint ((next, key) ∷ values) h (low, c) =
    elim (Bool-cases (leb value next)) [
      | inl p ↦ rw (p, insert) (h, (ground arith, c))
      | inr p ↦ rw (p, insert) (low, insert-Chain next value fingerprint values (ground arith) c)
    ]

pub sort-Chain : (values : Group) → Chain 0 (sort value_le values)
unfolding sort
sort-Chain [] = tt
sort-Chain ((value, fingerprint) ∷ values) =
    insert-Chain 0 value fingerprint (sort value_le values) (omega arith) (sort-Chain values)

-- An entry that can be written: its value is exact and its fingerprint is short hexadecimal text.
abbrev pub IsEntry : ℕ × Text → Type 0
IsEntry (value, fingerprint) = (value < two_53) × IsHex fingerprint × (length fingerprint ≤ 8)

-- what the innermost loop adds to the result
abbrev pub put_group : ℕ → Group → Served → Served
put_group size [] out = out
put_group size ((value, fingerprint) ∷ values) out =
    put_group size values (Map.put out (anchor_of_length value size) fingerprint)

abbrev pub put_groups : Groups → List ℕ → Served → Served
put_groups groups [] out = out
put_groups groups (size ∷ lengths) out =
    put_groups groups lengths (put_group size (sort value_le (group_of (Map.get groups size))) out)

-- A group that can be written: its length and its size are exact numbers.
abbrev pub Fits : Groups → ℕ → Type 0
Fits groups size =
    (size < two_53)
    × (length (group_of (Map.get groups size)) < two_53)
    × All IsEntry (group_of (Map.get groups size))

module _ (runtime : Runtime) (laws : IsRuntime runtime) where
  key_at-some :
      (fingerprint : Text) (rest : Octets)
      → IsHex fingerprint
      → key_at runtime
          (length (runtime.from_hex fingerprint))
          (runtime.from_hex fingerprint ++ rest)
        ≡ some (fingerprint, rest)
  key_at-some fingerprint rest h =
      let bytes = runtime.from_hex fingerprint in
      let enough : ltb (length (bytes ++ rest)) (length bytes) ≡ false =
        ground (arith, length-append bytes rest) in
      let size = laws.hex_size fingerprint h in
      elim (Bool-cases (length bytes == 0)) [
        | inl none_left ↦
            rw (enough, none_left, drop-append_length bytes rest)
              (ap (λ t. some (t, rest)) (sym (no_text fingerprint (ground arith))))
        | inr full ↦ rw (
          enough,
          full,
          drop-append_length bytes rest,
          take-append_length bytes rest,
          laws.hex_back fingerprint h,
        )
      ]
    where
      no_text : (text : Text) → length text ≡ 0 → text ≡ []
      no_text [] e = refl
      no_text (c ∷ text) e = absurd (omega (arith, e))

  read_key-some :
      (fingerprint : Text) (rest : Octets)
      → IsHex fingerprint
      → length fingerprint ≤ 8
      → read_key runtime (
          write_varint (length (runtime.from_hex fingerprint))
          ++ (runtime.from_hex fingerprint ++ rest))
        ≡ some (fingerprint, rest)
  unfolding read_key
  read_key-some fingerprint rest h short =
      rw
        (read_varint-write_varint (length (runtime.from_hex fingerprint))
          (runtime.from_hex fingerprint ++ rest) (omega (arith, laws.hex_size fingerprint h)))
        (key_at-some fingerprint rest h)

  read_anchors-write_anchors :
      (size : ℕ) (values : Group) (previous : ℕ) (rest : Octets) (out : Served)
      → Chain previous values
      → All IsEntry values
      → read_anchors
          (read_key runtime)
          (length values)
          size
          previous
          (write_anchors runtime values previous ++ rest)
          out
        ≡ some (put_group size values out, rest)
  unfolding read_anchors write_anchors
  read_anchors-write_anchors size [] previous rest out c h = refl
  read_anchors-write_anchors size ((value, fingerprint) ∷ values) previous rest out (low, c)
        ((small, hex, short), h) =
      let bytes = runtime.from_hex fingerprint in
      let more = write_anchors runtime values value in
      let back : previous +ᶠ (value - previous) ≡ value =
        plus_exact previous (value - previous) (omega arith) ∙ omega arith in
      rw
        (
          append_assoc (write_varint (value - previous))
              (write_varint (length bytes) ++ (bytes ++ more)) rest,
          append_assoc (write_varint (length bytes)) (bytes ++ more) rest,
          append_assoc bytes more rest,
          read_varint-write_varint (value - previous)
              (write_varint (length bytes) ++ (bytes ++ (more ++ rest))) (omega arith),
          read_key-some fingerprint (more ++ rest) hex short,
          back,
        )
        (read_anchors-write_anchors size values value rest _ c h)

  pub read_groups-write_groups :
      (groups : Groups) (lengths : List ℕ) (rest : Octets) (out : Served)
      → All (Fits groups) lengths
      → read_groups
          (read_key runtime)
          (length lengths)
          (write_groups runtime groups lengths ++ rest)
          out
        ≡ some (put_groups groups lengths out, rest)
  unfolding read_groups write_groups
  read_groups-write_groups groups [] rest out h = refl
  read_groups-write_groups groups (size ∷ lengths) rest out ((small, few, entries), h) =
      let group = group_of (Map.get groups size) in
      let values = sort value_le group in
      let more = write_groups runtime groups lengths in
      let anchors = write_anchors runtime values 0 in
      rw
        (
          append_assoc (write_varint size) (write_varint (length values) ++ (anchors ++ more)) rest,
          append_assoc (write_varint (length values)) (anchors ++ more) rest,
          append_assoc anchors more rest,
          read_varint-write_varint size
              (write_varint (length values) ++ (anchors ++ (more ++ rest))) small,
          read_varint-write_varint (length values) (anchors ++ (more ++ rest))
              (omega (arith, few, length-sort value_le group)),
          read_anchors-write_anchors size values 0 (more ++ rest) out (sort-Chain group)
              (All-sort value_le IsEntry group entries),
        )
        (read_groups-write_groups groups lengths rest _ h)

  write_anchors-bytes :
      (values : Group) (previous : ℕ) → All IsByte (write_anchors runtime values previous)
  unfolding write_anchors
  write_anchors-bytes [] previous = tt
  write_anchors-bytes ((value, fingerprint) ∷ values) previous =
      All-append IsByte (write_varint (value - previous)) _ (write_varint-bytes (value - previous))
        (All-append IsByte (write_varint (length (runtime.from_hex fingerprint))) _
          (write_varint-bytes (length (runtime.from_hex fingerprint)))
          (All-append IsByte (runtime.from_hex fingerprint) _ (laws.hex_bytes fingerprint)
            (write_anchors-bytes values value)))

  pub write_groups-bytes :
      (groups : Groups) (lengths : List ℕ) → All IsByte (write_groups runtime groups lengths)
  unfolding write_groups
  write_groups-bytes groups [] = tt
  write_groups-bytes groups (size ∷ lengths) =
      let values = sort value_le (group_of (Map.get groups size)) in
      All-append IsByte (write_varint size) _ (write_varint-bytes size) (
        All-append IsByte (write_varint (length values)) _ (write_varint-bytes (length values)) (
          All-append IsByte (write_anchors runtime values 0) _ (write_anchors-bytes values 0)
            (write_groups-bytes groups lengths)))
