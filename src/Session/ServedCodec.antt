-- ===== src/Session/ServedCodec.antt =====
-- src/domain/session/served-codec.ts: the stored form of the anchors that a session was shown, each with
-- the fingerprint of its line. Hexadecimal, Base64 and JSON are those of the run-time: parameters.
pub mod Varint
pub mod Anchors
pub mod Encode
pub mod Decode
pub mod Payload
pub mod Lookup
pub mod Collected
pub mod Keys
pub mod RoundTrip
mod Examples
use dsh_hashline_edittool.Base.{
  ℕ, zero, suc, ◌+◌, ◌-◌, ◌*◌, ◌/◌, ◌%◌, ◌^◌, ◌≡◌, refl, Bool, true, false, ◌&&◌, ◌||◌, List, [],
  ◌∷◌, ◌++◌, map, Option, none, some, ltb, leb, ◌==◌, if◌then◌else◌, ◌>>=◌, length, take, drop,
  get_or, Text, codes, all, is_base62, nat_eq, text_eq,
}
use dsh_hashline_edittool.Base.Map
use dsh_hashline_edittool.Base.Sort.{sort, insert}
use dsh_hashline_edittool.Base.Number.{two_53, ◌+ᶠ◌, ◌*ᶠ◌}

abbrev pub Octets : Type 0
Octets = List ℕ

-- `BASE62`
abbrev pub base62 : Text
base62 = codes "0123456789ABCDEFGHIJKLMNOPQRSTUVWXYZabcdefghijklmnopqrstuvwxyz"

-- the entries of `DIGIT` from an index on
unfoldable pub index_from : Text → ℕ → ℕ → Option ℕ
index_from [] index c = none
index_from (d ∷ rest) index c = if d == c then some index else index_from rest (suc index) c

-- `DIGIT.get(ch)`
unfoldable pub digit_value : ℕ → Option ℕ
unfolding index_from
digit_value c = index_from base62 0 c

-- the loop of `anchorValue`
unfoldable pub value_from : Text → ℕ → Option ℕ
unfolding digit_value
value_from [] value = some value
value_from (c ∷ anchor) value =
    digit_value c >>= (λ digit. value_from anchor (value *ᶠ 62 +ᶠ digit))

unfoldable pub anchor_value : Text → Option ℕ
unfolding value_from
anchor_value [] = none
anchor_value (c ∷ anchor) = value_from (c ∷ anchor) 0

-- the rounds left, `rest` and `out`
unfoldable pub digits_of : ℕ → ℕ → Text → Text
digits_of zero rest out = out
digits_of (suc rounds) rest out = digits_of rounds (rest / 62) (get_or base62 (rest % 62) 0 ∷ out)

unfoldable pub anchor_of_length : ℕ → ℕ → Text
unfolding digits_of
anchor_of_length value length = digits_of length value []

-- the loop of `writeVarint`, on fuel
unfoldable pub varint_rounds : ℕ → ℕ → Octets
varint_rounds zero rest = []
varint_rounds (suc fuel) rest =
    let more = varint_rounds fuel (rest / 0x80) in
    if leb 0x80 rest then (rest % 0x80 + 0x80) ∷ more else rest ∷ []

unfoldable pub write_varint : ℕ → Octets
unfolding varint_rounds
write_varint value = varint_rounds (suc value) value

-- `Number.MAX_SAFE_INTEGER`
abbrev pub max_safe_integer : ℕ
max_safe_integer = 2 ^ 53 - 1

-- the loop of `readVarint`: the bytes from `index` on, `value` and `shift`; the result holds the bytes from `next` on
unfoldable pub varint_from : Octets → ℕ → ℕ → Option (ℕ × Octets)
varint_from [] value shift = none
varint_from (byte ∷ bytes) value shift =
    let value' = value +ᶠ (byte % 0x80) *ᶠ shift in
    let more = varint_from bytes value' (shift *ᶠ 0x80) in
    if ltb byte 0x80
    then some (value', bytes)
    else if ltb max_safe_integer (shift *ᶠ 0x80)
    then none
    else more

unfoldable pub read_varint : Octets → Option (ℕ × Octets)
unfolding varint_from
read_varint bytes = varint_from bytes 0 1

-- `JSON.parse`'s result, as far as the code looks at it
pub data JsonItem : Type 0 where
  null_item : JsonItem
  string_item : Text → JsonItem
  other_item : JsonItem

pub data Json : Type 0 where
  array : List JsonItem → Json
  envelope : (version_two : Bool) → Option (List JsonItem) → Json
  other : Json

-- What the run-time offers.
pub record Runtime : Type 0 where
  pub from_hex : Text → Octets
  pub to_hex : Octets → Text
  pub from_base64 : Text → Octets
  pub to_base64 : Octets → Text
  pub parse_json : Text → Option Json

abbrev pub Served : Type 0
Served = List (Text × Text)
