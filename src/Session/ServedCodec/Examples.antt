-- ===== src/Session/ServedCodec/Examples.antt =====
-- src/domain/session/served-codec.ts on three pairs, with a run-time whose Base64 writes a byte as one
-- character.
use dsh_hashline_edittool.Base.{
  ℕ, ◌+◌, ◌-◌, ◌*◌, ◌/◌, ◌%◌, ◌≡◌, refl, Bool, true, false, ◌<◌, ◌&&◌, List, [], ◌∷◌, some, none,
  arith, ltb, leb, if◌then◌else◌, ◌>>=◌, length, all, All, Text, codes, text_eq,
}
use dsh_hashline_edittool.Base.Map
use dsh_hashline_edittool.Session.ServedCodec.{Octets, Runtime, anchor_value}
use dsh_hashline_edittool.Session.ServedCodec.Encode.{truncate_served_key, encode_served_anchors}
use dsh_hashline_edittool.Base.Number.{◌+ᶠ◌, ◌*ᶠ◌}
use dsh_hashline_edittool.Session.ServedCodec.Decode.{decode_served_anchors}
use dsh_hashline_edittool.Session.ServedCodec.Payload.{is_hex, IsHex, IsByte, IsRuntime}
use dsh_hashline_edittool.Session.ServedCodec.Collected.{IsStored}
use dsh_hashline_edittool.Session.ServedCodec.Keys.{last_key}
use dsh_hashline_edittool.Session.ServedCodec.RoundTrip.{
  decode_served_anchors-encode_served_anchors,
}

abbrev hex_value : ℕ → ℕ
hex_value c = if leb c b'9' then c - 48 else c - 87

abbrev hex_digit : ℕ → ℕ
hex_digit n = if ltb n 10 then 48 + n else 87 + n

abbrev from_hex : Text → Octets
from_hex (c ∷ d ∷ text) = (hex_value c * 16 + hex_value d) % 256 ∷ from_hex text
from_hex _ = []

abbrev to_hex : Octets → Text
to_hex [] = []
to_hex (byte ∷ bytes) = hex_digit (byte / 16) ∷ hex_digit (byte % 16) ∷ to_hex bytes

abbrev simple : Runtime
simple = record {
  from_hex = from_hex;
  to_hex = to_hex;
  from_base64 = λ text. text;
  to_base64 = λ bytes. bytes;
  parse_json = λ text. none;
}

hex_digit-hex_value : (c : ℕ) → is_hex c ≡ true → hex_digit (hex_value c) ≡ c
hex_digit-hex_value c h = ground arith

hex_value_lt : (c : ℕ) → is_hex c ≡ true → hex_value c < 16
hex_value_lt c h = ground arith

and_both : (a b : Bool) → (a && b) ≡ true → (a ≡ true) × (b ≡ true)
and_both true b h = (refl, h)
and_both false b h = absurd (cc)

to_hex-from_hex : (text : Text) → IsHex text → to_hex (from_hex text) ≡ text
unfolding all
to_hex-from_hex [] h = refl
to_hex-from_hex (c ∷ []) (h, even) = absurd (omega (arith, even))
to_hex-from_hex (c ∷ d ∷ text) (h, even) =
    let (high, more) = and_both (is_hex c) (all is_hex (d ∷ text)) h in
    let (low, rest) = and_both (is_hex d) (all is_hex text) more in
    let byte = (hex_value c * 16 + hex_value d) % 256 in
    let upper : byte / 16 ≡ hex_value c = omega (arith, hex_value_lt c high, hex_value_lt d low) in
    let lower : byte % 16 ≡ hex_value d = omega (arith, hex_value_lt c high, hex_value_lt d low) in
    rw (
      upper,
      lower,
      hex_digit-hex_value c high,
      hex_digit-hex_value d low,
      to_hex-from_hex text (rest, omega (arith, even)),
    )

length-from_hex : (text : Text) → IsHex text → length (from_hex text) * 2 ≡ length text
unfolding all
length-from_hex [] h = refl
length-from_hex (c ∷ []) (h, even) = absurd (omega (arith, even))
length-from_hex (c ∷ d ∷ text) (h, even) =
    let (high, more) = and_both (is_hex c) (all is_hex (d ∷ text)) h in
    let (low, rest) = and_both (is_hex d) (all is_hex text) more in
    omega (arith, length-from_hex text (rest, omega (arith, even)))

from_hex-bytes : (text : Text) → All IsByte (from_hex text)
from_hex-bytes [] = tt
from_hex-bytes (c ∷ []) = tt
from_hex-bytes (c ∷ d ∷ text) = (omega arith, from_hex-bytes text)

simple-IsRuntime : IsRuntime simple
simple-IsRuntime = record {
  hex_back = to_hex-from_hex;
  hex_size = length-from_hex;
  hex_bytes = from_hex-bytes;
  base64_back = λ bytes h. refl;
}

-- two anchors with the same value, and a second pair of one of them
abbrev pairs : List (Text × Text)
pairs =
    (codes "0h", codes "00aa11ff2")
    ∷ (codes "h", codes "12345678")
    ∷ (codes "0h", codes "beef0123")
    ∷ []

pairs-IsStored : All IsStored pairs
unfolding all truncate_served_key
pairs-IsStored =
    ((omega arith, (refl, refl)), ((omega arith, (refl, refl)), ((omega arith, (refl, refl)), tt)))

decode_served_anchors-encode_served_anchors_example :
    (decode_served_anchors simple (encode_served_anchors simple pairs)
      >>= (λ served. some (Map.get served (codes "0h"))))
    ≡ some (last_key pairs (codes "0h") none)
unfolding anchor_value ◌+ᶠ◌ ◌*ᶠ◌
decode_served_anchors-encode_served_anchors_example =
    decode_served_anchors-encode_served_anchors simple simple-IsRuntime pairs (codes "0h") 43
      pairs-IsStored (omega arith) refl (omega arith)

found_again : last_key pairs (codes "0h") none ≡ some (codes "beef0123")
unfolding truncate_served_key
found_again = refl
