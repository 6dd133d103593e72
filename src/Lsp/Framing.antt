-- ===== src/Lsp/Framing.antt =====
-- src/lsp/framing.ts: `Content-Length` framing over a byte stream. `JSON.stringify` and `JSON.parse`
-- with the UTF-8 codec are the parameters `stringify` and `parse_json`.
pub mod Header
pub mod Chunks
mod Examples
use dsh_hashline_edittool.Base.{
  ℕ, zero, suc, ◌+◌, ◌-◌, ◌*◌, ◌%◌, ◌^◌, ◌≡◌, refl, Bool, true, false, ◌&&◌, ◌||◌, List, [], ◌∷◌,
  ◌++◌, Option, none, some, ltb, leb, ◌==◌, if◌then◌else◌, length, take, drop, slice, Text, codes,
  map, same_text,
}
use dsh_hashline_edittool.Lsp.Framing.Header.{
  ContentLength, found, missing, malformed, parse_content_length,
}
use dsh_hashline_edittool.Base.Decimal.{show}

abbrev pub Bytes : Type 0
Bytes = List ℕ

abbrev pub header_terminator : Bytes
header_terminator = 13 ∷ 10 ∷ 13 ∷ 10 ∷ []

abbrev pub max_header_bytes : ℕ
max_header_bytes = 8 * 1024

-- the throws of `push` and of what it calls
pub data FramingError : Type 0 where
  no_terminator no_length bad_length too_large bad_json : FramingError

-- `a.startsWith(b)`
unfoldable pub starts_with : Bytes → Bytes → Bool
starts_with a [] = true
starts_with [] (d ∷ b) = false
starts_with (c ∷ a) (d ∷ b) = c == d && starts_with a b

-- `buffer.indexOf(pattern)`, with `none` for -1
unfoldable pub index_of : Bytes → Bytes → Option ℕ
unfolding starts_with
index_of [] pattern = if starts_with [] pattern then some 0 else none
index_of (c ∷ buffer) pattern =
    if starts_with (c ∷ buffer) pattern
    then some 0
    else elim (index_of buffer pattern) [ none ↦ none | some at ↦ some (suc at) ]

module _ (Message : Type 0) (stringify : Message → Bytes) where
  -- `encodeMessage`
  unfoldable pub encode_message : Message → Bytes
  unfolding show
  encode_message payload =
      let body = stringify payload in
      (codes "Content-Length: " ++ show (length body) ++ header_terminator) ++ body

-- What a push leaves: the buffer, and the messages or the error that it throws.
pub data Outcome (Message : Type 0) : Type 0 where
  read : Bytes → List Message → Outcome Message
  failed : Bytes → FramingError → Outcome Message

-- What the start of a buffer is.
pub data Frame : Type 0 where
  partial : Frame
  broken : FramingError → Frame
  whole : (body rest : Bytes) → Frame

module _ (max_body_bytes : ℕ) where
  -- a round of the loop, with a header that ends at `header_end`, up to the parse of the body
  unfoldable pub frame_at : Bytes → ℕ → ContentLength → Frame
  frame_at buffer header_end missing = broken no_length
  frame_at buffer header_end malformed = broken bad_length
  frame_at buffer header_end (found len) =
      let body_start = header_end + 4 in
      if ltb max_body_bytes len
      then broken too_large
      else if ltb (length buffer) (body_start + len)
      then partial
      else whole (slice buffer body_start (body_start + len)) (drop (body_start + len) buffer)

  unfoldable pub next_frame : Bytes → Frame
  unfolding index_of frame_at parse_content_length
  next_frame buffer = elim (index_of buffer header_terminator) [
    | none ↦ if ltb max_header_bytes (length buffer) then broken no_terminator else partial
    | some header_end ↦
        frame_at buffer header_end
          (parse_content_length (map (λ b. b % 128) (take header_end buffer)))
  ]

-- the end of a round, by what `JSON.parse` gives, with the rounds that follow
abbrev pub parsed :
    {Message : Type 0}
    → Option Message
    → Bytes
    → (List Message → Outcome Message)
    → List Message
    → Outcome Message
parsed none rest loop out = failed rest bad_json
parsed (some message) rest loop out = loop (out ++ message ∷ [])

module _ {Message : Type 0} (parse_json : Bytes → Option Message) (max_body_bytes : ℕ) where
  -- the loop: every round that goes on takes at least the four bytes of a terminator
  unfoldable pub drain : ℕ → Bytes → List Message → Outcome Message
  unfolding next_frame
  drain zero buffer out = read buffer out
  drain (suc rounds) buffer out = elim (next_frame max_body_bytes buffer) [
    | partial ↦ read buffer out
    | broken error ↦ failed buffer error
    | whole body rest ↦ parsed (parse_json body) rest (λ messages. drain rounds rest messages) out
  ]

  -- `push`, on the bytes held back
  unfoldable pub push : Bytes → Bytes → Outcome Message
  unfolding drain
  push buffer chunk = let all_bytes = buffer ++ chunk in drain (suc (length all_bytes)) all_bytes []

  -- `pendingBytes`
  abbrev pub pending_bytes : Bytes → ℕ
  pending_bytes buffer = length buffer
