-- ===== src/Lsp/Framing/Chunks.antt =====
-- src/lsp/framing.ts: `MessageReader` on a stream that is cut into chunks.
use dsh_hashline_edittool.Base.{
  ℕ, zero, suc, ◌+◌, ◌-◌, ◌≤◌, ◌<◌, ◌%◌, ◌≡◌, refl, sym, subst, ◌∙◌, ap, true, ◌&&◌, List, [], ◌∷◌,
  ◌++◌, Option, none, some, arith, ltb, ◌==◌, length, take, drop, map, length-append, length-drop,
  inl, inr, Bool-cases, Option-cases, take-append_le, drop-append_le, append_assoc, append-nil,
}
use dsh_hashline_edittool.Lsp.Framing.Header.{
  ContentLength, found, missing, malformed, parse_content_length,
}
use dsh_hashline_edittool.Lsp.Framing.{
  Bytes, header_terminator, FramingError, starts_with, index_of, Outcome, read, failed, Frame,
  partial, broken, whole, frame_at, next_frame, parsed, drain, push,
}

starts_with-append :
    (a b pattern : Bytes)
    → length pattern ≤ length a
    → starts_with (a ++ b) pattern ≡ starts_with a pattern
unfolding starts_with
starts_with-append a b [] h = refl
starts_with-append [] b (d ∷ pattern) h = elim h [ ]
starts_with-append (c ∷ a) b (d ∷ pattern) h =
    ap (λ t. (c == d) && t) (starts_with-append a b pattern (omega arith))

starts_with-length : (a pattern : Bytes) → starts_with a pattern ≡ true → length pattern ≤ length a
unfolding starts_with
starts_with-length a [] h = omega arith
starts_with-length [] (d ∷ pattern) h = cc
starts_with-length (c ∷ a) (d ∷ pattern) h = ground (arith, starts_with-length a pattern)

index_of-length :
    (buffer pattern : Bytes) {at : ℕ}
    → index_of buffer pattern ≡ some at
    → at + length pattern ≤ length buffer
unfolding index_of
index_of-length [] pattern h = ground (arith, starts_with-length [] pattern)
index_of-length (c ∷ buffer) pattern {at} h = elim (Bool-cases (starts_with (c ∷ buffer) pattern)) [
  | inl here ↦ ground (arith, starts_with-length (c ∷ buffer) pattern)
  | inr later ↦ elim (Option-cases (index_of buffer pattern)) [
    | inl gone ↦ ground arith
    | inr (k, e) ↦ ground (arith, index_of-length buffer pattern e)
  ]
]

index_of-append :
    (buffer more pattern : Bytes) {at : ℕ}
    → index_of buffer pattern ≡ some at
    → index_of (buffer ++ more) pattern ≡ some at
unfolding index_of
index_of-append [] [] pattern h = h
index_of-append [] (c ∷ more) [] h = h
index_of-append [] (c ∷ more) (d ∷ pattern) h = ground arith
index_of-append (c ∷ buffer) more pattern {at} h =
    let fits = index_of-length (c ∷ buffer) pattern h in
    let same = starts_with-append (c ∷ buffer) more pattern (omega arith) in
    elim (Bool-cases (starts_with (c ∷ buffer) pattern)) [
      | inl here ↦ rw (same, here) (rw here at h)
      | inr later ↦ elim (Option-cases (index_of buffer pattern)) [
        | inl gone ↦ ground arith
        | inr (k, e) ↦ ground (arith, index_of-append buffer more pattern e)
      ]
    ]

module _ (max_body_bytes : ℕ) where
  frame_at-append :
      (buffer more : Bytes) (header_end : ℕ) (len : ContentLength) (body rest : Bytes)
      → frame_at max_body_bytes buffer header_end len ≡ whole body rest
      → (frame_at max_body_bytes (buffer ++ more) header_end len ≡ whole body (rest ++ more))
        × (length rest < length buffer)
  unfolding frame_at
  frame_at-append buffer more header_end missing body rest e = cc
  frame_at-append buffer more header_end malformed body rest e = cc
  frame_at-append buffer more header_end (found len) body rest e =
      let body_start = header_end + 4 in
      elim (Bool-cases (ltb max_body_bytes len)) [
        | inl big ↦ ground arith
        | inr fits ↦ elim (Bool-cases (ltb (length buffer) (body_start + len))) [
          | inl short ↦ ground arith
          | inr full ↦
              let there : body_start + len ≤ length buffer = ground arith in
              ground (
                arith,
                drop-append_le body_start buffer more (omega arith),
                take-append_le (body_start + len - body_start) (drop body_start buffer) more
                    (omega (arith, length-drop body_start buffer)),
                drop-append_le (body_start + len) buffer more there,
                length-append buffer more,
                length-drop (body_start + len) buffer,
              )
        ]
      ]

  -- A message that is complete stays the same message when more bytes follow.
  next_frame-append :
      (buffer more body rest : Bytes)
      → next_frame max_body_bytes buffer ≡ whole body rest
      → (next_frame max_body_bytes (buffer ++ more) ≡ whole body (rest ++ more))
        × (length rest < length buffer)
  unfolding next_frame
  next_frame-append buffer more body rest e =
      elim (Option-cases (index_of buffer header_terminator)) [
        | inl gone ↦ ground arith
        | inr (header_end, place) ↦
            let room = index_of-length buffer header_terminator place in
            let same : take header_end (buffer ++ more) ≡ take header_end buffer =
              take-append_le header_end buffer more (omega arith) in
            rw (index_of-append buffer more header_terminator place, same, next_frame)
              (frame_at-append buffer more header_end
                (parse_content_length (map (λ b. b % 128) (take header_end buffer))) body rest
                (rw (place, next_frame) at e))
      ]

data FrameView : Frame → Type 0 where
  is_partial : {r : Frame} → r ≡ partial → FrameView r
  is_broken : {r : Frame} (error : FramingError) → r ≡ broken error → FrameView r
  is_whole : {r : Frame} (body rest : Bytes) → r ≡ whole body rest → FrameView r

frame_view : (r : Frame) → FrameView r
frame_view partial = is_partial refl
frame_view (broken error) = is_broken error refl
frame_view (whole body rest) = is_whole body rest refl

-- What later bytes bring, behind messages that have been returned already.
abbrev pub prepend : {Message : Type 0} → List Message → Outcome Message → Outcome Message
prepend done (read buffer messages) = read buffer (done ++ messages)
prepend done (failed buffer error) = failed buffer error

module _ {Message : Type 0} (parse_json : Bytes → Option Message) (max_body_bytes : ℕ) where
  abbrev go : ℕ → Bytes → List Message → Outcome Message
  go = drain parse_json max_body_bytes

  parsed_cong :
      (o : Option Message) (rest : Bytes) (k l : List Message → Outcome Message)
      (out out' : List Message)
      → ((m : Message) → k (out ++ m ∷ []) ≡ l (out' ++ m ∷ []))
      → parsed o rest k out ≡ parsed o rest l out'
  parsed_cong none rest k l out out' h = refl
  parsed_cong (some m) rest k l out out' h = h m

  parsed_read :
      (o : Option Message) (rest rest' : Bytes) (k l : List Message → Outcome Message)
      (out : List Message) {remains : Bytes} {messages : List Message} {end : Outcome Message}
      → parsed o rest k out ≡ read remains messages
      → ((m : Message) → k (out ++ m ∷ []) ≡ read remains messages → l (out ++ m ∷ []) ≡ end)
      → parsed o rest' l out ≡ end
  parsed_read none rest rest' k l out e h = ground arith
  parsed_read (some m) rest rest' k l out e h = h m e

  prepend-parsed :
      (o : Option Message) (rest : Bytes) (k : List Message → Outcome Message)
      (done out : List Message)
      → ((m : Message) → k ((done ++ out) ++ m ∷ []) ≡ prepend done (k (out ++ m ∷ [])))
      → parsed o rest k (done ++ out) ≡ prepend done (parsed o rest k out)
  prepend-parsed none rest k done out h = refl
  prepend-parsed (some m) rest k done out h = h m

  -- one round on a complete message
  drain_whole :
      (rounds : ℕ) (buffer body rest : Bytes) (out : List Message)
      → next_frame max_body_bytes buffer ≡ whole body rest
      → go (suc rounds) buffer out ≡ parsed (parse_json body) rest (go rounds rest) out
  unfolding drain
  drain_whole rounds buffer body rest out e = rw (e, drain)

  -- The rounds that `push` gives its loop are enough: with any two counts of rounds above the length
  -- of the buffer the loop ends in the same way.
  pub drain_fuel :
      (f g : ℕ) (buffer : Bytes) (out : List Message)
      → length buffer < f
      → length buffer < g
      → drain parse_json max_body_bytes f buffer out ≡ drain parse_json max_body_bytes g buffer out
  drain_fuel zero g buffer out hf hg = elim hf [ ]
  drain_fuel (suc f) zero buffer out hf hg = elim hg [ ]
  drain_fuel (suc f) (suc g) buffer out hf hg =
      elim (frame_view (next_frame max_body_bytes buffer)) [
        | is_partial e ↦ unfold drain in rw (e, drain)
        | is_broken error e ↦ unfold drain in rw (e, drain)
        | is_whole body rest e ↦
            let shorter = (next_frame-append max_body_bytes buffer [] body rest e).1 in
            drain_whole f buffer body rest out e
            ∙ parsed_cong (parse_json body) rest (go f rest) (go g rest) out out
                (λ m. drain_fuel f g rest (out ++ m ∷ []) (omega arith) (omega arith))
            ∙ sym (drain_whole g buffer body rest out e)
      ]

  -- The messages returned so far only stand in front.
  drain-prepend :
      (rounds : ℕ) (buffer : Bytes) (done out : List Message)
      → go rounds buffer (done ++ out) ≡ prepend done (go rounds buffer out)
  unfolding drain
  drain-prepend zero buffer done out = refl
  drain-prepend (suc rounds) buffer done out =
      elim (frame_view (next_frame max_body_bytes buffer)) [
        | is_partial e ↦ rw (e, drain)
        | is_broken error e ↦ rw (e, drain)
        | is_whole body rest e ↦
            rw (e, drain)
              (prepend-parsed (parse_json body) rest (go rounds rest) done out (λ m.
                ap (go rounds rest) (append_assoc done out (m ∷ []))
                ∙ drain-prepend rounds rest done (out ++ m ∷ [])))
      ]

  -- What is left after a push, with more bytes behind it, is where the longer push stands.
  drain-append :
      (f g h : ℕ) (buffer more remains : Bytes) (out messages : List Message)
      → length buffer < f
      → length (buffer ++ more) < g
      → length (remains ++ more) < h
      → go f buffer out ≡ read remains messages
      → go g (buffer ++ more) out ≡ go h (remains ++ more) messages
  unfolding drain
  drain-append zero g h buffer more remains out messages hf hg hh e = elim hf [ ]
  drain-append (suc f) zero h buffer more remains out messages hf hg hh e = elim hg [ ]
  drain-append (suc f) (suc g) h buffer more remains out messages hf hg hh e =
      elim (frame_view (next_frame max_body_bytes buffer)) [
        | is_partial p ↦
            let at_end : read buffer out ≡ read remains messages = rw (p, drain) at e in
            let same : (buffer ≡ remains) × (out ≡ messages) = ground arith in
            subst (λ r. go (suc g) (buffer ++ more) out ≡ go h (r ++ more) messages) same.0
              (subst (λ o. go (suc g) (buffer ++ more) out ≡ go h (buffer ++ more) o) same.1
                (drain_fuel (suc g) h (buffer ++ more) out hg
                  (subst (λ r. length (r ++ more) < h) (sym same.0) hh)))
        | is_broken error p ↦
            let at_end : failed buffer error ≡ read remains messages = rw (p, drain) at e in
            ground arith
        | is_whole body rest p ↦
            let shorter = (next_frame-append max_body_bytes buffer more body rest p).1 in
            let onward : parsed (parse_json body) rest (go f rest) out ≡ read remains messages =
              rw (p, drain) at e in
            drain_whole g (buffer ++ more) body (rest ++ more) out
              (next_frame-append max_body_bytes buffer more body rest p).0
            ∙ parsed_read (parse_json body) rest (rest ++ more) (go f rest) (go g (rest ++ more))
                out onward
                (λ m r.
                  drain-append f g h rest more remains (out ++ m ∷ []) messages (omega arith)
                    (omega (arith, length-append buffer more, length-append rest more)) hh r)
      ]

  -- Cutting the bytes into two chunks at any place changes nothing: when the push of the first
  -- chunk succeeds, a push of the two together leaves the buffer of two pushes and returns the
  -- first push's messages followed by the second's, or throws what the second throws.
  pub push-append :
      (buffer chunk more : Bytes) (remains : Bytes) (messages : List Message)
      → push parse_json max_body_bytes buffer chunk ≡ read remains messages
      → push parse_json max_body_bytes buffer (chunk ++ more)
        ≡ prepend messages (push parse_json max_body_bytes remains more)
  unfolding push
  push-append buffer chunk more remains messages e =
      let all_bytes = buffer ++ chunk in
      ap (λ b. go (suc (length b)) b []) (sym (append_assoc buffer chunk more))
      ∙ drain-append (suc (length all_bytes)) (suc (length (all_bytes ++ more)))
          (suc (length (remains ++ more))) all_bytes more remains [] messages (omega arith)
          (omega arith) (omega arith) e
      ∙ ap (go (suc (length (remains ++ more))) (remains ++ more)) (sym (append-nil messages))
      ∙ drain-prepend (suc (length (remains ++ more))) (remains ++ more) messages []
