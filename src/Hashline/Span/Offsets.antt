-- ===== src/Hashline/Span/Offsets.antt =====
-- src/hashline/anchor-pipeline.ts: the offsets of the lines in the text.
use dsh_hashline_edittool.Base.{
  ℕ, zero, suc, ◌+◌, ◌<◌, ◌≡◌, refl, ap, sym, ◌∙◌, List, [], ◌∷◌, ◌++◌, append_assoc, arith, Text,
  newline, length, take, drop, get_or, length-append, take-append-drop, take-append_length,
  drop-append_length,
}
use dsh_hashline_edittool.Infra.Lines.{join}
use dsh_hashline_edittool.Infra.Lines.RoundTrip.{unlines}
use dsh_hashline_edittool.Hashline.Span.{starts}
use dsh_hashline_edittool.Hashline.Span.Texts.{after, join-append, join-after}

-- The offset of a line is the length of the lines before it, their line feeds included.
pub get_or-starts :
    (lines : List Text) (offset i : ℕ)
    → i < length lines
    → get_or (starts lines offset) i 0 ≡ offset + length (unlines (take i lines))
unfolding starts unlines
get_or-starts [] offset i h = absurd (omega arith)
get_or-starts (line ∷ []) offset zero h = omega arith
get_or-starts (line ∷ next ∷ lines) offset zero h = omega arith
get_or-starts (line ∷ []) offset (suc i) h = absurd (omega arith)
get_or-starts (line ∷ next ∷ lines) offset (suc i) h = omega (
  arith,
  get_or-starts (next ∷ lines) (offset + length line + 1) i (omega arith),
  length-append line (newline ∷ unlines (take i (next ∷ lines))),
)

pub drop-cons {ℓ} :
    {A : Type ℓ} (xs : List A) (i : ℕ) (d : A)
    → i < length xs
    → drop i xs ≡ get_or xs i d ∷ drop (suc i) xs
drop-cons [] i d h = absurd (omega arith)
drop-cons (x ∷ xs) zero d h = refl
drop-cons (x ∷ xs) (suc i) d h = drop-cons xs i d (omega arith)

-- The text around a line.
around :
    (lines : List Text) (i : ℕ) (end : Text)
    → i < length lines
    → join newline lines ++ end
      ≡ unlines (take i lines) ++ (get_or lines i [] ++ after (drop (suc i) lines) end)
around lines i end h =
    ap (λ t. join newline t ++ end)
      (sym (take-append-drop i lines) ∙ ap (λ t. take i lines ++ t) (drop-cons lines i [] h))
    ∙ ap (λ t. t ++ end) (join-append (take i lines) (get_or lines i []) (drop (suc i) lines))
    ∙ append_assoc (unlines (take i lines)) _ end
    ∙ ap (λ t. unlines (take i lines) ++ t)
        (join-after (get_or lines i []) (drop (suc i) lines) end)

module _ (lines : List Text) (i : ℕ) (end : Text) (h : i < length lines) where
  pub cut-start :
      take (length (unlines (take i lines))) (join newline lines ++ end) ≡ unlines (take i lines)
  cut-start = rw (around lines i end h) (take-append_length (unlines (take i lines)) _)

  pub cut-from :
      drop (length (unlines (take i lines))) (join newline lines ++ end)
      ≡ get_or lines i [] ++ after (drop (suc i) lines) end
  cut-from = rw (around lines i end h) (drop-append_length (unlines (take i lines)) _)

  pub cut-stop :
      drop
        (length (unlines (take i lines)) + length (get_or lines i []))
        (join newline lines ++ end)
      ≡ after (drop (suc i) lines) end
  cut-stop =
      rw
        (
          around lines i end h,
          ← append_assoc (unlines (take i lines)) (get_or lines i [])
              (after (drop (suc i) lines) end),
          ← length-append (unlines (take i lines)) (get_or lines i []),
        )
        (drop-append_length (unlines (take i lines) ++ get_or lines i []) _)

  pub cut-next :
      drop (length (unlines (take i lines))) (join newline lines ++ end)
      ≡ join newline (drop i lines) ++ end
  cut-next =
      cut-from
      ∙ sym (join-after (get_or lines i []) (drop (suc i) lines) end)
      ∙ ap (λ t. join newline t ++ end) (sym (drop-cons lines i [] h))
