-- ===== src/Lsp/WriteTracker/Latest.antt =====
-- src/lsp/write-tracker.ts: the entry of the document that was written last.
use dsh_hashline_edittool.Base.{
  ℕ, ◌+◌, ◌-◌, ◌≤◌, ◌<◌, ◌≡◌, ap, ◌∙◌, true, false, ◌||◌, [], ◌∷◌, ◌++◌, none, some, arith, ltb,
  length, Text, text_eq, ===_refl, Bool-cases, inl, inr,
}
use dsh_hashline_edittool.Base.Map
use dsh_hashline_edittool.Lsp.WriteTracker.{
  TrackedWrite, max_tracked, max_bytes, Writes, Ledger, freed, evict, new_write, entered,
  note_document_write, latest_write_for,
}
use dsh_hashline_edittool.Lsp.WriteTracker.Entries.{total, total-append, total-delete}
use dsh_hashline_edittool.Lsp.WriteTracker.Bounded.{IsLedger, new_write-text}

-- A last entry whose text fits stays in the map.
evict-last :
    (writes : Writes) (uri : Text) (write : TrackedWrite) (held : ℕ)
    → Map.get writes uri ≡ none
    → length write.text ≤ max_bytes
    → held ≡ total (writes ++ (uri, write) ∷ [])
    → Map.get (evict (writes ++ (uri, write) ∷ []) held).0 uri ≡ some write
unfolding evict Map.get
evict-last [] uri write held absent fits h =
    let stays : (ltb max_tracked 1 || ltb max_bytes held) ≡ false = ground arith in
    rw (stays, evict, ===_refl uri, Map.get)
evict-last ((other, w) ∷ writes) uri write held absent fits h =
    elim (Bool-cases (
      ltb max_tracked (length ((other, w) ∷ (writes ++ (uri, write) ∷ [])))
      || ltb max_bytes held)) [
        | inl e ↦
            rw (e, evict)
              (evict-last writes uri write (held - length w.text) (ground arith) fits
                (omega (arith, h)))
        | inr e ↦
            rw (e, evict)
              (Map.get-append ((other, w) ∷ writes) uri uri write (unfold Map.get in absent)
                ∙ rw (===_refl uri))
      ]

-- A last entry whose text is over the limit goes, and everything with it.
evict-all :
    (writes : Writes) (uri : Text) (write : TrackedWrite) (held : ℕ)
    → max_bytes < length write.text
    → held ≡ total (writes ++ (uri, write) ∷ [])
    → (evict (writes ++ (uri, write) ∷ []) held).0 ≡ []
unfolding evict
evict-all [] uri write held over h =
    let goes : (ltb max_tracked 1 || ltb max_bytes held) ≡ true = ground arith in rw (goes, evict)
evict-all ((other, w) ∷ writes) uri write held over h =
    let goes : (ltb max_tracked (length ((other, w) ∷ (writes ++ (uri, write) ∷ [])))
          || ltb max_bytes held)
        ≡ true =
      ground (arith, total-append writes ((uri, write) ∷ [])) in
    rw (goes, evict) (evict-all writes uri write (held - length w.text) over (omega (arith, h)))

entered-total :
    (s : Ledger) (uri text : Text)
    → IsLedger s
    → s.held_bytes - freed (Map.get s.writes uri) + length text
      ≡ total (Map.delete s.writes uri ++ (uri, new_write s uri text) ∷ [])
entered-total s uri text h = omega (
  arith,
  h.counted,
  total-append (Map.delete s.writes uri) ((uri, new_write s uri text) ∷ []),
  total-delete s.writes uri h.keyed,
  ap length (new_write-text s uri text),
)

-- What a recorded write leaves for its document, sizes counted in UTF-16 code units as the code counts them, not
-- in bytes: in a ledger that is within its bounds, the document's newest write is the returned one
-- if the text has at most 16 * 2^20 code units, whatever had to leave for it; a text of more code
-- units empties the ledger.
pub latest_write_for-note_document_write :
    (s : Ledger) (uri text : Text)
    → IsLedger s
    → (length text ≤ max_bytes
        → latest_write_for (note_document_write s uri text).1 uri
          ≡ some (note_document_write s uri text).0)
      × (max_bytes < length text → (note_document_write s uri text).1.writes ≡ [])
unfolding latest_write_for note_document_write entered
latest_write_for-note_document_write s uri text h =
    let gone : Map.get (Map.delete s.writes uri) uri ≡ none =
      rw (===_refl uri) at (Map.get-delete s.writes uri uri) in
    let size = ap length (new_write-text s uri text) in
    (
      (λ fits.
          evict-last (Map.delete s.writes uri) uri (new_write s uri text) _ gone
            (omega (arith, size)) (entered-total s uri text h)),
      (λ over.
          evict-all (Map.delete s.writes uri) uri (new_write s uri text) _ (omega (arith, size))
            (entered-total s uri text h)),
    )
