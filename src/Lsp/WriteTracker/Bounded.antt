-- ===== src/Lsp/WriteTracker/Bounded.antt =====
-- src/lsp/write-tracker.ts: what the ledger holds, and how much of it.
use dsh_hashline_edittool.Base.{
  ℕ, suc, ◌+◌, ◌-◌, ◌≤◌, ◌≡◌, refl, sym, ap, ◌∙◌, true, [], ◌∷◌, ◌++◌, none, arith, ◌==◌, length,
  Text, text_eq, ===_refl, Bool-cases, Option-cases, inl, inr,
}
use dsh_hashline_edittool.Base.Map
use dsh_hashline_edittool.Lsp.WriteTracker.{
  max_tracked, max_bytes, Ledger, empty, freed, new_write, entered, note_document_write,
  mark_async_injection, forget_document_write, noted, marked, forgotten, Reach, here, next,
}
use dsh_hashline_edittool.Lsp.WriteTracker.Entries.{
  total, Keyed, Ascending, total-append, total-delete, Keyed-delete, Keyed-append, Ascending-tail,
  Ascending-delete, Ascending-append, evict-tail, evict-counted, length-delete, put-total,
  put-Ascending, put-Keyed,
}

-- The counter of code units is right and both bounds hold; a document has one entry, the entries stand in
-- the order of their writes, and no generation is ahead of the counter.
pub record IsLedger (s : Ledger) : Type 0 where
  pub counted : s.held_bytes ≡ total s.writes
  pub light : s.held_bytes ≤ max_bytes
  pub few : length s.writes ≤ max_tracked
  pub keyed : Keyed s.writes
  pub ordered : Ascending 0 s.next_generation s.writes

new_write-generation :
    (s : Ledger) (uri text : Text) → (new_write s uri text).generation ≡ suc s.next_generation
unfolding new_write
new_write-generation s uri text = refl

pub new_write-text : (s : Ledger) (uri text : Text) → (new_write s uri text).text ≡ text
unfolding new_write
new_write-text s uri text = refl

note-IsLedger :
    (s : Ledger) (uri text : Text) → IsLedger s → IsLedger (note_document_write s uri text).1
unfolding note_document_write entered
note-IsLedger s uri text h =
    let write = new_write s uri text in
    let kept = Map.delete s.writes uri in
    let writes = kept ++ (uri, write) ∷ [] in
    let held = s.held_bytes - freed (Map.get s.writes uri) + length text in
    let gone : Map.get kept uri ≡ none = rw (===_refl uri) at (Map.get-delete s.writes uri uri) in
    let right : held ≡ total writes = omega (
      arith,
      h.counted,
      total-append kept ((uri, write) ∷ []),
      total-delete s.writes uri h.keyed,
      ap length (new_write-text s uri text),
    ) in
    let both = evict-counted writes held right in
    record {
      counted = both.0;
      light = both.1;
      few = both.2;
      keyed =
          evict-tail Keyed (λ entry rest k. k.1) writes held
            (Keyed-append kept uri write (Keyed-delete s.writes uri h.keyed) gone);
      ordered =
          evict-tail (Ascending 0 (suc s.next_generation))
            (Ascending-tail 0 (suc s.next_generation)) writes held
            (Ascending-append 0 s.next_generation kept uri write (new_write-generation s uri text)
              (Ascending-delete 0 s.next_generation s.writes uri h.ordered));
    }

forget-IsLedger : (s : Ledger) (uri : Text) → IsLedger s → IsLedger (forget_document_write s uri)
unfolding forget_document_write
forget-IsLedger s uri h = record {
  counted = omega (arith, h.counted, total-delete s.writes uri h.keyed);
  light = omega (arith, h.light);
  few = omega (arith, h.few, length-delete s.writes uri);
  keyed = Keyed-delete s.writes uri h.keyed;
  ordered = Ascending-delete 0 s.next_generation s.writes uri h.ordered;
}

mark-IsLedger :
    (s : Ledger) (uri : Text) (generation : ℕ)
    → IsLedger s
    → IsLedger (mark_async_injection s uri generation)
unfolding mark_async_injection
mark-IsLedger s uri generation h = elim (Option-cases (Map.get s.writes uri)) [
  | inl absent ↦ rw (absent, mark_async_injection) h
  | inr (current, found) ↦ elim (Bool-cases (current.generation == generation)) [
    | inr old ↦ rw (found, old, mark_async_injection) h
    | inl newest ↦
        let write = record current { had_async_injection = true } in
        let both = put-total s.writes uri current write found refl in
        rw (found, newest, mark_async_injection)
          (record {
            counted = h.counted ∙ sym both.0;
            light = h.light;
            few = omega (arith, h.few, both.1);
            keyed = put-Keyed s.writes uri current write found h.keyed;
            ordered =
                put-Ascending 0 s.next_generation s.writes uri current write found refl h.ordered;
          })
  ]
]

pub empty-IsLedger : IsLedger empty
unfolding empty
empty-IsLedger = record {
  counted = refl;
  light = omega arith;
  few = omega arith;
  keyed = tt;
  ordered = omega arith;
}

-- The ledger stays within its bounds under every sequence of calls, sizes counted in UTF-16 code units as the
-- code counts them, not in bytes: from a ledger whose size counter is the total length of its
-- texts, which is at most 16 * 2^20 code units, with at most 256 entries, one per document, in
-- ascending generations up to the counter, any number of recorded writes, marks and forgotten
-- documents leads to such a ledger.
pub Reach-IsLedger : {s t : Ledger} → IsLedger s → Reach s t → IsLedger t
Reach-IsLedger h here = h
Reach-IsLedger h (next reach (noted uri text)) = note-IsLedger _ uri text (Reach-IsLedger h reach)
Reach-IsLedger h (next reach (marked uri generation)) =
    mark-IsLedger _ uri generation (Reach-IsLedger h reach)
Reach-IsLedger h (next reach (forgotten uri)) = forget-IsLedger _ uri (Reach-IsLedger h reach)
