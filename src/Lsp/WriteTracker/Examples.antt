-- ===== src/Lsp/WriteTracker/Examples.antt =====
-- src/lsp/write-tracker.ts on writes of two documents.
use dsh_hashline_edittool.Base.{◌≡◌, refl, some, codes, [], length, ◌≤◌, ◌<◌}
use dsh_hashline_edittool.Lsp.WriteTracker.{
  Ledger, empty, note_document_write, mark_async_injection, forget_document_write, latest_write_for,
  max_bytes, Reach, here, next, noted, marked, forgotten,
}
use dsh_hashline_edittool.Lsp.WriteTracker.Bounded.{IsLedger, empty-IsLedger, Reach-IsLedger}
use dsh_hashline_edittool.Lsp.WriteTracker.Latest.{latest_write_for-note_document_write}

abbrev first : Ledger
first = (note_document_write empty (codes "a.ts") (codes "one")).1

abbrev second : Ledger
second =
    (note_document_write (mark_async_injection first (codes "a.ts") 1) (codes "b.ts")
      (codes "two")).1

abbrev third : Ledger
third = forget_document_write second (codes "a.ts")

abbrev four_calls : Reach empty third
four_calls =
    next
      (next (next (next here (noted (codes "a.ts") (codes "one"))) (marked (codes "a.ts") 1))
        (noted (codes "b.ts") (codes "two")))
      (forgotten (codes "a.ts"))

Reach-IsLedger_example : IsLedger third
Reach-IsLedger_example = Reach-IsLedger empty-IsLedger four_calls

latest_write_for-note_document_write_example :
    (length (codes "one") ≤ max_bytes
      → latest_write_for (note_document_write empty (codes "a.ts") (codes "one")).1 (codes "a.ts")
        ≡ some (note_document_write empty (codes "a.ts") (codes "one")).0)
    × (max_bytes < length (codes "one")
        → (note_document_write empty (codes "a.ts") (codes "one")).1.writes ≡ [])
latest_write_for-note_document_write_example =
    latest_write_for-note_document_write empty (codes "a.ts") (codes "one") empty-IsLedger

units_left : third.held_bytes ≡ 3
unfolding note_document_write mark_async_injection forget_document_write empty
units_left = refl
