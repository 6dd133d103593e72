-- ===== src/Edit/NoopGuard/Examples.antt =====
-- src/domain/edit/noop-guard.ts on calls for two files.
use dsh_hashline_edittool.Base.{◌≡◌, refl, suc, List, [], ◌∷◌, codes}
use dsh_hashline_edittool.Edit.NoopGuard.{track_noop_payload}
use dsh_hashline_edittool.Edit.NoopGuard.History.{
  Call, tracked, cleared, after, in_a_row, track_noop_payload-in_a_row,
}

abbrev calls : List Call
calls =
    tracked (codes "a.ts") (codes "x")
    ∷ tracked (codes "b.ts") (codes "y")
    ∷ tracked (codes "a.ts") (codes "x")
    ∷ cleared (codes "a.ts")
    ∷ tracked (codes "a.ts") (codes "x")
    ∷ []

track_noop_payload-in_a_row_example :
    (track_noop_payload (after calls) (codes "a.ts") (codes "x")).0
    ≡ suc (in_a_row calls (codes "a.ts") (codes "x"))
track_noop_payload-in_a_row_example = track_noop_payload-in_a_row calls (codes "a.ts") (codes "x")

third_time : in_a_row calls (codes "a.ts") (codes "x") ≡ 2
third_time = refl
