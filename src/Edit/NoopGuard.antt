-- ===== src/Edit/NoopGuard.antt =====
-- src/domain/edit/noop-guard.ts: how often in a row an edit of a file changed nothing. A payload is the
-- text that `noopPayloadKey` makes of the request.
pub mod History
mod Examples
use dsh_hashline_edittool.Base.{
  ℕ, suc, ◌+◌, ◌≡◌, refl, true, false, List, [], ◌∷◌, Option, none, some, if◌then◌else◌, Text,
  codes, text_eq, ◌===◌,
}
use dsh_hashline_edittool.Base.Map

pub record NoopLoopEntry : Type 0 where
  pub payload : Text
  pub count : ℕ

-- `noopLoopTracker`
abbrev pub Tracker : Type 0
Tracker = List (Text × NoopLoopEntry)

-- the count that the entry of a file gives a payload
unfoldable pub counted : Option NoopLoopEntry → Text → ℕ
counted none payload = 1
counted (some existing) payload = if existing.payload === payload then existing.count + 1 else 1

unfoldable pub track_noop_payload : Tracker → Text → Text → ℕ × Tracker
unfolding counted Map.get Map.put
track_noop_payload tracker absolute_path payload =
    let count = counted (Map.get tracker absolute_path) payload in
    (count, Map.put tracker absolute_path (record { payload = payload; count = count }))

unfoldable pub clear_noop_loop : Tracker → Text → Tracker
unfolding Map.delete
clear_noop_loop tracker absolute_path = Map.delete tracker absolute_path
