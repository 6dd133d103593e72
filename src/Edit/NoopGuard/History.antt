-- ===== src/Edit/NoopGuard/History.antt =====
-- src/domain/edit/noop-guard.ts: the count as a function of the calls made so far.
use dsh_hashline_edittool.Base.{
  ℕ, suc, ◌≡◌, refl, ap, ◌∙◌, List, [], ◌∷◌, arith, if◌then◌else◌, Text, text_eq, ◌===◌, ===_sound,
  Bool-cases, inl, inr,
}
use dsh_hashline_edittool.Base.Map
use dsh_hashline_edittool.Edit.NoopGuard.{
  NoopLoopEntry, Tracker, counted, track_noop_payload, clear_noop_loop,
}

-- A call of the module.
pub data Call : Type 0 where
  tracked : (absolute_path payload : Text) → Call
  cleared : (absolute_path : Text) → Call

-- The tracker after some calls, the last one first.
unfoldable pub after : List Call → Tracker
after [] = []
after (tracked absolute_path payload ∷ calls) =
    (track_noop_payload (after calls) absolute_path payload).1
after (cleared absolute_path ∷ calls) = clear_noop_loop (after calls) absolute_path

-- How often the file's last calls tracked this payload, with nothing else for the file in between.
abbrev pub in_a_row : List Call → Text → Text → ℕ
in_a_row [] path payload = 0
in_a_row (tracked other done ∷ calls) path payload =
    let earlier = in_a_row calls path payload in
    if other === path then (if done === payload then suc earlier else 0) else earlier
in_a_row (cleared other ∷ calls) path payload =
    let earlier = in_a_row calls path payload in if other === path then 0 else earlier

counted-after :
    (calls : List Call) (path payload : Text)
    → counted (Map.get (after calls) path) payload ≡ suc (in_a_row calls path payload)
unfolding after counted Map.get track_noop_payload clear_noop_loop
counted-after [] path payload = refl
counted-after (tracked other done ∷ calls) path payload =
    let count = counted (Map.get (after calls) other) done in
    let entry : NoopLoopEntry = record { payload = done; count = count } in
    let written = Map.get-put (after calls) other path entry in
    elim (Bool-cases (other === path)) [
      | inr p ↦ rw (written, p) (counted-after calls path payload)
      | inl p ↦
          rw (written, p)
            (elim (Bool-cases (done === payload)) [
              | inr q ↦ rw q
              | inl q ↦
                  let same : count ≡ suc (in_a_row calls path payload) =
                    ap (λ f. counted (Map.get (after calls) f) done) (===_sound other path p)
                    ∙ ap (counted (Map.get (after calls) path)) (===_sound done payload q)
                    ∙ counted-after calls path payload in
                  rw q (omega (arith, same))
            ])
    ]
counted-after (cleared other ∷ calls) path payload =
    let written = Map.get-delete (after calls) other path in
    elim (Bool-cases (other === path)) [
      | inr p ↦ rw (written, p) (counted-after calls path payload)
      | inl p ↦ rw (written, p)
    ]

-- The count that a call returns is the number of its repetitions. After any calls for any files, starting from no entries:
-- tracking a payload returns one more than the number of times in a row that the last calls for the
-- file tracked the same payload, without another payload or a clearing of that file in between.
pub track_noop_payload-in_a_row :
    (calls : List Call) (path payload : Text)
    → (track_noop_payload (after calls) path payload).0 ≡ suc (in_a_row calls path payload)
unfolding track_noop_payload
track_noop_payload-in_a_row calls path payload = counted-after calls path payload
