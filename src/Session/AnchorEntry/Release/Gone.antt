-- ===== src/Session/AnchorEntry/Release/Gone.antt =====
-- src/domain/session/anchor-entry.ts, `releaseLines`: what is left of an anchor that was released.
use dsh_hashline_edittool.Base.{
  ℕ, ◌≡◌, ◌≢◌, sym, ap, ◌∙◌, subst, Bool, true, List, [], ◌∷◌, ◌++◌, none, some, arith,
  if◌then◌else◌, Text, nat_eq, text_eq, ◌===◌, has, All, All-map, All-both, Bool-cases,
  Option-cases, inl, inr, ===_false, ===_refl, List-cases, leb,
}
use dsh_hashline_edittool.Base.Map
use dsh_hashline_edittool.Base.Map.{Keyed}
use dsh_hashline_edittool.Base.Sort.{sort}
use dsh_hashline_edittool.Hashline.Alloc.Rows.{AnchorEntry, SparseState}
use dsh_hashline_edittool.Hashline.Alloc.Rows.Live.{Apart}
use dsh_hashline_edittool.Session.ServedCodec.{Served}
use dsh_hashline_edittool.Session.AnchorRows.{FileRows}
use dsh_hashline_edittool.Session.AnchorRows.Lookup.{delete-Keyed}
use dsh_hashline_edittool.Session.AnchorState.{lines_of, persist_anchor_state}
use dsh_hashline_edittool.Session.AnchorState.Persist.{persist_anchor_state-IsCommitted}
use dsh_hashline_edittool.Session.AnchorEntry.{EntryState, persisted_anchor_lines}
use dsh_hashline_edittool.Session.AnchorEntry.Mint.Writable.{IsLoaded, has-append_left}
use dsh_hashline_edittool.Session.AnchorEntry.Release.{
  mark_released, set_of, release_entries, unserve, release_from,
}

has-append_last : (a : Text) (xs : List Text) → has a (xs ++ a ∷ []) ≡ true
has-append_last a [] = rw (===_refl a)
has-append_last a (x ∷ xs) = ground (arith, has-append_last a xs)

has-mark_released :
    (a : Text) (pool anchors : List Text)
    → has a pool ≡ true
    → has a (mark_released pool anchors) ≡ true
unfolding mark_released
has-mark_released a pool [] h = h
has-mark_released a pool (b ∷ anchors) h = elim (Bool-cases (has b pool)) [
  | inl p ↦ rw p (has-mark_released a pool anchors h)
  | inr p ↦ rw p (has-mark_released a (pool ++ b ∷ []) anchors (has-append_left a pool (b ∷ []) h))
]

mark_released-All :
    (pool anchors : List Text) → All (λ a. has a (mark_released pool anchors) ≡ true) anchors
unfolding mark_released
mark_released-All pool [] = tt
mark_released-All pool (b ∷ anchors) =
    let pool' = if has b pool then pool else pool ++ b ∷ [] in
    let here : has b pool' ≡ true = elim (Bool-cases (has b pool)) [
      | inl p ↦ rw p p
      | inr p ↦ rw p (has-append_last b pool)
    ] in
    (has-mark_released b pool' anchors here, mark_released-All pool' anchors)

get-unserve-none :
    (served : Served) (anchors : List Text) (a : Text)
    → Map.get served a ≡ none
    → Map.get (unserve served anchors) a ≡ none
unfolding unserve
get-unserve-none served [] a h = h
get-unserve-none served (b ∷ anchors) a h =
    get-unserve-none (Map.delete served b) anchors a (elim (Bool-cases (b === a)) [
      | inl p ↦ let gone = Map.get-delete served b a in rw p at gone
      | inr p ↦ let left = Map.get-delete served b a in (rw p at left) ∙ h
    ])

unserve-All :
    (served : Served) (anchors : List Text)
    → All (λ a. Map.get (unserve served anchors) a ≡ none) anchors
unfolding unserve
unserve-All served [] = tt
unserve-All served (b ∷ anchors) = (
  get-unserve-none (Map.delete served b) anchors b (Map.get-delete served b b ∙ rw (===_refl b)),
  unserve-All (Map.delete served b) anchors,
)

-- What the loop leaves: entries that were there, none of them with a released anchor.
record Leaves (entries : List (ℕ × AnchorEntry)) (r : List Text × List (ℕ × AnchorEntry))
    : Type 0 where
  keyed : Keyed r.1
  kept : (i : ℕ) (x : AnchorEntry) → Map.get r.1 i ≡ some x → Map.get entries i ≡ some x
  gone : All (λ a. (i : ℕ) (x : AnchorEntry) → Map.get r.1 i ≡ some x → x.anchor ≢ a) r.0

release_entries-Leaves :
    (entries : List (ℕ × AnchorEntry)) (lines : List ℕ)
    → Keyed entries
    → Apart entries
    → Leaves entries (release_entries entries lines)
unfolding release_entries
release_entries-Leaves entries [] k apart = record { keyed = k; kept = λ i x e. e; gone = tt }
release_entries-Leaves entries (line ∷ lines) k apart = elim (Option-cases (Map.get entries line)) [
  | inl missing ↦ rw (missing, release_entries) (release_entries-Leaves entries lines k apart)
  | inr (entry, found) ↦
      let still : (i : ℕ) (x : AnchorEntry)
          → Map.get (Map.delete entries line) i ≡ some x
          → (Map.get entries i ≡ some x) × (line ≢ i) =
        λ i x e.
          let left = Map.get-delete entries line i in
          elim (Bool-cases (line === i)) [
            | inl p ↦ absurd (cc (rw p at left, e))
            | inr p ↦ (sym (rw p at left) ∙ e, ===_false line i p)
          ] in
      let rest =
        release_entries-Leaves (Map.delete entries line) lines (delete-Keyed entries line k)
          (λ i j x y ei ej. apart i j x y (still i x ei).0 (still j y ej).0) in
      rw (found, release_entries)
        (record {
          keyed = rest.keyed;
          kept = λ i x e. (still i x (rest.kept i x e)).0;
          gone = (
            (λ i x e same.
                apart i line x entry (still i x (rest.kept i x e)).0 found
                  (λ at. (still i x (rest.kept i x e)).1 (sym at)) same),
            rest.gone,
          );
        })
]

-- What a release did to an anchor: the session's mirror does not have it, the call keeps it from being
-- handed out again, and no row of the store has it.
abbrev pub IsGone : EntryState → Text → Type 0
IsGone entry anchor =
    (Map.get entry.served anchor ≡ none)
    × (has anchor entry.release_pool ≡ true)
    × ((i : ℕ) (x : AnchorEntry)
        → Map.get (persisted_anchor_lines entry.path_state.rows) i ≡ some x
        → x.anchor ≢ anchor)

-- the state behind a release that returns these anchors and leaves these entries
abbrev released_state :
    EntryState → FileRows → Bool → SparseState → List Text → List (ℕ × AnchorEntry) → EntryState
released_state entry rows degraded state anchors left = record {
  path_state = record {
    rows = some (persist_anchor_state rows (record state { entries = left }));
    degraded = degraded;
  };
  served = unserve entry.served anchors;
  release_pool = mark_released entry.release_pool anchors;
}

released_state-All :
    (entry : EntryState) (rows : FileRows) (degraded : Bool) (state : SparseState)
    (anchors : List Text) (left : List (ℕ × AnchorEntry))
    → IsLoaded rows state
    → Leaves state.entries (anchors, left)
    → All (IsGone (released_state entry rows degraded state anchors left)) anchors
unfolding persisted_anchor_lines
released_state-All entry rows degraded state anchors left loaded leaves =
    let state' : SparseState = record state { entries = left } in
    let ((lines, read, found, keyed), whole) =
      persist_anchor_state-IsCommitted rows state' loaded.whole leaves.keyed
        (λ i x e. loaded.valid i x (leaves.kept i x e)) in
    All-map
      (λ a p. (
        p.0,
        p.1.0,
        λ i x e. p.1.1 i x (sym (found i) ∙ ap (λ r. Map.get (lines_of r.0) i) (sym read) ∙ e),
      ))
      anchors
      (All-both (λ a. Map.get (unserve entry.served anchors) a ≡ none)
        (λ a.
          (has a (mark_released entry.release_pool anchors) ≡ true)
          × ((i : ℕ) (x : AnchorEntry) → Map.get left i ≡ some x → x.anchor ≢ a))
        anchors (unserve-All entry.served anchors)
        (All-both (λ a. has a (mark_released entry.release_pool anchors) ≡ true)
          (λ a. (i : ℕ) (x : AnchorEntry) → Map.get left i ≡ some x → x.anchor ≢ a) anchors
          (mark_released-All entry.release_pool anchors) leaves.gone))

-- A release of lines, whichever they are, does its three parts for each anchor that it returns: the
-- anchor leaves the session's served mirror, enters the pool of the call and has no row in the store
-- any more. The state that it starts from stands for the store's rows.
pub release_from-IsGone :
    (entry : EntryState) (rows : FileRows) (degraded : Bool) (state : SparseState) (lines : List ℕ)
    → IsLoaded rows state
    → (let (released, entry') =
          release_from entry (record { rows = some rows; degraded = degraded }) state lines in
        All (IsGone entry') released)
unfolding release_from persisted_anchor_lines
release_from-IsGone entry rows degraded state lines loaded =
    let asked = sort leb (set_of [] lines) in
    let left = release_entries-Leaves state.entries asked loaded.keyed loaded.apart in
    elim (List-cases (release_entries state.entries asked).0) [
      | inl none_released ↦ rw (none_released, release_from) tt
      | inr (anchor, anchors, found) ↦
          rw (found, release_from)
            (released_state-All entry rows degraded state (anchor ∷ anchors)
              (release_entries state.entries asked).1 loaded
              (subst (λ a. Leaves state.entries (a, (release_entries state.entries asked).1)) found
                left))
    ]
