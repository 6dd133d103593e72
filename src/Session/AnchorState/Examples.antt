-- ===== src/Session/AnchorState/Examples.antt =====
-- src/domain/session/anchor-state.ts on a small file: the theorems at concrete inputs.
use dsh_hashline_edittool.Base.{◌≡◌, refl, [], ◌∷◌, some, Text, codes, true, all, nat_eq}
use dsh_hashline_edittool.Base.Map
use dsh_hashline_edittool.Base.Map.{Keyed}
use dsh_hashline_edittool.Hashline.Alloc.Hash.{content_key}
use dsh_hashline_edittool.Hashline.Alloc.Rows.{AnchorEntry, SparseState}
use dsh_hashline_edittool.Session.AnchorRows.{FileRows, is_valid_row}
use dsh_hashline_edittool.Session.AnchorRows.Lookup.{AllValid-all}
use dsh_hashline_edittool.Session.AnchorState.{persist_anchor_state, normalize_content}
use dsh_hashline_edittool.Base.{Option, length, false, text_eq, List, ℕ, arith}
use dsh_hashline_edittool.Infra.Lines.{split_lines}
use dsh_hashline_edittool.Edit.Batch.{EditHunk}
use dsh_hashline_edittool.Hashline.Alloc.Rows.{allocate_into}
use dsh_hashline_edittool.Session.AnchorState.Update.{Walk, Shift, move, new_position}
use dsh_hashline_edittool.Session.AnchorState.Update.Outside.{Disjoint}
use dsh_hashline_edittool.Session.AnchorState.Update.Kept.{FinallyLaid, allocate_into-outside}
use dsh_hashline_edittool.Session.AnchorState.Persist.{
  IsWhole, IsCommitted, persist_anchor_state-IsCommitted,
}

abbrev ent : Text → Text → AnchorEntry
ent a t = record { anchor = a; content_key = content_key t }

-- line 1 is kept, line 2 changes its anchor, line 4 goes away and line 3 comes
abbrev old_rows : FileRows
old_rows = record {
  file_row = some (codes "old", 4);
  line_rows =
      (4, ent (codes "dD") (codes "d"))
      ∷ (1, ent (codes "aA") (codes "a"))
      ∷ (2, ent (codes "bB") (codes "b"))
      ∷ [];
}

abbrev new_state : SparseState
new_state = record {
  checksum = codes "new";
  line_count = 3;
  entries =
      (3, ent (codes "bB") (codes "b"))
      ∷ (1, ent (codes "aA") (codes "a"))
      ∷ (2, ent (codes "cC") (codes "c"))
      ∷ [];
}

old_rows-IsWhole : IsWhole old_rows
unfolding Map.get
old_rows-IsWhole = record { keyed = (refl, (refl, (refl, tt))); filed = λ e. absurd (cc e) }

new_state-Keyed : Keyed new_state.entries
unfolding Map.get
new_state-Keyed = (refl, (refl, (refl, tt)))

new_state-all : all is_valid_row new_state.entries ≡ true
unfolding all is_valid_row
new_state-all = refl

persist_anchor_state-IsCommitted_example :
    IsCommitted new_state (persist_anchor_state old_rows new_state)
    × IsWhole (persist_anchor_state old_rows new_state)
persist_anchor_state-IsCommitted_example =
    persist_anchor_state-IsCommitted old_rows new_state old_rows-IsWhole new_state-Keyed
      (AllValid-all new_state.entries new_state-all)

committed :
    (persist_anchor_state old_rows new_state).line_rows
    ≡ (1, ent (codes "aA") (codes "a"))
      ∷ (2, ent (codes "cC") (codes "c"))
      ∷ (3, ent (codes "bB") (codes "b"))
      ∷ []
unfolding persist_anchor_state content_key
committed = refl

folded : normalize_content (codes "a\r\nb\r") ≡ codes "a\nb\r"
unfolding normalize_content
folded = refl

-- line 1 of "a", "b", "c" becomes two lines; "c" was served
abbrev hunk : EditHunk
hunk = record { old_start1 = 1; old_end1 = 1; final_start1 = 1; final_end1 = 2 }

abbrev entries_before : List (ℕ × AnchorEntry)
entries_before = (1, ent (codes "aA") (codes "a")) ∷ (3, ent (codes "cC") (codes "c")) ∷ []

abbrev abc : List Text
abc = codes "a" ∷ codes "b" ∷ codes "c" ∷ []

abbrev moved : Walk × Shift
moved = move 100 false abc (split_lines (codes "x\ny\nb\nc\n")) entries_before (hunk ∷ [])

abbrev allocated : Option (List Text × SparseState)
allocated =
    allocate_into
      (record {
        checksum = codes "new";
        line_count = length (split_lines (codes "x\ny\nb\nc\n"));
        entries = moved.1.shifted;
      })
      (codes "x\ny\nb\nc\n") moved.0.fresh_lines (some (codes "aA" ∷ codes "cC" ∷ []))

abbrev state_after : SparseState
state_after = record {
  checksum = codes "new";
  line_count = 4;
  entries =
      (4, ent (codes "cC") (codes "c"))
      ∷ (1, ent (codes "yR") (codes "x"))
      ∷ (2, ent (codes "IS") (codes "y"))
      ∷ [];
}

allocated_eq : allocated ≡ some (codes "yR" ∷ codes "IS" ∷ [], state_after)
unfolding allocate_into move content_key split_lines
allocated_eq = refl

hunk-Disjoint : Disjoint 0 (hunk ∷ [])
hunk-Disjoint = (omega arith, omega arith, tt)

hunk-FinallyLaid : FinallyLaid 0 0 (hunk ∷ [])
hunk-FinallyLaid = (refl, omega arith, omega arith, tt)

entries_before-Keyed : Keyed entries_before
unfolding Map.get
entries_before-Keyed = (refl, (refl, tt))

third : Map.get entries_before 3 ≡ some (ent (codes "cC") (codes "c"))
unfolding Map.get
third = refl

third_moved : new_position 3 0 0 (hunk ∷ []) ≡ some 4
unfolding new_position
third_moved = refl

allocate_into-outside_example : Map.get state_after.entries 4 ≡ some (ent (codes "cC") (codes "c"))
allocate_into-outside_example =
    allocate_into-outside 100 abc (codes "x\ny\nb\nc\n") entries_before (hunk ∷ []) false
      (codes "new") (some (codes "aA" ∷ codes "cC" ∷ [])) 3 4 (ent (codes "cC") (codes "c"))
      hunk-Disjoint hunk-FinallyLaid entries_before-Keyed third third_moved allocated_eq
