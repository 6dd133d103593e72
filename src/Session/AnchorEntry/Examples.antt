-- ===== src/Session/AnchorEntry/Examples.antt =====
-- src/domain/session/anchor-entry.ts on a small file: the theorems at concrete inputs.
use dsh_hashline_edittool.Base.{◌≡◌, refl, List, [], ◌∷◌, none, some, Text, codes, false}
use dsh_hashline_edittool.Infra.Lines.{split_lines}
use dsh_hashline_edittool.Hashline.Alloc.Hash.{content_key}
use dsh_hashline_edittool.Hashline.Alloc.Rows.{AnchorEntry}
use dsh_hashline_edittool.Base.{all, Option, ℕ, true, arith, nat_eq, text_eq, All}
use dsh_hashline_edittool.Hashline.Alloc.Rows.{SparseState}
use dsh_hashline_edittool.Base.Map
use dsh_hashline_edittool.Session.AnchorRows.{FileRows, is_valid_row}
use dsh_hashline_edittool.Session.AnchorRows.Lookup.{AllValid-all}
use dsh_hashline_edittool.Session.AnchorState.{PathState}
use dsh_hashline_edittool.Session.AnchorEntry.Release.{release_from, restore_anchor_binding}
use dsh_hashline_edittool.Session.AnchorEntry.Release.Gone.{IsGone, release_from-IsGone}
use dsh_hashline_edittool.Session.AnchorRows.{PersistedAnchorState}
use dsh_hashline_edittool.Session.AnchorState.{ensure_state_at, ensured}
use dsh_hashline_edittool.Session.AnchorEntry.Mint.{AnchorForResult, serve}
use dsh_hashline_edittool.Session.AnchorEntry.Mint.Writable.{IsLoaded, InFile}
use dsh_hashline_edittool.Session.AnchorEntry.Mint.Rounds.{Ascending}
use dsh_hashline_edittool.Session.AnchorEntry.Mint.Accepted.{Accepts, serve-Accepts}
use dsh_hashline_edittool.Session.AnchorState.{normalize_content}
use dsh_hashline_edittool.Session.AnchorEntry.{EntryState, persisted_anchor_lines}
use dsh_hashline_edittool.Session.AnchorEntry.Probe.{AnchorRef, InvalidRow, probe_ok, probe_lines}
use dsh_hashline_edittool.Session.AnchorEntry.Probe.Whole.{AllMayWrite, probe_lines-AllMayWrite}

-- a checksum to compute with
abbrev itself : Text → Text
itself text = text

abbrev ent : Text → Text → AnchorEntry
ent a t = record { anchor = a; content_key = content_key t }

abbrev file : Text
file = codes "one\r\ntwo\r\nthree\r\n"

abbrev seen : EntryState
seen = record {
  path_state = record {
    rows = some (record {
      file_row = some (codes "one\ntwo\nthree\n", 3);
      line_rows =
          (1, ent (codes "aA") (codes "one"))
          ∷ (2, ent (codes "bB") (codes "two"))
          ∷ (3, ent (codes "cC") (codes "three"))
          ∷ [];
    });
    degraded = false;
  };
  served =
      (codes "aA", codes "one") ∷ (codes "cC", codes "three") ∷ (codes "bB", codes "another") ∷ [];
  release_pool = [];
}

abbrev ref_to : Text → AnchorRef
ref_to anchor = record { anchor = anchor; line = none }

accepted :
    probe_lines itself seen file (ref_to (codes "cC") ∷ ref_to (codes "aA") ∷ [])
    ≡ some (probe_ok ((codes "cC", 3) ∷ (codes "aA", 1) ∷ []) ((codes "bB", 2) ∷ []))
unfolding probe_lines
accepted = refl

probe_lines-AllMayWrite_example :
    AllMayWrite itself seen file
      (ref_to (codes "cC") ∷ ref_to (codes "aA") ∷ [])
      ((codes "cC", 3) ∷ (codes "aA", 1) ∷ [])
probe_lines-AllMayWrite_example =
    probe_lines-AllMayWrite itself seen file (ref_to (codes "cC") ∷ ref_to (codes "aA") ∷ [])
      accepted

abbrev rebound_row : InvalidRow
rebound_row = record {
  line = 2;
  current = codes "bB";
  given = codes "bB";
  content_key = content_key (codes "two");
}

-- line 2 has its anchor already, and the session asks for lines 1 and 2
abbrev rows_before : FileRows
rows_before = record {
  file_row = some (codes "one\ntwo\n", 2);
  line_rows = (2, ent (codes "bB") (codes "two")) ∷ [];
}

abbrev state_before : SparseState
state_before = record {
  checksum = codes "one\ntwo\n";
  line_count = 2;
  entries = (2, ent (codes "bB") (codes "two")) ∷ [];
}

abbrev fresh_entry : EntryState
fresh_entry = record {
  path_state = record { rows = some rows_before; degraded = false };
  served = [];
  release_pool = [];
}

abbrev two_rows : List (ℕ × Text)
two_rows = (1, codes "one") ∷ (2, codes "two") ∷ []

two_rows-Ascending : Ascending two_rows
two_rows-Ascending = ((omega arith, tt), (tt, tt))

two_rows-InFile : All (InFile (split_lines (normalize_content (codes "one\r\ntwo\r\n")))) two_rows
unfolding normalize_content split_lines
two_rows-InFile = ((omega arith, omega arith, refl), ((omega arith, omega arith, refl), tt))

valid_before : all is_valid_row state_before.entries ≡ true
unfolding all is_valid_row
valid_before = refl

loaded_before : IsLoaded rows_before state_before
unfolding Map.get persisted_anchor_lines all is_valid_row
loaded_before = record {
  whole = record { keyed = (refl, tt); filed = λ e. absurd (cc e) };
  keyed = (refl, tt);
  valid = AllValid-all state_before.entries valid_before;
  named = λ i x e. ground arith;
  apart = λ i j x y ei ej ne. ground arith;
  live_keyed = (refl, tt);
  live = λ i. refl;
}

abbrev outcome : Option (AnchorForResult × EntryState)
outcome =
    serve itself fresh_entry fresh_entry.path_state state_before two_rows (codes "one\ntwo\n") 2

abbrev given_result : AnchorForResult
given_result = record { anchors = codes "Yh" ∷ codes "bB" ∷ []; minted = some (codes "Yh") ∷ [] }

abbrev entry_after : EntryState
entry_after = record {
  path_state = record {
    rows = some (record {
      file_row = some (codes "one\ntwo\n", 2);
      line_rows = (2, ent (codes "bB") (codes "two")) ∷ (1, ent (codes "Yh") (codes "one")) ∷ [];
    });
    degraded = false;
  };
  served = (codes "Yh", codes "one") ∷ (codes "bB", codes "two") ∷ [];
  release_pool = [];
}

served_two : outcome ≡ some (given_result, entry_after)
unfolding serve content_key
served_two = refl

serve-Accepts_example :
    Accepts itself fresh_entry false rows_before state_before loaded_before
      (codes "one\r\ntwo\r\n")
      two_rows
      two_rows-Ascending
      two_rows-InFile
      (codes "one\ntwo\n")
      given_result
      entry_after
unfolding serve split_lines normalize_content
serve-Accepts_example =
    serve-Accepts itself fresh_entry false rows_before state_before loaded_before
      (codes "one\r\ntwo\r\n") two_rows two_rows-Ascending two_rows-InFile (codes "one\ntwo\n")
      served_two

abbrev before_release : PathState
before_release = record { rows = some rows_before; degraded = false }

release_from-IsGone_example :
    (let (released, entry') = release_from entry_after before_release state_before (2 ∷ []) in
      All (IsGone entry') released)
release_from-IsGone_example =
    release_from-IsGone entry_after rows_before false state_before (2 ∷ []) loaded_before

released_two :
    (release_from entry_after before_release state_before (2 ∷ 9 ∷ 2 ∷ [])).0 ≡ codes "bB" ∷ []
unfolding release_from
released_two = refl

restored :
    (restore_anchor_binding itself entry_after (codes "one\ntwo\n") (codes "qQ" ∷ [] ∷ [])).0 ≡ 1
unfolding restore_anchor_binding
restored = refl

-- two lines with one anchor
abbrev repeated : FileRows
repeated = record {
  file_row = some (codes "one\ntwo\n", 2);
  line_rows = (2, ent (codes "aA") (codes "two")) ∷ (1, ent (codes "aA") (codes "one")) ∷ [];
}

abbrev repeated_disk : PersistedAnchorState
repeated_disk = record {
  checksum = codes "one\ntwo\n";
  line_count = 2;
  lines = (1, ent (codes "aA") (codes "one")) ∷ (2, ent (codes "aA") (codes "two")) ∷ [];
}

healed_row :
    ensure_state_at 100
      (record { rows = some repeated; degraded = false })
      (codes "one\ntwo\n")
      2
      none
    ≡ ensured
        (record {
          checksum = codes "one\ntwo\n";
          line_count = 2;
          entries = (1, ent (codes "aA") (codes "one")) ∷ [];
        })
        (record {
          rows = some (record {
            file_row = some (codes "one\ntwo\n", 2);
            line_rows = (1, ent (codes "aA") (codes "one")) ∷ [];
          });
          degraded = false;
        })
unfolding ensure_state_at
healed_row = refl
