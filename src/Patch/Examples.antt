-- ===== src/Patch/Examples.antt =====
-- src/domain/patch/parse.ts on a patch with two sections.
use dsh_hashline_edittool.Base.{◌≡◌, refl, List, [], ◌∷◌, none, some, Text, codes, All}
use dsh_hashline_edittool.Patch.Types.{
  file, new, replace, insert, delete, Hunk, Section, parsed, refused, no_content,
}
use dsh_hashline_edittool.Patch.Parse.{parse_patch}
use dsh_hashline_edittool.Patch.Formed.{IsSection}
use dsh_hashline_edittool.Patch.Sections.{parse_patch-IsSection}

abbrev hunks : List Hunk
hunks =
    record {
      line_number = 2;
      kind = replace;
      anchor_start = codes "aB";
      anchor_end = some (codes "cD");
      lines = codes " x" ∷ [] ∷ [];
    }
    ∷ record {
      line_number = 6;
      kind = delete;
      anchor_start = codes "eF";
      anchor_end = none;
      lines = [];
    }
    ∷ []

abbrev sections : List Section
sections =
    record {
      kind = file;
      line_number = 1;
      path = codes "a b.ts";
      destination = none;
      hunks = hunks;
      content = none;
    }
    ∷ record {
      kind = new;
      line_number = 7;
      path = codes "n.ts";
      destination = none;
      hunks = [];
      content = some (codes "y\n");
    }
    ∷ []

abbrev patch : Text
patch = codes "file a b.ts\nreplace aB..12:cD\n+ x\r\n+\n\n delete eF \nnew n.ts\n+y"

two_parts : parse_patch patch ≡ parsed sections
unfolding parse_patch
two_parts = refl

no_lines : parse_patch (codes "file a\ninsert aB\nremove b") ≡ refused 2 (no_content insert)
unfolding parse_patch
no_lines = refl

parse_patch-IsSection_example : All IsSection sections
parse_patch-IsSection_example = parse_patch-IsSection patch {sections = sections} two_parts
