-- ===== src/Patch/Types.antt =====
-- src/domain/patch/types.ts: sections, hunks and refusals. A refusal's reason keeps what its message
-- quotes.
use dsh_hashline_edittool.Base.{ℕ, List, Option, Text}

pub data SectionKind : Type 0 where
  file new move remove : SectionKind

pub data HunkKind : Type 0 where
  replace insert delete : HunkKind

pub record Hunk : Type 0 where
  pub line_number : ℕ
  pub kind : HunkKind
  pub anchor_start : Text
  pub anchor_end : Option Text
  pub lines : List Text

pub record Section : Type 0 where
  pub kind : SectionKind
  pub line_number : ℕ
  pub path : Text
  pub destination : Option Text
  pub hunks : List Hunk
  pub content : Option Text

-- the reasons that the parser gives
pub data Reason : Type 0 where
  missing_anchor insert_range move_arrow move_ends : Reason
  invalid_anchor : Text → Reason
  missing_path : SectionKind → Reason
  content_before_section content_in_remove content_before_hunk content_in_delete : Reason
  hunk_before_section hunk_in_new hunk_in_remove plus_column : Reason
  no_content : HunkKind → Reason
  unknown_header : Text → Reason

-- What the parser returns, or the line and the reason of the `PatchParseError` that it throws.
pub data Parsed {ℓ} (A : Type ℓ) : Type ℓ where
  parsed : A → Parsed A
  refused : ℕ → Reason → Parsed A

infixl 30 ◌>>=◌
abbrev pub ◌>>=◌ {ℓ κ} : {A : Type ℓ} {B : Type κ} → Parsed A → (A → Parsed B) → Parsed B
parsed a >>= f = f a
refused line reason >>= f = refused line reason
