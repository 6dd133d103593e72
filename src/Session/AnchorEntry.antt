-- ===== src/Session/AnchorEntry.antt =====
-- src/domain/session/anchor-entry.ts: the two primitives through which tools reach the anchors of a file. The
-- checksum of a text is a parameter, as is the aligner's budget.
pub mod Probe
pub mod Mint
pub mod Release
pub mod Load
mod Examples
use dsh_hashline_edittool.Base.{ℕ, List, [], ◌∷◌, Option, none, some, Text}
use dsh_hashline_edittool.Hashline.Alloc.Hash.{canon}
use dsh_hashline_edittool.Session.ServedCodec.{Served}
use dsh_hashline_edittool.Session.ServedCodec.Encode.{truncate_served_key}
use dsh_hashline_edittool.Session.AnchorRows.{PersistedAnchorLine, FileRows, get_state}
use dsh_hashline_edittool.Session.AnchorState.{PathState, lines_of}

-- What a session and the running call keep for a path: the store's rows, the session's served
-- mirror and the call's release pool.
pub record EntryState : Type 0 where
  pub path_state : PathState
  pub served : Served
  pub release_pool : List Text

-- `anchor_lines` for a path
unfoldable pub persisted_anchor_lines : Option FileRows → List PersistedAnchorLine
unfolding get_state
persisted_anchor_lines none = []
persisted_anchor_lines (some rows) = lines_of (get_state rows).0

-- `truncateServedKey(contentChecksum(canon(text)))`
unfoldable pub fingerprint : (Text → Text) → Text → Text
unfolding canon truncate_served_key
fingerprint content_checksum text = truncate_served_key (content_checksum (canon text))
