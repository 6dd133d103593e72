-- ===== src/Session.antt =====
-- src/domain/session: what a session keeps between calls.
pub mod ServedCodec
pub mod AnchorRows
pub mod AnchorState
pub mod AnchorEntry
