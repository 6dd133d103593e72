-- ===== src/Edit.antt =====
-- src/domain/edit: batches of edits against one snapshot of a file.
pub mod Conflicts
pub mod Batch
pub mod NoopGuard
