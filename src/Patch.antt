-- ===== src/Patch.antt =====
-- src/domain/patch: patches, a sequence of file sections with anchor hunks.
pub mod Types
pub mod Reading
pub mod Scan
pub mod Parse
pub mod Readers
pub mod Formed
pub mod Sections
mod Examples
