-- ===== src/Hashline/Align.antt =====
-- src/hashline/align-bounded.ts: which old line each surviving new line was.
pub mod Lcs
pub mod Blocks
pub mod Bounded
mod Puts
pub mod Sound
pub mod Whole
mod Examples
