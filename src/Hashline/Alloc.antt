-- ===== src/Hashline/Alloc.antt =====
-- src/hashline/alloc.ts: the pure allocator of variable-length Base62 anchors.
pub mod Hash
pub mod Code
pub mod Probe
pub mod Fresh
pub mod Rows
mod Examples
