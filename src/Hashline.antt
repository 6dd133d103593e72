-- ===== src/Hashline.antt =====
-- src/hashline: what an anchor is, how it is allocated, and how anchors survive an edit.
pub mod Alloc
pub mod Align
pub mod Span
pub mod Declaration
