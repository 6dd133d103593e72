-- ===== src/Infra.antt =====
-- src/infra: what the other parts share.
pub mod Lines
