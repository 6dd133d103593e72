-- ===== src/Lsp.antt =====
-- src/lsp: the language-server client.
pub mod Framing
pub mod TextEdits
pub mod WriteTracker
