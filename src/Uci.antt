-- ===== src/Uci.antt =====
-- internal/uci/uci.go.
pub mod Tokens
pub mod File
mod Examples
