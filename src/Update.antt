-- ===== src/Update.antt =====
-- The updater (internal/update).
pub mod Version
pub mod Token
pub mod Checker
pub mod Download
