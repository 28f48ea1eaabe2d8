-- ===== src/Sync.antt =====
-- Catalog synchronization (internal/sync without the presets): retention, manifest, archive.
pub mod Retention
pub mod Manifest
pub mod Archive
pub mod Restore
