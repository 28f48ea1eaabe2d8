-- ===== src/Coordinator.antt =====
-- The agent's coordinator (internal/coordinator): its state cache, event bus, watchdog and worker.
pub mod State
pub mod Bus
pub mod Watchdog
pub mod Worker
pub mod Catalog
