-- ===== src/Monitor.antt =====
-- The agent's monitors (internal/monitor).
pub mod Breaker
pub mod Lightroom
pub mod Heartbeat
pub mod Lock
pub mod Backup
pub mod PathProbe
