-- ===== src/Tests.antt =====
-- Theorems at concrete inputs, one module for each part of the program.
mod PresetTests
mod CatalogTests
mod SyncTests
mod WorkerTests
mod MonitorTests
mod AgentTests
mod UpdateTests
mod ServerTests
mod MachineTests
mod WatermarkTests
mod ProbeTests
