-- ===== src/Examples.antt =====
-- Concrete runs of the engine, its adapters and its checks.
pub mod Shop
pub mod Runs
pub mod Goroutines
pub mod Engines
pub mod Served
pub mod Routed
pub mod Checked
pub mod Callbacks
pub mod Timed
pub mod Documents
pub mod Service
pub mod Planned
pub mod Turns
