-- ===== src/Core.antt =====
-- core/: the engine, its types and its response.
pub mod Status
pub mod Check
pub mod Engine
pub mod Observe
pub mod Aggregate
pub mod Log
pub mod Run
