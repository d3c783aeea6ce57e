-- ===== src/Adapters.antt =====
-- adapters/: the transports of the engine.
pub mod Http
pub mod HttpRouter
