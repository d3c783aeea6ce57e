-- ===== src/Go.antt =====
-- The parts of the Go language and its standard library that the source uses: goroutines and time,
-- contexts, clock stamps, maps, `any` values with `encoding/json`, and `net/http` writers.
pub mod Exec
pub mod Duration
pub mod Context
pub mod Time
pub mod Table
pub mod Json
pub mod Http
pub mod Decimal
