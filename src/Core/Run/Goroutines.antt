-- ===== src/Core/Run/Goroutines.antt =====
-- core/engine.go: the goroutines of `runChecks` as interleaved steps. The main goroutine launches one
-- goroutine for each check, which may start at any later time, and waits until the counter of the wait
-- group is zero; each goroutine runs its check and writes its own slot of `results`, or its check panics, and
-- then its deferred `wg.Done()` still runs before the process ends.
pub mod Defs
pub mod Invariant
pub mod Phases
pub mod Moves
pub mod Panics
pub mod Refinement
pub mod Sequential
pub mod Crash
pub mod Progress
pub mod Launching
pub mod Adequacy
