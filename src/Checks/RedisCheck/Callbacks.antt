-- ===== src/Checks/RedisCheck/Callbacks.antt =====
-- checks/redischeck/redischeck.go: the callbacks of `newWithIterator` as interleaved steps. Each
-- pings its node, takes the mutex, reads the shared slice, writes it back longer, and releases the
-- mutex.
pub mod Defs
pub mod Gather
pub mod Invariant
pub mod Moves
pub mod Refinement
pub mod Held
pub mod Progress
pub mod Launching
pub mod Adequacy
