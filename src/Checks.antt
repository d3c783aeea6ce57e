-- ===== src/Checks.antt =====
-- checks/: the producers of checks.
pub mod Contract
pub mod Health
pub mod Watched
pub mod Shown
pub mod DbCheck
pub mod S3Check
pub mod TcpCheck
pub mod HttpCheck
pub mod RedisCheck
pub mod ReadyMade
pub mod Service
