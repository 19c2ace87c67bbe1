-- ===== src/AppLog.antt =====
-- src/app_log.c: the log in memory and on disk.
pub mod Defs
pub mod Tail
pub mod Persist
pub mod Rotation
mod Tests
