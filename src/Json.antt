-- ===== src/Json.antt =====
-- The texts in JSON that src/main.c, src/console_files.c and src/torrent_mgr.c write.
pub mod Escape
pub mod Reader
pub mod Bounded
pub mod Writer
pub mod Room
mod Tests
