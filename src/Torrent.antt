-- ===== src/Torrent.antt =====
-- src/torrent.c and include/torrent.h: the metainfo of a torrent.
pub mod Types
pub mod Parse
pub mod Sizes
pub mod Valid
pub mod Writes
mod Tests
