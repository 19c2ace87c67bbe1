-- ===== src/PieceMgr.antt =====
-- src/piece_mgr.c, include/piece_mgr.h: which pieces of a torrent are free, requested and done.
pub mod Defs
pub mod Bitfield
pub mod Invariant
pub mod Progress
pub mod Next
pub mod Requested
mod Tests
