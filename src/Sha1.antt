-- ===== src/Sha1.antt =====
-- src/sha1.c and include/sha1.h: the digest of pieces and info dictionaries.
pub mod Transform
pub mod Context
pub mod Blocks
pub mod Streaming
pub mod Padding
pub mod Final
mod Tests
