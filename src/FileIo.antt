-- ===== src/FileIo.antt =====
-- src/file_io.c: where the data of a piece goes on the disk.
pub mod Path
pub mod Writer
pub mod Parts
pub mod Placement
pub mod Placed
pub mod Tiling
mod Tests
