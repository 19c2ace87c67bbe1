-- ===== src/TileState.antt =====
-- src/tile_state.c: searching a package for a version.
pub mod Search
pub mod State
mod Tests
