-- ===== src/WebSeed.antt =====
-- src/web_seed.c: pieces that come from a web server.
pub mod Url
pub mod Http
pub mod Fetch
pub mod Window
pub mod Pieces
mod Tests
