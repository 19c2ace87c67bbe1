-- ===== src/Http.antt =====
-- src/http_server.c: searching in request bodies.
pub mod Search
pub mod Params
pub mod Multipart
pub mod Upload
mod Tests
