-- ===== src/Tracker.antt =====
-- src/tracker.c and src/tracker_udp.c: announcing to a tracker, and the peers that it names.
pub mod Peers
pub mod Udp
pub mod Judge
pub mod Listen
pub mod Exchange
pub mod Http
pub mod Responses
mod Tests
