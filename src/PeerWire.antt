-- ===== src/PeerWire.antt =====
-- src/peer_wire.c: the frames that peers exchange.
pub mod Defs
pub mod Frames
pub mod Events
pub mod Handshake
pub mod Total
mod Tests
