-- ===== src/Net.antt =====
-- src/net_utils.c: the loops that send and receive.
pub mod Receive
pub mod Send
pub mod Url
mod Tests
