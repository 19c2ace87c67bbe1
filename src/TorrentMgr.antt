-- ===== src/TorrentMgr.antt =====
-- src/torrent_mgr.c: the peers that a torrent may connect to, and the work on the peers it has.
pub mod Candidates
pub mod Distinct
pub mod Retry
pub mod State
pub mod World
pub mod Receive
pub mod Transfer
pub mod Sound
pub mod Blocks
pub mod Messages
pub mod Choice
pub mod Requests
pub mod Peers
pub mod Team
pub mod Service
pub mod Loop
pub mod Served
mod TransferTests
mod Tests
