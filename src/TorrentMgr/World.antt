-- ===== src/TorrentMgr/World.antt =====
-- src/torrent_mgr.c, process_peer: its limits, what a call sees of the world, and what it works on.
use ps5torrent.Base.{ℕ, ◌*◌, Bool, List, Bytes}
use ps5torrent.FileIo.Writer.{Os, Write}
use ps5torrent.TorrentMgr.State.{TorrentPeer, Work}

-- ASSEMBLY_LIMIT, PEER_BLOCK_SIZE and CHOKED_PEER_TIMEOUT.
abbrev pub assembly_limit : ℕ
assembly_limit = 64 * 1024 * 1024

abbrev pub peer_block_size : ℕ
peer_block_size = 16 * 1024

abbrev pub choked_peer_timeout : ℕ
choked_peer_timeout = 45

-- What a call sees from outside: the time, the answers of the allocator and of the system, the
-- digest (sha1_hash), whether the peer has closed the connection, and whether it takes a request.
pub record World : Type 0 where
  pub now : ℕ
  pub malloc : ℕ → Bool
  pub os : Os
  pub hash : Bytes → Bytes
  pub closed : Bool
  pub sends : Bytes → Bool

-- The work, what reached the disk, what the peer has sent that is not read yet, and the requests
-- that went out.
pub record Session : Type 0 where
  pub work : Work
  pub log : List Write
  pub input : List Bytes
  pub sent : Bytes

-- What the body of the loop does: `more` goes on to the next event, `pause` leaves the loop, and
-- `leave` returns from process_peer.
pub data Next : Type 0 where
  more pause leave : Session → Next

abbrev pub with_peer : TorrentPeer → Session → Session
with_peer p s = record s { work = record s.work { peer = p } }
