-- ===== src/TorrentMgr/Peers.antt =====
-- src/torrent_mgr.c, torrent_mgr_tick: the loop that calls process_peer for each peer of a torrent.
-- The peers are given with their connections, in the order of the array; the field `peers` of the
-- torrent is not read.
use ps5torrent.Base.{ℕ, Bool, List, [], ◌∷◌, Bytes}
use ps5torrent.Base.Outcome.{Outcome, ok, ◌>>=◌}
use ps5torrent.FileIo.Writer.{Write}
use ps5torrent.TorrentMgr.State.{TorrentPeer, ManagedTorrent}
use ps5torrent.TorrentMgr.World.{World, Session}
use ps5torrent.TorrentMgr.Transfer.{process_peer}

-- A peer, what it has sent that is not read yet, and what the calls for it see.
pub record Connection : Type 0 where
  pub peer : TorrentPeer
  pub input : List Bytes
  pub now : ℕ
  pub closed : Bool
  pub sends : Bytes → Bool

-- What all peers share: the torrent, the disk, and `assembly_bytes`.
pub record Shared : Type 0 where
  pub mt : ManagedTorrent
  pub log : List Write
  pub assembly_bytes : ℕ

abbrev pub world_of : World → Connection → World
world_of world c = record world { now = c.now; closed = c.closed; sends = c.sends }

abbrev pub session_for : Shared → Connection → Session
session_for s c = record {
  work = record { mt = s.mt; peer = c.peer; assembly_bytes = s.assembly_bytes };
  log = s.log;
  input = c.input;
  sent = [];
}

abbrev pub shared_by : Session → Shared
shared_by s = record { mt = s.work.mt; log = s.log; assembly_bytes = s.work.assembly_bytes }

-- The loop; it gives the peers as the calls leave them.
unfoldable pub process_peers :
    World → Shared → List Connection → Outcome (Shared × List TorrentPeer)
unfolding process_peer
process_peers world s [] = ok (s, [])
process_peers world s (c ∷ cs) = process_peer (world_of world c) (session_for s c) >>= λ after.
    process_peers world (shared_by after) cs >>= λ (s', ps). ok (s', after.work.peer ∷ ps)
