-- ===== src/TorrentMgr/State.antt =====
-- src/torrent_mgr.c and include/torrent_mgr.h: a managed torrent and a peer's connection, and how a
-- peer lets go of its piece and of its socket. Times are in seconds, a uint64_t each; what only the
-- status text shows (progress as a float, the error's text, the source) is left out.
use ps5torrent.Base.{
  ℕ, ◌-◌, Bool, true, false, not, ◌&&◌, Option, none, some, List, Bytes, ltb, if◌then◌else◌,
}
use ps5torrent.Base.Signed.{sub64}
use ps5torrent.Torrent.Types.{Torrent}
use ps5torrent.PieceMgr.Defs.{PieceMgr, free, set_state, pieces_of}
use ps5torrent.PieceMgr.Invariant.{complete_at}
use ps5torrent.FileIo.Writer.{FileWriter}
use ps5torrent.TorrentMgr.Candidates.{PeerAddr, Candidate, record_peer_failure}

pub data TorrentState : Type 0 where
  stopped downloading seeding error done : TorrentState

pub data TorrentError : Type 0 where
  no_error parse_failed tracker_failed no_peers write_failed hash_mismatch : TorrentError

abbrev pub is_downloading : TorrentState → Bool
is_downloading downloading = true
is_downloading _ = false

-- torrent_peer_t: `sock` tells whether the socket is open (it is -1 where it is not), and
-- `piece_data` and `bitfield` are `none` for a null pointer.
pub record TorrentPeer : Type 0 where
  pub sock : Bool
  pub addr : PeerAddr
  pub choked : Bool
  pub last_request : ℕ
  pub downloaded : ℕ
  pub bitfield : Option Bytes
  pub piece_data : Option Bytes
  pub piece_size : ℕ
  pub piece_received : ℕ
  pub pending_length : ℕ
  pub request_time : ℕ
  pub last_activity : ℕ

-- managed_torrent_t.
pub record ManagedTorrent : Type 0 where
  pub generation : ℕ
  pub state : TorrentState
  pub error_type : TorrentError
  pub torrent : Torrent
  pub piece_mgr : PieceMgr
  pub file_writer : FileWriter
  pub peers : List TorrentPeer
  pub active_peers : ℕ
  pub candidates : List Candidate
  pub next_candidate : ℕ
  pub downloaded : ℕ
  pub tracker_interval : ℕ
  pub tracker_failures : ℕ
  pub last_announce_time : ℕ
  pub last_progress_time : ℕ

-- What the manager works on for one peer: the torrent, the peer, and `assembly_bytes`, the bytes
-- that all peers of all torrents hold in pieces that are not complete.
pub record Work : Type 0 where
  pub mt : ManagedTorrent
  pub peer : TorrentPeer
  pub assembly_bytes : ℕ

-- A piece that is not complete becomes free again.
unfoldable pub unless_complete : ℕ → PieceMgr → PieceMgr
unfolding complete_at
unless_complete index pm =
    if ltb index pm.num_pieces && not (complete_at (pieces_of pm) index)
    then set_state free index pm
    else pm

abbrev pub without_piece : TorrentPeer → TorrentPeer
without_piece p = record p {
  piece_data = none;
  piece_size = 0;
  piece_received = 0;
  pending_length = 0;
}

unfoldable pub release_piece : Work → Work
unfolding unless_complete
release_piece w = elim w.peer.piece_data [
  | none ↦ record w { peer = without_piece w.peer }
  | some bytes ↦ record {
    mt = record w.mt { piece_mgr = unless_complete w.peer.last_request w.mt.piece_mgr };
    peer = without_piece w.peer;
    assembly_bytes = sub64 w.assembly_bytes w.peer.piece_size;
  }
]

-- The first half of disconnect_peer: a socket that is open is closed, and a download that goes on
-- counts it as a failure.
unfoldable pub close_socket : ℕ → Work → Work
unfolding record_peer_failure
close_socket now w =
    if w.peer.sock
    then record w {
      mt = record w.mt {
        candidates =
            if is_downloading w.mt.state
            then record_peer_failure now w.mt.candidates w.peer.addr
            else w.mt.candidates;
        active_peers = w.mt.active_peers - 1;
      };
      peer = record w.peer { sock = false };
    }
    else w

unfoldable pub disconnect_peer : ℕ → Work → Work
unfolding close_socket release_piece
disconnect_peer now w =
    let w' = release_piece (close_socket now w) in
    record w' { peer = record w'.peer { bitfield = none } }
