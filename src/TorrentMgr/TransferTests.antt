-- ===== src/TorrentMgr/TransferTests.antt =====
-- A run of process_peer of src/torrent_mgr.c: an unchoke, then a block that completes a piece.
use ps5torrent.Base.{
  List, map, inl, inr, ℕ, ◌≡◌, refl, arith, true, false, none, some, inr, [], ◌∷◌, Bytes, codes,
  take, length,
}
use ps5torrent.Base.Bits.{test_bit}
use ps5torrent.Base.Samples.{roomy}
use ps5torrent.Base.Outcome.{Outcome, ok}
use ps5torrent.Base.Endian.{encode32}
use ps5torrent.Torrent.Types.{Torrent}
use ps5torrent.Torrent.Sizes.{IsTorrent}
use ps5torrent.PieceMgr.Defs.{PieceMgr, piece_mgr_init, piece_mgr_is_done}
use ps5torrent.PieceMgr.Progress.{piece_mgr_init-IsValid}
use ps5torrent.FileIo.Writer.{Os, FileWriter}
use ps5torrent.TorrentMgr.State.{TorrentPeer, ManagedTorrent, downloading, no_error}
use ps5torrent.TorrentMgr.World.{World, Session}
use ps5torrent.TorrentMgr.Transfer.{process_peer}
use ps5torrent.TorrentMgr.Sound.{idle}
use ps5torrent.TorrentMgr.Messages.{SoundSession}
use ps5torrent.TorrentMgr.Peers.{Connection, Shared, process_peers}
use ps5torrent.TorrentMgr.Team.{Crew}
use ps5torrent.TorrentMgr.Service.{peers_of}
use ps5torrent.TorrentMgr.Loop.{CrewRests, process_peers-Crew}
use ps5torrent.TorrentMgr.Requests.{Rests, process_peer-Rests}
use ps5torrent.TorrentMgr.Served.{torrent_writer}

abbrev willing : Os
willing = record {
  mkdir = λ log path. true;
  open_file = λ log path. true;
  seek = λ log path offset. true;
  write = λ log path offset bytes. some (length bytes);
}

-- Six bytes in two pieces; the digest of a text is here its first twenty bytes.
abbrev digests : Bytes
digests = codes "aaaabbbbccccddddeeeeABCDEFGHIJKLMNOPQRST"

abbrev two_pieces : Torrent
two_pieces = record {
  announce = none;
  announce_list = [];
  web_seeds = [];
  info_dict_raw = none;
  info_hash = [];
  name = some (codes "t");
  piece_length = 4;
  pieces = some digests;
  num_pieces = 2;
  is_multi_file = false;
  total_size = 6;
  length = 6;
  file_name = none;
  files = [];
}

abbrev writer : FileWriter
writer = record {
  base_path = some (codes "/d");
  torrent = some two_pieces;
  multi_file = false;
  fd = some (codes "/d/t");
  written = 0;
}

abbrev pieces_at_start : PieceMgr
pieces_at_start = piece_mgr_init roomy 2 4 6 (some digests)

abbrev peer_at_start : TorrentPeer
peer_at_start = record {
  sock = true;
  addr = record { ip = 7; port = 6881 };
  choked = true;
  last_request = 0;
  downloaded = 0;
  bitfield = some (192 ∷ []);
  piece_data = none;
  piece_size = 0;
  piece_received = 0;
  pending_length = 0;
  request_time = 0;
  last_activity = 10;
}

abbrev torrent_at_start : ManagedTorrent
torrent_at_start = record {
  generation = 1;
  state = downloading;
  error_type = no_error;
  torrent = two_pieces;
  piece_mgr = pieces_at_start;
  file_writer = writer;
  peers = peer_at_start ∷ [];
  active_peers = 1;
  candidates = [];
  next_candidate = 0;
  downloaded = 0;
  tracker_interval = 0;
  tracker_failures = 0;
  last_announce_time = 0;
  last_progress_time = 0;
}

abbrev world : World
world = record {
  now = 20;
  malloc = roomy;
  os = willing;
  hash = λ bytes. take 20 (codes "aaaabbbbccccddddeeee");
  closed = false;
  sends = λ request. true;
}

abbrev unchoked : Session
unchoked = record {
  work = record { mt = torrent_at_start; peer = peer_at_start; assembly_bytes = 0 };
  log = [];
  input = (0 ∷ 0 ∷ 0 ∷ 1 ∷ 1 ∷ []) ∷ [];
  sent = [];
}

two_pieces-IsTorrent : IsTorrent two_pieces
two_pieces-IsTorrent = (λ e. cc, refl, omega arith, omega arith, omega arith, λ e. cc)

NoOne : ℕ → Type 0
NoOne j = ⊥

start_Sound : SoundSession world (torrent_writer willing) NoOne 0 0 unchoked
unfolding piece_mgr_init NoOne
start_Sound = record {
  steady = record {
    valid = (piece_mgr_init-IsValid roomy 2 4 6 (some digests) refl refl).0;
    counted = refl;
    few = omega arith;
    digests = digests;
    has_digests = refl;
    digests_size = refl;
    served = (two_pieces-IsTorrent, inr (refl, refl));
    kept = λ j o. absurd o;
  };
  active = refl;
  account = (refl, omega arith);
  holding = idle refl refl refl;
  availability = inr (192 ∷ [], refl, refl);
}

process_peer-Rests_example :
    Rests world (torrent_writer willing) NoOne 0 0 (process_peer world unchoked)
process_peer-Rests_example =
    process_peer-Rests world (torrent_writer willing) NoOne 0 0 unchoked start_Sound

-- What a session leaves: the requests, the writes, the bytes downloaded, the bytes that are held.
abbrev outcome : Outcome Session → Bytes × ℕ × ℕ × ℕ
outcome (ok s) = (s.sent, length s.log, s.work.mt.downloaded, s.work.assembly_bytes)
outcome _ = ([], 99, 0, 0)

-- The first piece is asked for.
asked :
    outcome (process_peer world unchoked)
    ≡ (0 ∷ 0 ∷ 0 ∷ 13 ∷ 6 ∷ 0 ∷ 0 ∷ 0 ∷ 0 ∷ 0 ∷ 0 ∷ 0 ∷ 0 ∷ 0 ∷ 0 ∷ 0 ∷ 4 ∷ [], 0, 0, 4)
unfolding process_peer piece_mgr_init test_bit encode32 piece_mgr_is_done
asked = refl

-- Two peers that hold nothing.
abbrev other_peer : TorrentPeer
other_peer = record peer_at_start { addr = record { ip = 8; port = 6881 } }

abbrev connection : TorrentPeer → Connection
connection p = record {
  peer = p;
  input = (0 ∷ 0 ∷ 0 ∷ 1 ∷ 1 ∷ []) ∷ [];
  now = 20;
  closed = false;
  sends = λ request. true;
}

abbrev both : List Connection
both = connection peer_at_start ∷ connection other_peer ∷ []

abbrev shared : Shared
shared = record { mt = record torrent_at_start { active_peers = 2 }; log = []; assembly_bytes = 0 }

both-Crew : Crew (torrent_writer willing) two_pieces NoOne 0 0 shared.mt 0 (peers_of both)
unfolding piece_mgr_init NoOne
both-Crew = record {
  same = refl;
  steady = record {
    valid = (piece_mgr_init-IsValid roomy 2 4 6 (some digests) refl refl).0;
    counted = refl;
    few = omega arith;
    digests = digests;
    has_digests = refl;
    digests_size = refl;
    served = (two_pieces-IsTorrent, inr (refl, refl));
    kept = λ j o. elim o [
      | inl none_of ↦ absurd none_of
      | inr (inl (piece, e, l)) ↦ cc
      | inr (inr (inl (piece, e, l))) ↦ cc
      | inr (inr (inr none_of)) ↦ absurd none_of
    ];
  };
  active = refl;
  account = refl;
  limited = omega arith;
  team = (
    idle refl refl refl,
    inr (192 ∷ [], refl, refl),
    (idle refl refl refl, inr (192 ∷ [], refl, refl), tt),
  );
}

process_peers-Crew_example :
    CrewRests world (torrent_writer willing) two_pieces NoOne 0 0 (process_peers world shared both)
process_peers-Crew_example =
    process_peers-Crew world (torrent_writer willing) two_pieces NoOne 0 0 shared both both-Crew

-- The pieces that the peers have asked for.
abbrev requests : Outcome (Shared × List TorrentPeer) → List ℕ × ℕ
requests (ok (s, ps)) = (map (λ (p : TorrentPeer). p.last_request) ps, s.assembly_bytes)
requests _ = ([], 99)

-- Each peer is asked for another piece, of 4 and of 2 bytes.
two_requests : requests (process_peers world shared both) ≡ (0 ∷ 1 ∷ [], 6)
unfolding process_peers piece_mgr_init test_bit encode32 piece_mgr_is_done
two_requests = refl
