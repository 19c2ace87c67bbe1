-- ===== src/TorrentMgr/Transfer.antt =====
-- src/torrent_mgr.c, process_peer: what a peer's messages do, and which block it is asked for next.
use ps5torrent.Base.{
  ℕ, ◌+◌, ◌*◌, ◌%◌, ◌^◌, Bool, true, false, not, ◌&&◌, ◌||◌, none, some, replicate, ltb, leb, ◌==◌,
  ◌++◌, if◌then◌else◌,
}
use ps5torrent.Base.Outcome.{Outcome, ok, null, fault, out_of_fuel, ◌>>=◌}
use ps5torrent.Base.Signed.{sub64}
use ps5torrent.Torrent.Types.{Torrent}
use ps5torrent.PieceMgr.Defs.{piece_mgr_get_next, piece_mgr_request}
use ps5torrent.PeerWire.Defs.{peer_send_request}
use ps5torrent.TorrentMgr.State.{error, is_downloading, parse_failed, TorrentPeer, disconnect_peer}
use ps5torrent.TorrentMgr.World.{
  assembly_limit, peer_block_size, choked_peer_timeout, World, Session, Next, with_peer, more,
  pause, leave,
}
use ps5torrent.TorrentMgr.Receive.{events}

-- The size of a piece; the last one takes what is left.
unfoldable pub size_of_piece : Torrent → ℕ → ℕ
size_of_piece t index =
    if index == sub64 t.num_pieces 1
    then sub64 t.total_size ((index * t.piece_length) % 2 ^ 64)
    else t.piece_length

-- A piece is chosen and room is made for it. What malloc leaves in the room is never read.
unfoldable pub start_piece : World → Session → ℕ → Next
unfolding size_of_piece disconnect_peer piece_mgr_request
start_piece world s next =
    let w = s.work in
    let size = size_of_piece w.mt.torrent next in
    if ltb assembly_limit size
    then leave (record s {
      work = record w { mt = record w.mt { state = error; error_type = parse_failed } };
    })
    else if ltb (sub64 assembly_limit w.assembly_bytes) size
    then leave s
    else if not (world.malloc size)
    then leave (record s { work = disconnect_peer world.now w })
    else more (record s {
      work = record {
        mt = record w.mt { piece_mgr = piece_mgr_request w.mt.piece_mgr next };
        peer = record w.peer {
          piece_data = some (replicate size 0);
          piece_size = size;
          piece_received = 0;
          last_request = next % 2 ^ 32;
        };
        assembly_bytes = w.assembly_bytes + size;
      };
    })

unfoldable pub choose_piece : World → Session → Outcome Next
unfolding piece_mgr_get_next start_piece
choose_piece world s = elim s.work.peer.piece_data [
  | some _ ↦ ok (more s)
  | none ↦ elim (piece_mgr_get_next s.work.mt.piece_mgr s.work.peer.bitfield) [
    | ok next ↦ ok (start_piece world s next)
    | null ↦ ok (leave s)
    | fault ↦ fault
    | out_of_fuel ↦ out_of_fuel
  ]
]

-- The request of the next block of the piece.
unfoldable pub request_block : World → Session → Session
unfolding disconnect_peer peer_send_request
request_block world s =
    let p = s.work.peer in
    let remaining = sub64 p.piece_size p.piece_received in
    let len = if ltb peer_block_size remaining then peer_block_size else remaining in
    let request = peer_send_request p.last_request p.piece_received len in
    if not (world.sends request)
    then record s { work = disconnect_peer world.now s.work }
    else record (with_peer (record p { pending_length = len; request_time = world.now }) s) {
      sent = s.sent ++ request;
    }

-- The scheduler behind the loop.
unfoldable pub schedule_request : World → Session → Outcome Session
unfolding choose_piece request_block
schedule_request world s =
    let p = s.work.peer in
    let next = choose_piece world s in
    let idle : Bool = elim p.bitfield [ none ↦ true | some _ ↦ false ] in
    if p.choked || not (p.pending_length == 0) || idle
    then ok s
    else next >>= λ r. elim r [
      | more s' ↦ ok (request_block world s')
      | pause s' ↦ ok s'
      | leave s' ↦ ok s'
    ]

-- `now - time >= limit` on a uint64_t.
abbrev pub elapsed : ℕ → ℕ → ℕ → Bool
elapsed now time limit = leb limit (sub64 now time)

unfoldable pub timed_out : ℕ → TorrentPeer → Bool
timed_out now p =
    (p.choked && p.pending_length == 0 && elapsed now p.last_activity choked_peer_timeout)
    || (not (p.pending_length == 0) && elapsed now p.request_time 60)
    || elapsed now p.last_activity 180

abbrev pub active_peer : World → Session → Session
active_peer world s =
    let p = s.work.peer in
    with_peer
      (record p { last_activity = if p.last_activity == 0 then world.now else p.last_activity }) s

unfoldable pub process_peer : World → Session → Outcome Session
unfolding events schedule_request timed_out disconnect_peer
process_peer world s₀ =
    let s = active_peer world s₀ in
    let next = events world 8 s in
    if not s₀.work.peer.sock || not (is_downloading s₀.work.mt.state)
    then ok s₀
    else if timed_out world.now s.work.peer
    then ok (record s { work = disconnect_peer world.now s.work })
    else next >>= λ r. elim r [
      | more s' ↦ schedule_request world s'
      | pause s' ↦ schedule_request world s'
      | leave s' ↦ ok s'
    ]
