-- ===== src/TorrentMgr/Receive.antt =====
-- src/torrent_mgr.c, process_peer: what the messages of a peer do.
use ps5torrent.Base.{
  ℕ, zero, suc, ◌+◌, ◌-◌, ◌*◌, ◌/◌, ◌%◌, ◌^◌, Bool, true, false, not, ◌&&◌, ◌||◌, Option, none,
  some, List, [], ◌∷◌, Bytes, length, take, drop, replicate, set, get_or, bytes_eq, ltb, leb, ◌==◌,
  ◌++◌, if◌then◌else◌,
}
use ps5torrent.Base.Bits.{set_bit}
use ps5torrent.Base.Outcome.{Outcome, ok, null, fault, out_of_fuel, ◌>>=◌}
use ps5torrent.Base.Signed.{sub64}
use ps5torrent.Torrent.Types.{Torrent}
use ps5torrent.PieceMgr.Defs.{piece_mgr_complete}
use ps5torrent.FileIo.Writer.{Write, FileWriter, Status, file_writer_write_piece}
use ps5torrent.PeerWire.Defs.{Event, peer_recv_event}
use ps5torrent.TorrentMgr.Candidates.{PeerAddr, Candidate, same_peer}
use ps5torrent.TorrentMgr.State.{
  error, write_failed, TorrentPeer, Work, release_piece, disconnect_peer,
}
use ps5torrent.TorrentMgr.World.{World, Session, Next, with_peer, more, pause, leave}

-- `p->bitfield`, allocated where it is null.
unfoldable pub with_bitfield : World → ℕ → TorrentPeer → Option Bytes
with_bitfield world needed p = elim p.bitfield [
  | some bits ↦ some bits
  | none ↦ if world.malloc needed then some (replicate needed 0) else none
]

unfoldable pub dropped : World → Session → Outcome Next
unfolding disconnect_peer
dropped world s = ok (leave (record s { work = disconnect_peer world.now s.work }))

-- The bytes of an object after memcpy to `begin`: outside the object it is a fault.
unfoldable pub copy_into : Bytes → ℕ → Bytes → Outcome Bytes
copy_into object begin bytes =
    if leb (begin + length bytes) (length object)
    then ok (take begin object ++ bytes ++ drop (begin + length bytes) object)
    else fault

-- `p->bitfield[index / 8] |= 1u << (7 - index % 8)`.
unfoldable pub mark_have : Bytes → ℕ → Outcome Bytes
mark_have bits index =
    if ltb (index / 8) (length bits)
    then ok (set bits (index / 8) (set_bit (get_or bits (index / 8) 0) (7 - index % 8)))
    else fault

abbrev pub needed_bits : Torrent → ℕ
needed_bits t = (t.num_pieces + 7) / 8

-- PEER_MSG_BITFIELD where `whole` is true, PEER_MSG_HAVE where it is not.
unfoldable pub on_availability : World → Session → Bool → ℕ → Bytes → Outcome Next
unfolding with_bitfield dropped copy_into mark_have
on_availability world s whole index bytes =
    let t = s.work.mt.torrent in
    let p = s.work.peer in
    if (whole && not (length bytes == needed_bits t)) || (not whole && leb t.num_pieces index)
    then dropped world s
    else elim (with_bitfield world (needed_bits t) p) [
      | none ↦ dropped world s
      | some bits ↦ (if whole then copy_into bits 0 bytes else mark_have bits index) >>= λ bits'.
          ok (more (with_peer (record p { bitfield = some bits' }) s))
    ]

-- `candidate->failures = 0; candidate->retry_after = 0` for the first one with the address.
unfoldable pub forgive : PeerAddr → List Candidate → List Candidate
unfolding same_peer
forgive addr [] = []
forgive addr (c ∷ cs) =
    let rest = forgive addr cs in
    if same_peer c.addr addr then record c { failures = 0; retry_after = 0 } ∷ cs else c ∷ rest

-- The piece is marked and counted, and the peer's candidate is forgiven its failures.
unfoldable pub completed : World → Work → Bytes → FileWriter → Work
unfolding piece_mgr_complete forgive
completed world w piece fw =
    let p = w.peer in
    record w {
      mt = record w.mt {
        piece_mgr = (piece_mgr_complete world.hash w.mt.piece_mgr p.last_request piece).0;
        file_writer = fw;
        downloaded = w.mt.downloaded + p.piece_size;
        candidates = forgive p.addr w.mt.candidates;
      };
      peer = record p { downloaded = p.downloaded + p.piece_size };
    }

-- The part behind the write of a piece.
unfoldable pub saved : World → Session → Bytes → FileWriter → List Write → Session
unfolding completed release_piece
saved world s piece fw log = record s {
  log = log;
  work = release_piece (completed world s.work piece fw);
}

abbrev pub after_write : World → Session → Bytes → FileWriter × List Write × Status → Outcome Next
after_write world s piece (fw, log, ok _) = ok (more (saved world s piece fw log))
after_write world s piece (fw, log, null) = dropped world (record s {
  log = log;
  work = record s.work {
    mt = record s.work.mt { file_writer = fw; state = error; error_type = write_failed };
  };
})
after_write world s piece (fw, log, fault) = fault
after_write world s piece (fw, log, out_of_fuel) = out_of_fuel

-- A piece of which all blocks have come: the digest is compared with that of the torrent, and the
-- piece is written.
unfoldable pub finish_piece : World → Session → Bytes → Outcome Next
unfolding dropped file_writer_write_piece saved
finish_piece world s piece =
    let w = s.work in
    let index = w.peer.last_request in
    elim w.mt.torrent.pieces [
      | none ↦ fault
      | some digests ↦
          if ltb (length digests) (index * 20 + 20)
          then fault
          else if not (bytes_eq (world.hash piece) (take 20 (drop (index * 20) digests)))
          then dropped world s
          else after_write world s piece
              (file_writer_write_piece world.os s.log w.mt.file_writer piece index)
    ]

-- The session with a block in the piece's buffer.
unfoldable pub stored : World → Session → Bytes → Bytes → Session
stored world s piece bytes =
    let w = s.work in
    record s {
      work = record w {
        mt = record w.mt { last_progress_time = world.now };
        peer = record w.peer {
          piece_data = some piece;
          piece_received = (w.peer.piece_received + length bytes) % 2 ^ 32;
          pending_length = 0;
        };
      };
    }

unfoldable pub received : World → Session → Bytes → Bytes → Outcome Next
unfolding stored finish_piece
received world s bytes piece =
    let s' = stored world s piece bytes in
    if s'.work.peer.piece_received == s'.work.peer.piece_size
    then finish_piece world s' piece
    else ok (more s')

-- The block is the one that was asked for: it is copied behind the others.
unfoldable pub store_block : World → Session → Bytes → ℕ → Bytes → Outcome Next
unfolding copy_into received
store_block world s piece begin bytes = copy_into piece begin bytes >>= received world s bytes

-- PEER_MSG_PIECE: late replies are ignored.
unfoldable pub on_piece : World → Session → ℕ → ℕ → Bytes → Outcome Next
unfolding dropped store_block
on_piece world s index begin bytes =
    let p = s.work.peer in
    elim p.piece_data [
      | none ↦ ok (more s)
      | some piece ↦
          if p.pending_length == 0
          then ok (more s)
          else if not (index == p.last_request) || not (begin == p.piece_received)
          then ok (more s)
          else if not (length bytes == p.pending_length)
              || ltb (sub64 p.piece_size p.piece_received) (length bytes)
          then dropped world s
          else store_block world s piece begin bytes
    ]

abbrev pub or_zero : Option ℕ → ℕ
or_zero none = 0
or_zero (some n) = n

-- One event, by its type: 0 choke, 1 unchoke, 4 have, 5 bitfield, 7 piece.
unfoldable pub on_event : World → Session → Event → Outcome Next
unfolding on_availability on_piece
on_event world s e =
    let p = s.work.peer in
    elim e.type [
      | none ↦ ok (more s)
      | some type ↦
          if type == 0
          then ok (more (with_peer (record p { choked = true; pending_length = 0 }) s))
          else if type == 1
          then ok (more (with_peer (record p { choked = false }) s))
          else if type == 5
          then on_availability world s true (or_zero e.piece_index) e.payload
          else if type == 4
          then on_availability world s false (or_zero e.piece_index) e.payload
          else if type == 7
          then on_piece world s (or_zero e.piece_index) (or_zero e.piece_begin) e.payload
          else ok (more s)
    ]

-- The body of the loop, with what peer_recv_event returned.
unfoldable pub on_received : World → Session → Outcome (Event × List Bytes) → Outcome Next
unfolding dropped on_event
on_received world s null = dropped world s
on_received world s fault = fault
on_received world s out_of_fuel = out_of_fuel
on_received world s (ok (e, input)) =
    if e.code == 2
    then ok (pause s)
    else on_event world
        (record s {
          input = input;
          work = record s.work { peer = record s.work.peer { last_activity = world.now } };
        })
        e

-- The loop, with the events that are left of the eight.
unfoldable pub events : World → ℕ → Session → Outcome Next
unfolding peer_recv_event on_received
events world zero s = ok (pause s)
events world (suc n) s =
    on_received world s (peer_recv_event world.malloc world.closed s.input) >>= λ next. elim next [
      | more s' ↦ events world n s'
      | pause s' ↦ ok (pause s')
      | leave s' ↦ ok (leave s')
    ]
