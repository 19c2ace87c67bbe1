-- ===== src/TorrentMgr/Loop.antt =====
-- src/torrent_mgr.c, torrent_mgr_tick: the loop over a torrent's peers keeps them a crew.
use ps5torrent.Base.{ℕ, ◌+◌, List, [], ◌∷◌}
use ps5torrent.Base.Outcome.{Outcome, ok, null, fault, out_of_fuel, ◌>>=◌}
use ps5torrent.Torrent.Types.{Torrent}
use ps5torrent.PieceMgr.Invariant.{bit_of}
use ps5torrent.TorrentMgr.State.{TorrentPeer}
use ps5torrent.TorrentMgr.World.{World, Session}
use ps5torrent.TorrentMgr.Transfer.{process_peer}
use ps5torrent.TorrentMgr.Sound.{SafeWriter}
use ps5torrent.TorrentMgr.Requests.{Rests, process_peer-Rests}
use ps5torrent.TorrentMgr.Peers.{
  Connection, Shared, world_of, session_for, shared_by, process_peers,
}
use ps5torrent.TorrentMgr.Team.{Holds, Held, held_bytes, open_sockets, Or, Crew}
use ps5torrent.TorrentMgr.Service.{
  peers_of, pinned, SoundFor, session_for-SoundSession, SoundFor-CrewBehind, CrewBehind-CrewOf,
}

module _ (base : World) (writer : SafeWriter base.os) (t : Torrent) where
  -- The loop returns, and what it leaves is a crew.
  abbrev pub CrewRests : (ℕ → Type 0) → ℕ → ℕ → Outcome (Shared × List TorrentPeer) → Type 0
  CrewRests Outer others sockets (ok (s, ps)) =
      Crew writer t Outer others sockets s.mt s.assembly_bytes ps
  CrewRests Outer others sockets _ = ⊥

  with_first :
      (Outer : ℕ → Type 0) (others sockets : ℕ) (c : Connection) (s : Session)
      (ps : List TorrentPeer) (r : Outcome (Shared × List TorrentPeer))
      → SoundFor base writer t Outer others sockets c s ps
      → CrewRests
          (Or Outer (Holds s.work.peer))
          (others + s.work.peer.piece_size)
          (sockets + bit_of s.work.peer.sock)
          r
      → CrewRests Outer others sockets (r >>= λ (s', ps'). ok (s', s.work.peer ∷ ps'))
  with_first Outer others sockets c s ps (ok (s', ps')) k h =
      CrewBehind-CrewOf base writer t Outer others sockets c s s' ps ps' k h
  with_first Outer others sockets c s ps null k h = h
  with_first Outer others sockets c s ps fault k h = h
  with_first Outer others sockets c s ps out_of_fuel k h = h

  served :
      (Outer : ℕ → Type 0) (others sockets : ℕ) (c : Connection) (cs : List Connection)
      (r : Outcome Session)
      → Rests
          (world_of base c)
          (pinned base writer t)
          (Or Outer (Held (peers_of cs)))
          (others + held_bytes (peers_of cs))
          (sockets + open_sockets (peers_of cs))
          r
      → ((s : Session)
          → SoundFor base writer t Outer others sockets c s (peers_of cs)
          → CrewRests
              (Or Outer (Holds s.work.peer))
              (others + s.work.peer.piece_size)
              (sockets + bit_of s.work.peer.sock)
              (process_peers base (shared_by s) cs))
      → CrewRests Outer others sockets (
          r >>= λ s.
          process_peers base (shared_by s) cs >>= λ (s', ps'). ok (s', s.work.peer ∷ ps'))
  served Outer others sockets c cs (ok s) k next =
      with_first Outer others sockets c s (peers_of cs) (process_peers base (shared_by s) cs) k
        (next s k)
  served Outer others sockets c cs null k next = k
  served Outer others sockets c cs fault k next = k
  served Outer others sockets c cs out_of_fuel k next = k

  -- The loop over a torrent's peers returns with no access outside a buffer, and the peers stay a
  -- crew: no two of them have requested the same piece, and no piece that an outsider has requested;
  -- assembly_bytes is the sum of what they and the outsiders hold, at most 64 MiB; active_peers is
  -- the number of their open sockets and the outsiders'; every piece that is held is marked as
  -- requested, and the count and the bitfield of the pieces agree with their states. The file writer
  -- has to serve the torrent.
  pub process_peers-Crew :
      (Outer : ℕ → Type 0) (others sockets : ℕ) (s : Shared) (cs : List Connection)
      → Crew writer t Outer others sockets s.mt s.assembly_bytes (peers_of cs)
      → CrewRests Outer others sockets (process_peers base s cs)
  unfolding process_peers
  process_peers-Crew Outer others sockets s [] h = h
  process_peers-Crew Outer others sockets s (c ∷ cs) h =
      let ps = peers_of cs in
      served Outer others sockets c cs (process_peer (world_of base c) (session_for s c))
        (process_peer-Rests (world_of base c) (pinned base writer t) (Or Outer (Held ps))
          (others + held_bytes ps) (sockets + open_sockets ps) (session_for s c)
          (session_for-SoundSession base writer t Outer others sockets s c ps h))
        (λ after k.
          process_peers-Crew (Or Outer (Holds after.work.peer))
            (others + after.work.peer.piece_size) (sockets + bit_of after.work.peer.sock)
            (shared_by after) cs
            (SoundFor-CrewBehind base writer t Outer others sockets s c after ps h k))
