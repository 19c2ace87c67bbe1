-- ===== src/TorrentMgr/Requests.antt =====
-- src/torrent_mgr.c, process_peer: the request of a block, and the whole call.
use ps5torrent.Base.{
  ℕ, ◌≤◌, ◌≡◌, refl, Bool, true, false, not, ◌||◌, some, none, Bytes, ltb, ◌==◌, arith, if_cases,
  if_not_cases, if◌then◌else◌,
}
use ps5torrent.Base.Signed.{sub64, sub64_lem}
use ps5torrent.Base.Outcome.{Outcome, ok, null, fault, out_of_fuel, ◌>>=◌}
use ps5torrent.PeerWire.Defs.{peer_send_request}
use ps5torrent.TorrentMgr.State.{is_downloading}
use ps5torrent.TorrentMgr.World.{World, Session, Next, more, pause, leave, peer_block_size}
use ps5torrent.TorrentMgr.Receive.{events}
use ps5torrent.TorrentMgr.Transfer.{
  choose_piece, request_block, schedule_request, active_peer, timed_out, process_peer,
}
use ps5torrent.TorrentMgr.Sound.{SafeWriter, Account, Holding, idle, busy}
use ps5torrent.TorrentMgr.Blocks.{Leads}
use ps5torrent.TorrentMgr.Messages.{SoundSession, with_peer-Sound, events-Leads}
use ps5torrent.TorrentMgr.Choice.{Chosen, dropped_peer, choose_piece-Chosen}

module _ (world : World) (writer : SafeWriter world.os) (Other : ℕ → Type 0)
    (others sockets : ℕ) where
  -- Only a block that is left of the piece is asked for.
  request_block_Sound :
      (s : Session)
      → SoundSession world writer Other others sockets s
      → (piece : Bytes) → s.work.peer.piece_data ≡ some piece
      → SoundSession world writer Other others sockets (request_block world s)
  unfolding request_block
  request_block_Sound s h piece e =
      let p = s.work.peer in
      let remaining = sub64 p.piece_size p.piece_received in
      let len = if ltb peer_block_size remaining then peer_block_size else remaining in
      let Good : Session → Type 0 = SoundSession world writer Other others sockets in
      if_not_cases Good (world.sends (peer_send_request p.last_request p.piece_received len))
        (λ _. dropped_peer world writer Other others sockets s h)
        (λ _. record {
          steady = h.steady;
          active = h.active;
          account = h.account;
          holding = awaited s len piece e h.holding h.account (shorter remaining);
          availability = h.availability;
        })
    where
      shorter : (r : ℕ) → (if ltb peer_block_size r then peer_block_size else r) ≤ r
      shorter r = ground arith

      awaited :
          (s : Session) (len : ℕ) (piece : Bytes)
          → s.work.peer.piece_data ≡ some piece
          → Holding writer Other others sockets s.work.mt.torrent s.work.mt.piece_mgr s.work.peer
          → Account writer Other others sockets s.work
          → len ≤ sub64 s.work.peer.piece_size s.work.peer.piece_received
          → Holding writer Other others sockets s.work.mt.torrent s.work.mt.piece_mgr
              (record s.work.peer { pending_length = len; request_time = world.now })
      awaited s len piece e (idle e' z q) a l = cc
      awaited s len piece e (busy piece' e' k r i z w m) a l =
          busy piece' e' k
            (omega
              (arith, a.0, a.1, r, l, sub64_lem s.work.peer.piece_size s.work.peer.piece_received))
            i z w m

  -- process_peer returns, and what it leaves is sound.
  abbrev pub Rests : Outcome Session → Type 0
  Rests (ok s) = SoundSession world writer Other others sockets s
  Rests _ = ⊥

  schedule_request-Rests :
      (s : Session)
      → SoundSession world writer Other others sockets s
      → Rests (schedule_request world s)
  unfolding schedule_request
  schedule_request-Rests s h =
      let p = s.work.peer in
      let idle_peer : Bool = elim p.bitfield [ none ↦ true | some _ ↦ false ] in
      if_cases Rests (p.choked || not (p.pending_length == 0) || idle_peer) (λ _. h)
        (λ _.
          requested_next (choose_piece world s)
            (choose_piece-Chosen world writer Other others sockets s h))
    where
      requested_next :
          (r : Outcome Next)
          → Chosen world writer Other others sockets r
          → Rests (
              r >>= λ n. elim n [
                | more s' ↦ ok (request_block world s')
                | pause s' ↦ ok s'
                | leave s' ↦ ok s'
              ])
      requested_next (ok (more s)) (h, (piece, e)) = request_block_Sound s h piece e
      requested_next (ok (pause s)) h = h
      requested_next (ok (leave s)) h = h
      requested_next null h = h
      requested_next fault h = h
      requested_next out_of_fuel h = h

  after_events :
      (r : Outcome Next)
      → Leads world writer Other others sockets r
      → Rests (
          r >>= λ n. elim n [
            | more s' ↦ schedule_request world s'
            | pause s' ↦ schedule_request world s'
            | leave s' ↦ ok s'
          ])
  after_events (ok (more s)) h = schedule_request-Rests s h
  after_events (ok (pause s)) h = schedule_request-Rests s h
  after_events (ok (leave s)) h = h
  after_events null h = h
  after_events fault h = h
  after_events out_of_fuel h = h

  -- From a sound state, and with a file writer that serves the torrent, process_peer returns with no
  -- access outside a buffer and leaves a sound state: assembly_bytes counts what the peers hold and
  -- is at most 64 MiB, active_peers counts the open sockets, the blocks of the peer's piece fit its
  -- buffer, no other peer has requested that piece, what others have requested stays requested, and
  -- the count and the bitfield of the pieces agree with their states.
  pub process_peer-Rests :
      (s : Session)
      → SoundSession world writer Other others sockets s
      → Rests (process_peer world s)
  unfolding process_peer
  process_peer-Rests s h =
      let s' = active_peer world s in
      let h' =
        with_peer-Sound world writer Other others sockets s s'.work.peer h refl refl refl refl
          (omega arith) refl h.availability in
      if_cases Rests (not s.work.peer.sock || not (is_downloading s.work.mt.state)) (λ _. h)
        (λ _.
          if_cases Rests (timed_out world.now s'.work.peer)
            (λ _. dropped_peer world writer Other others sockets s' h')
            (λ _.
              after_events (events world 8 s')
                (events-Leads world writer Other others sockets 8 s' h')))
