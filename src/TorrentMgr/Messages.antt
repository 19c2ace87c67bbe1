-- ===== src/TorrentMgr/Messages.antt =====
-- src/torrent_mgr.c, process_peer: the loop over the messages of a peer.
use ps5torrent.Base.{
  ℕ, zero, suc, ◌/◌, ◌-◌, ◌%◌, ◌<◌, ◌≤◌, ◌≡◌, refl, sym, ◌∙◌, ◌⊎◌, Bool, true, false, not, ◌&&◌,
  ◌||◌, Option, some, none, List, Bytes, length, length-set, length-replicate, replicate, set,
  get_or, leb, ◌==◌, arith, if_cases, if◌then◌else◌, Option-elim, inl, inr,
}
use ps5torrent.Base.Bits.{set_bit}
use ps5torrent.Base.Outcome.{Outcome, ok, null, fault, out_of_fuel, bind_ok, ◌>>=◌}
use ps5torrent.PeerWire.Defs.{Event, peer_recv_event}
use ps5torrent.PeerWire.Total.{Buffered, peer_recv_event-Buffered}
use ps5torrent.TorrentMgr.State.{TorrentPeer}
use ps5torrent.TorrentMgr.World.{World, Session, Next, more, pause, leave, with_peer}
use ps5torrent.TorrentMgr.Receive.{
  copy_into, mark_have, needed_bits, with_bitfield, on_availability, on_event, on_received, events,
  or_zero,
}
use ps5torrent.TorrentMgr.Sound.{SafeWriter, Availability, Sound, Holding-same}
use ps5torrent.TorrentMgr.Blocks.{Leads, dropped_lem, length-copy_into, on_piece-Leads, same_length}

mark_have_lem :
    (bits : Bytes) (index : ℕ)
    → index / 8 < length bits
    → (bits' : Bytes) × (mark_have bits index ≡ ok bits') × (length bits' ≡ length bits)
unfolding mark_have
mark_have_lem bits index h = (
  set bits (index / 8) (set_bit (get_or bits (index / 8) 0) (7 - index % 8)),
  ground arith,
  length-set bits (index / 8) (set_bit (get_or bits (index / 8) 0) (7 - index % 8)),
)

module _ (world : World) (writer : SafeWriter world.os) (Other : ℕ → Type 0)
    (others sockets : ℕ) where
  abbrev pub SoundSession : Session → Type 0
  SoundSession s = Sound writer Other others sockets s.work

  -- A change of the peer that leaves its piece alone and keeps its bitfield's size.
  pub with_peer-Sound :
      (s : Session) (p : TorrentPeer)
      → SoundSession s
      → p.sock ≡ s.work.peer.sock
      → p.piece_data ≡ s.work.peer.piece_data
      → p.piece_size ≡ s.work.peer.piece_size
      → p.piece_received ≡ s.work.peer.piece_received
      → p.pending_length ≤ s.work.peer.pending_length
      → p.last_request ≡ s.work.peer.last_request
      → Availability writer Other others sockets s.work.mt.torrent p
      → SoundSession (with_peer p s)
  with_peer-Sound s p h o d z r n l a = record {
    steady = h.steady;
    active = h.active ∙ rw o refl;
    account = (h.account.0 ∙ rw z refl, h.account.1);
    holding =
        Holding-same writer Other others sockets s.work.mt.torrent s.work.mt.piece_mgr s.work.peer p
          d z r n l h.holding;
    availability = a;
  }

  kept_or_new :
      (o : Option Bytes) (granted : Bool) (n : ℕ) (bits : Bytes)
      → (o ≡ none) ⊎ ((b : Bytes) × (o ≡ some b) × (length b ≡ n))
      → (elim o [ some b ↦ some b | none ↦ if granted then some (replicate n 0) else none ])
        ≡ some bits
      → length bits ≡ n
  kept_or_new none true n bits k w =
      same_length (some bits) bits (replicate n 0) refl (sym w) ∙ length-replicate n 0
  kept_or_new none false n bits k w = cc
  kept_or_new (some b) granted n bits (inl e) w = cc
  kept_or_new (some b) granted n bits (inr (b', e, l)) w = same_length (some b) bits b' w e ∙ l

  -- The bitfield that is there, or a new one, has a bit for each piece.
  with_bitfield_lem :
      (s : Session) (bits : Bytes)
      → Availability writer Other others sockets s.work.mt.torrent s.work.peer
      → with_bitfield world (needed_bits s.work.mt.torrent) s.work.peer ≡ some bits
      → length bits ≡ needed_bits s.work.mt.torrent
  unfolding with_bitfield
  with_bitfield_lem s bits k w =
      let n = needed_bits s.work.mt.torrent in
      kept_or_new s.work.peer.bitfield (world.malloc n) n bits k w

  on_availability-Leads :
      (s : Session) (whole : Bool) (index : ℕ) (bytes : Bytes)
      → SoundSession s
      → Leads world writer Other others sockets (on_availability world s whole index bytes)
  unfolding on_availability
  on_availability-Leads s whole index bytes h =
      let t = s.work.mt.torrent in
      let p = s.work.peer in
      let Good = Leads world writer Other others sockets in
      if_cases Good
        ((whole && not (length bytes == needed_bits t)) || (not whole && leb t.num_pieces index))
        (λ _. dropped_lem world writer Other others sockets s h)
        (λ e.
          Option-elim Good (with_bitfield world (needed_bits t) p)
            (λ _. dropped_lem world writer Other others sockets s h)
            (λ bits w.
              let l = with_bitfield_lem s bits h.availability w in
              let (bits', c, l') = update whole bits e l in
              bind_ok Good (if whole then copy_into bits 0 bytes else mark_have bits index)
                (λ bits'. ok (more (with_peer (record p { bitfield = some bits' }) s))) c
                (with_peer-Sound s (record p { bitfield = some bits' }) h refl refl refl refl
                  (omega arith) refl (inr (bits', refl, l' ∙ l)))))
    where
      update :
          (whole : Bool) (bits : Bytes)
          → ((whole && not (length bytes == needed_bits s.work.mt.torrent))
              || (not whole && leb s.work.mt.torrent.num_pieces index))
            ≡ false
          → length bits ≡ needed_bits s.work.mt.torrent
          → (bits' : Bytes) × ((if whole then copy_into bits 0 bytes else mark_have bits index)
              ≡ ok bits')
            × (length bits' ≡ length bits)
      update true bits e l = length-copy_into bits bytes 0 (ground arith)
      update false bits e l = mark_have_lem bits index (ground arith)

  on_event-Leads :
      (s : Session) (e : Event)
      → SoundSession s
      → Leads world writer Other others sockets (on_event world s e)
  unfolding on_event
  on_event-Leads s e h =
      let p = s.work.peer in
      let Good = Leads world writer Other others sockets in
      Option-elim Good e.type (λ _. h)
        (λ type _.
          if_cases Good (type == 0)
            (λ _.
              with_peer-Sound s (record p { choked = true; pending_length = 0 }) h refl refl refl
                refl (omega arith) refl h.availability)
            (λ _.
              if_cases Good (type == 1)
                (λ _.
                  with_peer-Sound s (record p { choked = false }) h refl refl refl refl
                    (omega arith) refl h.availability)
                (λ _.
                  if_cases Good (type == 5)
                    (λ _. on_availability-Leads s true (or_zero e.piece_index) e.payload h)
                    (λ _.
                      if_cases Good (type == 4)
                        (λ _. on_availability-Leads s false (or_zero e.piece_index) e.payload h)
                        (λ _.
                          if_cases Good (type == 7)
                            (λ _.
                              on_piece-Leads world writer Other others sockets s
                                (or_zero e.piece_index) (or_zero e.piece_begin) e.payload h)
                            (λ _. h))))))

  on_received-Leads :
      (s : Session) (r : Outcome (Event × List Bytes))
      → Buffered r
      → SoundSession s
      → Leads world writer Other others sockets (on_received world s r)
  unfolding on_received
  on_received-Leads s null k h = dropped_lem world writer Other others sockets s h
  on_received-Leads s fault k h = k
  on_received-Leads s out_of_fuel k h = k
  on_received-Leads s (ok (e, input)) k h =
      if_cases (Leads world writer Other others sockets) (e.code == 2) (λ _. h)
        (λ _.
          let p : TorrentPeer = record s.work.peer { last_activity = world.now } in
          on_event-Leads (record s { input = input; work = record s.work { peer = p } }) e
            (with_peer-Sound s p h refl refl refl refl (omega arith) refl h.availability))

  go_on :
      (n : ℕ) (r : Outcome Next)
      → ((s : Session)
          → SoundSession s
          → Leads world writer Other others sockets (events world n s))
      → Leads world writer Other others sockets r
      → Leads world writer Other others sockets (
          r >>= λ next. elim next [
            | more s' ↦ events world n s'
            | pause s' ↦ ok (pause s')
            | leave s' ↦ ok (leave s')
          ])
  go_on n (ok (more s)) k h = k s h
  go_on n (ok (pause s)) k h = h
  go_on n (ok (leave s)) k h = h
  go_on n null k h = h
  go_on n fault k h = h
  go_on n out_of_fuel k h = h

  pub events-Leads :
      (n : ℕ) (s : Session)
      → SoundSession s
      → Leads world writer Other others sockets (events world n s)
  unfolding events
  events-Leads zero s h = h
  events-Leads (suc n) s h =
      go_on n (on_received world s (peer_recv_event world.malloc world.closed s.input))
        (events-Leads n)
        (on_received-Leads s (peer_recv_event world.malloc world.closed s.input)
          (peer_recv_event-Buffered world.malloc world.closed s.input) h)
