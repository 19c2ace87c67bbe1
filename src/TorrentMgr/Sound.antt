-- ===== src/TorrentMgr/Sound.antt =====
-- src/torrent_mgr.c: what holds of a torrent and of one of its peers between two steps, and that it
-- still holds where the peer lets go of its piece or of its socket.
use ps5torrent.Base.{
  ℕ, ◌+◌, ◌-◌, ◌*◌, ◌^◌, ◌<◌, ◌≤◌, ◌≡◌, ◌≢◌, refl, ap, sym, ◌∙◌, Bool, true, false, not, ◌&&◌, ◌⊎◌,
  inl, inr, subst, some, none, List, Bytes, length, ltb, ltb→lt, arith, if_cases, Option-elim,
  if◌then◌else◌,
}
use ps5torrent.Base.Signed.{sub64, sub64_lem}
use ps5torrent.Base.Outcome.{fault, out_of_fuel}
use ps5torrent.Torrent.Types.{Torrent}
use ps5torrent.PieceMgr.Defs.{PieceMgr, free, set_state, pieces_of}
use ps5torrent.PieceMgr.Invariant.{IsValid, bit_of, complete_at, pieces_of_lem, set_state-IsValid}
use ps5torrent.PieceMgr.Requested.{requested_at, requested_at-set_state}
use ps5torrent.FileIo.Writer.{Os, Write, FileWriter, file_writer_write_piece}
use ps5torrent.TorrentMgr.Candidates.{record_peer_failure}
use ps5torrent.TorrentMgr.State.{
  is_downloading, TorrentPeer, ManagedTorrent, Work, unless_complete, release_piece, close_socket,
  disconnect_peer,
}
use ps5torrent.TorrentMgr.World.{assembly_limit}
use ps5torrent.TorrentMgr.Receive.{needed_bits}
use ps5torrent.TorrentMgr.Transfer.{size_of_piece}

-- What the manager relies on in the file writer: for the torrents and the writers in `Serves`, the
-- write of a piece of the torrent's size reads no byte outside the piece.
pub record SafeWriter (os : Os) : Type 1 where
  pub Serves : Torrent → FileWriter → Type 0
  pub serves :
      (t : Torrent) (fw : FileWriter) (log : List Write) (index : ℕ) (piece : Bytes)
      → Serves t fw
      → index < t.num_pieces
      → length piece ≡ size_of_piece t index
      → let (fw', log', status) = file_writer_write_piece os log fw piece index in
        Serves t fw' × (status ≢ fault) × (status ≢ out_of_fuel)

-- `Other` tells which pieces other peers and web seeds have requested, `others` how many bytes other
-- peers hold, and `sockets` how many other peers of the torrent have an open socket.
module _ {os : Os} (writer : SafeWriter os) (Other : ℕ → Type 0) (others sockets : ℕ) where
  -- The torrent: its pieces are those of the piece manager, each has a digest, and what others have
  -- requested stays requested.
  pub record Agrees (t : Torrent) (pm : PieceMgr) (fw : FileWriter) : Type 0 where
    pub valid : IsValid pm
    pub counted : pm.num_pieces ≡ t.num_pieces
    pub few : t.num_pieces ≤ 2 ^ 31
    pub digests : Bytes
    pub has_digests : t.pieces ≡ some digests
    pub digests_size : length digests ≡ t.num_pieces * 20
    pub served : writer.Serves t fw
    pub kept : (j : ℕ) → Other j → requested_at (pieces_of pm) j ≡ true

  abbrev pub Steady : ManagedTorrent → Type 0
  Steady mt = Agrees mt.torrent mt.piece_mgr mt.file_writer

  -- The peer's piece: there is none, or its buffer has the piece's size, the blocks that have come
  -- and the one that is awaited fit it, and the peer alone has requested it.
  pub data Holding (t : Torrent) (pm : PieceMgr) (p : TorrentPeer) : Type 0 where
    idle : p.piece_data ≡ none → p.piece_size ≡ 0 → p.pending_length ≡ 0 → Holding t pm p
    busy :
        (piece : Bytes)
        → p.piece_data ≡ some piece
        → length piece ≡ p.piece_size
        → p.piece_received + p.pending_length ≤ p.piece_size
        → p.last_request < t.num_pieces
        → p.piece_size ≡ size_of_piece t p.last_request
        → requested_at (pieces_of pm) p.last_request ≡ true
        → ¬ Other p.last_request
        → Holding t pm p

  -- The same with nothing said of the state of its piece.
  abbrev pub Owns : TorrentPeer → Type 0
  Owns p =
      ((p.piece_data ≡ none) × (p.piece_size ≡ 0))
      ⊎ ((piece : Bytes) × (p.piece_data ≡ some piece) × (¬ Other p.last_request))

  -- The peer's bitfield has a bit for each piece.
  abbrev pub Availability : Torrent → TorrentPeer → Type 0
  Availability t p =
      (p.bitfield ≡ none)
      ⊎ ((bits : Bytes) × (p.bitfield ≡ some bits) × (length bits ≡ needed_bits t))

  -- assembly_bytes counts what the others and this peer hold, and is within the limit.
  abbrev pub Account : Work → Type 0
  Account w = (w.assembly_bytes ≡ others + w.peer.piece_size) × (w.assembly_bytes ≤ assembly_limit)

  -- active_peers counts the open sockets.
  abbrev pub Counts : Work → Type 0
  Counts w = w.mt.active_peers ≡ sockets + bit_of w.peer.sock

  pub record Sound (w : Work) : Type 0 where
    pub steady : Steady w.mt
    pub active : Counts w
    pub account : Account w
    pub holding : Holding w.mt.torrent w.mt.piece_mgr w.peer
    pub availability : Availability w.mt.torrent w.peer

  pub Holding-Owns : (t : Torrent) (pm : PieceMgr) (p : TorrentPeer) → Holding t pm p → Owns p
  Holding-Owns t pm p (idle e s n) = inl (e, s)
  Holding-Owns t pm p (busy piece e l r i s q n) = inr (piece, e, n)

  -- What a step changes of a peer besides its piece does not matter.
  pub Holding-same :
      (t : Torrent) (pm : PieceMgr) (p p' : TorrentPeer)
      → p'.piece_data ≡ p.piece_data
      → p'.piece_size ≡ p.piece_size
      → p'.piece_received ≡ p.piece_received
      → p'.pending_length ≤ p.pending_length
      → p'.last_request ≡ p.last_request
      → Holding t pm p
      → Holding t pm p'
  Holding-same t pm p p' d z r n l (idle e s q) = idle (d ∙ e) (z ∙ s) (omega (arith, n, q))
  Holding-same t pm p p' d z r n l (busy piece e s f i k q m) =
      busy piece (d ∙ e) (omega (arith, s, z)) (omega (arith, f, z, r, n)) (omega (arith, i, l))
        (z ∙ k ∙ ap (size_of_piece t) (sym l)) (ap (requested_at (pieces_of pm)) l ∙ q)
        (λ o. m (subst Other l o))

  -- A torrent that differs from a steady one only in its piece manager.
  abbrev pub with_pm : ManagedTorrent → PieceMgr → ManagedTorrent
  with_pm mt pm = record mt { piece_mgr = pm }

  pub Steady-with_pm :
      (mt : ManagedTorrent) (pm : PieceMgr)
      → Steady mt
      → IsValid pm
      → pm.num_pieces ≡ mt.piece_mgr.num_pieces
      → ((j : ℕ)
          → Other j
          → requested_at (pieces_of pm) j ≡ requested_at (pieces_of mt.piece_mgr) j)
      → Steady (with_pm mt pm)
  Steady-with_pm mt pm st v e k = record {
    valid = v;
    counted = e ∙ st.counted;
    few = st.few;
    digests = st.digests;
    has_digests = st.has_digests;
    digests_size = st.digests_size;
    served = st.served;
    kept = λ j o. k j o ∙ st.kept j o;
  }

  both : (p q : Bool) → (p && q) ≡ true → (p ≡ true) × (q ≡ true)
  both true q h = (refl, h)
  both false q h = cc

  unless_complete-Steady :
      (mt : ManagedTorrent) (index : ℕ)
      → Steady mt
      → ¬ Other index
      → Steady (with_pm mt (unless_complete index mt.piece_mgr))
  unfolding unless_complete
  unless_complete-Steady mt index st mine =
      let pm = mt.piece_mgr in
      if_cases (λ pm'. Steady (with_pm mt pm'))
        (ltb index pm.num_pieces && not (complete_at (pieces_of pm) index))
        (λ e.
          let (inside, fresh) =
            both (ltb index pm.num_pieces) (not (complete_at (pieces_of pm) index)) e in
          let fresh' : complete_at st.valid.ps index ≡ false =
            ground (arith, fresh, pieces_of_lem pm st.valid) in
          Steady-with_pm mt (set_state free index pm) st
            (set_state-IsValid free index pm st.valid (ltb→lt index pm.num_pieces inside) fresh'
              refl)
            refl
            (λ j o. requested_at-set_state free index j pm (λ i. mine (subst Other (sym i) o))))
        (λ _. st)

  pub release_piece-Sound :
      (w : Work)
      → Steady w.mt
      → Counts w
      → Account w
      → Owns w.peer
      → Availability w.mt.torrent w.peer
      → Sound (release_piece w)
  unfolding release_piece
  release_piece-Sound w st c (a, l) (inl (e, z)) av =
      Option-elim Sound w.peer.piece_data
        (λ _. record {
          steady = st;
          active = c;
          account = (omega arith, l);
          holding = idle refl refl refl;
          availability = av;
        })
        (λ piece e'. cc)
  release_piece-Sound w st c (a, l) (inr (piece, e, mine)) av =
      Option-elim Sound w.peer.piece_data (λ e'. cc)
        (λ piece' e'. record {
          steady = unless_complete-Steady w.mt w.peer.last_request st mine;
          active = c;
          account =
              let s : sub64 w.assembly_bytes w.peer.piece_size
                  ≡ w.assembly_bytes - w.peer.piece_size =
                sub64_lem w.assembly_bytes w.peer.piece_size (omega arith) (omega arith) in
              (omega (arith, s), omega (arith, s));
          holding = idle refl refl refl;
          availability = av;
        })

  close_socket-Sound :
      (now : ℕ) (w : Work)
      → Steady w.mt
      → Counts w
      → Account w
      → Owns w.peer
      → Availability w.mt.torrent w.peer
      → Sound (release_piece (close_socket now w))
  unfolding close_socket
  close_socket-Sound now w st c a o av =
      if_cases (λ w'. Sound (release_piece w')) w.peer.sock
        (λ e.
          let one : bit_of w.peer.sock ≡ 1 = rw e refl in
          release_piece-Sound
            (record w {
              mt = record w.mt {
                candidates =
                    if is_downloading w.mt.state
                    then record_peer_failure now w.mt.candidates w.peer.addr
                    else w.mt.candidates;
                active_peers = w.mt.active_peers - 1;
              };
              peer = record w.peer { sock = false };
            })
            st (omega (arith, c, one)) a o av)
        (λ e. release_piece-Sound w st c a o av)

  -- Whatever the peer has, it is left with nothing, and what it held is given back.
  pub disconnect_peer-Sound :
      (now : ℕ) (w : Work)
      → Steady w.mt
      → Counts w
      → Account w
      → Owns w.peer
      → Availability w.mt.torrent w.peer
      → Sound (disconnect_peer now w)
  unfolding disconnect_peer
  disconnect_peer-Sound now w st c a o av =
      let s = close_socket-Sound now w st c a o av in
      record {
        steady = s.steady;
        active = s.active;
        account = s.account;
        holding =
            Holding-same _ _ (release_piece (close_socket now w)).peer _ refl refl refl
              (omega arith) refl s.holding;
        availability = inl refl;
      }
