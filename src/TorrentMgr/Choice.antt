-- ===== src/TorrentMgr/Choice.antt =====
-- src/torrent_mgr.c, process_peer: the choice of a piece and the room for it.
use ps5torrent.Base.{
  ℕ, ◌+◌, ◌%◌, ◌^◌, ◌<◌, ◌≤◌, ◌≡◌, refl, ap, sym, ◌∙◌, subst, true, false, ◌⊎◌, inl, inr, Option,
  some, none, Bytes, length, length-replicate, replicate, ltb, leb, arith, if_cases, if_not_cases,
  Option-elim, Bool-cases,
}
use ps5torrent.Base.Signed.{sub64, sub64_lem}
use ps5torrent.Base.Outcome.{Outcome, ok, null, fault, out_of_fuel, Runs, holds, refused}
use ps5torrent.PieceMgr.Defs.{
  PieceMgr, requested, set_state, pieces_of, piece_mgr_is_done, piece_mgr_get_next,
  piece_mgr_request,
}
use ps5torrent.PieceMgr.Invariant.{IsValid, pieces_of_lem}
use ps5torrent.PieceMgr.Progress.{piece_mgr_request-IsValid}
use ps5torrent.PieceMgr.Next.{First, piece_mgr_get_next-First}
use ps5torrent.PieceMgr.Requested.{
  requested_at, available-requested_at, requested_at-set_state, set_state_requested,
}
use ps5torrent.TorrentMgr.State.{disconnect_peer}
use ps5torrent.TorrentMgr.World.{World, Session, Next, more, pause, leave, assembly_limit}
use ps5torrent.TorrentMgr.Transfer.{size_of_piece, start_piece, choose_piece}
use ps5torrent.TorrentMgr.Sound.{
  SafeWriter, Sound, Holding, idle, busy, Holding-Owns, disconnect_peer-Sound,
}
use ps5torrent.TorrentMgr.Messages.{SoundSession}

piece_mgr_request_size :
    (pm : PieceMgr) (i : ℕ) → (piece_mgr_request pm i).num_pieces ≡ pm.num_pieces
unfolding piece_mgr_request
piece_mgr_request_size pm i =
    if_cases (λ (pm' : PieceMgr). pm'.num_pieces ≡ pm.num_pieces) (leb pm.num_pieces i) (λ _. refl)
      (λ _. refl)

piece_mgr_request_lem :
    (pm : PieceMgr) (i : ℕ) → i < pm.num_pieces → piece_mgr_request pm i ≡ set_state requested i pm
unfolding piece_mgr_request
piece_mgr_request_lem pm i h = let e : leb pm.num_pieces i ≡ false = ground arith in rw e refl

piece_mgr_get_next_cases :
    (pm : PieceMgr) (v : IsValid pm) (peer : Option Bytes)
    → pm.num_pieces ≤ 2 ^ 31
    → (piece_mgr_get_next pm peer ≡ null)
      ⊎ ((i : ℕ) × (piece_mgr_get_next pm peer ≡ ok i)
          × First (pieces_of pm) peer 0 pm.num_pieces i)
piece_mgr_get_next_cases pm v peer small = elim (Bool-cases (piece_mgr_is_done pm)) [
  | inl d ↦ inl (done d)
  | inr d ↦ runs (piece_mgr_get_next-First pm v peer small d)
]
  where
    done : piece_mgr_is_done pm ≡ true → piece_mgr_get_next pm peer ≡ null
    done d = unfold piece_mgr_get_next in rw d refl

    runs :
        {Good : Type 0} {r : Outcome ℕ}
        → Runs Good (First (pieces_of pm) peer 0 pm.num_pieces) r
        → (r ≡ null) ⊎ ((i : ℕ) × (r ≡ ok i) × First (pieces_of pm) peer 0 pm.num_pieces i)
    runs (holds {a} f) = inr (a, refl, f)
    runs (refused n) = inl refl

module _ (world : World) (writer : SafeWriter world.os) (Other : ℕ → Type 0)
    (others sockets : ℕ) where
  -- A sound session, and a piece in the hands of the peer if a block can be asked for.
  abbrev pub Chosen : Outcome Next → Type 0
  Chosen (ok (more s)) =
      SoundSession world writer Other others sockets s
      × ((piece : Bytes) × (s.work.peer.piece_data ≡ some piece))
  Chosen (ok (pause s)) = SoundSession world writer Other others sockets s
  Chosen (ok (leave s)) = SoundSession world writer Other others sockets s
  Chosen _ = ⊥

  pub dropped_peer :
      (s : Session)
      → SoundSession world writer Other others sockets s
      → SoundSession world writer Other others sockets
          (record s { work = disconnect_peer world.now s.work })
  dropped_peer s h =
      disconnect_peer-Sound writer Other others sockets world.now s.work h.steady h.active h.account
        (Holding-Owns writer Other others sockets s.work.mt.torrent s.work.mt.piece_mgr s.work.peer
          h.holding)
        h.availability

  idle_pending :
      (s : Session)
      → Holding writer Other others sockets s.work.mt.torrent s.work.mt.piece_mgr s.work.peer
      → s.work.peer.piece_data ≡ none
      → (s.work.peer.pending_length ≡ 0) × (s.work.peer.piece_size ≡ 0)
  idle_pending s (idle e z p) n = (p, z)
  idle_pending s (busy piece e l r i z w m) n = cc

  -- A free piece becomes the peer's.
  started_Sound :
      (s : Session) (next size : ℕ)
      → SoundSession world writer Other others sockets s
      → s.work.peer.piece_data ≡ none
      → First
          (pieces_of s.work.mt.piece_mgr)
          s.work.peer.bitfield
          0
          s.work.mt.piece_mgr.num_pieces
          next
      → size ≡ size_of_piece s.work.mt.torrent next
      → s.work.assembly_bytes + size ≤ assembly_limit
      → Sound writer Other others sockets (record {
        mt = record s.work.mt { piece_mgr = piece_mgr_request s.work.mt.piece_mgr next };
        peer = record s.work.peer {
          piece_data = some (replicate size 0);
          piece_size = size;
          piece_received = 0;
          last_request = next % 2 ^ 32;
        };
        assembly_bytes = s.work.assembly_bytes + size;
      })
  started_Sound s next size h e f z room =
      let st = h.steady in
      let pm = s.work.mt.piece_mgr in
      let (fresh, unasked) =
        available-requested_at (pieces_of pm) s.work.peer.bitfield next f.here in
      let (p0, z0) = idle_pending s h.holding e in
      let low : next % 2 ^ 32 ≡ next = omega (arith, f.below, st.few, st.counted) in
      let r = piece_mgr_request_lem pm next f.below in
      let mine : ¬ Other next = λ o. cc (st.kept next o) in
      record {
        steady = record {
          valid = (piece_mgr_request-IsValid pm st.valid next fresh).0;
          counted = piece_mgr_request_size pm next ∙ st.counted;
          few = st.few;
          digests = st.digests;
          has_digests = st.has_digests;
          digests_size = st.digests_size;
          served = st.served;
          kept = λ j o.
              ap (λ q. requested_at (pieces_of q) j) r
              ∙ (requested_at-set_state requested next j pm (λ i. mine (subst Other (sym i) o))
                  ∙ st.kept j o);
        };
        active = h.active;
        account = (omega (arith, h.account.0, z0), room);
        holding =
            busy (replicate size 0) refl (length-replicate size 0) (omega (arith, p0))
              (omega (arith, low, f.below, st.counted))
              (z ∙ ap (size_of_piece s.work.mt.torrent) (sym low))
              (ap (requested_at (pieces_of (piece_mgr_request pm next))) low
                ∙ (ap (λ q. requested_at (pieces_of q) next) r
                    ∙ set_state_requested next pm (
                        let l = ap length (pieces_of_lem pm st.valid) in
                        omega (arith, l, st.valid.size, f.below))))
              (λ o. mine (subst Other low o));
        availability = h.availability;
      }

  start_piece-Chosen :
      (s : Session) (next : ℕ)
      → SoundSession world writer Other others sockets s
      → s.work.peer.piece_data ≡ none
      → First
          (pieces_of s.work.mt.piece_mgr)
          s.work.peer.bitfield
          0
          s.work.mt.piece_mgr.num_pieces
          next
      → Chosen (ok (start_piece world s next))
  unfolding start_piece
  start_piece-Chosen s next h e f =
      let size = size_of_piece s.work.mt.torrent next in
      let Good : Next → Type 0 = λ n. Chosen (ok n) in
      if_cases Good (ltb assembly_limit size)
        (λ _. record {
          steady = h.steady;
          active = h.active;
          account = h.account;
          holding = h.holding;
          availability = h.availability;
        })
        (λ small.
          if_cases Good (ltb (sub64 assembly_limit s.work.assembly_bytes) size) (λ _. h)
            (λ room.
              if_not_cases Good (world.malloc size) (λ _. dropped_peer s h)
                (λ _.
                  let l =
                    sub64_lem assembly_limit s.work.assembly_bytes h.account.1 (omega arith) in
                  (
                    started_Sound s next size h e f refl (ground (arith, l, h.account.1)),
                    (replicate size 0, refl),
                  ))))

  pub choose_piece-Chosen :
      (s : Session)
      → SoundSession world writer Other others sockets s
      → Chosen (choose_piece world s)
  unfolding choose_piece
  choose_piece-Chosen s h =
      Option-elim Chosen s.work.peer.piece_data
        (λ e. asked (piece_mgr_get_next s.work.mt.piece_mgr s.work.peer.bitfield) e (
          piece_mgr_get_next_cases s.work.mt.piece_mgr h.steady.valid s.work.peer.bitfield
            (omega (arith, h.steady.few, h.steady.counted))))
        (λ piece e. (h, (piece, e)))
    where
      asked :
          (r : Outcome ℕ)
          → s.work.peer.piece_data ≡ none
          → (r ≡ null)
            ⊎ ((i : ℕ) × (r ≡ ok i)
                × First
                    (pieces_of s.work.mt.piece_mgr)
                    s.work.peer.bitfield
                    0
                    s.work.mt.piece_mgr.num_pieces
                    i)
          → Chosen (elim r [
            | ok next ↦ ok (start_piece world s next)
            | null ↦ ok (leave s)
            | fault ↦ fault
            | out_of_fuel ↦ out_of_fuel
          ])
      asked (ok next) e (inl c) = cc
      asked (ok next) e (inr (i, c, f)) = start_piece-Chosen s next h e (
          subst
            (λ j.
              First (pieces_of s.work.mt.piece_mgr) s.work.peer.bitfield 0
                s.work.mt.piece_mgr.num_pieces j)
            (cc) f)
      asked null e k = h
      asked fault e (inl c) = cc
      asked fault e (inr (i, c, f)) = cc
      asked out_of_fuel e (inl c) = cc
      asked out_of_fuel e (inr (i, c, f)) = cc
