-- ===== src/TorrentMgr/Blocks.antt =====
-- src/torrent_mgr.c, process_peer: a block arrives, and perhaps the piece is complete.
use ps5torrent.Base.{
  ℕ, ◌+◌, ◌*◌, ◌<◌, ◌≤◌, ◌≡◌, ◌≢◌, refl, ap, sym, ◌∙◌, subst, Bool, true, false, not, ◌||◌, Option,
  some, none, List, Bytes, length, take, drop, ◌++◌, ltb, bytes_eq, ◌==◌, arith, if_cases,
  if_not_cases, Option-elim, length-append, length-take, length-drop, inr,
}
use ps5torrent.Base.Signed.{sub64}
use ps5torrent.Base.Outcome.{Outcome, ok, null, fault, out_of_fuel, bind_ok}
use ps5torrent.PieceMgr.Defs.{pieces_of}
use ps5torrent.PieceMgr.Invariant.{piece_mgr_complete-IsValid}
use ps5torrent.PieceMgr.Requested.{
  requested_at, requested_at-complete_at, requested_at-piece_mgr_complete, piece_mgr_complete_size,
}
use ps5torrent.FileIo.Writer.{Write, FileWriter, Status, file_writer_write_piece}
use ps5torrent.TorrentMgr.World.{World, Session, Next, more, pause, leave}
use ps5torrent.TorrentMgr.Receive.{
  dropped, copy_into, saved, completed, after_write, finish_piece, stored, received, store_block,
  on_piece,
}
use ps5torrent.TorrentMgr.Transfer.{size_of_piece}
use ps5torrent.TorrentMgr.Sound.{
  SafeWriter, Steady, Counts, Account, Owns, Availability, Sound, Holding, idle, busy, Holding-Owns,
  release_piece-Sound, disconnect_peer-Sound,
}

abbrev pub session_of : Next → Session
session_of (more s) = s
session_of (pause s) = s
session_of (leave s) = s

pub length-copy_into :
    (object bytes : Bytes) (begin : ℕ)
    → begin + length bytes ≤ length object
    → (copied : Bytes) × (copy_into object begin bytes ≡ ok copied)
      × (length copied ≡ length object)
unfolding copy_into
length-copy_into object bytes begin h = (
  take begin object ++ bytes ++ drop (begin + length bytes) object,
  ground arith,
  omega (
    arith,
    length-append (take begin object ++ bytes) (drop (begin + length bytes) object),
    length-append (take begin object) bytes,
    length-take begin object,
    length-drop (begin + length bytes) object,
  ),
)

-- Two views of one pointer.
pub same_length : (o : Option Bytes) (a b : Bytes) → o ≡ some a → o ≡ some b → length a ≡ length b
same_length o a b ea eb = ap (λ x. elim x [ none ↦ 0 | some d ↦ length d ]) (sym ea ∙ eb)

module _ (world : World) (writer : SafeWriter world.os) (Other : ℕ → Type 0)
    (others sockets : ℕ) where
  -- The work goes on with no access outside an object, and in a sound state.
  abbrev pub Leads : Outcome Next → Type 0
  Leads (ok n) = Sound writer Other others sockets (session_of n).work
  Leads _ = ⊥

  pub dropped-Leads :
      (s : Session)
      → Steady writer Other others sockets s.work.mt
      → Counts writer Other others sockets s.work
      → Account writer Other others sockets s.work
      → Owns writer Other others sockets s.work.peer
      → Availability writer Other others sockets s.work.mt.torrent s.work.peer
      → Leads (dropped world s)
  unfolding dropped
  dropped-Leads s = disconnect_peer-Sound writer Other others sockets world.now s.work

  pub dropped_lem :
      (s : Session) → Sound writer Other others sockets s.work → Leads (dropped world s)
  dropped_lem s h =
      dropped-Leads s h.steady h.active h.account
        (Holding-Owns writer Other others sockets s.work.mt.torrent s.work.mt.piece_mgr s.work.peer
          h.holding)
        h.availability

  module _ (s : Session) (h : Sound writer Other others sockets s.work) (piece : Bytes)
      (e : s.work.peer.piece_data ≡ some piece)
      (wanted : requested_at (pieces_of s.work.mt.piece_mgr) s.work.peer.last_request ≡ true)
      (mine : ¬ Other s.work.peer.last_request) where
    after_write-Leads :
        (r : FileWriter × List Write × Status)
        → writer.Serves s.work.mt.torrent r.0
        → r.2 ≢ fault
        → r.2 ≢ out_of_fuel
        → Leads (after_write world s piece r)
    unfolding saved completed
    after_write-Leads (fw, log, ok u) v n m =
        let st = h.steady in
        let pm = s.work.mt.piece_mgr in
        let index = s.work.peer.last_request in
        release_piece-Sound writer Other others sockets (completed world s.work piece fw)
          (record {
            valid =
                (piece_mgr_complete-IsValid world.hash pm st.valid index piece
                  (requested_at-complete_at (pieces_of pm) index wanted)).0;
            counted = piece_mgr_complete_size world.hash pm index piece ∙ st.counted;
            few = st.few;
            digests = st.digests;
            has_digests = st.has_digests;
            digests_size = st.digests_size;
            served = v;
            kept = λ j o.
                requested_at-piece_mgr_complete world.hash pm index j piece
                  (λ i. mine (subst Other (sym i) o))
                ∙ st.kept j o;
          })
          h.active h.account (inr (piece, e, mine)) h.availability
    after_write-Leads (fw, log, null) v n m =
        let st = h.steady in
        dropped-Leads _
          (record {
            valid = st.valid;
            counted = st.counted;
            few = st.few;
            digests = st.digests;
            has_digests = st.has_digests;
            digests_size = st.digests_size;
            served = v;
            kept = st.kept;
          })
          h.active h.account (inr (piece, e, mine)) h.availability
    after_write-Leads (fw, log, fault) v n m = n refl
    after_write-Leads (fw, log, out_of_fuel) v n m = m refl

    finish_piece-Leads :
        s.work.peer.last_request < s.work.mt.torrent.num_pieces
        → length piece ≡ size_of_piece s.work.mt.torrent s.work.peer.last_request
        → Leads (finish_piece world s piece)
    unfolding finish_piece
    finish_piece-Leads inside size =
        let st = h.steady in
        let index = s.work.peer.last_request in
        let t = s.work.mt.torrent in
        let (v, n, m) =
          writer.serves t s.work.mt.file_writer s.log index piece st.served inside size in
        Option-elim Leads t.pieces (λ e'. cc (st.has_digests))
          (λ digests e'.
            let l = same_length t.pieces digests st.digests e' st.has_digests in
            if_cases Leads (ltb (length digests) (index * 20 + 20))
              (λ short. absurd (ground (arith, st.digests_size)))
              (λ _.
                if_not_cases Leads
                  (bytes_eq (world.hash piece) (take 20 (drop (index * 20) digests)))
                  (λ _. dropped_lem s h)
                  (λ _.
                    after_write-Leads
                      (file_writer_write_piece world.os s.log s.work.mt.file_writer piece index) v n
                      m)))

  module _ (s : Session) (h : Sound writer Other others sockets s.work) (piece bytes : Bytes)
      (e : s.work.peer.piece_data ≡ some piece) (size : length piece ≡ s.work.peer.piece_size)
      (fits : s.work.peer.piece_received + s.work.peer.pending_length ≤ s.work.peer.piece_size)
      (inside : s.work.peer.last_request < s.work.mt.torrent.num_pieces)
      (whole : s.work.peer.piece_size ≡ size_of_piece s.work.mt.torrent s.work.peer.last_request)
      (wanted : requested_at (pieces_of s.work.mt.piece_mgr) s.work.peer.last_request ≡ true)
      (mine : ¬ Other s.work.peer.last_request) where
    -- The state behind the copy of a block.
    stored-Sound :
        (piece' : Bytes)
        → length piece' ≡ length piece
        → length bytes ≡ s.work.peer.pending_length
        → Sound writer Other others sockets (stored world s piece' bytes).work
    unfolding stored
    stored-Sound piece' l q = record {
      steady = h.steady;
      active = h.active;
      account = h.account;
      holding = busy piece' refl (l ∙ size) (omega (arith, q, fits)) inside whole wanted mine;
      availability = h.availability;
    }

    finish_stored-Leads :
        (piece' : Bytes)
        → length piece' ≡ length piece
        → length bytes ≡ s.work.peer.pending_length
        → Leads (finish_piece world (stored world s piece' bytes) piece')
    unfolding stored
    finish_stored-Leads piece' l q =
        finish_piece-Leads (stored world s piece' bytes) (stored-Sound piece' l q) piece' refl
          wanted mine inside (l ∙ size ∙ whole)

    pub store_block-Leads :
        (begin : ℕ)
        → begin ≡ s.work.peer.piece_received
        → length bytes ≡ s.work.peer.pending_length
        → Leads (store_block world s piece begin bytes)
    unfolding store_block
    store_block-Leads begin b q =
        let (piece', c, l) = length-copy_into piece bytes begin (omega (arith, b, q, fits, size)) in
        let h' = stored-Sound piece' l q in
        bind_ok Leads (copy_into piece begin bytes) (received world s bytes) c (
          if_cases Leads
            ((stored world s piece' bytes).work.peer.piece_received
              == (stored world s piece' bytes).work.peer.piece_size)
            (λ _. finish_stored-Leads piece' l q) (λ _. h'))

  not_equal : (a b : ℕ) (c : Bool) → (not (a == b) || c) ≡ false → (a ≡ b) × (c ≡ false)
  not_equal a b c h = ground arith

  pub on_piece-Leads :
      (s : Session) (index begin : ℕ) (bytes : Bytes)
      → Sound writer Other others sockets s.work
      → Leads (on_piece world s index begin bytes)
  unfolding on_piece
  on_piece-Leads s index begin bytes h =
      let p = s.work.peer in
      Option-elim Leads p.piece_data (λ _. h)
        (λ piece e.
          if_cases Leads (p.pending_length == 0) (λ _. h)
            (λ _.
              if_cases Leads (not (index == p.last_request) || not (begin == p.piece_received))
                (λ _. h)
                (λ this.
                  if_cases Leads
                    (not (length bytes == p.pending_length)
                      || ltb (sub64 p.piece_size p.piece_received) (length bytes))
                    (λ _. dropped_lem s h)
                    (λ right.
                      let b : begin ≡ p.piece_received = ground arith in
                      let (q, _) = not_equal (length bytes) p.pending_length _ right in
                      expected s h piece begin bytes e b q h.holding))))
    where
      expected :
          (s : Session)
          → Sound writer Other others sockets s.work
          → (piece : Bytes) (begin : ℕ) (bytes : Bytes) → s.work.peer.piece_data ≡ some piece
          → begin ≡ s.work.peer.piece_received
          → length bytes ≡ s.work.peer.pending_length
          → Holding writer Other others sockets s.work.mt.torrent s.work.mt.piece_mgr s.work.peer
          → Leads (store_block world s piece begin bytes)
      expected s h piece begin bytes e b q (idle e' z n) = cc
      expected s h piece begin bytes e b q (busy piece' e' l r i z w m) =
          store_block-Leads s h piece bytes e
            (same_length s.work.peer.piece_data piece piece' e e' ∙ l) r i z w m begin b q
