-- ===== src/TorrentMgr/Service.antt =====
-- src/torrent_mgr.c: one call of process_peer in a crew. The peer that is served is sound, with the
-- peers behind it among the others, and afterwards it and those peers are a crew again.
use ps5torrent.Base.{ℕ, ◌+◌, ◌≡◌, refl, sym, ◌∙◌, true, inl, inr, subst, List, [], ◌∷◌, arith}
use ps5torrent.Torrent.Types.{Torrent}
use ps5torrent.PieceMgr.Defs.{PieceMgr, pieces_of}
use ps5torrent.PieceMgr.Invariant.{bit_of}
use ps5torrent.PieceMgr.Requested.{requested_at}
use ps5torrent.FileIo.Writer.{FileWriter}
use ps5torrent.TorrentMgr.State.{TorrentPeer}
use ps5torrent.TorrentMgr.World.{World, Session}
use ps5torrent.TorrentMgr.Sound.{SafeWriter, Agrees, Holding, Availability}
use ps5torrent.TorrentMgr.Messages.{SoundSession}
use ps5torrent.TorrentMgr.Peers.{Connection, Shared, world_of, session_for}
use ps5torrent.TorrentMgr.Team.{
  Holds, Held, held_bytes, open_sockets, Or, Held-Outer, Team-Held, Holding-Holds, Holds-Other,
  Crew,
}

abbrev pub peers_of : List Connection → List TorrentPeer
peers_of [] = []
peers_of (c ∷ cs) = c.peer ∷ peers_of cs

module _ (base : World) (writer : SafeWriter base.os) (t : Torrent) where
  -- The same writer, for this torrent alone.
  abbrev pub pinned : SafeWriter base.os
  pinned = record {
    Serves = λ u fw. writer.Serves u fw × (u ≡ t);
    serves = λ u fw log index piece s i l.
        let r = writer.serves u fw log index piece s.0 i l in ((r.0, s.1), r.1, r.2);
  }

  pin :
      (O O' : ℕ → Type 0) (a b a' b' : ℕ) (pm : PieceMgr) (fw : FileWriter)
      → ((j : ℕ) → O' j → O j)
      → Agrees writer O a b t pm fw
      → Agrees pinned O' a' b' t pm fw
  pin O O' a b a' b' pm fw k g = record {
    valid = g.valid;
    counted = g.counted;
    few = g.few;
    digests = g.digests;
    has_digests = g.has_digests;
    digests_size = g.digests_size;
    served = (g.served, refl);
    kept = λ j o. g.kept j (k j o);
  }

  unpin :
      (O O' : ℕ → Type 0) (a b a' b' : ℕ) (pm : PieceMgr) (fw : FileWriter)
      → ((j : ℕ) → O' j → requested_at (pieces_of pm) j ≡ true)
      → Agrees pinned O a b t pm fw
      → Agrees writer O' a' b' t pm fw
  unpin O O' a b a' b' pm fw k g = record {
    valid = g.valid;
    counted = g.counted;
    few = g.few;
    digests = g.digests;
    has_digests = g.has_digests;
    digests_size = g.digests_size;
    served = g.served.0;
    kept = k;
  }

  same_torrent :
      (O : ℕ → Type 0) (a b : ℕ) (u : Torrent) (pm : PieceMgr) (fw : FileWriter)
      → Agrees pinned O a b u pm fw
      → u ≡ t
  same_torrent O a b u pm fw g = g.served.1

  module _ (Outer : ℕ → Type 0) (others sockets : ℕ) where
    abbrev pub CrewOf : Shared → List TorrentPeer → Type 0
    CrewOf s ps = Crew writer t Outer others sockets s.mt s.assembly_bytes ps

    -- The state before a call for the first of the peers is sound.
    pub session_for-SoundSession :
        (s : Shared) (c : Connection) (ps : List TorrentPeer)
        → CrewOf s (c.peer ∷ ps)
        → SoundSession
            (world_of base c)
            pinned
            (Or Outer (Held ps))
            (others + held_bytes ps)
            (sockets + open_sockets ps)
            (session_for s c)
    session_for-SoundSession s c ps h =
        let O = Or Outer (Held ps) in
        let a = others + held_bytes ps in
        let b = sockets + open_sockets ps in
        let pm = s.mt.piece_mgr in
        record {
          steady =
              subst (λ u. Agrees pinned O a b u pm s.mt.file_writer) (sym h.same)
                (pin (Or Outer (Held (c.peer ∷ ps))) O others sockets a b pm s.mt.file_writer
                  (λ j o. elim o [ inl outer ↦ inl outer | inr held ↦ inr (inr held) ]) h.steady);
          active =
              h.active
              ∙ (let e : sockets + (bit_of c.peer.sock + open_sockets ps) ≡ b + bit_of c.peer.sock =
                    omega arith in
                  e);
          account = (
            h.account
                ∙ (let e : others + (c.peer.piece_size + held_bytes ps) ≡ a + c.peer.piece_size =
                      omega arith in
                    e),
            h.limited,
          );
          holding =
              subst (λ u. Holding pinned O a b u pm c.peer) (sym h.same)
                (Holding-Holds writer pinned O O 0 0 a b t pm pm c.peer h.team.0
                  (λ j own. h.steady.kept j (inr (inl own)))
                  (λ j own. (Holds-Other writer O 0 0 t pm c.peer j h.team.0 own).1));
          availability = subst (λ u. Availability pinned O a b u c.peer) (sym h.same) h.team.1;
        }

    -- After the call the peers that are left are a crew of those behind it.
    abbrev pub CrewBehind : Session → List TorrentPeer → Type 0
    CrewBehind s ps =
        Crew writer t (Or Outer (Holds s.work.peer)) (others + s.work.peer.piece_size)
          (sockets + bit_of s.work.peer.sock) s.work.mt s.work.assembly_bytes ps

    abbrev pub SoundFor : Connection → Session → List TorrentPeer → Type 0
    SoundFor c s ps =
        SoundSession (world_of base c) pinned (Or Outer (Held ps)) (others + held_bytes ps)
          (sockets + open_sockets ps) s

    Holding-pinned :
        (c : Connection) (s : Session) (ps : List TorrentPeer)
        → SoundFor c s ps
        → Holding pinned
            (Or Outer (Held ps))
            (others + held_bytes ps)
            (sockets + open_sockets ps)
            t
            s.work.mt.piece_mgr
            s.work.peer
    Holding-pinned c s ps k =
        let O = Or Outer (Held ps) in
        let a = others + held_bytes ps in
        let b = sockets + open_sockets ps in
        subst (λ u. Holding pinned O a b u s.work.mt.piece_mgr s.work.peer)
          (same_torrent O a b s.work.mt.torrent s.work.mt.piece_mgr s.work.mt.file_writer k.steady)
          k.holding

    pub SoundFor-CrewBehind :
        (s : Shared) (c : Connection) (s' : Session) (ps : List TorrentPeer)
        → CrewOf s (c.peer ∷ ps)
        → SoundFor c s' ps
        → CrewBehind s' ps
    SoundFor-CrewBehind s c s' ps h k =
        let O = Or Outer (Held ps) in
        let a = others + held_bytes ps in
        let b = sockets + open_sockets ps in
        let p = s'.work.peer in
        let pm = s'.work.mt.piece_mgr in
        let fw = s'.work.mt.file_writer in
        let e = same_torrent O a b s'.work.mt.torrent pm fw k.steady in
        let own = Holds-Other pinned O a b t pm p in
        let mine = Holding-pinned c s' ps k in
        record {
          same = e;
          steady =
              unpin O (Or (Or Outer (Holds p)) (Held ps)) a b (others + p.piece_size)
                (sockets + bit_of p.sock) pm fw
                (λ j o. elim o [
                  | inl (inl outer) ↦ k.steady.kept j (inl outer)
                  | inl (inr held) ↦ (own j mine held).0
                  | inr held ↦ k.steady.kept j (inr held)
                ])
                (subst (λ u. Agrees pinned O a b u pm fw) e k.steady);
          active = omega (arith, k.active);
          account = omega (arith, k.account.0);
          limited = k.account.1;
          team =
              Team-Held writer (Or Outer (Holds c.peer)) (Or Outer (Holds p)) t s.mt.piece_mgr pm ps
                h.team.2 (λ j held. k.steady.kept j (inr held))
                (λ j held o. elim o [
                  | inl outer ↦
                      Held-Outer writer (Or Outer (Holds c.peer)) t s.mt.piece_mgr ps j h.team.2
                        held (inl outer)
                  | inr h' ↦ (own j mine h').1 (inr held)
                ]);
        }

    -- The peer that was served and the crew behind it are a crew.
    pub CrewBehind-CrewOf :
        (c : Connection) (s : Session) (after : Shared) (ps ps' : List TorrentPeer)
        → SoundFor c s ps
        → Crew writer t
            (Or Outer (Holds s.work.peer))
            (others + s.work.peer.piece_size)
            (sockets + bit_of s.work.peer.sock)
            after.mt
            after.assembly_bytes
            ps'
        → CrewOf after (s.work.peer ∷ ps')
    CrewBehind-CrewOf c s after ps ps' k h =
        let O = Or Outer (Held ps) in
        let a = others + held_bytes ps in
        let b = sockets + open_sockets ps in
        let p = s.work.peer in
        let pm = s.work.mt.piece_mgr in
        let e = same_torrent O a b s.work.mt.torrent pm s.work.mt.file_writer k.steady in
        let own = Holds-Other pinned O a b t pm p in
        let mine = Holding-pinned c s ps k in
        record {
          same = h.same;
          steady = record {
            valid = h.steady.valid;
            counted = h.steady.counted;
            few = h.steady.few;
            digests = h.steady.digests;
            has_digests = h.steady.has_digests;
            digests_size = h.steady.digests_size;
            served = h.steady.served;
            kept = λ j o. elim o [
              | inl outer ↦ h.steady.kept j (inl (inl outer))
              | inr (inl held) ↦ h.steady.kept j (inl (inr held))
              | inr (inr held) ↦ h.steady.kept j (inr held)
            ];
          };
          active = omega (arith, h.active);
          account = omega (arith, h.account);
          limited = h.limited;
          team = (
            Holding-Holds pinned writer O (Or Outer (Held ps')) a b 0 0 t pm after.mt.piece_mgr p
                mine (λ j held. h.steady.kept j (inl (inr held)))
                (λ j held o. elim o [
                  | inl outer ↦ (own j mine held).1 (inl outer)
                  | inr others' ↦
                      Held-Outer writer (Or Outer (Holds p)) t after.mt.piece_mgr ps' j h.team
                        others' (inr held)
                ]),
            subst (λ u. Availability pinned O a b u p) e k.availability,
            h.team,
          );
        }
