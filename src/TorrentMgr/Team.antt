-- ===== src/TorrentMgr/Team.antt =====
-- src/torrent_mgr.c: what holds of all the peers of a torrent together.
use ps5torrent.Base.{
  ℕ, ◌+◌, ◌≤◌, ◌≡◌, refl, ap, sym, ◌∙◌, true, ◌⊎◌, inl, inr, subst, some, none, List, [], ◌∷◌,
  Bytes,
}
use ps5torrent.Torrent.Types.{Torrent}
use ps5torrent.PieceMgr.Defs.{PieceMgr, pieces_of}
use ps5torrent.PieceMgr.Invariant.{bit_of}
use ps5torrent.PieceMgr.Requested.{requested_at}
use ps5torrent.FileIo.Writer.{Os}
use ps5torrent.TorrentMgr.State.{TorrentPeer, ManagedTorrent}
use ps5torrent.TorrentMgr.World.{assembly_limit}
use ps5torrent.TorrentMgr.Sound.{SafeWriter, Agrees, Holding, idle, busy, Availability}

-- The peer holds piece `j`.
abbrev pub Holds : TorrentPeer → ℕ → Type 0
Holds p j = (piece : Bytes) × (p.piece_data ≡ some piece) × (j ≡ p.last_request)

abbrev pub Held : List TorrentPeer → ℕ → Type 0
Held [] j = ⊥
Held (p ∷ ps) j = Holds p j ⊎ Held ps j

-- The bytes in pieces that are not complete, and the open sockets.
abbrev pub held_bytes : List TorrentPeer → ℕ
held_bytes [] = 0
held_bytes (p ∷ ps) = p.piece_size + held_bytes ps

abbrev pub open_sockets : List TorrentPeer → ℕ
open_sockets [] = 0
open_sockets (p ∷ ps) = bit_of p.sock + open_sockets ps

-- One set of pieces and another.
abbrev pub Or : (ℕ → Type 0) → (ℕ → Type 0) → ℕ → Type 0
Or P Q j = P j ⊎ Q j

module _ {os : Os} (writer : SafeWriter os) where
  -- Each peer alone has requested the piece it holds: neither a peer before it nor one behind it nor
  -- an outsider has.
  abbrev pub Team : (ℕ → Type 0) → Torrent → PieceMgr → List TorrentPeer → Type 0
  Team Outer t pm [] = Unit
  Team Outer t pm (p ∷ ps) =
      Holding writer (Or Outer (Held ps)) 0 0 t pm p
      × Availability writer (Or Outer (Held ps)) 0 0 t p
      × Team (Or Outer (Holds p)) t pm ps

  pub Held-Outer :
      (Outer : ℕ → Type 0) (t : Torrent) (pm : PieceMgr) (ps : List TorrentPeer) (j : ℕ)
      → Team Outer t pm ps
      → Held ps j
      → ¬ Outer j
  Held-Outer Outer t pm [] j h held o = held
  Held-Outer Outer t pm (p ∷ ps) j (idle e z n, a, h) (inl (piece, d, l)) o = cc
  Held-Outer Outer t pm (p ∷ ps) j (busy piece' e k r i z q m, a, h) (inl (piece, d, l)) o =
      m (inl (subst Outer l o))
  Held-Outer Outer t pm (p ∷ ps) j (h, a, hs) (inr held) o =
      Held-Outer (Or Outer (Holds p)) t pm ps j hs held (inl o)

-- What a holding says does not depend on who the others are, as long as they have not requested the
-- piece and it is still requested.
pub Holding-Holds :
    {os : Os} (writer writer' : SafeWriter os) (Other Other' : ℕ → Type 0)
    (others sockets others' sockets' : ℕ) (t : Torrent) (pm pm' : PieceMgr) (p : TorrentPeer)
    → Holding writer Other others sockets t pm p
    → ((j : ℕ) → Holds p j → requested_at (pieces_of pm') j ≡ true)
    → ((j : ℕ) → Holds p j → ¬ Other' j)
    → Holding writer' Other' others' sockets' t pm' p
Holding-Holds w w' O O' a b a' b' t pm pm' p (idle e z n) q m = idle e z n
Holding-Holds w w' O O' a b a' b' t pm pm' p (busy piece e k r i z _ _) q m =
    busy piece e k r i z (q p.last_request (piece, e, refl)) (m p.last_request (piece, e, refl))

pub Holds-Other :
    {os : Os} (writer : SafeWriter os) (Other : ℕ → Type 0) (others sockets : ℕ) (t : Torrent)
    (pm : PieceMgr) (p : TorrentPeer) (j : ℕ)
    → Holding writer Other others sockets t pm p
    → Holds p j
    → (requested_at (pieces_of pm) j ≡ true) × (¬ Other j)
Holds-Other w O a b t pm p j (idle e z n) (piece, d, l) =
    absurd (let no : none ≡ some piece = sym e ∙ d in cc)
Holds-Other w O a b t pm p j (busy piece' e k r i z q m) (piece, d, l) =
    (ap (requested_at (pieces_of pm)) l ∙ q, λ o. m (subst O l o))

module _ {os : Os} (writer : SafeWriter os) where
  -- The peers of a team stay one where their pieces stay requested and the outsiders are others.
  pub Team-Held :
      (Outer Outer' : ℕ → Type 0) (t : Torrent) (pm pm' : PieceMgr) (ps : List TorrentPeer)
      → Team writer Outer t pm ps
      → ((j : ℕ) → Held ps j → requested_at (pieces_of pm') j ≡ true)
      → ((j : ℕ) → Held ps j → ¬ Outer' j)
      → Team writer Outer' t pm' ps
  Team-Held O O' t pm pm' [] h q m = tt
  Team-Held O O' t pm pm' (p ∷ ps) (h, a, hs) q m =
      let alone : (j : ℕ) → Holds p j → ¬ Held ps j =
        λ j own held. (Holds-Other writer (Or O (Held ps)) 0 0 t pm p j h own).1 (inr held) in
      (
        Holding-Holds writer writer (Or O (Held ps)) (Or O' (Held ps)) 0 0 0 0 t pm pm' p h
            (λ j own. q j (inl own))
            (λ j own o. elim o [ inl outer ↦ m j (inl own) outer | inr held ↦ alone j own held ]),
        a,
        Team-Held (Or O (Holds p)) (Or O' (Holds p)) t pm pm' ps hs (λ j held. q j (inr held))
            (λ j held o. elim o [ inl outer ↦ m j (inr held) outer | inr own ↦ alone j own held ]),
      )

-- The whole torrent `t` with its peers: what `Outer` names is requested by peers of other torrents
-- and by web seeds, which hold `others` bytes and have `sockets` sockets of this torrent.
pub record Crew {os : Os} (writer : SafeWriter os) (t : Torrent) (Outer : ℕ → Type 0)
    (others sockets : ℕ) (mt : ManagedTorrent) (assembly_bytes : ℕ) (ps : List TorrentPeer)
    : Type 0 where
  pub same : mt.torrent ≡ t
  pub steady : Agrees writer (Or Outer (Held ps)) others sockets t mt.piece_mgr mt.file_writer
  pub active : mt.active_peers ≡ sockets + open_sockets ps
  pub account : assembly_bytes ≡ others + held_bytes ps
  pub limited : assembly_bytes ≤ assembly_limit
  pub team : Team writer Outer t mt.piece_mgr ps
