-- ===== src/PieceMgr/Requested.antt =====
-- src/piece_mgr.c: which pieces are requested, and how the operations change that.
use ps5torrent.Base.{
  ℕ, zero, suc, ◌<◌, ◌≡◌, ◌≢◌, refl, ap, ◌∙◌, Bool, true, false, not, ◌&&◌, Bytes, length, leb,
  arith, List, [], ◌∷◌, Option, some, none, bytes_eq, get_elem?, if_cases, if_not_cases,
}
use mathlib.Core.Option
use ps5torrent.PieceMgr.Defs.{
  PieceState, free, requested, complete, failed, is_free, is_complete, Piece, PieceMgr, pieces_of,
  set_state, put_state, hash_at, piece_mgr_complete, peer_lacks,
}
use ps5torrent.PieceMgr.Invariant.{complete_at}
use ps5torrent.PieceMgr.Next.{available}

abbrev pub is_requested : PieceState → Bool
is_requested requested = true
is_requested _ = false

-- Piece `i` is there and requested.
unfoldable pub requested_at : List Piece → ℕ → Bool
requested_at [] i = false
requested_at (p ∷ ps) zero = is_requested p.state
requested_at (p ∷ ps) (suc i) = requested_at ps i

is_requested-is_complete : (s : PieceState) → is_requested s ≡ true → is_complete s ≡ false
is_requested-is_complete free h = refl
is_requested-is_complete requested h = refl
is_requested-is_complete complete h = cc
is_requested-is_complete failed h = refl

is_free-is_complete : (s : PieceState) (b : Bool) → (is_free s && b) ≡ true → is_complete s ≡ false
is_free-is_complete free b h = refl
is_free-is_complete requested b h = refl
is_free-is_complete complete b h = cc
is_free-is_complete failed b h = refl

is_free-is_requested :
    (s : PieceState) (b : Bool) → (is_free s && b) ≡ true → is_requested s ≡ false
is_free-is_requested free b h = refl
is_free-is_requested requested b h = cc
is_free-is_requested complete b h = refl
is_free-is_requested failed b h = refl

pub requested_at-complete_at :
    (ps : List Piece) (i : ℕ) → requested_at ps i ≡ true → complete_at ps i ≡ false
unfolding requested_at complete_at
requested_at-complete_at [] i h = refl
requested_at-complete_at (p ∷ ps) zero h = is_requested-is_complete p.state h
requested_at-complete_at (p ∷ ps) (suc i) h = requested_at-complete_at ps i h

-- A piece that may be asked for is neither complete nor requested.
free_lem :
    (ps : List Piece) (i : ℕ) (b : Bool)
    → (elim (get_elem? ps i) [ none ↦ false | some p ↦ is_free p.state && b ]) ≡ true
    → (complete_at ps i ≡ false) × (requested_at ps i ≡ false)
unfolding requested_at complete_at
free_lem [] i b h = (refl, refl)
free_lem (p ∷ ps) zero b h = (is_free-is_complete p.state b h, is_free-is_requested p.state b h)
free_lem (p ∷ ps) (suc i) b h = free_lem ps i b h

pub available-requested_at :
    (ps : List Piece) (peer : Option Bytes) (i : ℕ)
    → available ps peer i ≡ true
    → (complete_at ps i ≡ false) × (requested_at ps i ≡ false)
available-requested_at ps peer i h = free_lem ps i (not (peer_lacks peer i)) h

requested_at-put_state :
    (s : PieceState) (i j : ℕ) (ps : List Piece)
    → i ≢ j
    → requested_at (put_state s i ps) j ≡ requested_at ps j
unfolding requested_at
requested_at-put_state s i j [] n = refl
requested_at-put_state s zero zero (p ∷ ps) n = absurd (n refl)
requested_at-put_state s zero (suc j) (p ∷ ps) n = refl
requested_at-put_state s (suc i) zero (p ∷ ps) n = refl
requested_at-put_state s (suc i) (suc j) (p ∷ ps) n =
    requested_at-put_state s i j ps (λ e. n (ap suc e))

put_state_requested :
    (i : ℕ) (ps : List Piece) → i < length ps → requested_at (put_state requested i ps) i ≡ true
unfolding requested_at
put_state_requested i [] h = elim h [ ]
put_state_requested zero (p ∷ ps) h = refl
put_state_requested (suc i) (p ∷ ps) h = put_state_requested i ps (omega arith)

of_option :
    (s : PieceState) (i : ℕ) (o : Option (List Piece))
    → (elim (Option.map (put_state s i) o) [ none ↦ [] | some ps ↦ ps ])
      ≡ put_state s i (elim o [ none ↦ [] | some ps ↦ ps ])
of_option s i none = refl
of_option s i (some ps) = refl

pieces_of-set_state :
    (s : PieceState) (i : ℕ) (pm : PieceMgr)
    → pieces_of (set_state s i pm) ≡ put_state s i (pieces_of pm)
pieces_of-set_state s i pm = of_option s i pm.pieces

-- The other pieces are as requested as before.
pub requested_at-set_state :
    (s : PieceState) (i j : ℕ) (pm : PieceMgr)
    → i ≢ j
    → requested_at (pieces_of (set_state s i pm)) j ≡ requested_at (pieces_of pm) j
requested_at-set_state s i j pm n =
    ap (λ ps. requested_at ps j) (pieces_of-set_state s i pm)
    ∙ requested_at-put_state s i j (pieces_of pm) n

pub set_state_requested :
    (i : ℕ) (pm : PieceMgr)
    → i < length (pieces_of pm)
    → requested_at (pieces_of (set_state requested i pm)) i ≡ true
set_state_requested i pm h =
    ap (λ ps. requested_at ps i) (pieces_of-set_state requested i pm)
    ∙ put_state_requested i (pieces_of pm) h

pub requested_at-piece_mgr_complete :
    (hash : Bytes → Bytes) (pm : PieceMgr) (i j : ℕ) (input : Bytes)
    → i ≢ j
    → requested_at (pieces_of (piece_mgr_complete hash pm i input).0) j
      ≡ requested_at (pieces_of pm) j
unfolding piece_mgr_complete
requested_at-piece_mgr_complete hash pm i j input n =
    let Same : PieceMgr × Bool → Type 0 =
      λ r. requested_at (pieces_of r.0) j ≡ requested_at (pieces_of pm) j in
    if_cases Same (leb pm.num_pieces i) (λ _. refl)
      (λ _.
        if_not_cases Same (bytes_eq (hash input) (hash_at (pieces_of pm) i))
          (λ _. requested_at-set_state failed i j pm n)
          (λ _. requested_at-set_state complete i j pm n))

pub piece_mgr_complete_size :
    (hash : Bytes → Bytes) (pm : PieceMgr) (i : ℕ) (input : Bytes)
    → (piece_mgr_complete hash pm i input).0.num_pieces ≡ pm.num_pieces
unfolding piece_mgr_complete
piece_mgr_complete_size hash pm i input =
    let Same : PieceMgr × Bool → Type 0 = λ r. r.0.num_pieces ≡ pm.num_pieces in
    if_cases Same (leb pm.num_pieces i) (λ _. refl)
      (λ _.
        if_not_cases Same (bytes_eq (hash input) (hash_at (pieces_of pm) i)) (λ _. refl)
          (λ _. refl))
