-- ===== src/PieceMgr/Defs.antt =====
-- src/piece_mgr.c: the state and the operations. `hash` is the digest that sha1_hash computes.
use ps5torrent.Base.{
  ℕ, zero, suc, ◌+◌, ◌-◌, ◌*◌, ◌/◌, ◌%◌, ◌^◌, Bool, true, false, not, ◌&&◌, Option, none, some,
  List, [], ◌∷◌, Bytes, length, get_elem?, get_or, set, take, drop, replicate, bytes_eq, leb, ltb,
  if◌then◌else◌,
}
use mathlib.Core.Option
use ps5torrent.Base.Bits.{test_bit, set_bit}
use ps5torrent.Base.Outcome.{Outcome, ok, null, fault}

pub data PieceState : Type 0 where
  free requested complete failed : PieceState

abbrev pub is_free : PieceState → Bool
is_free free = true
is_free _ = false

abbrev pub is_complete : PieceState → Bool
is_complete complete = true
is_complete _ = false

pub record Piece : Type 0 where
  pub index : ℕ
  pub state : PieceState
  pub hash : Bytes

-- `pieces` and `bitfield` are `none` where the source has a null pointer. piece_length and
-- total_size are the patterns of an int64_t.
pub record PieceMgr : Type 0 where
  pub pieces : Option (List Piece)
  pub num_pieces : ℕ
  pub piece_length : ℕ
  pub total_size : ℕ
  pub num_complete : ℕ
  pub num_failed : ℕ
  pub bitfield : Option Bytes

-- The loop of piece_mgr_init over the pieces `i`, `i + 1`, …; with no expected hashes the digests
-- stay as calloc left them.
unfoldable pub init_pieces : ℕ → ℕ → Option Bytes → List Piece
init_pieces zero i hashes = []
init_pieces (suc n) i hashes =
    record {
      index = i % 2 ^ 32;
      state = free;
      hash = elim hashes [ none ↦ replicate 20 0 | some h ↦ take 20 (drop (i * 20) h) ];
    }
    ∷ init_pieces n (i + 1) hashes

-- sizeof(piece_t): two words, the digest, two words.
abbrev pub piece_size : ℕ
piece_size = 36

unfoldable pub piece_mgr_init : (ℕ → Bool) → ℕ → ℕ → ℕ → Option Bytes → PieceMgr
unfolding init_pieces
piece_mgr_init calloc num_pieces piece_length total_size hashes =
    let granted = calloc (num_pieces * piece_size) && calloc ((num_pieces + 7) / 8) in
    record {
      pieces = if granted then some (init_pieces num_pieces 0 hashes) else none;
      num_pieces = num_pieces;
      piece_length = piece_length;
      total_size = total_size;
      num_complete = 0;
      num_failed = 0;
      bitfield = if granted then some (replicate ((num_pieces + 7) / 8) 0) else none;
    }

-- `bitfield[i / 8] & (1 << (7 - (i % 8)))`.
abbrev pub has_bit : Bytes → ℕ → Bool
has_bit bits i = test_bit (get_or bits (i / 8) 0) (7 - i % 8)

unfoldable pub piece_mgr_is_done : PieceMgr → Bool
piece_mgr_is_done pm = leb pm.num_pieces pm.num_complete

-- The peer is known to lack the piece. A null bitfield, or one too short, says nothing.
abbrev pub peer_lacks : Option Bytes → ℕ → Bool
peer_lacks none idx = false
peer_lacks (some bits) idx = ltb (idx / 8) (length bits) && not (has_bit bits idx)

-- `return (int)idx`, where a negative result means that there is none.
abbrev pub int_result : ℕ → Outcome ℕ
int_result idx = if ltb (idx % 2 ^ 32) (2 ^ 31) then ok (idx % 2 ^ 32) else null

-- A round of the loop at index `idx`: `continue` is `rest`.
unfoldable pub next_round : List Piece → Option Bytes → Outcome ℕ → ℕ → Outcome ℕ
next_round pieces peer rest idx = elim (get_elem? pieces idx) [
  | none ↦ fault
  | some p ↦
      if not (is_free p.state) then rest else if peer_lacks peer idx then rest else int_result idx
]

-- The loop of piece_mgr_get_next, with the rounds left; `start` is 0.
unfoldable pub next_from : List Piece → ℕ → Option Bytes → ℕ → ℕ → Outcome ℕ
unfolding next_round
next_from pieces num_pieces peer zero i = null
next_from pieces num_pieces peer (suc n) i =
    let rest = next_from pieces num_pieces peer n (i + 1) in
    next_round pieces peer rest ((0 + i) % num_pieces)

abbrev pub pieces_of : PieceMgr → List Piece
pieces_of pm = elim pm.pieces [ none ↦ [] | some ps ↦ ps ]

abbrev pub bits_of : PieceMgr → Bytes
bits_of pm = elim pm.bitfield [ none ↦ [] | some b ↦ b ]

unfoldable pub piece_mgr_get_next : PieceMgr → Option Bytes → Outcome ℕ
unfolding next_from
piece_mgr_get_next pm peer =
    if piece_mgr_is_done pm
    then null
    else next_from (pieces_of pm) pm.num_pieces peer pm.num_pieces 0

-- `pieces[index].state = s`.
abbrev pub put_state : PieceState → ℕ → List Piece → List Piece
put_state s index [] = []
put_state s zero (p ∷ ps) = record p { state = s } ∷ ps
put_state s (suc index) (p ∷ ps) = p ∷ put_state s index ps

-- The expected digest of a piece.
abbrev pub hash_at : List Piece → ℕ → Bytes
hash_at [] index = []
hash_at (p ∷ ps) zero = p.hash
hash_at (p ∷ ps) (suc index) = hash_at ps index

abbrev pub set_state : PieceState → ℕ → PieceMgr → PieceMgr
set_state s index pm = record pm { pieces = Option.map (put_state s index) pm.pieces }

unfoldable pub piece_mgr_request : PieceMgr → ℕ → PieceMgr
piece_mgr_request pm index = if leb pm.num_pieces index then pm else set_state requested index pm

unfoldable pub piece_mgr_failed : PieceMgr → ℕ → PieceMgr
piece_mgr_failed pm index = if leb pm.num_pieces index then pm else set_state failed index pm

-- `if (index / 8 < bitfield_len) bitfield[index / 8] |= 1 << (7 - (index % 8))`.
abbrev pub set_have : Bytes → ℕ → Bytes
set_have bits i =
    if ltb (i / 8) (length bits)
    then set bits (i / 8) (set_bit (get_or bits (i / 8) 0) (7 - i % 8))
    else bits

-- The result says whether the piece was accepted: 0, or -1.
unfoldable pub piece_mgr_complete : (Bytes → Bytes) → PieceMgr → ℕ → Bytes → PieceMgr × Bool
piece_mgr_complete hash pm index input =
    if leb pm.num_pieces index
    then (pm, false)
    else if not (bytes_eq (hash input) (hash_at (pieces_of pm) index))
    then (set_state failed index pm, false)
    else (
      record pm {
        pieces = Option.map (put_state complete index) pm.pieces;
        num_complete = pm.num_complete + 1;
        bitfield = Option.map (λ bits. set_have bits index) pm.bitfield;
      },
      true,
    )

unfoldable pub piece_mgr_destroy : PieceMgr → PieceMgr
piece_mgr_destroy pm = record {
  pieces = none;
  num_pieces = 0;
  piece_length = 0;
  total_size = 0;
  num_complete = 0;
  num_failed = 0;
  bitfield = none;
}
