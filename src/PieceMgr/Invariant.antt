-- ===== src/PieceMgr/Invariant.antt =====
-- src/piece_mgr.c: the count and the bitfield agree with the states of the pieces.
use ps5torrent.Base.{
  ◌≤◌, ◌≢◌, ◌⊎◌, if_cases, if_not_cases, bytes_eq→eq, bytes_eq_refl, ℕ, zero, suc, ◌+◌, ◌/◌, ◌<◌,
  ◌≡◌, refl, ap, ◌∙◌, Bool, true, false, Bytes, length, leb, ◌==◌, if◌then◌else◌, arith, inl, inr,
  All, List, [], ◌∷◌, some, none, bytes_eq,
}
use mathlib.Core.Option
use ps5torrent.PieceMgr.Defs.{
  PieceState, complete, failed, is_complete, Piece, PieceMgr, has_bit, set_have, pieces_of,
  set_state, put_state, hash_at, piece_mgr_complete,
}
use ps5torrent.PieceMgr.Bitfield.{IsByte, has_bit-set_have, set_have-IsByte, length-set_have}

abbrev pub bit_of : Bool → ℕ
bit_of true = 1
bit_of false = 0

unfoldable pub count_complete : List Piece → ℕ
count_complete [] = 0
count_complete (p ∷ ps) = bit_of (is_complete p.state) + count_complete ps

-- Piece `i` is there and complete.
unfoldable pub complete_at : List Piece → ℕ → Bool
complete_at [] i = false
complete_at (p ∷ ps) zero = is_complete p.state
complete_at (p ∷ ps) (suc i) = complete_at ps i

pub record IsValid (pm : PieceMgr) : Type 0 where
  pub ps : List Piece
  pub bits : Bytes
  pub has_pieces : pm.pieces ≡ some ps
  pub has_bits : pm.bitfield ≡ some bits
  pub size : length ps ≡ pm.num_pieces
  pub bits_size : length bits ≡ (pm.num_pieces + 7) / 8
  pub bytes : All IsByte bits
  pub counted : pm.num_complete ≡ count_complete ps
  pub marked : (i : ℕ) → i < pm.num_pieces → has_bit bits i ≡ complete_at ps i

-- The array that a valid state points to.
pub pieces_of_lem : (pm : PieceMgr) (v : IsValid pm) → pieces_of pm ≡ v.ps
pieces_of_lem pm v = ap (λ o. elim o [ none ↦ [] | some ps ↦ ps ]) v.has_pieces

length-put_state :
    (s : PieceState) (i : ℕ) (ps : List Piece) → length (put_state s i ps) ≡ length ps
length-put_state s i [] = refl
length-put_state s zero (p ∷ ps) = refl
length-put_state s (suc i) (p ∷ ps) = ap suc (length-put_state s i ps)

count_complete-put_state :
    (s : PieceState) (i : ℕ) (ps : List Piece)
    → i < length ps
    → count_complete (put_state s i ps) + bit_of (complete_at ps i)
      ≡ count_complete ps + bit_of (is_complete s)
unfolding count_complete complete_at
count_complete-put_state s i [] h = elim h [ ]
count_complete-put_state s zero (p ∷ ps) h = omega arith
count_complete-put_state s (suc i) (p ∷ ps) h =
    omega (arith, count_complete-put_state s i ps (omega arith))

pub complete_at-put_state :
    (s : PieceState) (i j : ℕ) (ps : List Piece)
    → i < length ps
    → complete_at (put_state s i ps) j ≡ (if i == j then is_complete s else complete_at ps j)
unfolding complete_at
complete_at-put_state s i j [] h = elim h [ ]
complete_at-put_state s zero zero (p ∷ ps) h = refl
complete_at-put_state s zero (suc j) (p ∷ ps) h = ground arith
complete_at-put_state s (suc i) zero (p ∷ ps) h = ground arith
complete_at-put_state s (suc i) (suc j) (p ∷ ps) h =
    ground (arith, complete_at-put_state s i j ps (omega arith))

-- Writing a state that is not complete over one that is not.
pub set_state-IsValid :
    (s : PieceState) (index : ℕ) (pm : PieceMgr) (v : IsValid pm)
    → index < pm.num_pieces
    → complete_at v.ps index ≡ false
    → is_complete s ≡ false
    → IsValid (set_state s index pm)
set_state-IsValid s index pm v inside fresh quiet =
    let inside' : index < length v.ps = omega (arith, v.size) in
    record {
      ps = put_state s index v.ps;
      bits = v.bits;
      has_pieces = ap (Option.map (put_state s index)) v.has_pieces;
      has_bits = v.has_bits;
      size = length-put_state s index v.ps ∙ v.size;
      bits_size = v.bits_size;
      bytes = v.bytes;
      counted = ground (arith, count_complete-put_state s index v.ps inside', v.counted);
      marked = λ i h. ground (arith, complete_at-put_state s index i v.ps inside', v.marked i h);
    }

complete_mark-IsValid :
    (index : ℕ) (pm : PieceMgr) (v : IsValid pm)
    → index < pm.num_pieces
    → complete_at v.ps index ≡ false
    → IsValid (record pm {
      pieces = Option.map (put_state complete index) pm.pieces;
      num_complete = pm.num_complete + 1;
      bitfield = Option.map (λ bits. set_have bits index) pm.bitfield;
    })
complete_mark-IsValid index pm v inside fresh =
    let inside' : index < length v.ps = omega (arith, v.size) in
    record {
      ps = put_state complete index v.ps;
      bits = set_have v.bits index;
      has_pieces = ap (Option.map (put_state complete index)) v.has_pieces;
      has_bits = ap (Option.map (λ bits. set_have bits index)) v.has_bits;
      size = length-put_state complete index v.ps ∙ v.size;
      bits_size = length-set_have v.bits index ∙ v.bits_size;
      bytes = set_have-IsByte v.bits index v.bytes;
      counted = ground (arith, count_complete-put_state complete index v.ps inside', v.counted);
      marked = λ i h. ground (
        arith,
        complete_at-put_state complete index i v.ps inside',
        v.marked i h,
        has_bit-set_have v.bits index i v.bytes (omega (arith, v.bits_size)),
      );
    }

-- What piece_mgr_complete does with a piece: out of range nothing; with another digest than the
-- expected one it marks the piece as failed and refuses it; with that digest it accepts the piece,
-- which is complete from then on, as the others are that were.
abbrev pub Completes : (Bytes → Bytes) → PieceMgr → ℕ → Bytes → PieceMgr × Bool → Type 0
Completes hash pm index input (pm', accepted) =
    ((pm.num_pieces ≤ index) × (pm' ≡ pm) × (accepted ≡ false))
    ⊎ ((index < pm.num_pieces)
        × (hash input ≢ hash_at (pieces_of pm) index)
        × (pm' ≡ set_state failed index pm)
        × (accepted ≡ false))
    ⊎ ((index < pm.num_pieces)
        × (hash input ≡ hash_at (pieces_of pm) index)
        × (pm'.num_complete ≡ pm.num_complete + 1)
        × ((j : ℕ)
            → complete_at (pieces_of pm') j
              ≡ (if index == j then true else complete_at (pieces_of pm) j))
        × (accepted ≡ true))

-- The piece that is accepted, in a valid state.
accepted_lem :
    (index : ℕ) (pm : PieceMgr) (v : IsValid pm)
    → index < pm.num_pieces
    → (j : ℕ)
    → complete_at
        (pieces_of (record pm { pieces = Option.map (put_state complete index) pm.pieces }))
        j
      ≡ (if index == j then true else complete_at (pieces_of pm) j)
accepted_lem index pm v inside j =
    rw v.has_pieces (complete_at-put_state complete index j v.ps (omega (arith, v.size)))

-- piece_mgr_complete on a piece that is not complete keeps the count and the bitfield in step with
-- the states, whether the digest matches or not. Out of range it changes nothing and refuses the
-- piece; with another digest it only marks the piece as failed and refuses it; with the expected
-- digest it accepts the piece, counts it, and makes it complete and no other.
pub piece_mgr_complete-IsValid :
    (hash : Bytes → Bytes) (pm : PieceMgr) (v : IsValid pm) (index : ℕ) (input : Bytes)
    → complete_at (pieces_of pm) index ≡ false
    → IsValid (piece_mgr_complete hash pm index input).0
      × Completes hash pm index input (piece_mgr_complete hash pm index input)
unfolding piece_mgr_complete
piece_mgr_complete-IsValid hash pm v index input fresh' =
    let fresh : complete_at v.ps index ≡ false = rw (pieces_of_lem pm v) at fresh' in
    let Good : PieceMgr × Bool → Type 0 = λ r. IsValid r.0 × Completes hash pm index input r in
    let digest = hash_at (pieces_of pm) index in
    if_cases Good (leb pm.num_pieces index) (λ out. (v, inl (ground arith, refl, refl)))
      (λ in_range.
        let inside : index < pm.num_pieces = ground arith in
        if_not_cases Good (bytes_eq (hash input) digest)
          (λ other. (
            set_state-IsValid failed index pm v inside fresh refl,
            inr (inl (inside, other_digest (hash input) digest other, refl, refl)),
          ))
          (λ same. (
            complete_mark-IsValid index pm v inside fresh,
            inr (
                inr (
                  inside,
                  bytes_eq→eq (hash input) digest same,
                  refl,
                  accepted_lem index pm v inside,
                  refl,
                )),
          )))
  where
    other_digest : (xs ys : Bytes) → bytes_eq xs ys ≡ false → xs ≢ ys
    other_digest xs ys e same =
        let equal : bytes_eq xs ys ≡ true = ap (λ t. bytes_eq t ys) same ∙ bytes_eq_refl ys in cc
