-- ===== src/PieceMgr/Progress.antt =====
-- src/piece_mgr.c: the first state, requests, and when a torrent is done.
use ps5torrent.Base.{
  ℕ, zero, suc, ◌+◌, ◌*◌, ◌/◌, ◌≤◌, ◌<◌, ◌≡◌, ◌↔◌, refl, ap, ◌∙◌, sym, Bool, true, false, Bytes,
  length, replicate, length-replicate, leb, arith, Bool-cases, inl, inr, List, [], ◌∷◌, Option,
}
use ps5torrent.PieceMgr.Defs.{
  requested, failed, Piece, PieceMgr, init_pieces, piece_mgr_init, piece_mgr_is_done,
  piece_mgr_request, piece_mgr_failed, piece_size, pieces_of,
}
use ps5torrent.PieceMgr.Bitfield.{has_bit-zeros, zeros-IsByte}
use ps5torrent.PieceMgr.Invariant.{
  IsValid, count_complete, complete_at, set_state-IsValid, pieces_of_lem,
}

length-init_pieces : (n i : ℕ) (hashes : Option Bytes) → length (init_pieces n i hashes) ≡ n
unfolding init_pieces
length-init_pieces zero i hashes = refl
length-init_pieces (suc n) i hashes = ap suc (length-init_pieces n (i + 1) hashes)

count_complete-init :
    (n i : ℕ) (hashes : Option Bytes) → count_complete (init_pieces n i hashes) ≡ 0
unfolding init_pieces count_complete
count_complete-init zero i hashes = refl
count_complete-init (suc n) i hashes = omega (arith, count_complete-init n (i + 1) hashes)

complete_at-init :
    (n i j : ℕ) (hashes : Option Bytes) → complete_at (init_pieces n i hashes) j ≡ false
unfolding init_pieces complete_at
complete_at-init zero i j hashes = refl
complete_at-init (suc n) i zero hashes = refl
complete_at-init (suc n) i (suc j) hashes = complete_at-init n (i + 1) j hashes

-- Where both allocations succeed, piece_mgr_init gives a valid state with no complete piece.
pub piece_mgr_init-IsValid :
    (calloc : ℕ → Bool) (n piece_length total_size : ℕ) (hashes : Option Bytes)
    → calloc (n * piece_size) ≡ true
    → calloc ((n + 7) / 8) ≡ true
    → IsValid (piece_mgr_init calloc n piece_length total_size hashes)
      × (count_complete (pieces_of (piece_mgr_init calloc n piece_length total_size hashes)) ≡ 0)
unfolding piece_mgr_init
piece_mgr_init-IsValid calloc n piece_length total_size hashes h k = (
  record {
    ps = init_pieces n 0 hashes;
    bits = replicate ((n + 7) / 8) 0;
    has_pieces = rw (h, k);
    has_bits = rw (h, k);
    size = length-init_pieces n 0 hashes;
    bits_size = length-replicate ((n + 7) / 8) 0;
    bytes = zeros-IsByte ((n + 7) / 8);
    counted = sym (count_complete-init n 0 hashes);
    marked = λ i _. has_bit-zeros ((n + 7) / 8) i ∙ sym (complete_at-init n 0 i hashes);
  },
  rw (h, k) (count_complete-init n 0 hashes),
)

-- Requesting or failing a piece that is not complete keeps the state valid; an index out of range
-- changes nothing.
pub piece_mgr_request-IsValid :
    (pm : PieceMgr) (v : IsValid pm) (index : ℕ)
    → complete_at (pieces_of pm) index ≡ false
    → IsValid (piece_mgr_request pm index) × IsValid (piece_mgr_failed pm index)
unfolding piece_mgr_request piece_mgr_failed
piece_mgr_request-IsValid pm v index fresh' =
    let fresh : complete_at v.ps index ≡ false = rw (pieces_of_lem pm v) at fresh' in
    elim (Bool-cases (leb pm.num_pieces index)) [
      | inl out ↦ rw out (v, v)
      | inr in_range ↦
          let inside : index < pm.num_pieces = ground arith in
          rw in_range (
            set_state-IsValid requested index pm v inside fresh refl,
            set_state-IsValid failed index pm v inside fresh refl,
          )
    ]

count_complete-le : (ps : List Piece) → count_complete ps ≤ length ps
unfolding count_complete
count_complete-le [] = omega arith
count_complete-le (p ∷ ps) = ground (arith, count_complete-le ps)

all_complete :
    (ps : List Piece) (i : ℕ)
    → length ps ≤ count_complete ps
    → i < length ps
    → complete_at ps i ≡ true
unfolding count_complete complete_at
all_complete [] i h lt = elim lt [ ]
all_complete (p ∷ ps) zero h lt = ground (arith, count_complete-le ps)
all_complete (p ∷ ps) (suc i) h lt = ground (arith, count_complete-le ps, all_complete ps i)

count_complete_all :
    (ps : List Piece)
    → ((i : ℕ) → i < length ps → complete_at ps i ≡ true)
    → count_complete ps ≡ length ps
unfolding count_complete complete_at
count_complete_all [] h = refl
count_complete_all (p ∷ ps) h =
    ground (arith, h 0 (omega arith), count_complete_all ps (λ i lt. h (suc i) (omega arith)))

-- In a valid state piece_mgr_is_done holds exactly when every piece is complete.
pub piece_mgr_is_done_iff :
    (pm : PieceMgr) (v : IsValid pm)
    → (piece_mgr_is_done pm ≡ true)
      ↔ ((i : ℕ) → i < pm.num_pieces → complete_at (pieces_of pm) i ≡ true)
unfolding piece_mgr_is_done
piece_mgr_is_done_iff pm v = rw (pieces_of_lem pm v) (
  λ done i lt. all_complete v.ps i (ground (arith, v.counted, v.size)) (omega (arith, v.size)),
  λ all.
      ground
        (arith, v.counted, v.size, count_complete_all v.ps (λ i lt. all i (omega (arith, v.size)))),
)
