-- ===== src/PieceMgr/Tests.antt =====
-- Runs of the piece manager, and the theorems at concrete states.
use ps5torrent.Base.{
  ℕ, ◌≤◌, ◌^◌, ◌<◌, ◌≡◌, ◌↔◌, refl, Bytes, codes, arith, [], ◌∷◌, some, none, true, false, take,
}
use ps5torrent.Base.Bits.{set_bit}
use ps5torrent.Base.Outcome.{ok, Runs}
use ps5torrent.Base.Samples.{roomy}
use ps5torrent.PieceMgr.Defs.{
  PieceMgr, piece_mgr_init, piece_mgr_complete, piece_mgr_get_next, piece_mgr_is_done, pieces_of,
}
use ps5torrent.PieceMgr.Invariant.{Completes, IsValid, complete_at, piece_mgr_complete-IsValid}
use ps5torrent.PieceMgr.Progress.{piece_mgr_init-IsValid, piece_mgr_is_done_iff}
use ps5torrent.PieceMgr.Next.{First, SomeAvailable, piece_mgr_get_next-First}

-- Two pieces, whose digests are twenty letters; the digest of a text is here its first twenty bytes.
abbrev hashes : Bytes
hashes = codes "aaaaaaaaaaaaaaaaaaaabbbbbbbbbbbbbbbbbbbb"

abbrev start : PieceMgr
start = piece_mgr_init roomy 2 16 20 (some hashes)

second_done : PieceMgr
second_done = (piece_mgr_complete (take 20) start 1 (codes "bbbbbbbbbbbbbbbbbbbb")).0

next_after : (piece_mgr_get_next second_done none ≡ ok 0) × (piece_mgr_is_done second_done ≡ false)
unfolding second_done piece_mgr_init piece_mgr_complete piece_mgr_get_next piece_mgr_is_done
next_after = (refl, refl)

bit_after : second_done.bitfield ≡ some (64 ∷ [])
unfolding second_done piece_mgr_init piece_mgr_complete set_bit
bit_after = refl

start-IsValid : IsValid start
start-IsValid = (piece_mgr_init-IsValid roomy 2 16 20 (some hashes) refl refl).0

start_fresh : (complete_at (pieces_of start) 1 ≡ false) × (piece_mgr_is_done start ≡ false)
unfolding piece_mgr_init complete_at piece_mgr_is_done
start_fresh = (refl, refl)

piece_mgr_complete-IsValid_example :
    IsValid (piece_mgr_complete (take 20) start 1 (codes "bbbbbbbbbbbbbbbbbbbb")).0
    × Completes
        (take 20)
        start
        1
        (codes "bbbbbbbbbbbbbbbbbbbb")
        (piece_mgr_complete (take 20) start 1 (codes "bbbbbbbbbbbbbbbbbbbb"))
piece_mgr_complete-IsValid_example =
    piece_mgr_complete-IsValid (take 20) start start-IsValid 1 (codes "bbbbbbbbbbbbbbbbbbbb")
      start_fresh.0

piece_mgr_is_done_iff_example :
    (piece_mgr_is_done start ≡ true)
    ↔ ((i : ℕ) → i < start.num_pieces → complete_at (pieces_of start) i ≡ true)
piece_mgr_is_done_iff_example = piece_mgr_is_done_iff start start-IsValid

start_small : start.num_pieces ≤ 2 ^ 31
unfolding piece_mgr_init
start_small = omega arith

piece_mgr_get_next-First_example :
    Runs
      (SomeAvailable (pieces_of start) (some (64 ∷ [])) 0 start.num_pieces)
      (First (pieces_of start) (some (64 ∷ [])) 0 start.num_pieces)
      (piece_mgr_get_next start (some (64 ∷ [])))
piece_mgr_get_next-First_example =
    piece_mgr_get_next-First start start-IsValid (some (64 ∷ [])) start_small start_fresh.1
