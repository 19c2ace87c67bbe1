-- ===== src/PieceMgr/Next.antt =====
-- src/piece_mgr.c, piece_mgr_get_next: the piece to ask a peer for.
use ps5torrent.Base.{
  ℕ, zero, suc, ◌+◌, ◌%◌, ◌^◌, ◌≤◌, ◌<◌, ◌≡◌, refl, Bool, true, false, not, ◌&&◌, Bytes, length,
  get_elem?, get_elem?_in, ◌==◌, if◌then◌else◌, arith, Bool-cases, inl, inr, List, Option, some,
  none,
}
use ps5torrent.Base.Outcome.{Outcome, ok, Runs, holds, refused, Runs-if}
use ps5torrent.PieceMgr.Defs.{
  PieceState, free, requested, complete, failed, is_free, next_round, Piece, PieceMgr, peer_lacks,
  int_result, next_from, piece_mgr_is_done, piece_mgr_get_next, pieces_of,
}
use ps5torrent.PieceMgr.Invariant.{IsValid, pieces_of_lem}

-- The piece is free, and the peer is not known to lack it.
abbrev pub available : List Piece → Option Bytes → ℕ → Bool
available ps peer i = elim (get_elem? ps i) [
  | none ↦ false
  | some p ↦ is_free p.state && not (peer_lacks peer i)
]

-- A first available index from `lo` on.
pub record First (ps : List Piece) (peer : Option Bytes) (lo hi idx : ℕ) : Type 0 where
  pub above : lo ≤ idx
  pub below : idx < hi
  pub here : available ps peer idx ≡ true
  pub earlier : (j : ℕ) → lo ≤ j → j < idx → available ps peer j ≡ false

abbrev pub SomeAvailable : List Piece → Option Bytes → ℕ → ℕ → Type 0
SomeAvailable ps peer lo hi = (j : ℕ) × (lo ≤ j) × (j < hi) × (available ps peer j ≡ true)

-- A round takes the index if the piece is available, and goes on otherwise.
next_round_lem :
    (ps : List Piece) (peer : Option Bytes) (rest : Outcome ℕ) (i : ℕ)
    → i < length ps
    → i < 2 ^ 31
    → next_round ps peer rest i ≡ (if available ps peer i then ok i else rest)
unfolding next_round
next_round_lem ps peer rest i inside small =
    let (p, get) = get_elem?_in ps i inside in
    let low : i % 2 ^ 32 ≡ i = omega arith in
    let neat : int_result i ≡ ok i = rw low (ground arith) in
    rw (get, next_round, available) (go p.state (peer_lacks peer i) neat)
  where
    go :
        (s : PieceState) (lacks : Bool)
        → int_result i ≡ ok i
        → (if not (is_free s) then rest else if lacks then rest else int_result i)
          ≡ (if is_free s && not lacks then ok i else rest)
    go free true e = refl
    go free false e = e
    go requested lacks e = refl
    go complete lacks e = refl
    go failed lacks e = refl

next_from-Runs :
    (ps : List Piece) (num : ℕ) (peer : Option Bytes) (n i : ℕ)
    → i + n ≡ num
    → num ≤ length ps
    → num ≤ 2 ^ 31
    → Runs (SomeAvailable ps peer i num) (First ps peer i num) (next_from ps num peer n i)
unfolding next_from
next_from-Runs ps num peer zero i e size small = refused λ (j, lo, hi, _). omega arith
next_from-Runs ps num peer (suc n) i e size small =
    let idx : (0 + i) % num ≡ i = grind arith in
    let rest = next_from ps num peer n (i + 1) in
    rw (idx, next_round_lem ps peer rest i (omega arith) (omega arith))
      (Runs-if (available ps peer i)
        (λ h. holds (record {
          above = omega arith;
          below = omega arith;
          here = h;
          earlier = λ j lo hi. absurd (omega arith);
        }))
        (λ h. later h (next_from-Runs ps num peer n (i + 1) (omega arith) size small)))
  where
    later :
        {r : Outcome ℕ}
        → available ps peer i ≡ false
        → Runs (SomeAvailable ps peer (i + 1) num) (First ps peer (i + 1) num) r
        → Runs (SomeAvailable ps peer i num) (First ps peer i num) r
    later h (holds {a} f) = holds (record {
      above = omega (arith, f.above);
      below = f.below;
      here = f.here;
      earlier = λ j lo hi. elim (Bool-cases (i == j)) [
        | inl same ↦ let e' : i ≡ j = ground arith in rw (← e') h
        | inr ne ↦ f.earlier j (ground arith) hi
      ];
    })
    later h (refused none_left) = refused λ (j, lo, hi, av). elim (Bool-cases (i == j)) [
      | inl same ↦ let e' : i ≡ j = ground arith in cc (rw (← e') at av)
      | inr ne ↦ none_left (j, ground arith, hi, av)
    ]

-- In a valid state of at most 2 ^ 31 pieces that is not done, piece_mgr_get_next returns the first
-- piece that is free and that the peer is not known to lack, and -1 only if there is none. It never
-- reads outside the array.
pub piece_mgr_get_next-First :
    (pm : PieceMgr) (v : IsValid pm) (peer : Option Bytes)
    → pm.num_pieces ≤ 2 ^ 31
    → piece_mgr_is_done pm ≡ false
    → Runs
        (SomeAvailable (pieces_of pm) peer 0 pm.num_pieces)
        (First (pieces_of pm) peer 0 pm.num_pieces)
        (piece_mgr_get_next pm peer)
unfolding piece_mgr_get_next
piece_mgr_get_next-First pm v peer small open_ =
    rw (open_, pieces_of_lem pm v)
      (next_from-Runs v.ps pm.num_pieces peer pm.num_pieces 0 (omega arith) (omega (arith, v.size))
        small)
