-- ===== src/PieceMgr/Bitfield.antt =====
-- src/piece_mgr.c: the bitfield of the pieces that are there.
use ps5torrent.Base.{
  ℕ, zero, suc, ◌-◌, ◌/◌, ◌%◌, ◌<◌, ◌≡◌, refl, true, false, ◌||◌, Bytes, length, get_or, set,
  replicate, ltb, ◌==◌, if◌then◌else◌, arith, Bool-cases, inl, inr, All, [], ◌∷◌, length-set,
}
use ps5torrent.Base.Bits.{set_bit, test_bit-set_bit, set_bit_lt, test_bit_zero}
use ps5torrent.PieceMgr.Defs.{has_bit, set_have}

abbrev pub IsByte : ℕ → Type 0
IsByte b = b < 256

get_or-IsByte : (bits : Bytes) (i : ℕ) → All IsByte bits → get_or bits i 0 < 256
get_or-IsByte [] i h = omega arith
get_or-IsByte (b ∷ bits) zero h = h.0
get_or-IsByte (b ∷ bits) (suc i) h = get_or-IsByte bits i h.1

set-IsByte : (bits : Bytes) (i b : ℕ) → All IsByte bits → b < 256 → All IsByte (set bits i b)
set-IsByte [] i b h hb = tt
set-IsByte (c ∷ bits) zero b h hb = (hb, h.1)
set-IsByte (c ∷ bits) (suc i) b h hb = (h.0, set-IsByte bits i b h.1 hb)

get_or-set :
    (bits : Bytes) (i j b : ℕ)
    → i < length bits
    → get_or (set bits i b) j 0 ≡ (if i == j then b else get_or bits j 0)
get_or-set [] i j b h = elim h [ ]
get_or-set (c ∷ bits) zero zero b h = refl
get_or-set (c ∷ bits) zero (suc j) b h = ground arith
get_or-set (c ∷ bits) (suc i) zero b h = ground arith
get_or-set (c ∷ bits) (suc i) (suc j) b h = ground (arith, get_or-set bits i j b (omega arith))

-- Setting the bit of piece `i` makes it present and changes no other piece's bit.
pub has_bit-set_have :
    (bits : Bytes) (i j : ℕ)
    → All IsByte bits
    → i / 8 < length bits
    → has_bit (set_have bits i) j ≡ ((i == j) || has_bit bits j)
has_bit-set_have bits i j bytes h =
    let b = get_or bits (i / 8) 0 in
    let inside : ltb (i / 8) (length bits) ≡ true = ground arith in
    let law =
      test_bit-set_bit b (7 - i % 8) (7 - j % 8) (omega arith) (omega arith)
        (get_or-IsByte bits (i / 8) bytes) in
    rw inside (
      rw (get_or-set bits (i / 8) (j / 8) (set_bit b (7 - i % 8)) h)
        (elim (Bool-cases (i / 8 == j / 8)) [
          | inl same ↦
              let e : i / 8 ≡ j / 8 = ground arith in
              let k : (7 - i % 8 == 7 - j % 8) ≡ (i == j) = ground arith in rw (same, law, k, e)
          | inr other ↦ let ne : (i == j) ≡ false = ground arith in rw (other, ne)
        ]))

pub set_have-IsByte : (bits : Bytes) (i : ℕ) → All IsByte bits → All IsByte (set_have bits i)
set_have-IsByte bits i h = elim (Bool-cases (ltb (i / 8) (length bits))) [
  | inl inside ↦ rw inside (
      set-IsByte bits (i / 8) (set_bit (get_or bits (i / 8) 0) (7 - i % 8)) h
        (set_bit_lt _ (7 - i % 8) (omega arith) (get_or-IsByte bits (i / 8) h)))
  | inr out ↦ rw out h
]

pub length-set_have : (bits : Bytes) (i : ℕ) → length (set_have bits i) ≡ length bits
length-set_have bits i = elim (Bool-cases (ltb (i / 8) (length bits))) [
  | inl inside ↦ rw inside (length-set bits (i / 8) _)
  | inr out ↦ rw out
]

get_or-zeros : (n i : ℕ) → get_or {A = ℕ} (replicate n 0) i 0 ≡ 0
get_or-zeros zero i = refl
get_or-zeros (suc n) zero = refl
get_or-zeros (suc n) (suc i) = get_or-zeros n i

pub has_bit-zeros : (n i : ℕ) → has_bit (replicate n 0) i ≡ false
has_bit-zeros n i = rw (get_or-zeros n (i / 8)) (test_bit_zero (7 - i % 8) (omega arith))

pub zeros-IsByte : (n : ℕ) → All IsByte (replicate n 0)
zeros-IsByte zero = tt
zeros-IsByte (suc n) = (omega arith, zeros-IsByte n)
