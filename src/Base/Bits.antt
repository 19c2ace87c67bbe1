-- ===== src/Base/Bits.antt =====
-- Single bits of a byte, `b & (1 << k)` and `b |= 1 << k`, by a table over all bytes.
use Prim.Native.Nat.{ℕ, zero, suc, ◌^◌, ◌<◌, bit_and, bit_or}
use mathlib.Core.Path.{◌≡◌, refl}
use mathlib.Core.Bool.{Bool, true, false, not, ◌&&◌, ◌||◌}
use native.Mathlib.Omega.{arith}
use ps5torrent.Base.Tests.{ltb, ◌==◌, ltb→lt, Bool-cases, ==_iff}
use mathlib.Core.Logic.{inl, inr}

unfoldable pub test_bit : ℕ → ℕ → Bool
test_bit b k = not (bit_and b (2 ^ k) == 0)

unfoldable pub set_bit : ℕ → ℕ → ℕ
set_bit b k = bit_or b (2 ^ k)

-- `p` at all of `k - 1`, …, `0`.
every : (ℕ → Bool) → ℕ → Bool
every p zero = true
every p (suc k) = elim (p k) [ true ↦ every p k | false ↦ false ]

every_at : (p : ℕ → Bool) (k : ℕ) → every p k ≡ true → (x : ℕ) → x < k → p x ≡ true
unfolding every
every_at p zero h x lt = elim lt [ ]
every_at p (suc k) h x lt = elim (Bool-cases (p k)) [
  | inl yes_k ↦ elim (Bool-cases (x == k)) [
    | inl top ↦ let e : x ≡ k = (==_iff x k).0 top in rw e yes_k
    | inr below ↦ every_at p k (rw (yes_k, every) at h) x (ground arith)
  ]
  | inr no_k ↦ cc (rw (no_k, every) at h)
]

same : Bool → Bool → Bool
same true b = b
same false b = not b

same→eq : (a b : Bool) → same a b ≡ true → a ≡ b
unfolding same
same→eq true b h = ground arith
same→eq false b h = ground arith

abbrev bit_law : ℕ → ℕ → ℕ → Bool
bit_law k m b = same (test_bit (set_bit b k) m) ((k == m) || test_bit b m) && ltb (set_bit b k) 256

bit_table : every (λ k. every (λ m. every (bit_law k m) 256) 8) 8 ≡ true
unfolding every test_bit set_bit same
bit_table = refl

bit_laws : (k m b : ℕ) → k < 8 → m < 8 → b < 256 → bit_law k m b ≡ true
bit_laws k m b hk hm hb =
    let t = every_at (λ k'. every (λ m'. every (bit_law k' m') 256) 8) 8 bit_table k hk in
    let u = every_at (λ m'. every (bit_law k m') 256) 8 t m hm in every_at (bit_law k m) 256 u b hb

-- After a bit is set it is on, and the others are as before.
pub test_bit-set_bit :
    (b k m : ℕ) → k < 8 → m < 8 → b < 256 → test_bit (set_bit b k) m ≡ ((k == m) || test_bit b m)
test_bit-set_bit b k m hk hm hb =
    same→eq (test_bit (set_bit b k) m) ((k == m) || test_bit b m)
      (ground (arith, bit_laws k m b hk hm hb))

pub set_bit_lt : (b k : ℕ) → k < 8 → b < 256 → set_bit b k < 256
set_bit_lt b k hk hb = ltb→lt _ _ (ground (arith, bit_laws k 0 b hk (omega arith) hb))

zero_table : every (λ k. not (test_bit 0 k)) 8 ≡ true
unfolding every test_bit
zero_table = refl

pub test_bit_zero : (k : ℕ) → k < 8 → test_bit 0 k ≡ false
test_bit_zero k h = ground (arith, every_at (λ k'. not (test_bit 0 k')) 8 zero_table k h)
