-- ===== src/Sha1/Transform.antt =====
-- src/sha1.c: the compression of one block. A uint32_t is a number below 2 ^ 32.
use ps5torrent.Base.{
  ℕ, zero, suc, ◌+◌, ◌-◌, ◌*◌, ◌/◌, ◌%◌, ◌^◌, List, [], ◌∷◌, Bytes, get_or, drop, bit_and, bit_or,
  bit_xor,
}

abbrev pub add32 : ℕ → ℕ → ℕ
add32 a b = (a + b) % 2 ^ 32

-- ROTLEFT.
abbrev pub rotleft : ℕ → ℕ → ℕ
rotleft a b = bit_or (a * 2 ^ b % 2 ^ 32) (a / 2 ^ (32 - b))

-- F0, F1 and F2; F3 is F1. `~b` is the complement of a word.
abbrev pub f0 : ℕ → ℕ → ℕ → ℕ
f0 b c d = bit_or (bit_and b c) (bit_and (2 ^ 32 - 1 - b) d)

abbrev pub f1 : ℕ → ℕ → ℕ → ℕ
f1 b c d = bit_xor (bit_xor b c) d

abbrev pub f2 : ℕ → ℕ → ℕ → ℕ
f2 b c d = bit_or (bit_or (bit_and b c) (bit_and b d)) (bit_and c d)

-- The five words of the state, and of the variables of a round.
pub record Words : Type 0 where
  pub a : ℕ
  pub b : ℕ
  pub c : ℕ
  pub d : ℕ
  pub e : ℕ

-- SHA1_ROUND, and the turn of the variables' names that the next round is written with: after five
-- rounds each name is back in its place.
unfoldable pub round : (ℕ → ℕ → ℕ → ℕ) → ℕ → ℕ → Words → Words
round f k w v =
    let e = add32 (add32 (add32 (add32 (rotleft v.a 5) (f v.b v.c v.d)) v.e) w) k in
    record { a = e; b = v.a; c = rotleft v.b 30; d = v.c; e = v.d }

-- The big-endian words of the block.
abbrev pub word_at : Bytes → ℕ → ℕ
word_at block i =
    bit_or
      (bit_or (bit_or (get_or block (i * 4) 0 * 2 ^ 24) (get_or block (i * 4 + 1) 0 * 2 ^ 16))
        (get_or block (i * 4 + 2) 0 * 2 ^ 8))
      (get_or block (i * 4 + 3) 0)

-- `w[i + n - 1]`, …, `w[0]`: the words so far stand newest first.
unfoldable pub load : Bytes → ℕ → List ℕ
load block zero = []
load block (suc n) = word_at block n ∷ load block n

unfoldable pub extend : ℕ → List ℕ → List ℕ
extend zero w = w
extend (suc n) w = extend n (
    rotleft
      (bit_xor (bit_xor (bit_xor (get_or w 2 0) (get_or w 7 0)) (get_or w 13 0)) (get_or w 15 0)) 1
    ∷ w)

abbrev pub reverse_onto : List ℕ → List ℕ → List ℕ
reverse_onto [] acc = acc
reverse_onto (x ∷ xs) acc = reverse_onto xs (x ∷ acc)

-- `n` rounds with the next words.
unfoldable pub rounds : (ℕ → ℕ → ℕ → ℕ) → ℕ → ℕ → List ℕ → Words → Words
unfolding round
rounds f k zero w v = v
rounds f k (suc n) [] v = v
rounds f k (suc n) (x ∷ w) v = rounds f k n w (round f k x v)

unfoldable pub sha1_transform : Words → Bytes → Words
unfolding load extend rounds
sha1_transform s block =
    let w = reverse_onto (extend 64 (load block 16)) [] in
    let v0 = rounds f0 0x5A827999 20 w s in
    let v1 = rounds f1 0x6ED9EBA1 20 (drop 20 w) v0 in
    let v2 = rounds f2 0x8F1BBCDC 20 (drop 40 w) v1 in
    let v3 = rounds f1 0xCA62C1D6 20 (drop 60 w) v2 in
    record {
      a = add32 s.a v3.a;
      b = add32 s.b v3.b;
      c = add32 s.c v3.c;
      d = add32 s.d v3.d;
      e = add32 s.e v3.e;
    }
