-- ===== src/Sha1/Context.antt =====
-- src/sha1.c: the streaming interface over 64-byte blocks.
use ps5torrent.Base.{
  ℕ, zero, suc, ◌+◌, ◌-◌, ◌*◌, ◌/◌, ◌%◌, ◌^◌, ◌++◌, [], ◌∷◌, Bytes, length, set, take, drop,
  replicate, leb, ltb, ◌==◌, if◌then◌else◌,
}
use ps5torrent.Sha1.Transform.{Words, sha1_transform}

-- `count` is a uint64_t number of bits.
pub record Sha1Ctx : Type 0 where
  pub state : Words
  pub count : ℕ
  pub buffer : Bytes

-- `for (i = 0; i < len; i++) buffer[idx + i] = data[i]`, and memset with equal bytes.
unfoldable pub copy_at : Bytes → ℕ → Bytes → Bytes
copy_at buffer idx [] = buffer
copy_at buffer idx (c ∷ r) = copy_at (set buffer idx c) (idx + 1) r

-- sha1_init leaves the buffer as it is: on the stack, any bytes.
unfoldable pub sha1_init : Bytes → Sha1Ctx
sha1_init buffer = record {
  state = record { a = 0x67452301; b = 0xEFCDAB89; c = 0x98BADCFE; d = 0x10325476; e = 0xC3D2E1F0 };
  count = 0;
  buffer = buffer;
}

-- `while (len >= 64)`, with the rounds left; the second result is the data left.
unfoldable pub whole_blocks : ℕ → Words → Bytes → Words × Bytes
whole_blocks zero s bytes = (s, bytes)
whole_blocks (suc n) s bytes =
    let rest = whole_blocks n (sha1_transform s (take 64 bytes)) (drop 64 bytes) in
    if leb 64 (length bytes) then rest else (s, bytes)

-- The part of sha1_update behind the first block: it starts with an empty buffer.
unfoldable pub update_from : Words → ℕ → Bytes → Bytes → Sha1Ctx
unfolding whole_blocks copy_at
update_from state count buffer bytes =
    let (state', rest) = whole_blocks (length bytes) state bytes in
    record { state = state'; count = count; buffer = copy_at buffer 0 rest }

unfoldable pub sha1_update : Sha1Ctx → Bytes → Sha1Ctx
unfolding update_from copy_at
sha1_update ctx bytes =
    let idx = ctx.count / 8 % 64 in
    let count = (ctx.count + length bytes * 8) % 2 ^ 64 in
    let fill = 64 - idx in
    if idx == 0
    then update_from ctx.state count ctx.buffer bytes
    else if ltb (length bytes) fill
    then record { state = ctx.state; count = count; buffer = copy_at ctx.buffer idx bytes }
    else let full = copy_at ctx.buffer idx (take fill bytes) in
      update_from (sha1_transform ctx.state full) count full (drop fill bytes)

-- `(unsigned char)(bits >> k)`.
abbrev pub byte_at : ℕ → ℕ → ℕ
byte_at bits k = bits / 2 ^ k % 256

unfoldable pub big_endian64 : ℕ → Bytes
big_endian64 bits =
    byte_at bits 56
    ∷ byte_at bits 48
    ∷ byte_at bits 40
    ∷ byte_at bits 32
    ∷ byte_at bits 24
    ∷ byte_at bits 16
    ∷ byte_at bits 8
    ∷ byte_at bits 0
    ∷ []

abbrev pub big_endian32 : ℕ → Bytes
big_endian32 word = byte_at word 24 ∷ byte_at word 16 ∷ byte_at word 8 ∷ byte_at word 0 ∷ []

unfoldable pub digest : Words → Bytes
digest s =
    big_endian32 s.a ++ big_endian32 s.b ++ big_endian32 s.c ++ big_endian32 s.d ++ big_endian32 s.e

-- The part of sha1_final behind the pad byte, with the state and the buffer.
unfoldable pub final_from : ℕ → ℕ → Words → Bytes → Bytes
unfolding copy_at digest big_endian64
final_from bits idx s buffer =
    let over = copy_at buffer idx (replicate (64 - idx) 0) in
    if ltb 56 idx
    then digest (
        sha1_transform (sha1_transform s over)
          (copy_at (copy_at over 0 (replicate 56 0)) 56 (big_endian64 bits)))
    else digest (
        sha1_transform s
          (copy_at (copy_at buffer idx (replicate (56 - idx) 0)) 56 (big_endian64 bits)))

unfoldable pub sha1_final : Sha1Ctx → Bytes
unfolding final_from
sha1_final ctx =
    let idx = ctx.count / 8 % 64 in
    let buffer = set ctx.buffer idx 0x80 in
    if idx + 1 == 64
    then final_from ctx.count 0 (sha1_transform ctx.state buffer) buffer
    else final_from ctx.count (idx + 1) ctx.state buffer

unfoldable pub sha1_hash : Bytes → Bytes → Bytes
unfolding sha1_init sha1_update sha1_final
sha1_hash stack bytes = sha1_final (sha1_update (sha1_init stack) bytes)
