-- ===== src/Bencode/Encoder.antt =====
-- src/bencode.c: the encoder, over a buffer that doubles.
use ps5torrent.Base.{
  ℕ, zero, suc, ◌+◌, ◌*◌, ◌%◌, ◌^◌, Bool, [], ◌∷◌, ◌++◌, Bytes, length, leb, ltb, ◌==◌,
  if◌then◌else◌,
}
use ps5torrent.Base.Decimal.{print_u64, print_i64}
use ps5torrent.Base.Outcome.{Outcome, ok, null, fault, out_of_fuel, ◌>>=◌}
use ps5torrent.Bencode.Node.{
  Node, Items, Fields, str, int, list, dict, no_items, item, no_fields, field,
}

-- `*buf`, `*pos` and `*cap`: the bytes written so far, so `*pos` is their count, and the capacity.
pub record Buffer : Type 0 where
  pub bytes : Bytes
  pub cap : ℕ

-- `while (*pos + need >= new_cap) new_cap *= 2;`. A size_t doubles 64 times at most before it is 0.
unfoldable pub grow : ℕ → ℕ → ℕ → Outcome ℕ
grow zero wanted new_cap = out_of_fuel
grow (suc f) wanted new_cap =
    let rest = grow f wanted (new_cap * 2 % 2 ^ 64) in
    if leb new_cap wanted then rest else ok new_cap

module _ (realloc : ℕ → Bool) where
  unfoldable pub buf_ensure : Buffer → ℕ → Outcome Buffer
  buf_ensure buf need =
      if ltb (length buf.bytes + need) buf.cap
      then ok buf
      else grow 65 (length buf.bytes + need) (if buf.cap == 0 then 256 else buf.cap * 2)
        >>= λ new_cap. if realloc new_cap then ok (record buf { cap = new_cap }) else null

  -- A store of bytes at `*pos`; past the capacity it is a fault.
  abbrev pub store : Buffer → Bytes → Outcome Buffer
  store buf s =
      if leb (length buf.bytes + length s) buf.cap
      then ok (record buf { bytes = buf.bytes ++ s })
      else fault

  unfoldable pub buf_append : Buffer → Bytes → Outcome Buffer
  unfolding buf_ensure
  buf_append buf s = buf_ensure buf (length s) >>= λ buf'. store buf' s

  unfoldable pub encode_string : Buffer → Bytes → Outcome Buffer
  unfolding buf_append
  encode_string buf s =
      buf_append buf (print_u64 (length s) ++ b':' ∷ []) >>= λ buf'. buf_append buf' s

  -- `if (buf_ensure(buf, pos, cap, need)) return -1; (*buf)[(*pos)++] = c;`
  unfoldable pub put_byte : Buffer → ℕ → ℕ → Outcome Buffer
  unfolding buf_ensure
  put_byte buf need c = buf_ensure buf need >>= λ buf'. store buf' (c ∷ [])

  unfoldable pub encode_int : Buffer → ℕ → Outcome Buffer
  unfolding put_byte buf_append
  encode_int buf val = put_byte buf 2 b'i' >>= λ buf₁.
      buf_append buf₁ (print_i64 val) >>= λ buf₂. put_byte buf₂ 1 b'e'

  unfoldable mutual
    pub encode_node : Node → Buffer → Outcome Buffer
    encode_node (str s) buf = encode_string buf s
    encode_node (int v) buf = encode_int buf v
    encode_node (list xs) buf =
        put_byte buf 1 b'l' >>= λ buf₁. encode_items xs buf₁ >>= λ buf₂. put_byte buf₂ 1 b'e'
    encode_node (dict fs) buf =
        put_byte buf 1 b'd' >>= λ buf₁. encode_fields fs buf₁ >>= λ buf₂. put_byte buf₂ 1 b'e'

    pub encode_items : Items → Buffer → Outcome Buffer
    encode_items no_items buf = ok buf
    encode_items (item v xs) buf = encode_node v buf >>= λ buf'. encode_items xs buf'

    pub encode_fields : Fields → Buffer → Outcome Buffer
    encode_fields no_fields buf = ok buf
    encode_fields (field k v fs) buf =
        encode_string buf k >>= λ buf₁. encode_node v buf₁ >>= λ buf₂. encode_fields fs buf₂

  unfoldable pub bcode_encode : Node → Outcome Bytes
  unfolding encode_node encode_string encode_int grow print_u64 print_i64
  bcode_encode node = encode_node node (record { bytes = []; cap = 0 }) >>= λ buf. ok buf.bytes
