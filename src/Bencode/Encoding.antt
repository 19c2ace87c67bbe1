-- ===== src/Bencode/Encoding.antt =====
-- What the encoder of src/bencode.c writes.
mod Growth
use Growth.{Fits, Holds, put_lem, put_byte_lem, then_lem}
use mathlib.Core.Logic.{if_pos}
use ps5torrent.Base.{
  Grants, ℕ, zero, suc, ◌+◌, ◌*◌, ◌%◌, ◌^◌, ◌≤◌, ◌<◌, ◌≡◌, ◌≢◌, refl, ap, ◌∙◌, true, false, [], ◌∷◌,
  ◌++◌, Bytes, length, length-append, append_assoc, append-nil, sym, leb, ltb, ◌==◌, arith,
  Bool-cases, inl, inr, if◌then◌else◌, codes, tests, Bool,
}
use ps5torrent.Base.Decimal.{print_u64, print_i64, length-print_u64_le}
use ps5torrent.Base.Outcome.{
  Outcome, ok, null, fault, out_of_fuel, ◌>>=◌, Runs, holds, refused, Runs-if, Runs-bind, Runs-some,
  Runs-ne_fault, Runs-ne_out_of_fuel,
}
use ps5torrent.Bencode.Node.{
  Node, Items, Fields, str, int, list, dict, no_items, item, no_fields, field,
}
use ps5torrent.Bencode.Emit.{emit, emit_items, emit_fields, emit_string}
use ps5torrent.Bencode.Encoder.{
  Buffer, grow, buf_ensure, store, buf_append, encode_string, put_byte, encode_int, encode_node,
  encode_items, encode_fields, bcode_encode,
}

module _ (realloc : ℕ → Bool) where
  encode_string_lem :
      (buf : Buffer) (s : Bytes)
      → Fits buf
      → length buf.bytes + length (emit_string s) + 2 ≤ 2 ^ 60
      → Holds realloc (buf.bytes ++ emit_string s) (encode_string realloc buf s)
  unfolding encode_string
  encode_string_lem buf s fits small =
      let p = print_u64 (length s) in
      rw (← append_assoc p (b':' ∷ []) s) (
        then_lem realloc buf.bytes (p ++ b':' ∷ []) s
          (put_lem realloc buf (length (p ++ b':' ∷ [])) (p ++ b':' ∷ []) fits (omega arith)
            (omega (arith, length-append p (b':' ∷ []), length-append p (b':' ∷ s))))
          (λ buf' e fits'. put_lem realloc buf' (length s) s fits' (omega arith) (
            omega (
              arith,
              ap length e,
              length-append buf.bytes (p ++ b':' ∷ []),
              length-append p (b':' ∷ []),
              length-append p (b':' ∷ s),
            ))))

  encode_int_lem :
      (buf : Buffer) (v : ℕ)
      → Fits buf
      → length buf.bytes + length (emit (int v)) + 2 ≤ 2 ^ 60
      → Holds realloc (buf.bytes ++ emit (int v)) (encode_int realloc buf v)
  unfolding encode_int emit buf_append
  encode_int_lem buf v fits small =
      let p = print_i64 v in
      let l = length-append p (b'e' ∷ []) in
      then_lem realloc buf.bytes (b'i' ∷ []) (p ++ b'e' ∷ [])
        (put_byte_lem realloc buf 2 b'i' fits (omega arith) (omega (arith, l)))
        (λ buf₁ e₁ fits₁.
          let l₁ = length-append buf.bytes (b'i' ∷ []) in
          then_lem realloc buf₁.bytes p (b'e' ∷ [])
            (put_lem realloc buf₁ (length p) p fits₁ (omega arith)
              (omega (arith, ap length e₁, l, l₁)))
            (λ buf₂ e₂ fits₂.
              put_byte_lem realloc buf₂ 1 b'e' fits₂ (omega arith)
                (omega (arith, ap length e₁, ap length e₂, l, l₁, length-append buf₁.bytes p))))

  -- A byte, a body and a closing byte: a list or a dictionary.
  bracket_lem :
      (buf : Buffer) (c : ℕ) (s : Bytes) (body : Buffer → Outcome Buffer)
      → Fits buf
      → length buf.bytes + length (c ∷ (s ++ b'e' ∷ [])) + 2 ≤ 2 ^ 60
      → ((buf' : Buffer)
          → Fits buf'
          → length buf'.bytes + length s + 2 ≤ 2 ^ 60
          → Holds realloc (buf'.bytes ++ s) (body buf'))
      → Holds realloc
          (buf.bytes ++ c ∷ (s ++ b'e' ∷ []))
          (put_byte realloc buf 1 c >>= λ buf₁. body buf₁ >>= λ buf₂. put_byte realloc buf₂ 1 b'e')
  bracket_lem buf c s body fits small inner =
      let l = length-append s (b'e' ∷ []) in
      then_lem realloc buf.bytes (c ∷ []) (s ++ b'e' ∷ [])
        (put_byte_lem realloc buf 1 c fits (omega arith) (omega (arith, l)))
        (λ buf₁ e₁ fits₁.
          let l₁ = length-append buf.bytes (c ∷ []) in
          then_lem realloc buf₁.bytes s (b'e' ∷ [])
            (inner buf₁ fits₁ (omega (arith, ap length e₁, l, l₁)))
            (λ buf₂ e₂ fits₂.
              put_byte_lem realloc buf₂ 1 b'e' fits₂ (omega arith)
                (omega (arith, ap length e₁, ap length e₂, l, l₁, length-append buf₁.bytes s))))

  mutual
    unfolding encode_node emit

    encode_node_lem :
        (v : Node) (buf : Buffer)
        → Fits buf
        → length buf.bytes + length (emit v) + 2 ≤ 2 ^ 60
        → Holds realloc (buf.bytes ++ emit v) (encode_node realloc v buf)
    encode_node_lem (str s) buf fits small = encode_string_lem buf s fits small
    encode_node_lem (int v) buf fits small = encode_int_lem buf v fits small
    encode_node_lem (list xs) buf fits small =
        bracket_lem buf b'l' (emit_items xs) (encode_items realloc xs) fits small
          (encode_items_lem xs)
    encode_node_lem (dict fs) buf fits small =
        bracket_lem buf b'd' (emit_fields fs) (encode_fields realloc fs) fits small
          (encode_fields_lem fs)

    encode_items_lem :
        (xs : Items) (buf : Buffer)
        → Fits buf
        → length buf.bytes + length (emit_items xs) + 2 ≤ 2 ^ 60
        → Holds realloc (buf.bytes ++ emit_items xs) (encode_items realloc xs buf)
    encode_items_lem no_items buf fits small = holds (sym (append-nil buf.bytes), fits)
    encode_items_lem (item v xs) buf fits small =
        let l = length-append (emit v) (emit_items xs) in
        then_lem realloc buf.bytes (emit v) (emit_items xs)
          (encode_node_lem v buf fits (omega (arith, l)))
          (λ buf' e fits'.
            encode_items_lem xs buf' fits'
              (omega (arith, l, ap length e, length-append buf.bytes (emit v))))

    encode_fields_lem :
        (fs : Fields) (buf : Buffer)
        → Fits buf
        → length buf.bytes + length (emit_fields fs) + 2 ≤ 2 ^ 60
        → Holds realloc (buf.bytes ++ emit_fields fs) (encode_fields realloc fs buf)
    encode_fields_lem no_fields buf fits small = holds (sym (append-nil buf.bytes), fits)
    encode_fields_lem (field k v fs) buf fits small =
        let l = length-append (emit_string k) (emit v ++ emit_fields fs) in
        let l' = length-append (emit v) (emit_fields fs) in
        then_lem realloc buf.bytes (emit_string k) (emit v ++ emit_fields fs)
          (encode_string_lem buf k fits (omega (arith, l)))
          (λ buf₁ e₁ fits₁.
            let l₁ = length-append buf.bytes (emit_string k) in
            then_lem realloc buf₁.bytes (emit v) (emit_fields fs)
              (encode_node_lem v buf₁ fits₁ (omega (arith, ap length e₁, l, l', l₁)))
              (λ buf₂ e₂ fits₂. encode_fields_lem fs buf₂ fits₂ (
                omega (
                  arith,
                  ap length e₁,
                  ap length e₂,
                  l,
                  l',
                  l₁,
                  length-append buf₁.bytes (emit v),
                ))))

-- For every allocator and every node whose text is shorter than about 2 ^ 60 bytes the encoder stays
-- inside its buffer and its doubling loop ends; a text it returns is the bencoded text of the node,
-- and it fails only where some allocation up to 2 ^ 62 bytes is refused.
pub bcode_encode-emit :
    (realloc : ℕ → Bool) (v : Node)
    → length (emit v) + 2 ≤ 2 ^ 60
    → Runs (Grants realloc) (λ out. out ≡ emit v) (bcode_encode realloc v)
unfolding bcode_encode
bcode_encode-emit realloc v small =
    Runs-bind
      (encode_node_lem realloc v (record { bytes = []; cap = 0 }) (omega arith) (omega arith))
      λ buf (e, fits). holds e
