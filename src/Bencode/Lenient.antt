-- ===== src/Bencode/Lenient.antt =====
-- src/bencode.c, parse_integer: text that is no bencoded integer, and that the parser accepts.
use ps5torrent.Base.{
  ℕ, suc, ◌+◌, ◌*◌, ◌^◌, ◌<◌, ◌≡◌, ◌≢◌, refl, ap, ◌∙◌, Bool, true, false, [], ◌∷◌, ◌++◌, Bytes,
  length, ltb, arith, Grants,
}
use ps5torrent.Base.Decimal.{is_digit, scan_digits, print_u64, print_i64, scan-print_u64}
use ps5torrent.Base.Outcome.{ok}
use ps5torrent.Bencode.Node.{int}
use ps5torrent.Bencode.Emit.{emit}
use ps5torrent.Bencode.Parser.{
  at, parse_peek, parse_advance, integer_close, integer_digits, integer_sign, parse_integer,
  node_size, parse_value, bcode_parse,
}

module _ (malloc : ℕ → Bool) (grants : Grants malloc) where
  bcode_parse_int :
      (r : Bytes) → bcode_parse malloc (b'i' ∷ r) ≡ ok (int (parse_integer (at 0 (b'i' ∷ r))).0)
  unfolding bcode_parse parse_value parse_peek
  bcode_parse_int r =
      let e : 2 * suc (length r) + 1 ≡ suc (2 * suc (length r)) = omega arith in
      rw (e, grants node_size (omega arith))

  -- An i that no digit, no sign and no e follows is accepted as the integer 0, where allocations
  -- succeed.
  pub bcode_parse_malformed :
      (c : ℕ) (r : Bytes)
      → is_digit c ≡ false
      → c ≢ b'-'
      → c ≢ b'e'
      → bcode_parse malloc (b'i' ∷ c ∷ r) ≡ ok (int 0)
  unfolding parse_integer parse_advance integer_sign integer_digits integer_close scan_digits
  bcode_parse_malformed c r d n e = bcode_parse_int (c ∷ r) ∙ ground arith

  zero_digit : (pos : ℕ) (r : Bytes) → scan_digits 0 pos (b'0' ∷ r) ≡ scan_digits 0 (pos + 1) r
  unfolding scan_digits
  zero_digit pos r = refl

  integer_zero :
      (n : ℕ) → n < 2 ^ 64 → (integer_digits false 1 (b'0' ∷ (print_u64 n ++ b'e' ∷ []))).0 ≡ n
  unfolding integer_digits integer_close
  integer_zero n h =
      rw (zero_digit 1 (print_u64 n ++ b'e' ∷ []), scan-print_u64 n 2 (b'e' ∷ []) h refl)

  -- A leading zero before the digits of a number below 2 ^ 63 is accepted, where allocations
  -- succeed, and the bencoded text of the node that is parsed differs from the text.
  pub bcode_parse_leading_zero :
      (n : ℕ)
      → n < 2 ^ 63
      → (bcode_parse malloc (b'i' ∷ b'0' ∷ (print_u64 n ++ b'e' ∷ [])) ≡ ok (int n))
        × (emit (int n) ≢ b'i' ∷ b'0' ∷ (print_u64 n ++ b'e' ∷ []))
  unfolding parse_integer parse_advance integer_sign emit print_i64
  bcode_parse_leading_zero n h =
      let positive : ltb n (2 ^ 63) ≡ true = ground arith in
      (
        bcode_parse_int (b'0' ∷ (print_u64 n ++ b'e' ∷ []))
            ∙ ap (λ k. ok (int k)) (integer_zero n (omega arith)),
        λ same. omega (arith, ap length (rw positive at same)),
      )
