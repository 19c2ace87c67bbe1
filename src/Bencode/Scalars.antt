-- ===== src/Bencode/Scalars.antt =====
-- src/bencode.c: integers and strings are read back as they were written.
use ps5torrent.Base.{
  ℕ, suc, ◌+◌, ◌-◌, ◌%◌, ◌^◌, ◌<◌, ◌≡◌, refl, ap, ap₂, ◌∙◌, Bool, true, false, ◌∷◌, ◌++◌,
  append_assoc, Bytes, length, length-append, take-append_length, drop-append_length, leb, ltb,
  ◌==◌, if◌then◌else◌, arith, Bool-cases, inl, inr, Grants,
}
use ps5torrent.Base.Decimal.{is_digit, print_u64, print_i64, scan-print_u64, print_u64_head}
use ps5torrent.Base.Outcome.{ok}
use ps5torrent.Bencode.Emit.{emit_string}
use ps5torrent.Bencode.Parser.{
  at, parse_advance, integer_close, integer_digits, integer_sign, parse_integer, string_copy,
  string_colon, parse_string,
}

integer_digits-print :
    (neg : Bool) (v pos : ℕ) (rest : Bytes)
    → v < 2 ^ 64
    → integer_digits neg pos (print_u64 v ++ b'e' ∷ rest)
      ≡ (if neg then (2 ^ 64 - v) % 2 ^ 64 else v, at (pos + length (print_u64 v) + 1) rest)
unfolding integer_digits integer_close
integer_digits-print neg v pos rest h = rw (scan-print_u64 v pos (b'e' ∷ rest) h refl)

integer_sign_plain :
    (pos : ℕ) (xs tail : Bytes)
    → (c : ℕ) × (r : Bytes) × (xs ≡ c ∷ r) × (is_digit c ≡ true)
    → integer_sign pos (xs ++ tail) ≡ integer_digits false pos (xs ++ tail)
unfolding integer_sign
integer_sign_plain pos xs tail (c, r, e, d) =
    let head : (c == b'-') ≡ false = ground arith in rw (e, head)

-- A printed integer is read back, the sign included.
pub parse_integer-print :
    (v pos : ℕ) (rest : Bytes)
    → v < 2 ^ 64
    → parse_integer (at pos (b'i' ∷ (print_i64 v ++ b'e' ∷ rest)))
      ≡ (v, at (pos + length (print_i64 v) + 2) rest)
unfolding parse_integer parse_advance print_i64
parse_integer-print v pos rest h = elim (Bool-cases (ltb v (2 ^ 63))) [
  | inl positive ↦
      let k : pos + 1 + length (print_u64 v) + 1 ≡ pos + length (print_u64 v) + 2 = omega arith in
      rw positive (
        integer_sign_plain (pos + 1) (print_u64 v) (b'e' ∷ rest) (print_u64_head v)
        ∙ integer_digits-print false v (pos + 1) rest h
        ∙ ap (λ p. (v, at p rest)) k)
  | inr negative ↦
      let w = 2 ^ 64 - v in
      let a : (2 ^ 64 - w) % 2 ^ 64 ≡ v = ground arith in
      let k : pos + 1 + 1 + length (print_u64 w) + 1 ≡ pos + suc (length (print_u64 w)) + 2 =
        omega arith in
      rw negative (
        integer_digits-print true w (pos + 1 + 1) rest (ground arith)
        ∙ ap₂ (λ n p. (n, at p rest)) a k)
]

module _ (malloc : ℕ → Bool) (grants : Grants malloc) where
  string_copy-append :
      (s rest : Bytes) (pos : ℕ)
      → pos + length (s ++ rest) < 2 ^ 58
      → string_copy malloc (length s) pos (s ++ rest) ≡ ok (s, at (pos + length s) rest)
  unfolding string_copy
  string_copy-append s rest pos small =
      let l = length-append s rest in
      let inside : ltb (pos + length (s ++ rest)) ((pos + length s) % 2 ^ 64) ≡ false =
        ground arith in
      let granted : malloc (length s) ≡ true = grants (length s) (omega arith) in
      let fits : leb (length s) (length (s ++ rest)) ≡ true = ground arith in
      rw (inside, granted, fits, take-append_length s rest, drop-append_length s rest)

  pub parse_string-emit :
      (s rest : Bytes) (pos : ℕ)
      → pos + length (emit_string s ++ rest) < 2 ^ 58
      → parse_string malloc (at pos (emit_string s ++ rest))
        ≡ ok (s, at (pos + length (emit_string s)) rest)
  unfolding parse_string string_colon
  parse_string-emit s rest pos small =
      let p = print_u64 (length s) in
      let l = length-append p (b':' ∷ s) in
      let l' = length-append (emit_string s) rest in
      let ls = length-append s rest in
      let k : pos + length p + 1 + length s ≡ pos + length (emit_string s) = omega (arith, l) in
      rw
        (
          append_assoc p (b':' ∷ s) rest,
          scan-print_u64 (length s) pos (b':' ∷ s ++ rest) (omega (arith, l, l', ls)) refl,
        )
        (string_copy-append s rest (pos + length p + 1) (omega (arith, l, l', ls))
          ∙ ap (λ q. ok (s, at q rest)) k)
