-- ===== src/Base/Decimal.antt =====
-- Decimal print and read of machine words: snprintf's "%zu" and "%lld", and the digit loops of the
-- parsers. A uint64_t or int64_t is its bit pattern, below 2 ^ 64.
use Prim.Native.Nat.{ℕ, zero, suc, ◌+◌, ◌-◌, ◌*◌, ◌/◌, ◌%◌, ◌^◌, ◌≤◌, ◌<◌}
use mathlib.Core.Path.{◌≡◌, ◌∙◌, refl, ap₂}
use mathlib.Core.Logic.{inl, inr}
use mathlib.Core.Bool.{Bool, true, false, ◌&&◌}
use mathlib.Core.List.{[], ◌∷◌, ◌++◌}
use native.Mathlib.Omega.{arith}
use native.Mathlib.Nat.{pow-suc}
use ps5torrent.Base.Tests.{ltb, leb, ◌==◌, if◌then◌else◌, Bool-cases}
use ps5torrent.Base.Lists.{Bytes, length}

abbrev pub is_digit : ℕ → Bool
is_digit c = leb b'0' c && leb c b'9'

-- The digits of `n` before `out`, with fuel for each digit.
pub print_digits : ℕ → ℕ → Bytes → Bytes
print_digits zero n out = out
print_digits (suc f) n out =
    let c = b'0' + n % 10 in
    let rest = print_digits f (n / 10) (c ∷ out) in if n / 10 == 0 then c ∷ out else rest

-- A 64-bit number has at most twenty digits.
unfoldable pub print_u64 : ℕ → Bytes
unfolding print_digits
print_u64 n = print_digits 20 n []

unfoldable pub print_i64 : ℕ → Bytes
unfolding print_u64
print_i64 n = if ltb n (2 ^ 63) then print_u64 n else b'-' ∷ print_u64 (2 ^ 64 - n)

-- `val = val * 10 + digit` over a run of digits, in 64 bits: the value, where it stands, the rest.
pub record Scan : Type 0 where
  pub val : ℕ
  pub pos : ℕ
  pub rest : Bytes

unfoldable pub scan_digits : ℕ → ℕ → Bytes → Scan
scan_digits val pos [] = record { val = val; pos = pos; rest = [] }
scan_digits val pos (c ∷ r) =
    let more = scan_digits ((val * 10 + (c - b'0')) % 2 ^ 64) (pos + 1) r in
    if is_digit c then more else record { val = val; pos = pos; rest = c ∷ r }

-- Text that does not begin with a digit.
abbrev pub NoDigit : Bytes → Type 0
NoDigit [] = Unit
NoDigit (c ∷ r) = is_digit c ≡ false

pub scan_digits_stop :
    (val pos : ℕ) (r : Bytes)
    → NoDigit r
    → scan_digits val pos r ≡ record { val = val; pos = pos; rest = r }
unfolding scan_digits
scan_digits_stop val pos [] h = refl
scan_digits_stop val pos (c ∷ r) h = ground arith

scan_digit :
    (d val pos : ℕ) (r : Bytes)
    → d < 10
    → scan_digits val pos ((b'0' + d) ∷ r) ≡ scan_digits ((val * 10 + d) % 2 ^ 64) (pos + 1) r
unfolding scan_digits
scan_digit d val pos r h = ground arith

pub length-print_digits_le :
    (f n : ℕ) (out : Bytes) → length (print_digits f n out) ≤ f + length out
unfolding print_digits
length-print_digits_le zero n out = omega arith
length-print_digits_le (suc f) n out =
    ground (arith, length-print_digits_le f (n / 10) ((b'0' + n % 10) ∷ out))

length-print_digits_ge : (f n : ℕ) (out : Bytes) → length out ≤ length (print_digits f n out)
unfolding print_digits
length-print_digits_ge zero n out = omega arith
length-print_digits_ge (suc f) n out =
    ground (arith, length-print_digits_ge f (n / 10) ((b'0' + n % 10) ∷ out))

-- Reading the printed digits of `n` gives `n` and stands before what follows.
scan-print_digits :
    (f n pos : ℕ) (out tail : Bytes)
    → n < 2 ^ 64
    → n < 10 ^ f
    → scan_digits 0 pos (print_digits f n out ++ tail)
      ≡ scan_digits n (pos + (length (print_digits f n out) - length out)) (out ++ tail)
unfolding print_digits
scan-print_digits zero n pos out tail h b =
    let e : n ≡ 0 = omega arith in
    let k : pos + (length out - length out) ≡ pos = omega arith in rw (k, e)
scan-print_digits (suc f) n pos out tail h b = elim (Bool-cases (n / 10 == 0)) [
  | inl last ↦
      let e : (0 * 10 + n % 10) % 2 ^ 64 ≡ n = ground arith in
      let k : pos + (suc (length out) - length out) ≡ pos + 1 = omega arith in
      rw (last, k) (rw (scan_digit (n % 10) 0 pos (out ++ tail) (omega arith)) (rw e))
  | inr more ↦
      let c = b'0' + n % 10 in
      let l = length (print_digits f (n / 10) (c ∷ out)) in
      let e : (n / 10 * 10 + n % 10) % 2 ^ 64 ≡ n = omega arith in
      let k : pos + (l - suc (length out)) + 1 ≡ pos + (l - length out) =
        omega (arith, length-print_digits_ge f (n / 10) (c ∷ out)) in
      let b' : n / 10 < 10 ^ f = omega (arith, pow-suc 10 f) in
      rw more (
        scan-print_digits f (n / 10) pos (c ∷ out) tail (omega arith) b'
        ∙ scan_digit (n % 10) (n / 10) (pos + (l - suc (length out))) (out ++ tail) (omega arith)
        ∙ ap₂ (λ v q. scan_digits v q (out ++ tail)) e k)
]

pub length-print_u64_le : (n : ℕ) → length (print_u64 n) ≤ 20
unfolding print_u64
length-print_u64_le n = omega (arith, length-print_digits_le 20 n [])

-- The digit loops read back what was printed, in front of any text that does not go on with a digit.
pub scan-print_u64 :
    (n pos : ℕ) (tail : Bytes)
    → n < 2 ^ 64
    → NoDigit tail
    → scan_digits 0 pos (print_u64 n ++ tail)
      ≡ record { val = n; pos = pos + length (print_u64 n); rest = tail }
unfolding print_u64
scan-print_u64 n pos tail h stop =
    let k : pos + (length (print_digits 20 n []) - 0) ≡ pos + length (print_digits 20 n []) =
      omega arith in
    scan-print_digits 20 n pos [] tail h (omega arith) ∙ rw k (scan_digits_stop n _ tail stop)

print_digits_head :
    (f n : ℕ) (out : Bytes)
    → (c : ℕ) × (r : Bytes) × (print_digits (suc f) n out ≡ c ∷ r) × (is_digit c ≡ true)
unfolding print_digits
print_digits_head zero n out = elim (Bool-cases (n / 10 == 0)) [
  | inl last ↦ (b'0' + n % 10, out, rw last, ground arith)
  | inr more ↦ (b'0' + n % 10, out, rw more, ground arith)
]
print_digits_head (suc f) n out = elim (Bool-cases (n / 10 == 0)) [
  | inl last ↦ (b'0' + n % 10, out, rw last, ground arith)
  | inr more ↦
      let (c, r, e, d) = print_digits_head f (n / 10) ((b'0' + n % 10) ∷ out) in
      (c, r, rw more e, d)
]

-- A printed number begins with a digit.
pub print_u64_head : (n : ℕ) → (c : ℕ) × (r : Bytes) × (print_u64 n ≡ c ∷ r) × (is_digit c ≡ true)
unfolding print_u64
print_u64_head n = print_digits_head 19 n []
