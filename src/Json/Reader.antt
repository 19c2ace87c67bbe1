-- ===== src/Json/Reader.antt =====
-- What a JSON reader makes of a text behind an opening quote, and that it reads what escape of
-- src/console_files.c wrote.
use ps5torrent.Base.{
  ℕ, zero, suc, ◌+◌, ◌*◌, ◌/◌, ◌%◌, ◌<◌, ◌≤◌, ◌≡◌, refl, ap, ◌∙◌, false, ◌||◌, Option, some, none,
  [], ◌∷◌, ◌++◌, Bytes, length, length-append, append_assoc, append-nil, ltb, ◌==◌, if◌then◌else◌,
  All, arith, Bool-cases, inl, inr,
}
use ps5torrent.Net.Url.{digit, digit-hex}
use ps5torrent.Json.Escape.{is_special, escaped, escape}

-- Where the reader is: in the text, behind a backslash, or with digits of \u left and their value.
pub data Mode : Type 0 where
  plain slash : Mode
  digits : ℕ → ℕ → Mode

-- The byte of a short escape, 256 where there is none.
abbrev pub short_escape : ℕ → ℕ
short_escape c =
    if c == b'"' || c == 92 || c == b'/'
    then c
    else if c == b'b'
    then 8
    else if c == b'f'
    then 12
    else if c == b'n'
    then 10
    else if c == b'r'
    then 13
    else if c == b't'
    then 9
    else 256

abbrev pub with_byte : ℕ → Option (Bytes × Bytes) → Option (Bytes × Bytes)
with_byte c none = none
with_byte c (some (text, rest)) = some (c ∷ text, rest)

-- The text up to the closing quote, and what is behind it.
unfoldable pub read_string : Mode → Bytes → Option (Bytes × Bytes)
read_string mode [] = none
read_string plain (c ∷ r) =
    let escaped_ = read_string slash r in
    let next = read_string plain r in
    if c == b'"'
    then some ([], r)
    else if c == 92
    then escaped_
    else if ltb c 32
    then none
    else with_byte c next
read_string slash (c ∷ r) =
    let unicode = read_string (digits 3 0) r in
    let next = read_string plain r in
    if c == b'u'
    then unicode
    else if short_escape c == 256
    then none
    else with_byte (short_escape c) next
read_string (digits zero v) (c ∷ r) =
    let next = read_string plain r in
    if digit c == 16 then none else with_byte (v * 16 + digit c) next
read_string (digits (suc n) v) (c ∷ r) =
    let next = read_string (digits n (v * 16 + digit c)) r in if digit c == 16 then none else next

read_escaped :
    (c : ℕ) (r : Bytes)
    → c < 256
    → read_string plain (escaped c ++ r) ≡ with_byte c (read_string plain r)
unfolding read_string escaped
read_escaped c r h = elim (Bool-cases (is_special c)) [
  | inl e ↦
      let a : short_escape c ≡ c = ground arith in
      let u : (c == b'u') ≡ false = ground arith in
      let n : (c == 256) ≡ false = ground arith in rw (e, u, a, n) refl
  | inr e ↦ elim (Bool-cases (ltb c 32)) [
    | inl low ↦
        let hi = digit-hex (c / 16) (omega (arith, h)) in
        let lo = digit-hex (c % 16) (omega arith) in
        let a : (c / 16 == 16) ≡ false = ground (arith, h) in
        let b : (c % 16 == 16) ≡ false = ground arith in
        let v : (0 + c / 16) * 16 + c % 16 ≡ c = omega arith in
        rw (e, low, hi, lo, a, b) (ap (λ k. with_byte k (read_string plain r)) v)
    | inr high ↦
        let q : (c == b'"') ≡ false = ground arith in
        let b : (c == 92) ≡ false = ground arith in rw (e, high, q, b, high) refl
  ]
]

with_bytes : Bytes → Option (Bytes × Bytes) → Option (Bytes × Bytes)
with_bytes [] o = o
with_bytes (c ∷ r) o = with_byte c (with_bytes r o)

with_bytes-some : (s t rest : Bytes) → with_bytes s (some (t, rest)) ≡ some (s ++ t, rest)
unfolding with_bytes
with_bytes-some [] t rest = refl
with_bytes-some (c ∷ r) t rest = ap (with_byte c) (with_bytes-some r t rest)

read_escape :
    (s rest : Bytes)
    → All (λ c. c < 256) s
    → read_string plain (escape s ++ rest) ≡ with_bytes s (read_string plain rest)
unfolding escape with_bytes
read_escape [] rest h = refl
read_escape (c ∷ r) rest (h, hs) =
    ap (read_string plain) (append_assoc (escaped c) (escape r) rest)
    ∙ (read_escaped c (escape r ++ rest) h ∙ ap (with_byte c) (read_escape r rest hs))

closing_quote : (rest : Bytes) → read_string plain (b'"' ∷ rest) ≡ some ([], rest)
unfolding read_string
closing_quote rest = refl

length-escaped : (c : ℕ) → length (escaped c) ≤ 6
unfolding escaped
length-escaped c = ground arith

length-escape : (s : Bytes) → length (escape s) ≤ 6 * length s
unfolding escape
length-escape [] = omega arith
length-escape (c ∷ r) =
    omega (arith, length-append (escaped c) (escape r), length-escaped c, length-escape r)

-- A reader of JSON finds in an escaped text, up to the quote behind it, the text itself, and nothing
-- ends the string before; the escaped text is at most six times as long.
pub read_string-escape :
    (s rest : Bytes)
    → All (λ c. c < 256) s
    → (read_string plain (escape s ++ b'"' ∷ rest) ≡ some (s, rest))
      × (length (escape s) ≤ 6 * length s)
read_string-escape s rest h = (
  read_escape s (b'"' ∷ rest) h
      ∙ (ap (with_bytes s) (closing_quote rest)
          ∙ (with_bytes-some s [] rest ∙ ap (λ t. some (t, rest)) (append-nil s))),
  length-escape s,
)
