-- ===== src/Net/Url.antt =====
-- src/net_utils.c, net_url_encode, and src/http_server.c, http_url_decode. A C string is its bytes
-- without the closing zero.
use ps5torrent.Base.{
  ℕ, ◌+◌, ◌-◌, ◌*◌, ◌/◌, ◌%◌, ◌<◌, ◌≡◌, refl, ap, ap₂, ◌∙◌, lt→ltb, Bool, true, false, not, ◌&&◌,
  ◌||◌, [], ◌∷◌, Bytes, ltb, leb, ◌==◌, if◌then◌else◌, All, arith, Bool-cases, inl, inr,
}

abbrev pub unreserved : ℕ → Bool
unreserved c =
    (leb b'0' c && leb c b'9')
    || (leb b'a' c && leb c b'z')
    || (leb b'A' c && leb c b'Z')
    || c == b'.'
    || c == b'-'
    || c == b'_'
    || c == b'~'

-- `hex[d]` for a digit below 16.
abbrev pub hex : ℕ → ℕ
hex d = if ltb d 10 then 48 + d else 87 + d

unfoldable pub net_url_encode : Bytes → Bytes
net_url_encode [] = []
net_url_encode (c ∷ r) =
    let rest = net_url_encode r in
    if unreserved c then c ∷ rest else b'%' ∷ hex (c / 16) ∷ hex (c % 16) ∷ rest

-- The value of a hexadecimal digit; 16 stands for no digit.
abbrev pub digit : ℕ → ℕ
digit c =
    if leb b'0' c && leb c b'9'
    then c - 48
    else if leb b'a' c && leb c b'f'
    then c - 87
    else if leb b'A' c && leb c b'F'
    then c - 55
    else 16

-- `(char)strtol(hex, NULL, 16)` of two characters: white space or a sign may stand first, and what
-- is no digit ends the number.
abbrev pub strtol16 : ℕ → ℕ → ℕ
strtol16 a b =
    if ltb (digit a) 16
    then if ltb (digit b) 16 then digit a * 16 + digit b else digit a
    else if not (ltb (digit b) 16)
    then 0
    else if a == b'-'
    then (256 - digit b) % 256
    else if a == b'+' || a == 32 || (leb 9 a && leb a 13)
    then digit b
    else 0

abbrev pub plus_to_space : ℕ → ℕ
plus_to_space c = if c == b'+' then 32 else c

-- A byte that is written into a C string: a zero ends it, whatever is written behind it.
abbrev pub put_char : ℕ → Bytes → Bytes
put_char c rest = if c == 0 then [] else c ∷ rest

-- http_url_decode, and what the string is afterwards: the caller has no length of it, so a decoded
-- zero ends it.
unfoldable pub http_url_decode : Bytes → Bytes
http_url_decode [] = []
http_url_decode (c ∷ []) = plus_to_space c ∷ []
http_url_decode (c ∷ a ∷ []) = plus_to_space c ∷ http_url_decode (a ∷ [])
http_url_decode (c ∷ a ∷ b ∷ r) =
    let escaped = http_url_decode r in
    let next = http_url_decode (a ∷ b ∷ r) in
    if c == b'%' then put_char (strtol16 a b) escaped else plus_to_space c ∷ next

pub digit-hex : (d : ℕ) → d < 16 → digit (hex d) ≡ d
digit-hex d h = ground arith

pub two_digits :
    (a b : ℕ)
    → ltb (digit a) 16 ≡ true
    → ltb (digit b) 16 ≡ true
    → strtol16 a b ≡ digit a * 16 + digit b
two_digits a b ha hb = rw (ha, hb) refl

not_plus : (c : ℕ) → unreserved c ≡ true → plus_to_space c ≡ c
not_plus c h = ground arith

not_percent : (c : ℕ) → unreserved c ≡ true → (c == b'%') ≡ false
not_percent c h = ground arith

strtol16-hex : (c : ℕ) → c < 256 → strtol16 (hex (c / 16)) (hex (c % 16)) ≡ c
strtol16-hex c h =
    let hi = digit-hex (c / 16) (omega (arith, h)) in
    let lo = digit-hex (c % 16) (omega arith) in
    let a : ltb (c / 16) 16 ≡ true = lt→ltb (c / 16) 16 (omega (arith, h)) in
    let b : ltb (c % 16) 16 ≡ true = lt→ltb (c % 16) 16 (omega arith) in
    two_digits (hex (c / 16)) (hex (c % 16)) (rw hi a) (rw lo b)
    ∙ (ap₂ (λ x y. x * 16 + y) hi lo ∙ (let e : c / 16 * 16 + c % 16 ≡ c = omega arith in e))

-- A character that stands for itself.
decode_plain :
    (c : ℕ) (r : Bytes) → unreserved c ≡ true → http_url_decode (c ∷ r) ≡ c ∷ http_url_decode r
unfolding http_url_decode
decode_plain c [] h = ap (λ x. x ∷ []) (not_plus c h)
decode_plain c (a ∷ []) h = ap (λ x. x ∷ http_url_decode (a ∷ [])) (not_plus c h)
decode_plain c (a ∷ b ∷ r) h =
    let e = not_plus c h in rw (not_percent c h) (ap (λ x. x ∷ http_url_decode (a ∷ b ∷ r)) e)

pub decode_empty : http_url_decode [] ≡ []
unfolding http_url_decode
decode_empty = refl

pub decode_escape :
    (a b c : ℕ) (r : Bytes)
    → strtol16 a b ≡ c
    → 0 < c
    → http_url_decode (b'%' ∷ a ∷ b ∷ r) ≡ c ∷ http_url_decode r
unfolding http_url_decode
decode_escape a b c r e h =
    let n : (c == 0) ≡ false = ground arith in
    ap (λ x. put_char x (http_url_decode r)) e ∙ rw n refl

-- A byte of a C string.
abbrev pub IsChar : ℕ → Type 0
IsChar c = (0 < c) × (c < 256)

-- Decoding an encoded text gives the text, for the bytes of a C string, none of which is zero.
pub http_url_decode-net_url_encode :
    (text : Bytes) → All IsChar text → http_url_decode (net_url_encode text) ≡ text
unfolding net_url_encode
http_url_decode-net_url_encode [] h = decode_empty
http_url_decode-net_url_encode (c ∷ r) ((pos, small), hs) = elim (Bool-cases (unreserved c)) [
  | inl e ↦
      rw e (
        decode_plain c (net_url_encode r) e ∙ ap (λ t. c ∷ t) (http_url_decode-net_url_encode r hs))
  | inr e ↦ rw e (
      decode_escape (hex (c / 16)) (hex (c % 16)) c (net_url_encode r) (strtol16-hex c small) pos
      ∙ ap (λ t. c ∷ t) (http_url_decode-net_url_encode r hs))
]
