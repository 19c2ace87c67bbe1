-- ===== src/WebSeed/Url.antt =====
-- src/web_seed.c, append_url_path: a path behind a seed's address, with its bytes escaped.
use ps5torrent.Base.{
  ℕ, ◌+◌, ◌*◌, ◌/◌, ◌%◌, ◌<◌, ◌≤◌, ◌≡◌, refl, ap, ap₂, sym, ◌∙◌, Bool, true, false, ◌&&◌, ◌||◌,
  Option, none, some, [], ◌∷◌, ◌++◌, Bytes, length, length-append, append_assoc, append-nil, ltb,
  leb, lt→ltb, ◌==◌, if◌then◌else◌, All, arith, Bool-cases, inl, inr, if_cases,
}
use ps5torrent.Net.Url.{
  IsChar, http_url_decode, plus_to_space, digit, strtol16, two_digits, decode_empty, decode_escape,
}

-- The bytes that stand for themselves.
abbrev pub is_plain : ℕ → Bool
is_plain c =
    (leb b'A' c && leb c b'Z')
    || (leb b'a' c && leb c b'z')
    || (leb b'0' c && leb c b'9')
    || c == b'/'
    || c == b'-'
    || c == b'_'
    || c == b'.'
    || c == b'~'

-- `hex[d]`, with capital letters.
abbrev pub upper_hex : ℕ → ℕ
upper_hex d = if ltb d 10 then 48 + d else 55 + d

-- The loop, with the text in `out` so far; `none` where it does not fit `out_size` bytes.
unfoldable pub append_escaped : ℕ → Bytes → Bytes → Option Bytes
append_escaped out_size out [] = some out
append_escaped out_size out (c ∷ r) =
    let plain = append_escaped out_size (out ++ c ∷ []) r in
    let escaped =
      append_escaped out_size (out ++ b'%' ∷ upper_hex (c / 16) ∷ upper_hex (c % 16) ∷ []) r in
    if is_plain c
    then if leb out_size (length out + 1) then none else plain
    else if leb out_size (length out + 3)
    then none
    else escaped

-- `(base[strlen(base) - 1] == '/') ? "" : "/"`, for a base that is not empty.
abbrev pub ends_in_slash : Bytes → Bool
ends_in_slash [] = false
ends_in_slash (c ∷ []) = c == b'/'
ends_in_slash (c ∷ d ∷ r) = ends_in_slash (d ∷ r)

abbrev pub with_slash : Bytes → Bytes
with_slash base = if ends_in_slash base then base else base ++ b'/' ∷ []

unfoldable pub append_url_path : ℕ → Bytes → Bytes → Option Bytes
unfolding append_escaped
append_url_path out_size base path =
    let start = with_slash base in
    if leb out_size (length start) then none else append_escaped out_size start path

-- What the loop writes, with no bound.
unfoldable pub escape_path : Bytes → Bytes
escape_path [] = []
escape_path (c ∷ r) =
    let rest = escape_path r in
    if is_plain c then c ∷ rest else b'%' ∷ upper_hex (c / 16) ∷ upper_hex (c % 16) ∷ rest

abbrev fitting : ℕ → Bytes → Option Bytes
fitting size text = if ltb (length text) size then some text else none

too_long : (size : ℕ) (text : Bytes) → size ≤ length text → fitting size text ≡ none
too_long size text h = ground arith

one_more :
    (size n : ℕ) (out part rest : Bytes)
    → length part ≡ n
    → leb size (length out + n) ≡ true
    → none ≡ fitting size (out ++ (part ++ rest))
one_more size n out part rest l h = sym (
    too_long size (out ++ (part ++ rest))
      (let k = length-append out (part ++ rest) in let m = length-append part rest in ground arith))

append_escaped_lem :
    (size : ℕ) (out path : Bytes)
    → length out < size
    → append_escaped size out path ≡ fitting size (out ++ escape_path path)
unfolding append_escaped escape_path
append_escaped_lem size out [] h = sym (rw (append-nil out, lt→ltb (length out) size h) refl)
append_escaped_lem size out (c ∷ r) h = elim (Bool-cases (is_plain c)) [
  | inl e ↦ rw e (
      if_cases (λ (o : Option Bytes). o ≡ fitting size (out ++ (c ∷ escape_path r)))
        (leb size (length out + 1)) (one_more size 1 out (c ∷ []) (escape_path r) refl)
        (λ f.
          append_escaped_lem size (out ++ c ∷ []) r
            (let k = length-append out (c ∷ []) in ground arith)
          ∙ ap (fitting size) (append_assoc out (c ∷ []) (escape_path r))))
  | inr e ↦ rw e (
      let part = b'%' ∷ upper_hex (c / 16) ∷ upper_hex (c % 16) ∷ [] in
      if_cases (λ (o : Option Bytes). o ≡ fitting size (out ++ (part ++ escape_path r)))
        (leb size (length out + 3)) (one_more size 3 out part (escape_path r) refl)
        (λ f.
          append_escaped_lem size (out ++ part) r (let k = length-append out part in ground arith)
          ∙ ap (fitting size) (append_assoc out part (escape_path r))))
]

decode_char :
    (c : ℕ) (r : Bytes) → is_plain c ≡ true → http_url_decode (c ∷ r) ≡ c ∷ http_url_decode r
unfolding http_url_decode
decode_char c [] h = ap (λ x. x ∷ []) (no_plus c h)
  where
    no_plus : (c : ℕ) → is_plain c ≡ true → plus_to_space c ≡ c
    no_plus c h = ground arith
decode_char c (a ∷ []) h =
    ap (λ x. x ∷ http_url_decode (a ∷ [])) (let e : plus_to_space c ≡ c = ground arith in e)
decode_char c (a ∷ b ∷ r) h =
    let e : plus_to_space c ≡ c = ground arith in
    let n : (c == b'%') ≡ false = ground arith in rw n (ap (λ x. x ∷ http_url_decode (a ∷ b ∷ r)) e)

digit-upper_hex : (d : ℕ) → d < 16 → digit (upper_hex d) ≡ d
digit-upper_hex d h = ground arith

strtol16-upper_hex : (c : ℕ) → c < 256 → strtol16 (upper_hex (c / 16)) (upper_hex (c % 16)) ≡ c
strtol16-upper_hex c h =
    let hi = digit-upper_hex (c / 16) (omega (arith, h)) in
    let lo = digit-upper_hex (c % 16) (omega arith) in
    let a : ltb (c / 16) 16 ≡ true = lt→ltb (c / 16) 16 (omega (arith, h)) in
    let b : ltb (c % 16) 16 ≡ true = lt→ltb (c % 16) 16 (omega arith) in
    two_digits (upper_hex (c / 16)) (upper_hex (c % 16)) (rw hi a) (rw lo b)
    ∙ (ap₂ (λ x y. x * 16 + y) hi lo ∙ (let e : c / 16 * 16 + c % 16 ≡ c = omega arith in e))

http_url_decode-escape_path :
    (path : Bytes) → All IsChar path → http_url_decode (escape_path path) ≡ path
unfolding escape_path
http_url_decode-escape_path [] h = decode_empty
http_url_decode-escape_path (c ∷ r) ((pos, small), hs) = elim (Bool-cases (is_plain c)) [
  | inl e ↦
      rw e (decode_char c (escape_path r) e ∙ ap (λ t. c ∷ t) (http_url_decode-escape_path r hs))
  | inr e ↦ rw e (
      decode_escape (upper_hex (c / 16)) (upper_hex (c % 16)) c (escape_path r)
        (strtol16-upper_hex c small) pos
      ∙ ap (λ t. c ∷ t) (http_url_decode-escape_path r hs))
]

-- Printable ASCII without the space.
abbrev pub IsGraphic : ℕ → Type 0
IsGraphic c = (32 < c) × (c < 127)

IsGraphic-is_plain : (c : ℕ) → is_plain c ≡ true → IsGraphic c
IsGraphic-is_plain c e = (ground arith, ground arith)

IsGraphic-upper_hex : (d : ℕ) → d < 16 → IsGraphic (upper_hex d)
IsGraphic-upper_hex d h = (ground arith, ground arith)

IsGraphic-escape_path : (path : Bytes) → All IsChar path → All IsGraphic (escape_path path)
unfolding escape_path
IsGraphic-escape_path [] h = tt
IsGraphic-escape_path (c ∷ r) (h, hs) =
    if_cases (All IsGraphic) (is_plain c)
      (λ e. (IsGraphic-is_plain c e, IsGraphic-escape_path r hs))
      (λ _. (
        omega arith,
        (
          IsGraphic-upper_hex (c / 16) (omega (arith, h.1)),
          (IsGraphic-upper_hex (c % 16) (omega arith), IsGraphic-escape_path r hs),
        ),
      ))

-- For a base and a path that are C strings, the base not empty, the path has an escaped text, of
-- printable characters without a space, that decodes to the path, and append_url_path gives, for each
-- size of the buffer, the base, its slash and this one text where they fit the buffer with a closing
-- zero, and fails where they do not.
pub append_url_path_lem :
    (base path : Bytes)
    → 0 < length base
    → All IsChar base
    → All IsChar path
    → (escaped : Bytes) × (http_url_decode escaped ≡ path)
      × All IsGraphic escaped
      × ((size : ℕ)
          → append_url_path size base path ≡ (
              if ltb (length (with_slash base ++ escaped)) size
              then some (with_slash base ++ escaped)
              else none))
unfolding append_url_path
append_url_path_lem base path some_base base_chars h = (
  escape_path path,
  http_url_decode-escape_path path h,
  IsGraphic-escape_path path h,
  λ size.
      if_cases (λ (o : Option Bytes). o ≡ fitting size (with_slash base ++ escape_path path))
        (leb size (length (with_slash base)))
        (λ e. sym (
          too_long size (with_slash base ++ escape_path path)
            (let k = length-append (with_slash base) (escape_path path) in ground arith)))
        (λ e. append_escaped_lem size (with_slash base) path (ground arith)),
)
