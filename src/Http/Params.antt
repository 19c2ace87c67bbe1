-- ===== src/Http/Params.antt =====
-- src/http_server.c, http_get_param. A query is its bytes without the closing zero.
use ps5torrent.Base.{
  ℕ, suc, ◌+◌, ◌<◌, ◌^◌, ◌≡◌, refl, ap, sym, ◌∙◌, ◌++◌, Bool, true, false, ◌&&◌, Option, none, some,
  List, [], ◌∷◌, Bytes, length, take, drop, ◌==◌, if◌then◌else◌, if_cases, bytes_eq, bytes_eq→eq,
  All, append_assoc, take_over, length-append, Bool-cases, inl, inr, arith,
}
use ps5torrent.Base.Signed.{sub64}
use ps5torrent.Net.Url.{
  IsChar, unreserved, net_url_encode, http_url_decode, http_url_decode-net_url_encode,
}

-- `strncmp(p, key, key_len) == 0 && p[key_len] == '='`.
unfoldable pub has_key : Bytes → Bytes → Bool
has_key [] [] = false
has_key [] (c ∷ r) = c == b'='
has_key (a ∷ key) [] = false
has_key (a ∷ key) (c ∷ r) = a == c && has_key key r

-- The bytes in front of the next `&`.
unfoldable pub until_next : Bytes → Bytes
until_next [] = []
until_next (c ∷ r) = let rest = until_next r in if c == b'&' then [] else c ∷ rest

-- The value at `p`, cut at `val_len - 1` bytes and decoded.
unfoldable pub value_at : ℕ → Bytes → Bytes
unfolding until_next http_url_decode
value_at val_len p = http_url_decode (take (sub64 val_len 1) (until_next p))

-- The loops over the query: `at_param` tells whether the pointer is where a parameter may begin, as
-- it is not while the code skips to the next one.
unfoldable pub params_from : Bytes → ℕ → Bool → Bytes → Option Bytes
unfolding has_key value_at
params_from key val_len at_param [] = none
params_from key val_len at_param (c ∷ r) =
    let again = params_from key val_len true r in
    let skipped = params_from key val_len false r in
    if at_param && has_key key (c ∷ r)
    then some (value_at val_len (drop (length key + 1) (c ∷ r)))
    else if c == b'&'
    then again
    else skipped

-- http_get_param with a query, a key and a value that are not null.
unfoldable pub http_get_param : Bytes → Bytes → ℕ → Option Bytes
unfolding params_from
http_get_param [] key val_len = none
http_get_param (c ∷ r) key val_len =
    if c == b'&' then params_from key val_len true r else params_from key val_len true (c ∷ r)

-- A query that a client builds: the parameters with encoded values, `&` between them.
abbrev pub more_params : List (Bytes × Bytes) → Bytes
more_params [] = []
more_params ((k, v) ∷ ps) = b'&' ∷ k ++ (b'=' ∷ net_url_encode v ++ more_params ps)

abbrev pub query_of : List (Bytes × Bytes) → Bytes
query_of ps = drop 1 (more_params ps)

abbrev pub first_value : Bytes → List (Bytes × Bytes) → Option Bytes
first_value key [] = none
first_value key ((k, v) ∷ ps) = if bytes_eq key k then some v else first_value key ps

-- A key is a C string and has no `&` and no `=`.
abbrev pub IsKey : Bytes → Type 0
IsKey k = All (λ c. ((c == b'&') ≡ false) × ((c == b'=') ≡ false) × IsChar c) k

abbrev pub IsClean : Bytes → Type 0
IsClean s = All (λ c. (c == b'&') ≡ false) s

IsClean-net_url_encode : (s : Bytes) → IsClean (net_url_encode s)
unfolding net_url_encode
IsClean-net_url_encode [] = tt
IsClean-net_url_encode (c ∷ r) =
    if_cases IsClean (unreserved c) (λ e. (ground arith, IsClean-net_url_encode r))
      (λ _. (ground arith, (ground arith, (ground arith, IsClean-net_url_encode r))))

has_key_lem : (key k t : Bytes) → IsKey key → IsKey k → has_key key (k ++ b'=' ∷ t) ≡ bytes_eq key k
unfolding has_key
has_key_lem [] [] t h g = refl
has_key_lem [] (c ∷ k) t h g = g.0.1
has_key_lem (a ∷ key) [] t h g = rw (h.0.1) refl
has_key_lem (a ∷ key) (c ∷ k) t h g = ap (λ b. (a == c) && b) (has_key_lem key k t h.1 g.1)

params_from-skip :
    (key : Bytes) (n : ℕ) (s rest : Bytes)
    → IsClean s
    → params_from key n false (s ++ rest) ≡ params_from key n false rest
unfolding params_from
params_from-skip key n [] rest h = refl
params_from-skip key n (c ∷ s) rest h = rw h.0 (params_from-skip key n s rest h.1)

until_next-more :
    (s : Bytes) (ps : List (Bytes × Bytes)) → IsClean s → until_next (s ++ more_params ps) ≡ s
unfolding until_next
until_next-more [] [] h = refl
until_next-more [] ((k, v) ∷ ps) h = refl
until_next-more (c ∷ s) ps h = rw h.0 (ap (λ t. c ∷ t) (until_next-more s ps h.1))

IsKey-IsClean : (k t : Bytes) → IsKey k → IsClean t → IsClean (k ++ b'=' ∷ t)
IsKey-IsClean [] t h g = (refl, g)
IsKey-IsClean (c ∷ k) t h g = (h.0.0, IsKey-IsClean k t h.1 g)

-- A parameter with another key is skipped.
params_from_other :
    (key : Bytes) (n : ℕ) (s rest : Bytes)
    → IsClean s
    → 0 < length s
    → has_key key (s ++ rest) ≡ false
    → params_from key n true (s ++ rest) ≡ params_from key n false rest
unfolding params_from
params_from_other key n [] rest h l e = absurd (omega (arith, l))
params_from_other key n (c ∷ s) rest h l e = rw (e, h.0) (params_from-skip key n s rest h.1)

params_from_this :
    (key : Bytes) (n : ℕ) (p : Bytes)
    → 0 < length p
    → has_key key p ≡ true
    → params_from key n true p ≡ some (value_at n (drop (length key + 1) p))
unfolding params_from
params_from_this key n [] l e = absurd (omega (arith, l))
params_from_this key n (c ∷ p) l e = rw e refl

drop-key : (k t : Bytes) → drop (length k + 1) (k ++ b'=' ∷ t) ≡ t
drop-key [] t = refl
drop-key (c ∷ k) t =
    let e : suc (length k) + 1 ≡ suc (length k + 1) = omega arith in
    ap (λ n. drop n (c ∷ k ++ b'=' ∷ t)) e ∙ drop-key k t

-- The length of an encoded value leaves room for the closing zero.
abbrev pub IsParam : ℕ → Bytes × Bytes → Type 0
IsParam val_len (k, v) = IsKey k × All IsChar v × (length (net_url_encode v) < val_len)

value_at_lem :
    (n : ℕ) (v : Bytes) (ps : List (Bytes × Bytes))
    → n < 2 ^ 64
    → All IsChar v
    → length (net_url_encode v) < n
    → value_at n (net_url_encode v ++ more_params ps) ≡ v
unfolding value_at
value_at_lem n v ps small h l =
    let e = until_next-more (net_url_encode v) ps (IsClean-net_url_encode v) in
    let whole = take_over (sub64 n 1) (net_url_encode v) (omega arith) in
    ap (λ s. http_url_decode (take (sub64 n 1) s)) e
    ∙ (ap http_url_decode whole ∙ http_url_decode-net_url_encode v h)

nothing : (key : Bytes) (n : ℕ) → http_get_param [] key n ≡ none
unfolding http_get_param
nothing key n = refl

at_first :
    (key : Bytes) (n c : ℕ) (r : Bytes)
    → (c == b'&') ≡ false
    → http_get_param (c ∷ r) key n ≡ params_from key n true (c ∷ r)
unfolding http_get_param
at_first key n c r h =
    if_cases (λ (o : Option Bytes). o ≡ params_from key n true (c ∷ r)) (c == b'&') (λ e. cc)
      (λ _. refl)

module _ (key : Bytes) (n : ℕ) (small : n < 2 ^ 64) (is_key : IsKey key) where
  -- At a parameter.
  params_from-param :
      (k v : Bytes) (ps : List (Bytes × Bytes))
      → IsParam n (k, v)
      → params_from key n false (more_params ps) ≡ first_value key ps
      → params_from key n true (k ++ (b'=' ∷ net_url_encode v ++ more_params ps))
        ≡ first_value key ((k, v) ∷ ps)
  params_from-param k v ps (names, bytes, room) rest =
      let t = net_url_encode v ++ more_params ps in
      let keyed = has_key_lem key k t is_key names in
      let some_left : 0 < length (k ++ b'=' ∷ t) = omega (arith, length-append k (b'=' ∷ t)) in
      elim (Bool-cases (bytes_eq key k)) [
        | inl e ↦
            let same : drop (length key + 1) (k ++ b'=' ∷ t) ≡ t =
              ap (λ s. drop (length s + 1) (k ++ b'=' ∷ t)) (bytes_eq→eq key k e) ∙ drop-key k t in
            params_from_this key n (k ++ b'=' ∷ t) some_left (keyed ∙ e)
            ∙ (ap (λ p. some (value_at n p)) same
                ∙ (ap some (value_at_lem n v ps small bytes room) ∙ rw e refl))
        | inr e ↦
            let parts = append_assoc k (b'=' ∷ net_url_encode v) (more_params ps) in
            let clean = IsKey-IsClean k (net_url_encode v) names (IsClean-net_url_encode v) in
            ap (params_from key n true) (sym parts)
            ∙ (params_from_other key n (k ++ b'=' ∷ net_url_encode v) (more_params ps) clean
                  (omega (arith, length-append k (b'=' ∷ net_url_encode v)))
                  (ap (has_key key) parts ∙ (keyed ∙ e))
                ∙ (rest ∙ rw e refl))
      ]

  params_from-more :
      (ps : List (Bytes × Bytes))
      → All (IsParam n) ps
      → params_from key n false (more_params ps) ≡ first_value key ps
  unfolding params_from
  params_from-more [] h = refl
  params_from-more ((k, v) ∷ ps) h = params_from-param k v ps h.0 (params_from-more ps h.1)

  -- http_get_param reads back a query that a client built: it gives the decoded value of the first
  -- parameter whose key is the whole of the key, and nothing where there is none; keys and values are
  -- C strings, so no byte of them is zero, keys have no `&` and no `=`, and each encoded value leaves
  -- room for the closing zero.
  pub http_get_param-query_of :
      (ps : List (Bytes × Bytes))
      → All (IsParam n) ps
      → http_get_param (query_of ps) key n ≡ first_value key ps
  http_get_param-query_of [] h = nothing key n
  http_get_param-query_of (([], v) ∷ ps) h =
      at_first key n b'=' (net_url_encode v ++ more_params ps) refl
      ∙ params_from-param [] v ps h.0 (params_from-more ps h.1)
  http_get_param-query_of ((c ∷ k, v) ∷ ps) h =
      at_first key n c (k ++ (b'=' ∷ net_url_encode v ++ more_params ps)) h.0.0.0.0
      ∙ params_from-param (c ∷ k) v ps h.0 (params_from-more ps h.1)
