-- ===== src/WebSeed/Http.antt =====
-- src/web_seed.c, parse_http_url and http_fetch_range. The network is a parameter: for a host, a
-- port and a request it gives the segments that recv will deliver, or nothing where resolving,
-- connecting or sending fails.
use ps5torrent.Base.{
  ℕ, zero, suc, ◌+◌, ◌-◌, ◌*◌, ◌%◌, ◌^◌, Bool, false, not, ◌&&◌, ◌||◌, Option, none, some, List, [],
  ◌∷◌, ◌++◌, Bytes, codes, length, take, drop, bytes_eq, ltb, leb, ◌==◌, if◌then◌else◌,
}
use mathlib.Core.Option
use ps5torrent.Base.Decimal.{is_digit, print_u64}
use ps5torrent.Base.Scan.{is_space, skip_spaces, digits_value}
use ps5torrent.Net.Receive.{stream}
use ps5torrent.Http.Search.{find_bytes}

pub record Address : Type 0 where
  pub host : Bytes
  pub port : ℕ
  pub path : Bytes

-- `strncmp(url, "http://", 7) == 0`.
abbrev pub is_http : Bytes → Bool
is_http url = bytes_eq (take 7 url) (codes "http://")

-- The loop over the digits of a port, an int: none where a byte is no digit.
unfoldable pub port_digits : ℕ → Bytes → Option ℕ
port_digits value [] = some value
port_digits value (c ∷ r) =
    let more = port_digits ((value * 10 + (c - b'0')) % 2 ^ 32) r in
    if is_digit c then more else none

-- The port of the text behind the colon.
unfoldable pub port_of : Bytes → Option ℕ
unfolding port_digits
port_of text = elim (port_digits 0 text) [
  | none ↦ none
  | some value ↦ if value == 0 || ltb 65535 value then none else some value
]

-- `host_len` bytes are the host.
unfoldable pub with_host : ℕ → Bytes → ℕ → Option ℕ → Bytes → Option Address
with_host host_size start host_len port path =
    if host_len == 0 || leb host_size host_len
    then none
    else Option.map (λ p. record { host = take host_len start; port = p; path = path }) port

unfoldable pub parse_http_url : ℕ → Bytes → Option Address
unfolding port_of with_host find_bytes
parse_http_url host_size url =
    let start = drop 7 url in
    if not (is_http url) then none else elim (find_bytes start (codes "/")) [
      | none ↦ none
      | some slash ↦ elim (find_bytes (take slash start) (codes ":")) [
        | none ↦ with_host host_size start slash (some 80) (drop slash start)
        | some colon ↦
            with_host host_size start colon (port_of (drop (colon + 1) (take slash start)))
              (drop slash start)
      ]
    ]

-- `%*s` behind the leading spaces: what follows the word.
unfoldable pub skip_word : Bytes → Bytes
skip_word [] = []
skip_word (c ∷ r) = let rest = skip_word r in if is_space c then c ∷ r else rest

abbrev pub unsigned : Bytes → Option ℕ
unfolding digits_value
unsigned [] = none
unsigned (c ∷ r) = if is_digit c then some (digits_value 0 (c ∷ r)) else none

-- The number that `%d` reads, where it is not negative: a negative one is no status that is used.
unfoldable pub number : Bytes → Option ℕ
unfolding digits_value
number [] = none
number (c ∷ r) = if c == b'+' then unsigned r else unsigned (c ∷ r)

-- `sscanf(header, "HTTP/%*s %d", &status)`.
unfoldable pub status_of : Bytes → Option ℕ
unfolding skip_spaces skip_word number
status_of header =
    let word = skip_spaces (drop 5 header) in
    if not (bytes_eq (take 5 header) (codes "HTTP/")) || length word == 0
    then none
    else number (skip_spaces (skip_word word))

abbrev pub header_size : ℕ
header_size = 8192

abbrev pub blank_line : Bytes
blank_line = 13 ∷ 10 ∷ 13 ∷ 10 ∷ []

-- The loop that reads the header byte by byte, up to the blank line; `room` is what is left of the
-- buffer. The result is the header and what follows it.
unfoldable pub read_header : ℕ → Bytes → Bytes → Option (Bytes × Bytes)
read_header zero header input = none
read_header (suc room) header [] = none
read_header (suc room) header (c ∷ input) =
    let header' = header ++ c ∷ [] in
    let more = read_header room header' input in
    if leb 4 (length header') && bytes_eq (drop (length header' - 4) header') blank_line
    then some (header', input)
    else more

-- `status == 206 || (status == 200 && start == 0)`.
abbrev pub usable : Option ℕ → ℕ → Bool
usable none start = false
usable (some status) start = status == 206 || (status == 200 && start == 0)

-- What is done with the response.
unfoldable pub range_body : Bytes → ℕ → ℕ → Option Bytes
unfolding read_header status_of
range_body response start len = elim (read_header header_size [] response) [
  | none ↦ none
  | some (header, body) ↦
      if leb header_size (length header) || not (usable (status_of header) start)
      then none
      else if ltb (length body) len
      then none
      else some (take len body)
]

unfoldable pub range_request : Address → ℕ → ℕ → Bytes
unfolding print_u64
range_request a start len =
    codes "GET "
    ++ (a.path
        ++ (codes " HTTP/1.0"
            ++ (13
                ∷ 10
                ∷ (codes "Host: "
                    ++ (a.host
                        ++ (13
                            ∷ 10
                            ∷ (codes "User-Agent: PS5Torrent/2.0.4"
                                ++ (13
                                    ∷ 10
                                    ∷ (codes "Range: bytes="
                                        ++ (print_u64 start
                                            ++ (codes "-"
                                                ++ (print_u64
                                                      ((start + len + (2 ^ 64 - 1)) % 2 ^ 64)
                                                    ++ (13
                                                        ∷ 10
                                                        ∷ (codes "Connection: close"
                                                            ++ (13 ∷ 10 ∷ 13 ∷ 10
                                                            ∷ [])))))))))))))))

abbrev pub Network : Type 0
Network = Bytes → ℕ → Bytes → Option (List Bytes)

-- http_fetch_range: the bytes that are in `out` behind a result of 0.
unfoldable pub http_fetch_range : Network → Bytes → ℕ → ℕ → Option Bytes
unfolding parse_http_url range_request range_body
http_fetch_range network url start len = if len == 0 then none else elim (parse_http_url 256 url) [
  | none ↦ none
  | some a ↦
      let request = range_request a start len in
      if leb 1024 (length request) then none else elim (network a.host a.port request) [
        | none ↦ none
        | some segs ↦ range_body (stream segs) start len
      ]
]
