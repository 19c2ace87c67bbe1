-- ===== src/Tracker/Http.antt =====
-- src/tracker.c: the request to an HTTP tracker and what is made of its response. The network is a
-- parameter, as for web seeds.
use ps5torrent.Base.{
  ℕ, ◌+◌, ◌-◌, ◌*◌, ◌%◌, ◌^◌, Bool, not, ◌&&◌, Option, none, some, List, [], ◌∷◌, ◌++◌, Bytes,
  codes, length, take, drop, get_or, ltb, leb, ◌==◌, if◌then◌else◌,
}
use mathlib.Core.Option
use ps5torrent.Base.Decimal.{is_digit, print_u64, print_i64}
use ps5torrent.Base.Outcome.{Outcome, ok}
use ps5torrent.Bencode.Node.{Node, dict_get, int_val, str_val}
use ps5torrent.Bencode.Parser.{bcode_parse}
use ps5torrent.Net.Receive.{stream}
use ps5torrent.Net.Url.{net_url_encode}
use ps5torrent.Http.Search.{find_bytes}
use ps5torrent.TorrentMgr.Candidates.{PeerAddr, max_tracker_peers}
use ps5torrent.WebSeed.Http.{Network, is_http, blank_line}
use ps5torrent.Tracker.Peers.{TrackerResponse, TrackerParams, copy_peers, peer_count}

-- A char as an int: the pattern of 32 bits.
abbrev pub char_int : ℕ → ℕ
char_int c = if ltb c 128 then c else c + (2 ^ 32 - 256)

-- `(p[0] - '0') * 100 + (p[1] - '0') * 10 + (p[2] - '0')`.
abbrev pub status_code : Bytes → ℕ
status_code p =
    (char_int (get_or p 0 0) * 100
      + char_int (get_or p 1 0) * 10
      + char_int (get_or p 2 0)
      + (2 ^ 32 - 5328))
    % 2 ^ 32

-- parse_http_response: the status and the body, with the text behind the first space.
unfoldable pub parse_http_response : Bytes → Option (ℕ × Bytes)
unfolding find_bytes
parse_http_response resp = elim (find_bytes resp (codes " ")) [
  | none ↦ none
  | some space ↦
      let p = drop (space + 1) resp in
      if ltb (length p) 3
      then none
      else Option.map (λ s. (status_code p, drop (s + 4) p)) (find_bytes p blank_line)
]

-- `while (*port_str >= '0' && ...) port = port * 10 + (*port_str++ - '0')`, cast to uint16_t.
unfoldable pub port_value : ℕ → Bytes → ℕ
port_value port [] = port % 2 ^ 16
port_value port (c ∷ r) =
    let more = port_value ((port * 10 + (c - b'0')) % 2 ^ 32) r in
    if is_digit c then more else port % 2 ^ 16

-- The host, the port and the path of an announce address; the host has at most 255 bytes.
unfoldable pub http_address : Bytes → Option (Bytes × ℕ × Bytes)
unfolding find_bytes port_value
http_address url =
    let start = drop 7 url in
    if not (is_http url) then none else elim (find_bytes start (codes "/")) [
      | none ↦ none
      | some slash ↦ elim (find_bytes (take slash start) (codes ":")) [
        | none ↦ if leb 256 slash then none else some (take slash start, 80, drop slash start)
        | some colon ↦
            if leb 256 colon
            then none
            else some (
              take colon start,
              port_value 0 (drop (colon + 1) (take slash start)),
              drop slash start,
            )
      ]
    ]

abbrev pub line_end : Bytes
line_end = 13 ∷ 10 ∷ []

unfoldable pub announce_text : TrackerParams → Bytes → Bytes → Bytes
unfolding net_url_encode print_u64 print_i64 find_bytes
announce_text params host path =
    let mark : Bytes = elim (find_bytes path (codes "?")) [
      | none ↦ codes "?"
      | some i ↦ codes "&"
    ] in
    let form = if params.compact then codes "1" else codes "0" in
    let query =
      codes "info_hash="
      ++ (net_url_encode (take 20 params.info_hash)
          ++ (codes "&peer_id="
              ++ (net_url_encode (take 20 params.peer_id)
                  ++ (codes "&port="
                      ++ (print_u64 params.port
                          ++ (codes "&uploaded="
                              ++ (print_i64 params.uploaded
                                  ++ (codes "&downloaded="
                                      ++ (print_i64 params.downloaded
                                          ++ (codes "&left="
                                              ++ (print_i64 params.left
                                                  ++ (codes "&compact="
                                                      ++ (form
                                                          ++ (codes "&numwant="
                                                            ++ print_u64
                                                            max_tracker_peers)))))))))))))) in
    let agent = codes "User-Agent: PS5Torrent/1.0" ++ line_end in
    let close = codes "Connection: close" ++ (line_end ++ line_end) in
    codes "GET "
    ++ (path
        ++ (mark
            ++ (query
                ++ (codes " HTTP/1.0"
                    ++ (line_end
                        ++ (codes "Host: " ++ (host ++ (line_end ++ (agent ++ close)))))))))

-- HTTP_BUF_SIZE * 4.
abbrev pub response_size : ℕ
response_size = 8192 * 4

abbrev pub no_response : TrackerResponse
no_response = record {
  peers = [];
  interval = 0;
  complete = 0;
  incomplete = 0;
  failure_reason = none;
}

-- The text of a "failure reason", if it is a string.
unfoldable pub failure_text : Node → Option Bytes
unfolding dict_get str_val
failure_text root = elim (dict_get root (codes "failure reason")) [
  | none ↦ none
  | some fr ↦ str_val fr
]

-- `if (tr->interval < 60) tr->interval = 60`, on an int.
abbrev pub at_least_60 : ℕ → ℕ
at_least_60 n = if ltb n (2 ^ 31) && leb 60 n then n else 60

module _ (malloc : ℕ → Bool) where
  -- A copy of a text, where its allocation succeeds.
  abbrev pub copy_of : Bytes → Option Bytes
  copy_of s = if malloc (length s + 1) then some s else none

  abbrev pub failed_with : Option Bytes → TrackerResponse
  failed_with reason = record no_response { failure_reason = reason }

  -- `(int)bcode_int_val`, 0 where there is no such entry.
  unfoldable pub int_entry : Node → Bytes → ℕ
  unfolding dict_get int_val
  int_entry root key = elim (dict_get root key) [ none ↦ 0 | some v ↦ int_val v % 2 ^ 32 ]

  unfoldable pub peers_entry : Node → List PeerAddr
  unfolding dict_get copy_peers peer_count str_val
  peers_entry root = elim (dict_get root (codes "peers")) [
    | none ↦ []
    | some v ↦ elim (str_val v) [
      | none ↦ []
      | some s ↦
          let count = peer_count (length s) in if malloc (count * 8) then copy_peers count s else []
    ]
  ]

  -- The response where the tracker reports no failure.
  unfoldable pub response_of : Node → TrackerResponse
  unfolding int_entry peers_entry
  response_of root = record {
    peers = peers_entry root;
    interval = at_least_60 (int_entry root (codes "interval"));
    complete = int_entry root (codes "complete");
    incomplete = int_entry root (codes "incomplete");
    failure_reason = none;
  }

  unfoldable pub of_root : Node → TrackerResponse
  unfolding failure_text response_of
  of_root root = elim (failure_text root) [
    | some text ↦ failed_with (copy_of text)
    | none ↦ response_of root
  ]

  -- A status other than 200: the failure that the body names, or an unknown one.
  unfoldable pub refused_with : Outcome Node → TrackerResponse
  unfolding failure_text
  refused_with root =
      let named : Option Bytes = elim root [
        | ok r ↦ elim (failure_text r) [ none ↦ none | some text ↦ copy_of text ]
        | _ ↦ none
      ] in
      failed_with
        (elim named [ none ↦ copy_of (codes "Unknown tracker error") | some text ↦ some text ])

  -- What is made of a status and a body.
  unfoldable pub http_response : ℕ → Bytes → Option TrackerResponse
  unfolding of_root refused_with bcode_parse
  http_response status body =
      let root = bcode_parse malloc body in
      if not (malloc 32)
      then none
      else if not (status == 200)
      then some (refused_with root)
      else elim root [
        | ok r ↦ some (of_root r)
        | _ ↦ some (failed_with (copy_of (codes "Failed to parse tracker response")))
      ]

  -- tracker_announce on an HTTP address; what is received is cut at the buffer's size.
  unfoldable pub tracker_announce_http : Network → Bytes → TrackerParams → Option TrackerResponse
  unfolding http_address announce_text parse_http_response http_response
  tracker_announce_http network url params = elim (http_address url) [
    | none ↦ none
    | some (host, port, path) ↦
        let request = announce_text params host path in
        if leb 4096 (length request) then none else elim (network host port request) [
          | none ↦ none
          | some segs ↦ elim (parse_http_response (take response_size (stream segs))) [
            | none ↦ none
            | some (status, body) ↦ http_response status body
          ]
        ]
  ]
