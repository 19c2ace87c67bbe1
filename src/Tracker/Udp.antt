-- ===== src/Tracker/Udp.antt =====
-- src/tracker_udp.c: the exchange of datagrams and the announce. What the socket does is a script:
-- for each of the two attempts whether send took the request, the time, and what select and recv
-- answered at which time until the deadline. The random numbers are arguments.
use ps5torrent.Base.{
  ℕ, ◌+◌, ◌-◌, ◌*◌, ◌/◌, ◌%◌, ◌^◌, Bool, true, not, ◌&&◌, ◌||◌, Option, none, some, List, [], ◌∷◌,
  ◌++◌, Bytes, codes, length, take, drop, bytes_eq, ltb, leb, ◌==◌, if◌then◌else◌,
}
use ps5torrent.Base.Decimal.{is_digit}
use ps5torrent.Base.Scan.{skip_spaces, skip_digits, digits_value}
use ps5torrent.Base.Endian.{encode32, decode32}
use ps5torrent.Http.Search.{find_bytes}
use ps5torrent.TorrentMgr.Candidates.{max_tracker_peers}
use ps5torrent.Tracker.Peers.{TrackerResponse, TrackerParams, copy_peers, peer_count}

-- What select or recv answers: an interrupt by a signal, an error, no datagram in time, or one.
pub data Answer : Type 0 where
  interrupted failed silence : Answer
  datagram : Bytes → Answer

-- The answer, and the time at the start of the round.
pub record Poll : Type 0 where
  pub now : ℕ
  pub answer : Answer

-- The rounds until the clock has passed the deadline.
pub record Attempt : Type 0 where
  pub sent : Bool
  pub begun : ℕ
  pub polls : List Poll

-- How an attempt ends: with a response, with a failure of the exchange, or at its deadline.
pub data Heard : Type 0 where
  response : Bytes → Heard
  failure expired : Heard

-- `action == 0 ? 16 : 20`.
abbrev pub least_size : ℕ → ℕ
least_size action = if action == 0 then 16 else 20

-- The tests of a datagram; `go_on` is what the rest of the loop hears.
unfoldable pub judge : Bytes → ℕ → Bytes → Heard → Heard
unfolding decode32
judge request action bytes go_on =
    if ltb (length bytes) 8 || not (decode32 (drop 4 bytes) == decode32 (drop 12 request))
    then go_on
    else if decode32 bytes == 3
    then failure
    else if not (decode32 bytes == action)
    then go_on
    else if ltb (length bytes) (least_size action)
    then failure
    else response bytes

-- What a round does with an answer; a datagram longer than the buffer's `capacity` is cut.
unfoldable pub on_answer : Bytes → ℕ → ℕ → Answer → Heard → Heard
unfolding judge
on_answer request action capacity interrupted go_on = go_on
on_answer request action capacity failed go_on = failure
on_answer request action capacity silence go_on = expired
on_answer request action capacity (datagram bytes) go_on =
    judge request action (take capacity bytes) go_on

-- The inner loop.
unfoldable pub listen : Bytes → ℕ → ℕ → ℕ → List Poll → Heard
unfolding on_answer
listen request action capacity deadline [] = expired
listen request action capacity deadline (p ∷ ps) =
    let go_on = listen request action capacity deadline ps in
    if leb deadline p.now then expired else on_answer request action capacity p.answer go_on

-- The outer loop: 15 seconds, then 30.
unfoldable pub after_attempt : Heard → Option Bytes → Option Bytes
after_attempt (response bytes) again = some bytes
after_attempt failure again = none
after_attempt expired again = again

unfoldable pub exchange_from : ℕ → Bytes → ℕ → ℕ → List Attempt → Option Bytes
unfolding listen after_attempt
exchange_from timeout request action capacity [] = none
exchange_from timeout request action capacity (a ∷ rest) =
    let again = exchange_from (timeout * 2) request action capacity rest in
    if not a.sent
    then none
    else after_attempt (listen request action capacity (a.begun + timeout) a.polls) again

unfoldable pub exchange : Bytes → ℕ → ℕ → List Attempt → Option Bytes
unfolding exchange_from
exchange request action capacity attempts =
    exchange_from 15000 request action capacity (take 2 attempts)

unfoldable pub put64 : ℕ → Bytes
unfolding encode32
put64 v = encode32 (v / 2 ^ 32) ++ encode32 (v % 2 ^ 32)

unfoldable pub connect_request : ℕ → Bytes
unfolding put64 encode32
connect_request transaction = put64 0x41727101980 ++ (encode32 0 ++ encode32 transaction)

unfoldable pub announce_request : TrackerParams → Bytes → ℕ → ℕ → Bytes
unfolding put64 encode32
announce_request params connection transaction key =
    connection
    ++ (encode32 1
        ++ (encode32 transaction
            ++ (take 20 params.info_hash
                ++ (take 20 params.peer_id
                    ++ (put64 params.downloaded
                        ++ (put64 params.left
                            ++ (put64 params.uploaded
                                ++ (encode32 0
                                    ++ (encode32 0
                                        ++ (encode32 key
                                            ++ (encode32 max_tracker_peers
                                                ++ params.port / 256 % 256
                                                  ∷ params.port % 256
                                                  ∷ [])))))))))))

-- INT_MAX where the value is larger.
abbrev pub counter : Bytes → ℕ
counter bytes = let v = decode32 bytes in if ltb (2 ^ 31 - 1) v then 2 ^ 31 - 1 else v

-- The response to an announce.
unfoldable pub udp_response : (ℕ → Bool) → Bytes → Option TrackerResponse
unfolding decode32 copy_peers peer_count
udp_response calloc bytes =
    let interval = counter (drop 8 bytes) in
    let count = peer_count (length bytes - 20) in
    if not (calloc 32) || (not (count == 0) && not (calloc (count * 8)))
    then none
    else some (record {
      peers = copy_peers count (drop 20 bytes);
      interval = if ltb interval 60 then 60 else interval;
      complete = counter (drop 16 bytes);
      incomplete = counter (drop 12 bytes);
      failure_reason = none;
    })

-- strtol at a port: the value and what is behind it, where a number stands there.
unfoldable pub strtol : Bytes → Option (ℕ × Bytes)
unfolding skip_spaces skip_digits digits_value
strtol text = elim (skip_spaces text) [
  | [] ↦ none
  | c ∷ r ↦
      let body = if c == b'+' || c == b'-' then r else c ∷ r in
      let n = digits_value 0 body in
      elim body [
        | [] ↦ none
        | d ∷ r' ↦
            if not (is_digit d)
            then none
            else some (if c == b'-' then 0 else n, skip_digits (d ∷ r'))
      ]
]

abbrev pub slash_or_nothing : Bytes → Bool
slash_or_nothing [] = true
slash_or_nothing (c ∷ r) = c == b'/'

-- The host and the port of an address, `none` for what tracker_announce_udp refuses; a port below 1
-- or above 65535 is refused, and so is a value that strtol cannot represent.
unfoldable pub udp_address : Bytes → Option (Bytes × ℕ)
unfolding strtol find_bytes
udp_address url =
    let start = drop 6 url in
    if not (bytes_eq (take 6 url) (codes "udp://"))
    then none
    else elim (find_bytes start (codes ":")) [
      | none ↦ none
      | some colon ↦
          if colon == 0 || leb 256 colon then none else elim (strtol (drop (colon + 1) start)) [
            | none ↦ none
            | some (port, rest) ↦
                if not (slash_or_nothing rest) || ltb port 1 || ltb 65535 port
                then none
                else some (take colon start, port)
          ]
    ]

-- The network for one announce: whether the host resolves and the socket connects, and what happens
-- in the two exchanges.
pub record UdpWorld : Type 0 where
  pub reaches : Bytes → ℕ → Bool
  pub calloc : ℕ → Bool
  pub first : List Attempt
  pub second : List Attempt
  pub random : ℕ × ℕ × ℕ

unfoldable pub tracker_announce_udp : UdpWorld → Bytes → TrackerParams → Option TrackerResponse
unfolding udp_address exchange connect_request announce_request udp_response
tracker_announce_udp world url params =
    let (t₁, t₂, key) = world.random in
    elim (udp_address url) [
      | none ↦ none
      | some (host, port) ↦
          if not (world.reaches host port)
          then none
          else elim (exchange (connect_request t₁) 0 65536 world.first) [
            | none ↦ none
            | some connected ↦
                elim (exchange (announce_request params (take 8 (drop 8 connected)) t₂ key) 1 65536
                  world.second) [ none ↦ none | some bytes ↦ udp_response world.calloc bytes ]
          ]
    ]
