-- ===== src/Tracker/Tests.antt =====
-- Runs of src/tracker.c and src/tracker_udp.c.
use ps5torrent.Base.{
  ◌≡◌, ◌↔◌, refl, arith, true, none, some, List, [], ◌∷◌, ◌++◌, codes, length, take, min, max, ◌-◌,
  ◌^◌,
}
use ps5torrent.Base.Samples.{roomy, roomy-Grants}
use ps5torrent.Base.Endian.{encode32, decode32}
use ps5torrent.Base.Decimal.{print_u64, print_i64}
use ps5torrent.Bencode.Node.{Fields, field, no_fields, str, int, dict, dict_get}
use ps5torrent.Bencode.Emit.{emit, IsWord}
use ps5torrent.TorrentMgr.Candidates.{PeerAddr, max_tracker_peers}
use ps5torrent.Tracker.Peers.{compact_all, TrackerParams}
use ps5torrent.Tracker.Udp.{
  interrupted, datagram, silence, Attempt, exchange, udp_response, connect_request,
  announce_request,
}
use ps5torrent.Tracker.Exchange.{Received, exchange_iff}
use ps5torrent.Tracker.Http.{http_response}
use ps5torrent.Tracker.Responses.{Good, http_response-emit, announce_response, udp_response_lem}

abbrev peer : PeerAddr
peer = record { ip = 16777343; port = 57626 }

-- Interval 1800 and one peer.
abbrev reply_fields : Fields
reply_fields =
    field (codes "interval") (int 1800)
      (field (codes "peers") (str (compact_all (peer ∷ []))) no_fields)

reply-IsWord : IsWord (dict reply_fields)
unfolding IsWord
reply-IsWord = omega arith

http_response-emit_example :
    Good roomy roomy-Grants (peer ∷ []) (http_response roomy 200 (emit (dict reply_fields) ++ []))
unfolding emit dict_get print_u64 print_i64
http_response-emit_example =
    http_response-emit roomy roomy-Grants reply_fields [] (peer ∷ []) reply-IsWord (omega arith)
      (omega arith) refl refl

udp_response_lem_example :
    udp_response roomy (announce_response 9 1800 3 4 (peer ∷ []))
    ≡ some (record {
      peers = take max_tracker_peers (peer ∷ []);
      interval = max 60 (min 1800 (2 ^ 31 - 1));
      complete = min 4 (2 ^ 31 - 1);
      incomplete = min 3 (2 ^ 31 - 1);
      failure_reason = none;
    })
udp_response_lem_example =
    udp_response_lem roomy 9 1800 3 4 (peer ∷ []) roomy-Grants (omega arith) (omega arith)
      (omega arith) (omega arith)

abbrev params : TrackerParams
params = record {
  info_hash = codes "aaaaaaaaaaaaaaaaaaaa";
  peer_id = codes "bbbbbbbbbbbbbbbbbbbb";
  port = 6881;
  uploaded = 0;
  downloaded = 0;
  left = 5;
  compact = true;
}

-- A stale datagram and a signal, then the response; the first attempt gets no answer.
abbrev attempts : List Attempt
attempts =
    record { sent = true; begun = 0; polls = record { now = 1; answer = silence } ∷ [] }
    ∷ record {
      sent = true;
      begun = 15000;
      polls =
          record { now = 15001; answer = datagram (encode32 0 ++ encode32 8) }
          ∷ record { now = 15002; answer = interrupted }
          ∷ record {
            now = 15003;
            answer = datagram (encode32 0 ++ (encode32 9 ++ codes "connectn"));
          }
          ∷ [];
    }
    ∷ []

exchange_iff_example :
    (exchange (connect_request 9) 0 65536 attempts
      ≡ some (encode32 0 ++ (encode32 9 ++ codes "connectn")))
    ↔ Received
        (connect_request 9)
        0
        65536
        15000
        (take 2 attempts)
        (encode32 0 ++ (encode32 9 ++ codes "connectn"))
exchange_iff_example =
    exchange_iff (connect_request 9) 0 65536 attempts
      (encode32 0 ++ (encode32 9 ++ codes "connectn"))

connected :
    exchange (connect_request 9) 0 65536 attempts
    ≡ some (encode32 0 ++ (encode32 9 ++ codes "connectn"))
unfolding exchange connect_request encode32 decode32
connected = refl

announce_size : length (announce_request params (codes "connectn") 1 2) ≡ 98
unfolding announce_request
announce_size = refl
