-- ===== src/Tracker/Responses.antt =====
-- src/tracker.c and src/tracker_udp.c: the peers that a response names are those that are returned.
use ps5torrent.Base.{
  ℕ, ◌-◌, ◌*◌, ◌^◌, ◌<◌, ◌≤◌, ◌≡◌, refl, ap, sym, ◌∙◌, Bool, true, false, ◌&&◌, Option, none, some,
  List, ◌++◌, Bytes, codes, length, take, drop, length-drop, ltb, if◌then◌else◌, All, arith, min,
  max,
}
use ps5torrent.Base.Memory.{Grants}
use ps5torrent.Base.Endian.{encode32, decode32}
use ps5torrent.Bencode.Node.{Node, Fields, dict, str, dict_get, str_val}
use ps5torrent.Bencode.Emit.{emit}
use ps5torrent.Bencode.Emit.{IsWord}
use ps5torrent.Bencode.RoundTrip.{bcode_parse-emit}
use ps5torrent.TorrentMgr.Candidates.{PeerAddr, max_tracker_peers}
use ps5torrent.Tracker.Peers.{
  TrackerResponse, peer_count, compact_all, IsPeerAddr, copy_peers-peer_count,
}
use ps5torrent.Tracker.Udp.{udp_response}
use ps5torrent.Tracker.Http.{
  failure_text, int_entry, at_least_60, peers_entry, response_of, of_root, http_response,
}

at_least_60_bounds : (n : ℕ) → (60 ≤ at_least_60 n) × (at_least_60 n < 2 ^ 31)
at_least_60_bounds n = ground arith

few_peers : (size : ℕ) → peer_count size ≤ 200
unfolding peer_count
few_peers size = ground arith

module _ (malloc : ℕ → Bool) (grants : Grants malloc) where
  peers_entry_lem :
      (root : Node) (addrs : List PeerAddr)
      → All IsPeerAddr addrs
      → dict_get root (codes "peers") ≡ some (str (compact_all addrs))
      → peers_entry malloc root ≡ take max_tracker_peers addrs
  unfolding peers_entry str_val
  peers_entry_lem root addrs h e =
      let bytes = compact_all addrs in
      let granted =
        grants (peer_count (length bytes) * 8) (omega (arith, few_peers (length bytes))) in
      rw (e, peers_entry, str_val, granted) (copy_peers-peer_count addrs h)

  -- What an HTTP tracker's good response becomes.
  pub record Good (addrs : List PeerAddr) (r : Option TrackerResponse) : Type 0 where
    pub resp : TrackerResponse
    pub returned : r ≡ some resp
    pub all_peers : resp.peers ≡ take max_tracker_peers addrs
    pub no_failure : resp.failure_reason ≡ none
    pub later : 60 ≤ resp.interval
    pub int_range : resp.interval < 2 ^ 31

  of_root_lem :
      (root : Node)
      → dict_get root (codes "failure reason") ≡ none
      → of_root malloc root ≡ response_of malloc root
  unfolding of_root failure_text
  of_root_lem root e = rw (e, failure_text, of_root) refl

  -- Where allocations succeed, the bencoded text of a dictionary with no failure reason and with the
  -- compact form of some peers, sent with status 200, becomes a response with the first 200 of the
  -- peers, no failure, and an interval of at least 60 seconds; what follows the text is ignored.
  pub http_response-emit :
      (fs : Fields) (rest : Bytes) (addrs : List PeerAddr)
      → IsWord (dict fs)
      → length (emit (dict fs) ++ rest) < 2 ^ 56
      → All IsPeerAddr addrs
      → dict_get (dict fs) (codes "failure reason") ≡ none
      → dict_get (dict fs) (codes "peers") ≡ some (str (compact_all addrs))
      → Good addrs (http_response malloc 200 (emit (dict fs) ++ rest))
  unfolding http_response
  http_response-emit fs rest addrs w small h f p =
      let parsed = bcode_parse-emit malloc grants (dict fs) rest w small in
      let granted = grants 32 (omega arith) in
      let same = of_root_lem (dict fs) f in
      rw (granted, parsed, same)
        (record {
          resp = response_of malloc (dict fs);
          returned = refl;
          all_peers = unfold response_of in peers_entry_lem (dict fs) addrs h p;
          no_failure = unfold response_of in refl;
          later =
              unfold response_of in
              (at_least_60_bounds (int_entry malloc (dict fs) (codes "interval"))).0;
          int_range =
              unfold response_of in
              (at_least_60_bounds (int_entry malloc (dict fs) (codes "interval"))).1;
        })

-- An announce response as BEP 15 writes it.
abbrev pub announce_response : ℕ → ℕ → ℕ → ℕ → List PeerAddr → Bytes
announce_response transaction interval leechers seeders addrs =
    encode32 1
    ++ (encode32 transaction
        ++ (encode32 interval ++ (encode32 leechers ++ (encode32 seeders ++ compact_all addrs))))

cut : (n : ℕ) → (if ltb (2 ^ 31 - 1) n then 2 ^ 31 - 1 else n) ≡ min n (2 ^ 31 - 1)
cut n = ground arith

raised :
    (n : ℕ)
    → (if ltb (if ltb (2 ^ 31 - 1) n then 2 ^ 31 - 1 else n) 60
        then 60
        else if ltb (2 ^ 31 - 1) n
        then 2 ^ 31 - 1
        else n)
      ≡ max 60 (min n (2 ^ 31 - 1))
raised n = ground arith

granted_all : (b : Bool) (r : Option TrackerResponse) → (if b && false then none else r) ≡ r
granted_all true r = refl
granted_all false r = refl

of_fields :
    (calloc : ℕ → Bool) (bytes : Bytes) (interval leechers seeders : ℕ) (addrs : List PeerAddr)
    → Grants calloc
    → decode32 (drop 8 bytes) ≡ interval
    → decode32 (drop 12 bytes) ≡ leechers
    → decode32 (drop 16 bytes) ≡ seeders
    → drop 20 bytes ≡ compact_all addrs
    → All IsPeerAddr addrs
    → udp_response calloc bytes
      ≡ some (record {
        peers = take max_tracker_peers addrs;
        interval = max 60 (min interval (2 ^ 31 - 1));
        complete = min seeders (2 ^ 31 - 1);
        incomplete = min leechers (2 ^ 31 - 1);
        failure_reason = none;
      })
unfolding udp_response
of_fields calloc bytes interval leechers seeders addrs grants i l s d h =
    let body = compact_all addrs in
    let size : length bytes - 20 ≡ length body = sym (length-drop 20 bytes) ∙ ap length d in
    let first = grants 32 (omega arith) in
    let second = grants (peer_count (length body) * 8) (omega (arith, few_peers (length body))) in
    let peers = copy_peers-peer_count addrs h in
    rw (size, first, second, i, l, s, d, peers)
      (granted_all _ _ ∙ λ k. some (record {
        peers = take max_tracker_peers addrs;
        interval = raised interval k;
        complete = cut seeders k;
        incomplete = cut leechers k;
        failure_reason = none;
      }))

announce_fields :
    (transaction interval leechers seeders : ℕ) (addrs : List PeerAddr)
    → interval < 2 ^ 32
    → leechers < 2 ^ 32
    → seeders < 2 ^ 32
    → let bytes = announce_response transaction interval leechers seeders addrs in
      (decode32 (drop 8 bytes) ≡ interval)
      × (decode32 (drop 12 bytes) ≡ leechers)
      × (decode32 (drop 16 bytes) ≡ seeders)
      × (drop 20 bytes ≡ compact_all addrs)
unfolding encode32 decode32
announce_fields transaction interval leechers seeders addrs i l s =
    (omega arith, omega arith, omega arith, refl)

-- Where the allocations succeed, an announce response becomes its peers, the first 200 of them, with
-- its numbers cut at INT_MAX and an interval of at least 60 seconds.
pub udp_response_lem :
    (calloc : ℕ → Bool) (transaction interval leechers seeders : ℕ) (addrs : List PeerAddr)
    → Grants calloc
    → interval < 2 ^ 32
    → leechers < 2 ^ 32
    → seeders < 2 ^ 32
    → All IsPeerAddr addrs
    → udp_response calloc (announce_response transaction interval leechers seeders addrs)
      ≡ some (record {
        peers = take max_tracker_peers addrs;
        interval = max 60 (min interval (2 ^ 31 - 1));
        complete = min seeders (2 ^ 31 - 1);
        incomplete = min leechers (2 ^ 31 - 1);
        failure_reason = none;
      })
udp_response_lem calloc transaction interval leechers seeders addrs grants i l s h =
    let bytes = announce_response transaction interval leechers seeders addrs in
    let (f, g, k, d) = announce_fields transaction interval leechers seeders addrs i l s in
    of_fields calloc bytes interval leechers seeders addrs grants f g k d h
