-- ===== src/TorrentMgr/Candidates.antt =====
-- src/torrent_mgr.c: the candidates of a torrent, their failures and their replacement.
use ps5torrent.Base.{
  ℕ, ◌+◌, ◌-◌, ◌*◌, ◌^◌, ◌++◌, Bool, true, false, not, ◌&&◌, ◌||◌, Option, none, some, List, [],
  ◌∷◌, length, set, ltb, ◌==◌, if◌then◌else◌,
}

pub record PeerAddr : Type 0 where
  pub ip : ℕ
  pub port : ℕ

-- peer_candidate_t.
pub record Candidate : Type 0 where
  pub addr : PeerAddr
  pub connecting : Bool
  pub failures : ℕ
  pub retry_after : ℕ

abbrev pub max_tracker_peers : ℕ
max_tracker_peers = 200

unfoldable pub same_peer : PeerAddr → PeerAddr → Bool
same_peer a b = a.ip == b.ip && a.port == b.port

-- find_candidate finds one.
unfoldable pub known : List Candidate → PeerAddr → Bool
unfolding same_peer
known [] addr = false
known (c ∷ cs) addr = same_peer c.addr addr || known cs addr

unfoldable pub retry_delay : ℕ → ℕ
retry_delay failures =
    let shift = if ltb 4 failures then 4 else if failures == 0 then 0 else failures - 1 in
    let delay = 30 * 2 ^ shift in if ltb 300 delay then 300 else delay

-- The first candidate with the address is changed; `now` is get_time_sec().
unfoldable pub record_peer_failure : ℕ → List Candidate → PeerAddr → List Candidate
unfolding same_peer retry_delay
record_peer_failure now [] addr = []
record_peer_failure now (c ∷ cs) addr =
    let rest = record_peer_failure now cs addr in
    let n = if ltb c.failures 5 then c.failures + 1 else c.failures in
    if same_peer c.addr addr
    then record c { failures = n; retry_after = now + retry_delay n } ∷ cs
    else c ∷ rest

abbrev pub fresh : PeerAddr → Candidate
fresh addr = record { addr = addr; connecting = false; failures = 0; retry_after = 0 }

abbrev pub unusable : PeerAddr → Bool
unusable addr = addr.ip == 0 || addr.ip == 2 ^ 32 - 1 || addr.port == 0

module _ (peer_is_connected : PeerAddr → Bool) where
  -- The slot to reuse: the one with the most failures, the first of several; with the slot so far
  -- and its failures.
  unfoldable pub worst : List Candidate → ℕ → Option (ℕ × ℕ) → Option (ℕ × ℕ)
  worst [] i slot = slot
  worst (c ∷ cs) i slot =
      let better : Bool = elim slot [ none ↦ true | some (j, n) ↦ ltb n c.failures ] in
      worst cs (i + 1) (
        if not c.connecting && not (c.failures == 0) && not (peer_is_connected c.addr) && better
        then some (i, c.failures)
        else slot)

  unfoldable pub add_candidate : List Candidate → PeerAddr → List Candidate
  unfolding known worst
  add_candidate cs addr =
      if unusable addr || known cs addr
      then cs
      else if length cs == max_tracker_peers
      then elim (worst cs 0 none) [ none ↦ cs | some (slot, n) ↦ set cs slot (fresh addr) ]
      else cs ++ fresh addr ∷ []
