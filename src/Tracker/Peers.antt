-- ===== src/Tracker/Peers.antt =====
-- include/tracker.h, and the compact list of peers that both kinds of tracker send: six bytes for
-- each. memcpy keeps the bytes of an address and a port as they are; on the console, which is
-- little-endian, the first byte is the lowest.
use ps5torrent.Base.{
  Bool, ℕ, zero, suc, ◌+◌, ◌*◌, ◌/◌, ◌%◌, ◌^◌, ◌<◌, ◌≤◌, ◌≡◌, refl, ap, sym, ◌∙◌, Option, List, [],
  ◌∷◌, ◌++◌, Bytes, length, take, ltb, if◌then◌else◌, All, arith, length-append, append-nil, subst,
  take_over, Bool-cases, inl, inr,
}
use ps5torrent.TorrentMgr.Candidates.{PeerAddr, max_tracker_peers}

-- tracker_response_t, with the numbers as they are stored.
pub record TrackerResponse : Type 0 where
  pub peers : List PeerAddr
  pub interval : ℕ
  pub complete : ℕ
  pub incomplete : ℕ
  pub failure_reason : Option Bytes

-- tracker_params_t.
pub record TrackerParams : Type 0 where
  pub info_hash : Bytes
  pub peer_id : Bytes
  pub port : ℕ
  pub uploaded : ℕ
  pub downloaded : ℕ
  pub left : ℕ
  pub compact : Bool

-- The loop that copies `count` peers.
unfoldable pub copy_peers : ℕ → Bytes → List PeerAddr
copy_peers (suc n) (a ∷ b ∷ c ∷ d ∷ p ∷ q ∷ r) =
    record { ip = a + b * 2 ^ 8 + c * 2 ^ 16 + d * 2 ^ 24; port = p + q * 2 ^ 8 } ∷ copy_peers n r
copy_peers _ _ = []

-- The number of peers in the bytes, at most MAX_TRACKER_PEERS.
unfoldable pub peer_count : ℕ → ℕ
peer_count size = if ltb max_tracker_peers (size / 6) then max_tracker_peers else size / 6

unfoldable pub compact_peers : Bytes → List PeerAddr
unfolding copy_peers peer_count
compact_peers bytes = copy_peers (peer_count (length bytes)) bytes

-- The six bytes of a peer.
abbrev pub compact : PeerAddr → Bytes
compact a =
    a.ip % 256
    ∷ a.ip / 2 ^ 8 % 256
    ∷ a.ip / 2 ^ 16 % 256
    ∷ a.ip / 2 ^ 24 % 256
    ∷ a.port % 256
    ∷ a.port / 2 ^ 8 % 256
    ∷ []

abbrev pub compact_all : List PeerAddr → Bytes
compact_all [] = []
compact_all (a ∷ addrs) = compact a ++ compact_all addrs

abbrev pub IsPeerAddr : PeerAddr → Type 0
IsPeerAddr a = (a.ip < 2 ^ 32) × (a.port < 2 ^ 16)

length-compact_all : (addrs : List PeerAddr) → length (compact_all addrs) ≡ 6 * length addrs
length-compact_all [] = refl
length-compact_all (a ∷ addrs) = omega (arith, length-compact_all addrs)

one_peer :
    (a : PeerAddr) (n : ℕ) (r : Bytes)
    → IsPeerAddr a
    → copy_peers (suc n) (compact a ++ r) ≡ a ∷ copy_peers n r
unfolding copy_peers
one_peer a n r (i, p) = ground arith

copy_peers-compact_all :
    (n : ℕ) (addrs : List PeerAddr) (tail : Bytes)
    → All IsPeerAddr addrs
    → n ≤ length addrs
    → copy_peers n (compact_all addrs ++ tail) ≡ take n addrs
copy_peers-compact_all zero addrs tail h l = unfold copy_peers in refl
copy_peers-compact_all (suc n) [] tail h l = absurd (omega arith)
copy_peers-compact_all (suc n) (a ∷ addrs) tail (p, h) l =
    one_peer a n (compact_all addrs ++ tail) p
    ∙ ap (λ t. a ∷ t) (copy_peers-compact_all n addrs tail h (omega arith))

-- The bytes of peers, and at most five more, are read as the first 200 of the peers.
pub compact_peers-compact_all :
    (addrs : List PeerAddr) (tail : Bytes)
    → All IsPeerAddr addrs
    → length tail < 6
    → compact_peers (compact_all addrs ++ tail) ≡ take max_tracker_peers addrs
unfolding compact_peers peer_count
compact_peers-compact_all addrs tail h short =
    let n = length addrs in
    let size = length-append (compact_all addrs) tail in
    let l = length-compact_all addrs in
    let whole : length (compact_all addrs ++ tail) / 6 ≡ n = omega (arith, size, l, short) in
    rw whole (elim (Bool-cases (ltb max_tracker_peers n)) [
      | inl e ↦ rw e (copy_peers-compact_all max_tracker_peers addrs tail h (ground arith))
      | inr e ↦ rw e (
          copy_peers-compact_all n addrs tail h (omega arith)
          ∙ (take_over n addrs (omega arith)
              ∙ sym (take_over max_tracker_peers addrs (ground arith))))
    ])

-- The same with nothing behind the peers.
pub copy_peers-peer_count :
    (addrs : List PeerAddr)
    → All IsPeerAddr addrs
    → copy_peers (peer_count (length (compact_all addrs))) (compact_all addrs)
      ≡ take max_tracker_peers addrs
unfolding compact_peers
copy_peers-peer_count addrs h =
    subst (λ b. compact_peers b ≡ take max_tracker_peers addrs) (append-nil (compact_all addrs))
      (compact_peers-compact_all addrs [] h (omega arith))
