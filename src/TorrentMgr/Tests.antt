-- ===== src/TorrentMgr/Tests.antt =====
-- Runs of the candidates of src/torrent_mgr.c.
use ps5torrent.Base.{◌≡◌, refl, arith, false, List, [], ◌∷◌}
use ps5torrent.TorrentMgr.Candidates.{PeerAddr, Candidate, fresh, add_candidate, same_peer}
use ps5torrent.TorrentMgr.Distinct.{IsPool, add_candidate-IsPool}

abbrev first_peer : PeerAddr
first_peer = record { ip = 7; port = 6881 }

abbrev second_peer : PeerAddr
second_peer = record { ip = 7; port = 6882 }

abbrev one_candidate : List Candidate
one_candidate = fresh first_peer ∷ []

add_candidate-IsPool_example : IsPool (add_candidate (λ _. false) one_candidate second_peer)
add_candidate-IsPool_example =
    add_candidate-IsPool (λ _. false) one_candidate second_peer ((tt, tt), omega arith, (refl, tt))

added_twice : add_candidate (λ _. false) one_candidate first_peer ≡ one_candidate
unfolding add_candidate same_peer
added_twice = refl
