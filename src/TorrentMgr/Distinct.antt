-- ===== src/TorrentMgr/Distinct.antt =====
-- src/torrent_mgr.c, add_candidate: no peer is listed twice, and the array does not overflow.
use ps5torrent.Base.{
  ℕ, zero, suc, ◌+◌, ◌≤◌, ◌≡◌, refl, sym, ◌∙◌, ◌++◌, Bool, true, false, ◌||◌, Option, none, some,
  List, [], ◌∷◌, length, set, ◌==◌, arith, if_cases, All, All-append, length-append, length-set,
}
use ps5torrent.TorrentMgr.Candidates.{
  PeerAddr, Candidate, max_tracker_peers, same_peer, known, worst, fresh, unusable, add_candidate,
}

-- None of the candidates has the address.
abbrev pub Unlisted : PeerAddr → List Candidate → Type 0
Unlisted addr cs = All (λ c. same_peer c.addr addr ≡ false) cs

abbrev pub Distinct : List Candidate → Type 0
Distinct [] = Unit
Distinct (c ∷ cs) = Unlisted c.addr cs × Distinct cs

abbrev pub IsPool : List Candidate → Type 0
IsPool cs = Distinct cs × (length cs ≤ max_tracker_peers) × All (λ c. unusable c.addr ≡ false) cs

same_peer_comm : (a b : PeerAddr) → same_peer a b ≡ same_peer b a
unfolding same_peer
same_peer_comm a b = ground arith

neither : (p q : Bool) → (p || q) ≡ false → (p ≡ false) × (q ≡ false)
neither true q h = cc
neither false q h = (refl, h)

known-Unlisted : (cs : List Candidate) (addr : PeerAddr) → known cs addr ≡ false → Unlisted addr cs
unfolding known
known-Unlisted [] addr h = tt
known-Unlisted (c ∷ cs) addr h =
    let (a, b) = neither (same_peer c.addr addr) (known cs addr) h in (a, known-Unlisted cs addr b)

All-set :
    {A : Type 0} (P : A → Type 0) (xs : List A) (i : ℕ) (v : A)
    → P v
    → All P xs
    → All P (set xs i v)
All-set P [] i v p h = tt
All-set P (x ∷ xs) zero v p (_, h) = (p, h)
All-set P (x ∷ xs) (suc i) v p (q, h) = (q, All-set P xs i v p h)

same_peer_flip : (a b : PeerAddr) → same_peer a b ≡ false → same_peer b a ≡ false
same_peer_flip a b h = sym (same_peer_comm a b) ∙ h

Unlisted-flip :
    (addr : PeerAddr) (cs : List Candidate)
    → Unlisted addr cs
    → All (λ c. same_peer addr c.addr ≡ false) cs
Unlisted-flip addr [] h = tt
Unlisted-flip addr (c ∷ cs) (p, h) = (same_peer_flip c.addr addr p, Unlisted-flip addr cs h)

Distinct-set :
    (cs : List Candidate) (i : ℕ) (addr : PeerAddr)
    → Unlisted addr cs
    → Distinct cs
    → Distinct (set cs i (fresh addr))
Distinct-set [] i addr u d = tt
Distinct-set (c ∷ cs) zero addr (_, u) (_, d) = (u, d)
Distinct-set (c ∷ cs) (suc i) addr (p, u) (q, d) = (
  All-set (λ x. same_peer x.addr c.addr ≡ false) cs i (fresh addr) (same_peer_flip c.addr addr p) q,
  Distinct-set cs i addr u d,
)

Distinct-append :
    (cs : List Candidate) (addr : PeerAddr)
    → Unlisted addr cs
    → Distinct cs
    → Distinct (cs ++ fresh addr ∷ [])
Distinct-append [] addr u d = (tt, tt)
Distinct-append (c ∷ cs) addr (p, u) (q, d) = (
  All-append (λ x. same_peer x.addr c.addr ≡ false) cs (fresh addr ∷ []) q
      (same_peer_flip c.addr addr p, tt),
  Distinct-append cs addr u d,
)

IsPool-reused :
    (cs : List Candidate) (addr : PeerAddr) (slot : Option (ℕ × ℕ))
    → unusable addr ≡ false
    → Unlisted addr cs
    → IsPool cs
    → IsPool (elim slot [ none ↦ cs | some (i, n) ↦ set cs i (fresh addr) ])
IsPool-reused cs addr none h u p = p
IsPool-reused cs addr (some (i, n)) h u (d, l, a) = (
  Distinct-set cs i addr u d,
  omega (arith, l, length-set cs i (fresh addr)),
  All-set (λ c. unusable c.addr ≡ false) cs i (fresh addr) h a,
)

room :
    (n m : ℕ)
    → n ≤ max_tracker_peers
    → (n == max_tracker_peers) ≡ false
    → m ≡ n + 1
    → m ≤ max_tracker_peers
room n m l f e = ground arith

-- add_candidate keeps the candidates distinct, usable, and at most as many as the array holds,
-- whether it adds one, reuses a slot, or does nothing.
pub add_candidate-IsPool :
    (peer_is_connected : PeerAddr → Bool) (cs : List Candidate) (addr : PeerAddr)
    → IsPool cs
    → IsPool (add_candidate peer_is_connected cs addr)
unfolding add_candidate
add_candidate-IsPool connected cs addr (d, l, a) =
    if_cases IsPool (unusable addr || known cs addr) (λ _. (d, l, a))
      (λ e.
        let (h, k) = neither (unusable addr) (known cs addr) e in
        let u = known-Unlisted cs addr k in
        if_cases IsPool (length cs == max_tracker_peers)
          (λ _. IsPool-reused cs addr (worst connected cs 0 none) h u (d, l, a))
          (λ f. (
            Distinct-append cs addr u d,
            room (length cs) (length (cs ++ fresh addr ∷ [])) l f
                (length-append cs (fresh addr ∷ [])),
            All-append (λ c. unusable c.addr ≡ false) cs (fresh addr ∷ []) a (h, tt),
          )))
