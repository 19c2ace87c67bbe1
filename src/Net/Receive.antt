-- ===== src/Net/Receive.antt =====
-- src/net_utils.c, net_recv_exact. A connection is the segments that recv will deliver, one for a
-- call, and the end of the stream behind them; an interrupted call is repeated and leaves no trace.
use ps5torrent.Base.{
  ℕ, ◌-◌, ◌<◌, ◌≤◌, ◌≡◌, refl, sym, ◌∙◌, ◌++◌, List, [], ◌∷◌, Bytes, length, take, drop,
  length-append, ltb, ◌==◌, ==_iff, if◌then◌else◌, All, arith, take_within, take_beyond,
  drop_within, drop_beyond, length-drop, if_cases,
}
use ps5torrent.Base.Outcome.{Outcome, ok, null, ◌>>=◌}

-- The stream that the segments are parts of.
abbrev pub stream : List Bytes → Bytes
stream [] = []
stream (seg ∷ segs) = seg ++ stream segs

-- recv never returns 0 in front of the end.
abbrev pub NonEmpty : List Bytes → Type 0
NonEmpty segs = All (λ seg. 0 < length seg) segs

abbrev pub prepend : Bytes → Bytes × List Bytes → Outcome (Bytes × List Bytes)
prepend seg (bytes, segs) = ok (seg ++ bytes, segs)

unfoldable pub net_recv_exact : ℕ → List Bytes → Outcome (Bytes × List Bytes)
net_recv_exact n [] = if n == 0 then ok ([], []) else null
net_recv_exact n (seg ∷ segs) =
    let more = net_recv_exact (n - length seg) segs in
    if n == 0
    then ok ([], seg ∷ segs)
    else if length seg == 0
    then null
    else if ltb n (length seg)
    then ok (take n seg, drop n seg ∷ segs)
    else more >>= prepend seg

-- The next `n` bytes of the stream, and the rest of it.
abbrev pub Received : ℕ → List Bytes → Outcome (Bytes × List Bytes) → Type 0
Received n segs r =
    (segs' : List Bytes) × (r ≡ ok (take n (stream segs), segs'))
    × NonEmpty segs'
    × (stream segs' ≡ drop n (stream segs))

Received-more :
    (n : ℕ) (seg : Bytes) (segs : List Bytes) (r : Outcome (Bytes × List Bytes))
    → length seg ≤ n
    → Received (n - length seg) segs r
    → Received n (seg ∷ segs) (r >>= prepend seg)
Received-more n seg segs r h (segs', e, ne, s) = (
  segs',
  rw (e, take_beyond n seg (stream segs) h) refl,
  ne,
  s ∙ sym (drop_beyond n seg (stream segs) h),
)

-- net_recv_exact gets the next bytes of the stream, however recv cuts it into segments, as long as
-- none is empty and the stream is long enough.
pub net_recv_exact-stream :
    (n : ℕ) (segs : List Bytes)
    → NonEmpty segs
    → n ≤ length (stream segs)
    → Received n segs (net_recv_exact n segs)
unfolding net_recv_exact
net_recv_exact-stream n [] h l = let e : n ≡ 0 = omega arith in rw e ([], refl, tt, refl)
net_recv_exact-stream n (seg ∷ segs) (h, hs) l =
    let Good = Received n (seg ∷ segs) in
    if_cases Good (n == 0)
      (λ e. let z : n ≡ 0 = (==_iff n 0).0 e in rw z (seg ∷ segs, refl, (h, hs), refl))
      (λ _.
        if_cases Good (length seg == 0) (λ e. absurd (ground arith))
          (λ _.
            if_cases Good (ltb n (length seg))
              (λ e.
                let m : n ≤ length seg = ground arith in
                (
                  drop n seg ∷ segs,
                  rw (take_within n seg (stream segs) m) refl,
                  (ground (arith, length-drop n seg), hs),
                  sym (drop_within n seg (stream segs) m),
                ))
              (λ e. Received-more n seg segs _ (ground arith) (
                net_recv_exact-stream (n - length seg) segs hs
                  (ground (arith, length-append seg (stream segs)))))))
