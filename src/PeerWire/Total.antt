-- ===== src/PeerWire/Total.antt =====
-- src/peer_wire.c, peer_recv_event: what it returns on any input.
use ps5torrent.Base.{
  ℕ, ◌+◌, ◌-◌, ◌*◌, ◌≤◌, ◌≡◌, Bool, List, [], ◌∷◌, Bytes, length, length-take, length-append, ltb,
  leb, ◌==◌, get_or, if_cases, arith,
}
use ps5torrent.Base.Outcome.{Outcome, ok, null, fault, out_of_fuel, bind}
use ps5torrent.Base.Endian.{decode32}
use ps5torrent.Net.Receive.{net_recv_exact, stream, prepend}
use ps5torrent.PeerWire.Defs.{
  Event, peer_recv_event, recv_frame, recv_id, recv_body, recv_piece, recv_bitfield, recv_have,
  recv_word, bad_length, max_frame,
}

-- A result of which P holds, or a failure that the caller sees.
abbrev pub Ends {ℓ} : {A : Type ℓ} → (A → Type 0) → Outcome A → Type 0
Ends P (ok a) = P a
Ends P null = Unit
Ends P fault = ⊥
Ends P out_of_fuel = ⊥

Ends-bind {ℓ κ} :
    {A : Type ℓ} {B : Type κ} (P : A → Type 0) (Q : B → Type 0) (r : Outcome A) (f : A → Outcome B)
    → Ends P r
    → ((a : A) → P a → Ends Q (f a))
    → Ends Q (bind r f)
Ends-bind P Q (ok a) f h k = k a h
Ends-bind P Q null f h k = tt
Ends-bind P Q fault f h k = h
Ends-bind P Q out_of_fuel f h k = h

-- `n` bytes and what is left of the segments.
abbrev Sized : ℕ → Bytes × List Bytes → Type 0
Sized n (bytes, segs) = length bytes ≡ n

net_recv_exact-Sized : (n : ℕ) (segs : List Bytes) → Ends (Sized n) (net_recv_exact n segs)
unfolding net_recv_exact
net_recv_exact-Sized n [] = if_cases (Ends (Sized n)) (n == 0) (λ e. ground arith) (λ _. tt)
net_recv_exact-Sized n (seg ∷ segs) =
    if_cases (Ends (Sized n)) (n == 0) (λ e. ground arith)
      (λ _.
        if_cases (Ends (Sized n)) (length seg == 0) (λ _. tt)
          (λ _.
            if_cases (Ends (Sized n)) (ltb n (length seg)) (λ e. ground (arith, length-take n seg))
              (λ e.
                Ends-bind (Sized (n - length seg)) (Sized n) (net_recv_exact (n - length seg) segs)
                  (prepend seg) (net_recv_exact-Sized (n - length seg) segs)
                  (λ a h. ground (arith, length-append seg a.0, h)))))

abbrev Anything : ℕ × List Bytes → Type 0
Anything a = Unit

recv_word-Anything : (segs : List Bytes) → Ends Anything (recv_word segs)
recv_word-Anything segs =
    Ends-bind (Sized 4) Anything (net_recv_exact 4 segs) _ (net_recv_exact-Sized 4 segs) (λ a h. tt)

-- The payload fits the buffer of 256 KiB that the caller passes as `data`.
abbrev pub InBuffer : Event × List Bytes → Type 0
InBuffer (e, segs) = length e.payload ≤ 256 * 1024

abbrev pub Buffered : Outcome (Event × List Bytes) → Type 0
Buffered r = Ends InBuffer r

module _ (malloc : ℕ → Bool) where
  recv_piece-Buffered :
      (n : ℕ) (segs : List Bytes) → n ≤ max_frame → Buffered (recv_piece malloc n segs)
  unfolding recv_piece
  recv_piece-Buffered n segs small =
      if_cases Buffered (ltb n 9) (λ _. tt)
        (λ _. Ends-bind Anything InBuffer (recv_word segs) _ (recv_word-Anything segs) (λ a _.
          Ends-bind Anything InBuffer (recv_word a.1) _ (recv_word-Anything a.1) (λ b _.
            if_cases Buffered (n - 9 == 0)
              (λ _. if_cases Buffered (malloc 0) (λ _. omega arith) (λ _. tt))
              (λ _.
                Ends-bind (Sized (n - 9)) InBuffer (net_recv_exact (n - 9) b.1) _
                  (net_recv_exact-Sized (n - 9) b.1) (λ c h. omega (arith, h, small))))))

  recv_bitfield-Buffered : (n : ℕ) (segs : List Bytes) → Buffered (recv_bitfield malloc n segs)
  unfolding recv_bitfield
  recv_bitfield-Buffered n segs =
      if_cases Buffered (ltb (256 * 1024) (n - 1)) (λ _. tt)
        (λ e.
          Ends-bind (Sized (n - 1)) InBuffer (net_recv_exact (n - 1) segs) _
            (net_recv_exact-Sized (n - 1) segs) (λ a h. ground (arith, h, e)))

  recv_body-Buffered :
      (id n : ℕ) (segs : List Bytes) → n ≤ max_frame → Buffered (recv_body malloc id n segs)
  unfolding recv_body recv_have
  recv_body-Buffered id n segs small =
      if_cases Buffered (leb id 3) (λ _. omega arith)
        (λ _.
          if_cases Buffered (id == 4)
            (λ _.
              Ends-bind Anything InBuffer (recv_word segs) _ (recv_word-Anything segs)
                (λ a _. omega arith))
            (λ _.
              if_cases Buffered (id == 5) (λ _. recv_bitfield-Buffered n segs)
                (λ _.
                  if_cases Buffered (id == 7) (λ _. recv_piece-Buffered n segs small)
                    (λ _. omega arith))))

  recv_frame-Buffered : (segs : List Bytes) → Buffered (recv_frame malloc segs)
  unfolding recv_frame recv_id
  recv_frame-Buffered segs =
      Ends-bind Anything InBuffer (recv_word segs) _ (recv_word-Anything segs) (λ a _.
        if_cases Buffered (ltb max_frame a.0) (λ _. tt)
          (λ small.
            if_cases Buffered (a.0 == 0) (λ _. omega arith)
              (λ _.
                Ends-bind (Sized 1) InBuffer (net_recv_exact 1 a.1) _ (net_recv_exact-Sized 1 a.1)
                  (λ b _.
                    if_cases Buffered (bad_length (get_or b.0 0 0) a.0) (λ _. tt)
                      (λ _. recv_body-Buffered (get_or b.0 0 0) a.0 b.1 (ground arith))))))

  -- On any input, whatever the other side sent and however recv cuts it, peer_recv_event returns, and
  -- a message it reports has at most 256 KiB of data, the size of the buffer that process_peer passes.
  pub peer_recv_event-Buffered :
      (closed : Bool) (segs : List Bytes) → Buffered (peer_recv_event malloc closed segs)
  unfolding peer_recv_event
  peer_recv_event-Buffered closed segs =
      if_cases Buffered (length (stream segs) == 0)
        (λ _. if_cases Buffered closed (λ _. tt) (λ _. omega arith))
        (λ _.
          if_cases Buffered (ltb (length (stream segs)) 4) (λ _. omega arith)
            (λ _.
              if_cases Buffered (ltb max_frame (decode32 (stream segs))) (λ _. tt)
                (λ _.
                  if_cases Buffered (ltb (length (stream segs)) (decode32 (stream segs) + 4))
                    (λ _. omega arith) (λ _. recv_frame-Buffered segs))))
