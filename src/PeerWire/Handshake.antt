-- ===== src/PeerWire/Handshake.antt =====
-- src/peer_wire.c, peer_handshake against peer_handshake_init.
use ps5torrent.Base.{
  ℕ, ◌≡◌, refl, ap, sym, ◌∙◌, ◌++◌, List, [], ◌∷◌, Bytes, length, take, drop, replicate,
  bytes_eq_refl, arith, length-append, take-append_length, drop-append_length, append-nil,
}
use ps5torrent.Base.Outcome.{ok}
use ps5torrent.Net.Receive.{stream, NonEmpty, net_recv_exact}
use ps5torrent.PeerWire.Defs.{protocol, peer_handshake_init, peer_handshake}
use ps5torrent.PeerWire.Frames.{reads}

whole : (xs : Bytes) (n : ℕ) → length xs ≡ n → take n xs ≡ xs
whole xs n h =
    ap (λ k. take k xs) (sym h)
    ∙ (ap (take (length xs)) (sym (append-nil xs)) ∙ take-append_length xs [])

-- The hash and the id of the other side's message.
abbrev ids : Bytes → Bytes → Bytes
ids info_hash peer_id = replicate 8 0 ++ (info_hash ++ peer_id)

-- The three reads of a handshake that is accepted.
accepted :
    (info_hash peer_id : Bytes) (segs segs₁ segs₂ segs₃ : List Bytes)
    → length info_hash ≡ 20
    → net_recv_exact 1 segs ≡ ok (19 ∷ [], segs₁)
    → net_recv_exact 19 segs₁ ≡ ok (protocol, segs₂)
    → net_recv_exact 48 segs₂ ≡ ok (ids info_hash peer_id, segs₃)
    → peer_handshake info_hash segs ≡ ok (peer_id, segs₃)
unfolding peer_handshake
accepted info_hash peer_id segs segs₁ segs₂ segs₃ h e₁ e₂ e₃ =
    let hash : take 20 (info_hash ++ peer_id) ≡ info_hash =
      ap (λ k. take k (info_hash ++ peer_id)) (sym h) ∙ take-append_length info_hash peer_id in
    let id : drop 20 (info_hash ++ peer_id) ≡ peer_id =
      ap (λ k. drop k (info_hash ++ peer_id)) (sym h) ∙ drop-append_length info_hash peer_id in
    let e : take 20 info_hash ≡ info_hash = whole info_hash 20 h in
    rw (e₁, e₂, e₃, hash, e, bytes_eq_refl info_hash, id) refl

-- A handshake for the same torrent is accepted, however recv cuts it, gives the other side's id,
-- and leaves exactly what is behind it.
pub peer_handshake-peer_handshake_init :
    (info_hash peer_id rest : Bytes) (segs : List Bytes)
    → length info_hash ≡ 20
    → length peer_id ≡ 20
    → NonEmpty segs
    → stream segs ≡ peer_handshake_init info_hash peer_id ++ rest
    → (segs' : List Bytes) × (peer_handshake info_hash segs ≡ ok (peer_id, segs'))
      × (stream segs' ≡ rest)
unfolding peer_handshake_init
peer_handshake-peer_handshake_init info_hash peer_id rest segs h p ne s =
    let e : take 20 info_hash ≡ info_hash = whole info_hash 20 h in
    let d : take 20 peer_id ≡ peer_id = whole peer_id 20 p in
    let t =
      s
      ∙ (ap (λ x. (19 ∷ (protocol ++ ids x (take 20 peer_id))) ++ rest) e
          ∙ ap (λ x. (19 ∷ (protocol ++ ids info_hash x)) ++ rest) d) in
    let (segs₁, e₁, ne₁, s₁) =
      reads 1 (19 ∷ []) ((protocol ++ ids info_hash peer_id) ++ rest) segs refl ne t in
    let (segs₂, e₂, ne₂, s₂) =
      reads 19 protocol (ids info_hash peer_id ++ rest) segs₁ refl ne₁ s₁ in
    let (segs₃, e₃, ne₃, s₃) =
      reads 48 (ids info_hash peer_id) rest segs₂
        (omega (arith, h, p, length-append info_hash peer_id)) ne₂ s₂ in
    (segs₃, accepted info_hash peer_id segs segs₁ segs₂ segs₃ h e₁ e₂ e₃, s₃)
