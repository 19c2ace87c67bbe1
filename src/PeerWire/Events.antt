-- ===== src/PeerWire/Events.antt =====
-- src/peer_wire.c, peer_recv_event: whole frames are read, and others are left alone.
use ps5torrent.Base.{
  ℕ, ◌+◌, ◌^◌, ◌<◌, ◌≤◌, ◌≡◌, refl, ap, sym, ◌∙◌, ◌++◌, Bool, true, false, not, ◌&&◌, none, List,
  [], ◌∷◌, Bytes, length, take, drop, ltb, ◌==◌, if_cases, arith, length-append, take_within,
  lt→ltb, append_assoc, Bool-cases, inl, inr,
}
use ps5torrent.Base.Memory.{Grants}
use ps5torrent.Base.Outcome.{Outcome, ok}
use ps5torrent.Base.Endian.{encode32, decode32, decode32-encode32}
use ps5torrent.Net.Receive.{stream, NonEmpty}
use ps5torrent.PeerWire.Defs.{
  Event, plain, max_frame, bad_length, recv_id, recv_frame, peer_recv_event,
}
use ps5torrent.PeerWire.Frames.{
  event_of, allowed, Takes, reads, reads_word, decode32-take, body_lem, ltb_le,
}

-- A frame: its length, its id and its payload.
abbrev pub frame : ℕ → Bytes → Bytes
frame id payload = encode32 (1 + length payload) ++ id ∷ payload

length-encode32 : (x : ℕ) → length (encode32 x) ≡ 4
unfolding encode32
length-encode32 x = refl

drop-header : (x : ℕ) (p : Bytes) → drop 4 (encode32 x ++ p) ≡ p
unfolding encode32
drop-header x p = refl

not_both : (b p q : Bool) → b ≡ true → (not b && p && q) ≡ true → ⊥
not_both true p q e a = cc
not_both false p q e a = cc

not_bad : (id n : ℕ) → allowed id n ≡ true → bad_length id n ≡ false
not_bad id n a = elim (Bool-cases (bad_length id n)) [
  | inl e ↦ absurd (not_both (bad_length id n) _ _ e a)
  | inr e ↦ e
]

-- The first four bytes give the length.
header :
    (xs ys : Bytes) (x : ℕ) (p : Bytes)
    → 4 ≤ length xs
    → x < 2 ^ 32
    → xs ++ ys ≡ encode32 x ++ p
    → decode32 xs ≡ x
header xs ys x p h l e =
    sym (decode32-take xs)
    ∙ (ap decode32 (sym (take_within 4 xs ys h) ∙ ap (take 4) e)
        ∙ (decode32-take (encode32 x ++ p) ∙ decode32-encode32 x p l))

module _ (malloc : ℕ → Bool) (grants : Grants malloc) (id : ℕ) (payload rest : Bytes)
    (segs : List Bytes) (ne : NonEmpty segs) (small : 1 + length payload ≤ max_frame)
    (ok_length : allowed id (1 + length payload) ≡ true)
    (s : stream segs ≡ frame id payload ++ rest) where
  recv_frame_lem : Takes (event_of id payload) rest (recv_frame malloc segs)
  unfolding recv_frame recv_id
  recv_frame_lem =
      let (segs₁, e₁, ne₁, s₁) =
        reads_word (frame id payload) rest segs
          (omega (
            arith,
            length-append (encode32 (1 + length payload)) (id ∷ payload),
            length-encode32 (1 + length payload),
          ))
          ne s in
      let n = decode32-encode32 (1 + length payload) (id ∷ payload) (omega (arith, small)) in
      let z : (1 + length payload == 0) ≡ false = ground arith in
      let (segs₂, e₂, ne₂, s₂) =
        reads 1 (id ∷ []) (payload ++ rest) segs₁ refl ne₁
          (s₁ ∙ ap (λ t. t ++ rest) (drop-header (1 + length payload) (id ∷ payload))) in
      rw
        (
          e₁,
          n,
          ltb_le max_frame (1 + length payload) small,
          z,
          e₂,
          not_bad id (1 + length payload) ok_length,
        )
        (body_lem malloc grants payload rest segs₂ ne₂ s₂ id small ok_length)

  peer_recv_event_lem :
      (closed : Bool) → Takes (event_of id payload) rest (peer_recv_event malloc closed segs)
  unfolding peer_recv_event
  peer_recv_event_lem closed =
      let n : decode32 (stream segs) ≡ 1 + length payload =
        ap decode32 (s ∙ append_assoc (encode32 (1 + length payload)) (id ∷ payload) rest)
        ∙ decode32-encode32 (1 + length payload) (id ∷ payload ++ rest) (omega (arith, small)) in
      let l : length (stream segs) ≡ 5 + length payload + length rest = omega (
        arith,
        ap length s,
        length-append (frame id payload) rest,
        length-append (encode32 (1 + length payload)) (id ∷ payload),
        length-encode32 (1 + length payload),
      ) in
      let some_ : (length (stream segs) == 0) ≡ false = ground arith in
      rw
        (
          n,
          some_,
          ltb_le (length (stream segs)) 4 (omega (arith, l)),
          ltb_le max_frame (1 + length payload) small,
          ltb_le (length (stream segs)) (1 + length payload + 4) (omega (arith, l)),
        )
        recv_frame_lem

-- A whole frame of an allowed length, however recv cuts it, gives the event that its id and its
-- payload stand for, and leaves exactly what is behind it; allocations up to 2 ^ 62 bytes succeed.
pub peer_recv_event-frame :
    (malloc : ℕ → Bool) (closed : Bool) (id : ℕ) (payload rest : Bytes) (segs : List Bytes)
    → Grants malloc
    → NonEmpty segs
    → 1 + length payload ≤ max_frame
    → allowed id (1 + length payload) ≡ true
    → stream segs ≡ frame id payload ++ rest
    → Takes (event_of id payload) rest (peer_recv_event malloc closed segs)
peer_recv_event-frame malloc closed id payload rest segs grants ne small a s =
    peer_recv_event_lem malloc grants id payload rest segs ne small a s closed

-- A frame of which bytes are missing is reported as incomplete, and nothing is taken from the
-- connection, while the peer has not closed it.
pub peer_recv_event_incomplete :
    (malloc : ℕ → Bool) (id : ℕ) (payload missing : Bytes) (segs : List Bytes)
    → 1 + length payload ≤ max_frame
    → 0 < length missing
    → stream segs ++ missing ≡ frame id payload
    → peer_recv_event malloc false segs ≡ ok (plain 2 none, segs)
unfolding peer_recv_event
peer_recv_event_incomplete malloc id payload missing segs small m s =
    let l : length (stream segs) + length missing ≡ 5 + length payload = omega (
      arith,
      ap length s,
      length-append (stream segs) missing,
      length-append (encode32 (1 + length payload)) (id ∷ payload),
      length-encode32 (1 + length payload),
    ) in
    let Good : Outcome (Event × List Bytes) → Type 0 = λ r. r ≡ ok (plain 2 none, segs) in
    if_cases Good (length (stream segs) == 0) (λ _. refl)
      (λ _.
        if_cases Good (ltb (length (stream segs)) 4) (λ _. refl)
          (λ e.
            let n : decode32 (stream segs) ≡ 1 + length payload =
              header (stream segs) missing (1 + length payload) (id ∷ payload) (ground arith)
                (omega (arith, small)) s in
            rw
              (
                n,
                ltb_le max_frame (1 + length payload) small,
                lt→ltb (length (stream segs)) (1 + length payload + 4) (omega (arith, l, m)),
              )
              refl))
