-- ===== src/PeerWire/Frames.antt =====
-- src/peer_wire.c, peer_recv_event: what a frame means, independently of the reads.
use ps5torrent.Base.{
  ℕ, ◌+◌, ◌-◌, ◌*◌, ◌^◌, ◌≤◌, ◌≡◌, refl, ap, sym, ◌∙◌, ◌++◌, Bool, true, false, not, ◌&&◌, some,
  List, [], ◌∷◌, Bytes, length, take, drop, leb, ltb, ◌==◌, ==_iff, if◌then◌else◌, if_cases, arith,
  length-append, take-append_length, take-append-drop, drop_all, drop-drop, length-take,
  length-drop, append_assoc, drop-append_length, Bool-cases, inl, inr,
}
use ps5torrent.Base.Memory.{Grants}
use ps5torrent.Base.Outcome.{Outcome, ok}
use ps5torrent.Base.Endian.{decode32}
use ps5torrent.Net.Receive.{stream, NonEmpty, net_recv_exact, net_recv_exact-stream}
use ps5torrent.PeerWire.Defs.{
  Event, plain, max_frame, recv_word, skip, recv_have, recv_bitfield, recv_piece, recv_body,
  bad_length,
}

-- What the caller finds behind a frame with this id and payload.
abbrev pub event_of : ℕ → Bytes → Event
event_of id payload =
    if id == 4
    then record (plain 1 (some 4)) { piece_index = some (decode32 payload) }
    else if id == 5
    then record (plain 1 (some 5)) { payload = payload }
    else if id == 7
    then record {
      code = 0;
      type = some 7;
      piece_index = some (decode32 payload);
      piece_begin = some (decode32 (drop 4 payload));
      payload = drop 8 payload;
    }
    else plain 1 (some id)

-- The lengths that the protocol allows, with the id counted.
abbrev pub allowed : ℕ → ℕ → Bool
allowed id len =
    not (bad_length id len)
    && not (id == 5 && ltb (256 * 1024) (len - 1))
    && not (id == 7 && ltb len 9)

-- The result and the rest of the stream.
abbrev pub Takes : Event → Bytes → Outcome (Event × List Bytes) → Type 0
Takes event rest r = (segs : List Bytes) × (r ≡ ok (event, segs)) × (stream segs ≡ rest)

-- A read of `bytes`.
abbrev Read : Bytes → Bytes → Outcome (Bytes × List Bytes) → Type 0
Read bytes rest r =
    (segs : List Bytes) × (r ≡ ok (bytes, segs)) × NonEmpty segs × (stream segs ≡ rest)

pub reads :
    (n : ℕ) (bytes rest : Bytes) (segs : List Bytes)
    → length bytes ≡ n
    → NonEmpty segs
    → stream segs ≡ bytes ++ rest
    → Read bytes rest (net_recv_exact n segs)
reads n bytes rest segs l ne s =
    let (segs', e, ne', s') =
      net_recv_exact-stream n segs ne (omega (arith, l, ap length s, length-append bytes rest)) in
    let head : take n (stream segs) ≡ bytes =
      ap (take n) s ∙ (ap (λ k. take k (bytes ++ rest)) (sym l) ∙ take-append_length bytes rest) in
    let tail : drop n (stream segs) ≡ rest =
      ap (drop n) s ∙ (ap (λ k. drop k (bytes ++ rest)) (sym l) ∙ drop-append_length bytes rest) in
    (segs', e ∙ ap (λ b. ok (b, segs')) head, ne', s' ∙ tail)

pub decode32-take : (p : Bytes) → decode32 (take 4 p) ≡ decode32 p
unfolding decode32
decode32-take [] = refl
decode32-take (a ∷ []) = refl
decode32-take (a ∷ b ∷ []) = refl
decode32-take (a ∷ b ∷ c ∷ []) = refl
decode32-take (a ∷ b ∷ c ∷ d ∷ p) = refl

-- A word in front of the rest.
pub reads_word :
    (p rest : Bytes) (segs : List Bytes)
    → 4 ≤ length p
    → NonEmpty segs
    → stream segs ≡ p ++ rest
    → (segs' : List Bytes) × (recv_word segs ≡ ok (decode32 p, segs'))
      × NonEmpty segs'
      × (stream segs' ≡ drop 4 p ++ rest)
reads_word p rest segs l ne s =
    let (segs', e, ne', s') =
      reads 4 (take 4 p) (drop 4 p ++ rest) segs (omega (arith, length-take 4 p, l)) ne (
        s
        ∙ (ap (λ t. t ++ rest) (sym (take-append-drop 4 p))
            ∙ append_assoc (take 4 p) (drop 4 p) rest)) in
    (segs', rw e (ap (λ w. ok (w, segs')) (decode32-take p)), ne', s')

abbrev block : ℕ → ℕ → Bytes → Event
block index begin bytes = record {
  code = 0;
  type = some 7;
  piece_index = some index;
  piece_begin = some begin;
  payload = bytes;
}

length_zero : (xs : Bytes) → (length xs == 0) ≡ true → xs ≡ []
length_zero [] h = refl
length_zero (x ∷ xs) h = absurd (ground arith)

pub ltb_le : (a b : ℕ) → b ≤ a → ltb a b ≡ false
ltb_le a b h = ground arith

bare : (id n : ℕ) → leb id 3 ≡ true → allowed id (1 + n) ≡ true → (n == 0) ≡ true
bare id n e a = ground arith

have_size : (n : ℕ) → allowed 4 (1 + n) ≡ true → n ≡ 4
have_size n a = ground arith

bitfield_size : (n : ℕ) → allowed 5 (1 + n) ≡ true → n ≤ 256 * 1024
bitfield_size n a = ground arith

piece_size : (n : ℕ) → allowed 7 (1 + n) ≡ true → 8 ≤ n
piece_size n a = ground arith

module _ (malloc : ℕ → Bool) (grants : Grants malloc) (payload rest : Bytes) (segs : List Bytes)
    (ne : NonEmpty segs) (s : stream segs ≡ payload ++ rest) where
  have_lem : length payload ≡ 4 → Takes (event_of 4 payload) rest (recv_have malloc segs)
  unfolding recv_have
  have_lem l =
      let (segs', e, ne', s') = reads_word payload rest segs (omega (arith, l)) ne s in
      rw e (segs', refl, s' ∙ ap (λ t. t ++ rest) (drop_all 4 payload l))

  bitfield_lem :
      length payload ≤ 256 * 1024
      → Takes (event_of 5 payload) rest (recv_bitfield malloc (1 + length payload) segs)
  unfolding recv_bitfield
  bitfield_lem l =
      let n : 1 + length payload - 1 ≡ length payload = omega arith in
      let (segs', e, ne', s') = reads (length payload) payload rest segs refl ne s in
      rw (n, ltb_le (256 * 1024) (length payload) l, e) (segs', refl, s')

  piece_lem :
      8 ≤ length payload
      → Takes (event_of 7 payload) rest (recv_piece malloc (1 + length payload) segs)
  unfolding recv_piece
  piece_lem l =
      let (segs₁, e₁, ne₁, s₁) = reads_word payload rest segs (omega (arith, l)) ne s in
      let (segs₂, e₂, ne₂, s₂) =
        reads_word (drop 4 payload) rest segs₁ (omega (arith, l, length-drop 4 payload)) ne₁ s₁ in
      let s₃ = s₂ ∙ ap (λ t. t ++ rest) (sym (drop-drop 4 4 payload)) in
      let n : 1 + length payload - 9 ≡ length (drop 8 payload) =
        omega (arith, l, length-drop 8 payload) in
      let (segs₃, e₃, ne₃, s₄) =
        reads (length (drop 8 payload)) (drop 8 payload) rest segs₂ refl ne₂ s₃ in
      rw (ltb_le (1 + length payload) 9 (omega (arith, l)), e₁, e₂, n)
        (if_cases (Takes (event_of 7 payload) rest) (length (drop 8 payload) == 0)
          (λ z.
            let nothing = length_zero (drop 8 payload) z in
            rw (grants 0 (omega arith)) (
              segs₂,
              ap (λ d. ok (block (decode32 payload) (decode32 (drop 4 payload)) d, segs₂))
                  (sym nothing),
              s₃ ∙ ap (λ t. t ++ rest) nothing,
            ))
          (λ _. rw e₃ (segs₃, refl, s₄)))

  skip_lem : length payload ≤ 2 ^ 62 → stream (skip malloc (length payload) segs) ≡ rest
  skip_lem l =
      let (segs', e, ne', s') = reads (length payload) payload rest segs refl ne s in
      if_cases (λ x. stream x ≡ rest) (length payload == 0)
        (λ z. s ∙ ap (λ t. t ++ rest) (length_zero payload z))
        (λ _. rw (grants (length payload) l, e) s')

  pub body_lem :
      (id : ℕ)
      → 1 + length payload ≤ max_frame
      → allowed id (1 + length payload) ≡ true
      → Takes (event_of id payload) rest (recv_body malloc id (1 + length payload) segs)
  unfolding recv_body
  body_lem id l a = elim (Bool-cases (leb id 3)) [
    | inl e ↦
        let n4 : (id == 4) ≡ false = ground arith in
        let n5 : (id == 5) ≡ false = ground arith in
        let n7 : (id == 7) ≡ false = ground arith in
        let z = length_zero payload (bare id (length payload) e a) in
        rw (e, n4, n5, n7) (segs, refl, s ∙ ap (λ t. t ++ rest) z)
    | inr e ↦ elim (Bool-cases (id == 4)) [
      | inl e4 ↦
          let i : id ≡ 4 = (==_iff id 4).0 e4 in
          rw i (have_lem (have_size (length payload) (rw i at a)))
      | inr n4 ↦ elim (Bool-cases (id == 5)) [
        | inl e5 ↦
            let i : id ≡ 5 = (==_iff id 5).0 e5 in
            rw i (bitfield_lem (bitfield_size (length payload) (rw i at a)))
        | inr n5 ↦ elim (Bool-cases (id == 7)) [
          | inl e7 ↦
              let i : id ≡ 7 = (==_iff id 7).0 e7 in
              rw i (piece_lem (piece_size (length payload) (rw i at a)))
          | inr n7 ↦
              let n : 1 + length payload - 1 ≡ length payload = omega arith in
              rw (e, n4, n5, n7, n) (_, refl, skip_lem (omega (arith, l)))
        ]
      ]
    ]
  ]
