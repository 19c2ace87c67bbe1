-- ===== src/PeerWire/Defs.antt =====
-- src/peer_wire.c: handshake, requests and received frames. A connection's input is the segments
-- that recv will deliver; what is sent is the bytes.
use ps5torrent.Base.{
  ℕ, ◌+◌, ◌-◌, ◌*◌, ◌++◌, Bool, not, ◌&&◌, ◌||◌, Option, none, some, List, [], ◌∷◌, Bytes, codes,
  length, get_or, take, drop, replicate, bytes_eq, leb, ltb, ◌==◌, if◌then◌else◌,
}
use ps5torrent.Base.Outcome.{Outcome, ok, null, ◌>>=◌}
use ps5torrent.Base.Endian.{encode32, decode32}
use ps5torrent.Net.Receive.{stream, net_recv_exact}

abbrev pub protocol : Bytes
protocol = codes "BitTorrent protocol"

-- peer_handshake_init: the bytes of the packed structure.
unfoldable pub peer_handshake_init : Bytes → Bytes → Bytes
peer_handshake_init info_hash peer_id =
    19 ∷ (protocol ++ (replicate 8 0 ++ (take 20 info_hash ++ take 20 peer_id)))

-- peer_handshake behind the sending: the remote peer's id.
unfoldable pub peer_handshake : Bytes → List Bytes → Outcome (Bytes × List Bytes)
unfolding net_recv_exact
peer_handshake info_hash segs = net_recv_exact 1 segs >>= λ (pstrlen, segs₁).
    if not (get_or pstrlen 0 0 == 19)
    then null
    else net_recv_exact 19 segs₁ >>= λ (pstr, segs₂).
        if not (bytes_eq pstr protocol)
        then null
        else net_recv_exact 48 segs₂ >>= λ (r, segs₃).
            if not (bytes_eq (take 20 (drop 8 r)) (take 20 info_hash))
            then null
            else ok (drop 28 r, segs₃)

unfoldable pub peer_send_interested : Bytes
unfolding encode32
peer_send_interested = encode32 1 ++ 2 ∷ []

unfoldable pub peer_send_request : ℕ → ℕ → ℕ → Bytes
unfolding encode32
peer_send_request index begin len =
    encode32 13 ++ 6 ∷ (encode32 index ++ (encode32 begin ++ encode32 len))

-- What the caller of peer_recv_event finds: the returned code (0 for a piece, 1 for another message
-- and 2 for an incomplete frame), and what was stored through the pointers. `type` is `none` for
-- PEER_MSG_KEEPALIVE.
pub record Event : Type 0 where
  pub code : ℕ
  pub type : Option ℕ
  pub piece_index : Option ℕ
  pub piece_begin : Option ℕ
  pub payload : Bytes

abbrev pub plain : ℕ → Option ℕ → Event
plain code type = record {
  code = code;
  type = type;
  piece_index = none;
  piece_begin = none;
  payload = [];
}

abbrev pub max_frame : ℕ
max_frame = 256 * 1024 + 9

-- A read whose failure is ignored: behind it the stream is at its end.
abbrev pub ignored : Outcome (Bytes × List Bytes) → List Bytes
ignored (ok (bytes, segs)) = segs
ignored _ = []

abbrev pub recv_word : List Bytes → Outcome (ℕ × List Bytes)
recv_word segs = net_recv_exact 4 segs >>= λ (b, segs'). ok (decode32 b, segs')

-- The tests of the length against the id.
abbrev pub bad_length : ℕ → ℕ → Bool
bad_length msg_id msg_len =
    (leb msg_id 3 && not (msg_len == 1))
    || (msg_id == 4 && not (msg_len == 5))
    || ((msg_id == 6 || msg_id == 8) && not (msg_len == 13))

module _ (malloc : ℕ → Bool) where
  -- `skip`: nothing is read where its buffer cannot be had.
  abbrev pub skip : ℕ → List Bytes → List Bytes
  skip n segs = if n == 0 then segs else if malloc n then ignored (net_recv_exact n segs) else segs

  unfoldable pub recv_have : List Bytes → Outcome (Event × List Bytes)
  unfolding net_recv_exact decode32
  recv_have segs = recv_word segs >>= λ (index, segs').
      ok (record (plain 1 (some 4)) { piece_index = some index }, segs')

  unfoldable pub recv_bitfield : ℕ → List Bytes → Outcome (Event × List Bytes)
  unfolding net_recv_exact
  recv_bitfield msg_len segs =
      if ltb (256 * 1024) (msg_len - 1)
      then null
      else net_recv_exact (msg_len - 1) segs >>= λ (bytes, segs').
          ok (record (plain 1 (some 5)) { payload = bytes }, segs')

  unfoldable pub recv_piece : ℕ → List Bytes → Outcome (Event × List Bytes)
  unfolding net_recv_exact decode32
  recv_piece msg_len segs =
      if ltb msg_len 9
      then null
      else recv_word segs >>= λ (index, segs₁). recv_word segs₁ >>= λ (begin, segs₂).
          if msg_len - 9 == 0
          then if malloc 0
            then ok (
              record {
                code = 0;
                type = some 7;
                piece_index = some index;
                piece_begin = some begin;
                payload = [];
              },
              segs₂,
            )
            else null
          else net_recv_exact (msg_len - 9) segs₂ >>= λ (bytes, segs₃). ok (
            record {
              code = 0;
              type = some 7;
              piece_index = some index;
              piece_begin = some begin;
              payload = bytes;
            },
            segs₃,
          )

  -- The switch on the message's id.
  unfoldable pub recv_body : ℕ → ℕ → List Bytes → Outcome (Event × List Bytes)
  unfolding recv_have recv_bitfield recv_piece net_recv_exact
  recv_body msg_id msg_len segs =
      if leb msg_id 3
      then ok (plain 1 (some msg_id), segs)
      else if msg_id == 4
      then recv_have segs
      else if msg_id == 5
      then recv_bitfield msg_len segs
      else if msg_id == 7
      then recv_piece msg_len segs
      else ok (plain 1 (some msg_id), skip (msg_len - 1) segs)

  unfoldable pub recv_id : ℕ → List Bytes → Outcome (Event × List Bytes)
  unfolding recv_body net_recv_exact
  recv_id msg_len segs = net_recv_exact 1 segs >>= λ (b, segs').
      let msg_id = get_or b 0 0 in
      if bad_length msg_id msg_len then null else recv_body msg_id msg_len segs'

  -- The blocking part, with the data pointer not null.
  unfoldable pub recv_frame : List Bytes → Outcome (Event × List Bytes)
  unfolding recv_id net_recv_exact decode32
  recv_frame segs = recv_word segs >>= λ (msg_len, segs').
      if ltb max_frame msg_len
      then null
      else if msg_len == 0
      then ok (plain 1 none, segs')
      else recv_id msg_len segs'

  -- peer_recv_event with a timeout of 0: `closed` says that the peer has closed the connection.
  unfoldable pub peer_recv_event : Bool → List Bytes → Outcome (Event × List Bytes)
  unfolding recv_frame decode32
  peer_recv_event closed segs =
      let available = stream segs in
      let len = decode32 available in
      let frame = recv_frame segs in
      if length available == 0
      then if closed then null else ok (plain 2 none, segs)
      else if ltb (length available) 4
      then ok (plain 2 none, segs)
      else if ltb max_frame len
      then null
      else if ltb (length available) (len + 4)
      then ok (plain 2 none, segs)
      else frame
