-- ===== src/PeerWire/Tests.antt =====
-- Runs of src/peer_wire.c on small connections.
use ps5torrent.Base.{◌≡◌, refl, false, none, List, [], ◌∷◌, Bytes, replicate, arith}
use ps5torrent.Base.Outcome.{ok}
use ps5torrent.Base.Samples.{roomy, roomy-Grants}
use ps5torrent.Base.Endian.{encode32}
use ps5torrent.Net.Receive.{stream}
use ps5torrent.PeerWire.Defs.{plain, peer_handshake_init, peer_handshake, peer_recv_event}
use ps5torrent.PeerWire.Frames.{event_of, Takes}
use ps5torrent.PeerWire.Events.{peer_recv_event-frame, peer_recv_event_incomplete}
use ps5torrent.PeerWire.Total.{Buffered, peer_recv_event-Buffered}
use ps5torrent.PeerWire.Handshake.{peer_handshake-peer_handshake_init}

-- Piece 3 at 0 with two bytes, cut into three segments, and one byte of the next frame.
abbrev block_segments : List Bytes
block_segments =
    (0 ∷ 0 ∷ 0 ∷ 11 ∷ 7 ∷ []) ∷ (0 ∷ 0 ∷ 0 ∷ 3 ∷ 0 ∷ 0 ∷ []) ∷ (0 ∷ 0 ∷ 120 ∷ 121 ∷ 0 ∷ []) ∷ []

abbrev block_payload : Bytes
block_payload = 0 ∷ 0 ∷ 0 ∷ 3 ∷ 0 ∷ 0 ∷ 0 ∷ 0 ∷ 120 ∷ 121 ∷ []

peer_recv_event-frame_example :
    Takes (event_of 7 block_payload) (0 ∷ []) (peer_recv_event roomy false block_segments)
unfolding encode32
peer_recv_event-frame_example =
    peer_recv_event-frame roomy false 7 block_payload (0 ∷ []) block_segments roomy-Grants
      (omega arith, (omega arith, (omega arith, tt))) (omega arith) refl refl

peer_recv_event_incomplete_example :
    peer_recv_event roomy false ((0 ∷ 0 ∷ 0 ∷ 11 ∷ 7 ∷ []) ∷ [])
    ≡ ok (plain 2 none, (0 ∷ 0 ∷ 0 ∷ 11 ∷ 7 ∷ []) ∷ [])
unfolding encode32
peer_recv_event_incomplete_example =
    peer_recv_event_incomplete roomy 7 block_payload block_payload ((0 ∷ 0 ∷ 0 ∷ 11 ∷ 7 ∷ []) ∷ [])
      (omega arith) (omega arith) refl

abbrev hash_a : Bytes
hash_a = replicate 20 65

abbrev id_b : Bytes
id_b = replicate 20 66

peer_handshake-peer_handshake_init_example :
    (segs' : List Bytes) × (peer_handshake hash_a (peer_handshake_init hash_a id_b ∷ [])
      ≡ ok (id_b, segs'))
    × (stream segs' ≡ [])
unfolding peer_handshake_init
peer_handshake-peer_handshake_init_example =
    peer_handshake-peer_handshake_init hash_a id_b [] (peer_handshake_init hash_a id_b ∷ []) refl
      refl (omega arith, tt) refl

-- Junk of which the first four bytes announce a long frame.
peer_recv_event-Buffered_example :
    Buffered (peer_recv_event roomy false ((255 ∷ 255 ∷ 255 ∷ 255 ∷ 5 ∷ []) ∷ []))
peer_recv_event-Buffered_example =
    peer_recv_event-Buffered roomy false ((255 ∷ 255 ∷ 255 ∷ 255 ∷ 5 ∷ []) ∷ [])
