-- ===== src/Lib.antt =====
-- PS5Torrent: the logic of the C client (src/*.c, include/*.h), modelled and verified.
--
-- The parts and how they interact. A .torrent file is bencoded text (src/bencode.c) that
-- src/torrent.c checks and turns into a torrent, with the SHA-1 digest (src/sha1.c) of its info
-- dictionary. The piece manager (src/piece_mgr.c) keeps the state of each piece and compares
-- digests; peers are asked for blocks and answer in frames (src/peer_wire.c over src/net_utils.c);
-- a piece that is complete goes to its place in the files (src/file_io.c). src/torrent_mgr.c drives
-- all of them, one peer after the other; the peers' addresses come from trackers (src/tracker.c,
-- src/tracker_udp.c), and pieces also from web seeds (src/web_seed.c).
--
-- Base/        shared names, tests and lists over the native numbers, outcomes of C routines,
--              decimal text, bits, byte order, signed words, and the allocator's hypotheses
-- Bencode/     src/bencode.c: Node (tree and accessors), Parser, Encoder; Emit writes the text of a
--              node with no buffer
-- Sha1/        src/sha1.c: Transform (one block), Context (init, update, final); Blocks and Padding
--              have what a message's digest is
-- Torrent/     src/torrent.c: Types (torrent_t), Parse (torrent_parse), Sizes and Valid (what it
--              guarantees), Writes (with the file writer)
-- PieceMgr/    src/piece_mgr.c: Defs has one function for each operation
-- FileIo/      src/file_io.c: Path (safe_relative_path), Writer (the writer's operations), Placed
--              (where bytes belong), Tiling (the loop over the files)
-- Net/         src/net_utils.c: Receive (net_recv_exact), Send (net_send_all), Url (net_url_encode,
--              with http_url_decode of src/http_server.c)
-- PeerWire/    src/peer_wire.c: Defs (messages and peer_recv_event), Frames and Events (what a frame
--              means), Total (any input), Handshake
-- TorrentMgr/  src/torrent_mgr.c: Candidates (the peers to connect to, and their waits),
--              State (managed_torrent_t, release_piece, disconnect_peer), World and Receive (what a
--              peer's messages do), Transfer (process_peer), Sound (the invariant), Blocks, Messages,
--              Choice, Requests (its parts and the whole), Served (the writer of a torrent of several
--              files fills Sound's interface), Peers (the loop over the peers), Team (all peers
--              together), Service and Loop (the loop over a team)
-- WebSeed/     src/web_seed.c: Url, Http (one range request), Fetch (files, seeds, batches), Window
--              and Pieces (the bytes of a piece)
-- Tracker/     src/tracker.c and src/tracker_udp.c: Peers (compact addresses), Udp, Judge, Listen and
--              Exchange (the datagrams), Http (the request), Responses (what an answer becomes)
-- Json/        the JSON texts of src/main.c, src/console_files.c and src/torrent_mgr.c: Escape,
--              Bounded and Reader (what json_escape_text writes), Writer and Room (the status)
-- Http/        src/http_server.c: Search (find_bytes, multipart_data_start), Params (http_get_param),
--              Multipart and Upload (uploads and form fields)
-- TileState/   src/tile_state.c: Search (contains_version), State (tile_state_version)
-- AppLog/      src/app_log.c: Defs, Tail (the buffer in memory), Persist and Rotation (the file)
--
-- Conventions. A byte is a number. A size_t, uint64_t or int64_t is its bit pattern, with `% 2 ^ 64`
-- where the source can wrap; signed overflow, which C leaves undefined, wraps too. `Outcome` tells
-- apart a result, a failure that the caller sees (null or -1), an access outside an object (fault)
-- and a loop that ran out of the model's fuel. The allocator is a parameter that says which sizes it
-- grants: Base.Memory has the two hypotheses on it, and Base.Samples an allocator that meets both.
-- The operating system is a parameter of the file writer, and what reaches the disk is a log of
-- writes. A connection is the list of the segments that recv delivers. A C
-- string is its bytes in front of the closing zero, and a decoded zero ends it.
--
-- Fuel. The parser has twice the input's length plus one; the buffer's doubling loop has 65 rounds,
-- since a size_t doubles at most 64 times. The properties below state that neither runs out. The
-- loop of sha1_update over whole blocks has as many rounds as there are bytes, more than it takes.
--
-- The event loop of process_peer has its eight rounds, and an exchange with a UDP tracker the polls of
-- its attempts, so neither has fuel.
--
-- Not modelled: threads, the scheduling of connections and of web-seed jobs, starting, stopping and
-- removing torrents, the rest of the HTTP server and of the API handlers, the console's screens, the
-- libtorrent backend, the web panel, and calls that only pass to the system.
pub mod Base
pub mod Bencode
pub mod PieceMgr
pub mod FileIo
pub mod Torrent
pub mod Sha1
pub mod Net
pub mod PeerWire
pub mod AppLog
pub mod TorrentMgr
pub mod Http
pub mod WebSeed
pub mod Tracker
pub mod Json
pub mod TileState
