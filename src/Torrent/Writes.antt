-- ===== src/Torrent/Writes.antt =====
-- src/torrent.c with src/file_io.c: the pieces of a parsed torrent fit its files.
use ps5torrent.Base.{ℕ, ◌-◌, ◌*◌, ◌<◌, ◌≤◌, ◌≡◌, Bool, true, List, Bytes, length, min, arith}
use native.Mathlib.Nat.{mul-le-mul_right}
use ps5torrent.Base.Outcome.{ok}
use ps5torrent.Torrent.Types.{Torrent}
use ps5torrent.Torrent.Parse.{torrent_parse}
use ps5torrent.Torrent.Valid.{torrent_parse-IsTorrent}
use ps5torrent.FileIo.Writer.{Os, Write, file_writer_write_piece}
use ps5torrent.FileIo.Placed.{WriteResult, multi_writer}
use ps5torrent.FileIo.Tiling.{file_writer_write_piece-Placed}

-- The size of a piece: the last one may be shorter.
abbrev pub piece_size : Torrent → ℕ → ℕ
piece_size t index = min t.piece_length (t.total_size - index * t.piece_length)

-- Each piece of a torrent of several files that torrent_parse returned is written to its place in
-- the files, or a path cannot be used or the operating system refuses a call.
pub torrent_parse-file_writer_write_piece :
    (malloc : ℕ → Bool) (stack input : Bytes) (t : Torrent) (os : Os) (log : List Write)
    (base bytes : Bytes) (index written : ℕ)
    → torrent_parse malloc stack input ≡ ok t
    → t.is_multi_file ≡ true
    → index < t.num_pieces
    → length bytes ≡ piece_size t index
    → let (fw, log', status) =
        file_writer_write_piece os log (multi_writer t base written) bytes index in
      WriteResult os t.files base log (index * t.piece_length) bytes log' status
torrent_parse-file_writer_write_piece malloc stack input t os log base bytes index written p m i l =
    let (name, pieces, pl, ts, (some_, short, cover), adds) =
      torrent_parse-IsTorrent malloc stack input t p in
    let total = (adds m).0 in
    let before : index * t.piece_length ≤ (t.num_pieces - 1) * t.piece_length =
      mul-le-mul_right t.piece_length (omega (arith, i)) in
    file_writer_write_piece-Placed os log t base bytes index written (omega (arith, total, ts.1))
      (omega (arith, l, total, before, short))
