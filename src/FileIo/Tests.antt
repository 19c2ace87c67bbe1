-- ===== src/FileIo/Tests.antt =====
-- Runs of the writer of src/file_io.c on small torrents.
use ps5torrent.Base.{
  ◌≡◌, ◌*◌, ◌↔◌, refl, true, false, none, some, List, [], ◌∷◌, codes, length, arith,
}
use ps5torrent.Torrent.Types.{Torrent, TorrentFile}
use ps5torrent.FileIo.Path.{safe_relative_path, IsContained, safe_relative_path_iff}
use ps5torrent.FileIo.Writer.{Os, file_writer_write_piece}
use ps5torrent.FileIo.Placed.{WriteResult, multi_writer}
use ps5torrent.FileIo.Tiling.{file_writer_write_piece-Placed}

abbrev willing : Os
willing = record {
  mkdir = λ log path. true;
  open_file = λ log path. true;
  seek = λ log path offset. true;
  write = λ log path offset bytes. some (length bytes);
}

abbrev two_files : List TorrentFile
two_files =
    record { path = some (codes "a/b"); length = 3 }
    ∷ record { path = some (codes "c"); length = 5 }
    ∷ []

abbrev small_torrent : Torrent
small_torrent = record {
  announce = none;
  announce_list = [];
  web_seeds = [];
  info_dict_raw = none;
  info_hash = [];
  name = some (codes "t");
  piece_length = 2;
  pieces = none;
  num_pieces = 4;
  is_multi_file = true;
  total_size = 8;
  length = 0;
  file_name = none;
  files = two_files;
}

spanning :
    (file_writer_write_piece willing []
      (multi_writer small_torrent (codes "/d") 0)
      (codes "xy")
      1).1
    ≡ record { path = codes "/d/a/b"; offset = 2; bytes = codes "x" }
      ∷ record { path = codes "/d/c"; offset = 0; bytes = codes "y" }
      ∷ []
unfolding file_writer_write_piece
spanning = refl

file_writer_write_piece-Placed_example :
    let (fw, log, status) =
      file_writer_write_piece willing []
        (multi_writer small_torrent (codes "/d") 0)
        (codes "xy")
        1 in
    WriteResult willing two_files (codes "/d") [] (1 * 2) (codes "xy") log status
file_writer_write_piece-Placed_example =
    file_writer_write_piece-Placed willing [] small_torrent (codes "/d") (codes "xy") 1 0
      (omega arith) (omega arith)

safe_relative_path_iff_example :
    (safe_relative_path (some (codes "a/.x/b")) ≡ true) ↔ IsContained (codes "a/.x/b")
safe_relative_path_iff_example = safe_relative_path_iff (codes "a/.x/b")

up_refused : safe_relative_path (some (codes "a/../b")) ≡ false
unfolding safe_relative_path
up_refused = refl
