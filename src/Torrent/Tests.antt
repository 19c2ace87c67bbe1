-- ===== src/Torrent/Tests.antt =====
-- Runs of torrent_parse on small metainfo texts.
use ps5torrent.Base.{
  ◌*◌, ◌≡◌, refl, arith, true, none, some, [], ◌∷◌, ◌++◌, Bytes, codes, replicate, length,
}
use ps5torrent.Base.Outcome.{ok}
use ps5torrent.Base.Samples.{roomy}
use ps5torrent.Bencode.Node.{int_val, str_val}
use ps5torrent.Sha1.Context.{sha1_hash}
use ps5torrent.Torrent.Types.{Torrent}
use ps5torrent.Torrent.Parse.{torrent_parse}
use ps5torrent.Torrent.Sizes.{IsTorrent}
use ps5torrent.Torrent.Valid.{torrent_parse-IsTorrent}
use ps5torrent.Torrent.Writes.{torrent_parse-file_writer_write_piece}
use ps5torrent.FileIo.Writer.{Os, file_writer_write_piece}
use ps5torrent.FileIo.Placed.{WriteResult, multi_writer}

abbrev stack : Bytes
stack = replicate 64 0

abbrev digests : Bytes
digests = replicate 40 b'A'

-- Two files of three and five bytes, in two pieces.
abbrev two_info : Bytes
two_info =
    codes
      "d5:filesld6:lengthi3e4:pathl1:a1:beed6:lengthi5e4:pathl1:ceee4:name1:t12:piece lengthi4e6:pieces40:"
    ++ digests
    ++ codes "e"

abbrev two_text : Bytes
two_text = codes "d4:info" ++ two_info ++ codes "e"

abbrev two_torrent : Torrent
two_torrent = record {
  announce = none;
  announce_list = [];
  web_seeds = [];
  info_dict_raw = some two_info;
  info_hash = sha1_hash stack two_info;
  name = some (codes "t");
  piece_length = 4;
  pieces = some digests;
  num_pieces = 2;
  is_multi_file = true;
  total_size = 8;
  length = 0;
  file_name = none;
  files =
      record { path = some (codes "a/b"); length = 3 }
      ∷ record { path = some (codes "c"); length = 5 }
      ∷ [];
}

torrent_parse-two_text : torrent_parse roomy stack two_text ≡ ok two_torrent
unfolding torrent_parse int_val str_val
torrent_parse-two_text = refl

torrent_parse-IsTorrent_example : IsTorrent two_torrent
torrent_parse-IsTorrent_example =
    torrent_parse-IsTorrent roomy stack two_text two_torrent torrent_parse-two_text

abbrev willing : Os
willing = record {
  mkdir = λ log path. true;
  open_file = λ log path. true;
  seek = λ log path offset. true;
  write = λ log path offset bytes. some (length bytes);
}

torrent_parse-file_writer_write_piece_example :
    let (fw, log, status) =
      file_writer_write_piece willing []
        (multi_writer two_torrent (codes "/d") 0)
        (codes "wxyz")
        1 in
    WriteResult willing two_torrent.files (codes "/d") [] (1 * 4) (codes "wxyz") log status
torrent_parse-file_writer_write_piece_example =
    torrent_parse-file_writer_write_piece roomy stack two_text two_torrent willing [] (codes "/d")
      (codes "wxyz") 1 0 torrent_parse-two_text refl (omega arith) refl
