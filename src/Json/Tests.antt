-- ===== src/Json/Tests.antt =====
-- Runs of the JSON texts of src/main.c, src/console_files.c and src/torrent_mgr.c.
use ps5torrent.Base.{
  ◌*◌, ◌<◌, ◌≤◌, ◌≡◌, refl, arith, some, true, [], ◌∷◌, ◌++◌, Bytes, codes, length,
}
use ps5torrent.TorrentMgr.State.{downloading}
use ps5torrent.Json.Escape.{escape, json_escape_text}
use ps5torrent.Json.Reader.{read_string, plain, read_string-escape}
use ps5torrent.Json.Bounded.{Fits, json_escape_text-Fits}
use ps5torrent.Json.Room.{torrent_mgr_status_json-Inside}
use ps5torrent.Json.Writer.{TorrentStatus, torrent_mgr_status_json}

-- A quote, a newline and a letter.
abbrev mixed : Bytes
mixed = b'"' ∷ 10 ∷ b'a' ∷ []

read_string-escape_example :
    (read_string plain (escape mixed ++ b'"' ∷ codes "}") ≡ some (mixed, codes "}"))
    × (length (escape mixed) ≤ 6 * length mixed)
read_string-escape_example = read_string-escape mixed (codes "}") (omega arith)

cut_short : json_escape_text 10 mixed ≡ 92 ∷ b'"' ∷ 92 ∷ codes "u000aa"
unfolding json_escape_text
cut_short = refl

json_escape_text-Fits_example : Fits 10 [] mixed (json_escape_text 10 mixed)
json_escape_text-Fits_example = json_escape_text-Fits 10 mixed (omega arith)

abbrev one_torrent : TorrentStatus
one_torrent = record {
  name = mixed;
  id = codes "00";
  state = downloading;
  progress = codes "0.500";
  total_size = 8;
  downloaded = 4;
  uploaded = 0;
  start_time = 5;
  speed_down = 1;
  speed_up = 0;
  num_peers = 1;
  active_peers = 1;
  num_complete = 1;
  num_pieces = some 2;
  tracker_announces = 1;
  is_magnet = true;
  save_path = codes "/d";
  error_msg = [];
}

-- What an empty buffer of 64 bytes holds of it.
abbrev shown : Bytes
shown = codes "{\"torrents\":[{\"id\":0,\"name\":\"\\\"\\na\",\"hash\":\"00\",\"state\":\"downlo"

status_cut : torrent_mgr_status_json 64 6 (one_torrent ∷ []) ≡ some shown
unfolding torrent_mgr_status_json
status_cut = refl

torrent_mgr_status_json-Inside_example : length shown < 64
torrent_mgr_status_json-Inside_example =
    torrent_mgr_status_json-Inside 64 6 (one_torrent ∷ []) shown status_cut
