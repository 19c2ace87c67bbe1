-- ===== src/WebSeed/Tests.antt =====
-- Runs of src/web_seed.c: a seed that has two files, and one with an empty file between them.
use ps5torrent.Base.{
  ℕ, All, none, ◌*◌, ◌≡◌, refl, arith, true, none, some, List, [], ◌∷◌, ◌++◌, Bytes, codes, length,
  take, drop, bytes_eq, ltb, ◌==◌, if◌then◌else◌,
}
use ps5torrent.Base.Outcome.{ok, null}
use ps5torrent.Net.Url.{http_url_decode}
use ps5torrent.Torrent.Types.{Torrent, TorrentFile}
use ps5torrent.WebSeed.Url.{IsGraphic, with_slash, append_url_path, append_url_path_lem}
use ps5torrent.WebSeed.Http.{http_fetch_range}
use ps5torrent.WebSeed.Fetch.{Fetch, file_url, fetch_multi_file_piece, web_seed_fetch_pieces}
use ps5torrent.WebSeed.Pieces.{
  Served, contents, fetch_multi_file_piece_lem, fetch_multi_file_piece_empty_file,
}

abbrev seed : Bytes
seed = codes "http://s"

abbrev first_file : TorrentFile
first_file = record { path = some (codes "a b"); length = 3 }

abbrev second_file : TorrentFile
second_file = record { path = some (codes "c"); length = 5 }

abbrev empty_file : TorrentFile
empty_file = record { path = some (codes "e"); length = 0 }

abbrev torrent_of : List TorrentFile → Torrent
torrent_of fs = record {
  announce = none;
  announce_list = [];
  web_seeds = codes "ftp://x" ∷ seed ∷ [];
  info_dict_raw = none;
  info_hash = [];
  name = some (codes "t");
  piece_length = 4;
  pieces = none;
  num_pieces = 2;
  is_multi_file = true;
  total_size = 8;
  length = 0;
  file_name = none;
  files = fs;
}

abbrev content : TorrentFile → Bytes
content f = if f.length == 3 then codes "xyz" else if f.length == 5 then codes "12345" else []

-- The server knows the two addresses, and gives nothing where no byte is asked for.
abbrev server : Fetch
server url from n =
    if n == 0
    then none
    else some (
        take n (
          drop from
            (if bytes_eq url (codes "http://s/t/a%20b") then codes "xyz" else codes "12345")))

first_Served : Served server seed (some (codes "t")) content first_file
unfolding append_url_path file_url
first_Served = (codes "http://s/t/a%20b", refl, refl, omega arith, λ from n p h. ground arith)

second_Served : Served server seed (some (codes "t")) content second_file
unfolding append_url_path file_url
second_Served = (codes "http://s/t/c", refl, refl, omega arith, λ from n p h. ground arith)

fetch_multi_file_piece_lem_example :
    fetch_multi_file_piece server (torrent_of (first_file ∷ second_file ∷ [])) seed 0 4
    ≡ ok (
        take 4 (
          drop
            (0 * 4)
            (contents server seed (some (codes "t")) content (first_file ∷ second_file ∷ []))))
fetch_multi_file_piece_lem_example =
    fetch_multi_file_piece_lem server content (torrent_of (first_file ∷ second_file ∷ [])) seed 0 4
      (first_Served, (second_Served, tt)) (omega arith) (omega arith)

empty_url : file_url seed (some (codes "t")) (some (codes "e")) ≡ ok (codes "http://s/t/e")
unfolding append_url_path file_url
empty_url = refl

fetch_multi_file_piece_empty_file_example :
    fetch_multi_file_piece server (torrent_of (first_file ∷ empty_file ∷ second_file ∷ [])) seed 0 4
    ≡ null
fetch_multi_file_piece_empty_file_example =
    fetch_multi_file_piece_empty_file server content
      (torrent_of (first_file ∷ empty_file ∷ second_file ∷ [])) seed (codes "http://s/t/e") 0 4
      (first_file ∷ []) (second_file ∷ []) empty_file (λ u from. refl) refl (first_Served, tt) refl
      empty_url (omega arith) (omega arith) (omega arith)

append_url_path_lem_example :
    (escaped : Bytes) × (http_url_decode escaped ≡ codes "a b")
    × All IsGraphic escaped
    × ((size : ℕ)
        → append_url_path size seed (codes "a b") ≡ (
            if ltb (length (with_slash seed ++ escaped)) size
            then some (with_slash seed ++ escaped)
            else none))
append_url_path_lem_example =
    append_url_path_lem seed (codes "a b") (omega arith) (omega arith) (omega arith)

-- The whole text has 14 bytes.
just_fits : append_url_path 15 seed (codes "a b") ≡ some (codes "http://s/a%20b")
unfolding append_url_path
just_fits = refl

one_short : append_url_path 14 seed (codes "a b") ≡ none
unfolding append_url_path
one_short = refl

batch :
    web_seed_fetch_pieces server (torrent_of (first_file ∷ second_file ∷ [])) 0 (4 ∷ 4 ∷ [])
    ≡ ok (codes "xyz12345")
unfolding web_seed_fetch_pieces append_url_path
batch = refl

-- A whole response behind its header, from an address with a port.
ranged :
    http_fetch_range
      (λ host port request.
        some ((codes "HTTP/1.1 206 OK" ++ (13 ∷ 10 ∷ 13 ∷ 10 ∷ codes "xyz")) ∷ []))
      (codes "http://s:81/t")
      2
      3
    ≡ some (codes "xyz")
unfolding http_fetch_range
ranged = refl
