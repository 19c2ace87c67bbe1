-- ===== src/Http/Tests.antt =====
-- Runs of src/http_server.c: searches in bodies and parameters of queries.
use ps5torrent.Base.{◌++◌, take, Option, ◌≡◌, refl, arith, codes, List, [], ◌∷◌, some, none, Bytes}
use ps5torrent.Net.Url.{net_url_encode}
use ps5torrent.Http.Search.{find_bytes, FirstAt, find_bytes-FirstAt}
use ps5torrent.Http.Multipart.{name_text, closing, http_get_upload, http_get_multipart_field}
use ps5torrent.Http.Upload.{
  empty_line, IsPart, body_of, First-find_bytes, http_get_upload-http_get_multipart_field,
}
use ps5torrent.Http.Params.{http_get_param, query_of, http_get_param-query_of}

find_bytes-FirstAt_example :
    FirstAt 0 (codes "abab") (codes "ba") (find_bytes (codes "abab") (codes "ba"))
find_bytes-FirstAt_example = find_bytes-FirstAt (codes "abab") (codes "ba") (omega arith)

-- The key `id` also ends another key.
abbrev two_params : List (Bytes × Bytes)
two_params = (codes "uid", codes "7") ∷ (codes "id", codes "a&b") ∷ []

http_get_param-query_of_example :
    http_get_param (query_of two_params) (codes "id") 16 ≡ some (codes "a&b")
unfolding net_url_encode
http_get_param-query_of_example =
    http_get_param-query_of (codes "id") 16 (omega arith) (ground arith) two_params (ground arith)

query_text : query_of two_params ≡ codes "uid=7&id=a%26b"
unfolding net_url_encode
query_text = refl

empty_params : http_get_param (codes "&&x=1&") (codes "x") 2 ≡ some (codes "1")
unfolding http_get_param
empty_params = refl

-- A decoded zero ends the value.
zero_in_value : http_get_param (codes "x=a%00b") (codes "x") 16 ≡ some (codes "a")
unfolding http_get_param
zero_in_value = refl

no_equals : http_get_param (codes "id&name=") (codes "id") 8 ≡ none
unfolding http_get_param
no_equals = refl

abbrev before : Bytes
before = codes "--x; "

abbrev headers : Bytes
headers = codes "; filename=\"a.torrent\""

abbrev content : Bytes
content = 13 ∷ 10 ∷ codes "d4"

abbrev after : Bytes
after = codes "x--"

abbrev body : Bytes
body = body_of before (codes "file") headers content after

file_part : IsPart before (codes "file") headers content after
unfolding find_bytes
file_part = record {
  short_name = omega arith;
  first_name = First-find_bytes body (name_text (codes "file")) before (omega arith) refl;
  first_blank =
      First-find_bytes _ empty_line (name_text (codes "file") ++ headers) (omega arith) refl;
  first_close = First-find_bytes (content ++ (closing ++ after)) closing content (omega arith) refl;
}

upload : http_get_upload body (codes "file") 64 ≡ some (content, some (codes "a.torrent"))
unfolding http_get_upload
upload = refl

http_get_upload-http_get_multipart_field_example :
    ((filename : Option Bytes) × (http_get_upload body (codes "file") 64
        ≡ some (content, filename)))
    × (http_get_multipart_field body (codes "file") 3 ≡ some (take 2 content))
http_get_upload-http_get_multipart_field_example =
    http_get_upload-http_get_multipart_field before (codes "file") headers content after 64 3
      file_part (omega arith) (omega arith)
