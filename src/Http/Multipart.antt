-- ===== src/Http/Multipart.antt =====
-- src/http_server.c, http_get_upload and http_get_multipart_field.
use ps5torrent.Base.{
  ℕ, ◌+◌, ◌-◌, ◌++◌, not, Option, none, some, [], ◌∷◌, Bytes, codes, length, take, drop, ltb, leb,
  ◌==◌, if◌then◌else◌,
}
use ps5torrent.Base.Signed.{sub64}
use ps5torrent.Http.Search.{find_bytes, multipart_data_start}

-- `name="..."`, none where it does not fit the buffer of 256 bytes.
abbrev pub name_text : Bytes → Bytes
name_text field_name = codes "name=\"" ++ (field_name ++ b'"' ∷ [])

unfoldable pub field_start : Bytes → Bytes → Option Bytes
unfolding find_bytes
field_start body field_name =
    if leb 256 (length (name_text field_name))
    then none
    else elim (find_bytes body (name_text field_name)) [ none ↦ none | some i ↦ some (drop i body) ]

-- The file's name, where there is one in the headers, which end at `headers_end`, and where it fits;
-- otherwise the buffer is left alone.
unfoldable pub filename_of : ℕ → Bytes → ℕ → Option Bytes
unfolding find_bytes
filename_of filename_len field headers_end = elim (find_bytes field (codes "filename=\"")) [
  | none ↦ none
  | some i ↦
      let named = drop (i + 10) field in
      let close = find_bytes (take (sub64 headers_end (i + 10)) named) (b'"' ∷ []) in
      if not (ltb i headers_end) then none else elim close [
        | none ↦ none
        | some n ↦ if ltb n filename_len then some (take n named) else none
      ]
]

-- What closes a part.
abbrev pub closing : Bytes
closing = 13 ∷ 10 ∷ b'-' ∷ b'-' ∷ []

-- The file's data and its name; 0 is none.
unfoldable pub http_get_upload : Bytes → Bytes → ℕ → Option (Bytes × Option Bytes)
unfolding field_start multipart_data_start filename_of find_bytes
http_get_upload body field_name filename_len = elim (field_start body field_name) [
  | none ↦ none
  | some field ↦ elim (multipart_data_start field) [
    | none ↦ none
    | some headers_end ↦
        let rest = drop headers_end field in
        let data_len : ℕ = elim (find_bytes rest closing) [ none ↦ length rest | some n ↦ n ] in
        if ltb 0 data_len
        then some (take data_len rest, filename_of filename_len field headers_end)
        else none
  ]
]

unfoldable pub http_get_multipart_field : Bytes → Bytes → ℕ → Option Bytes
unfolding field_start multipart_data_start find_bytes
http_get_multipart_field body field_name value_len =
    if value_len == 0 then none else elim (field_start body field_name) [
      | none ↦ none
      | some field ↦ elim (multipart_data_start field) [
        | none ↦ none
        | some start ↦ elim (find_bytes (drop start field) closing) [
          | none ↦ none
          | some n ↦ some (take (if leb value_len n then value_len - 1 else n) (drop start field))
        ]
      ]
    ]
