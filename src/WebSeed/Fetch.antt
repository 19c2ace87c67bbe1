-- ===== src/WebSeed/Fetch.antt =====
-- src/web_seed.c: the parts of a piece are fetched from one seed, and the seeds are tried in turn.
-- `fetch` is http_fetch_range on a network.
use ps5torrent.Base.{
  ℕ, ◌+◌, ◌-◌, ◌*◌, ◌%◌, ◌^◌, Bool, not, ◌&&◌, Option, none, some, List, [], ◌∷◌, ◌++◌, Bytes,
  codes, length, take, ltb, leb, ◌==◌, if◌then◌else◌,
}
use ps5torrent.Base.Outcome.{Outcome, ok, null, fault, out_of_fuel, ◌>>=◌}
use ps5torrent.Base.Signed.{add64, sub64}
use ps5torrent.Torrent.Types.{Torrent, TorrentFile, c_string}
use ps5torrent.WebSeed.Url.{ends_in_slash, append_url_path}
use ps5torrent.WebSeed.Http.{is_http}

abbrev pub Fetch : Type 0
Fetch = Bytes → ℕ → ℕ → Option Bytes

abbrev pub of_option : Option Bytes → Outcome Bytes
of_option none = null
of_option (some bytes) = ok bytes

-- A name that is printed with %s; printing a null pointer is a fault.
abbrev pub text_of : Option Bytes → Outcome Bytes
text_of none = fault
text_of (some s) = ok (c_string s)

-- `snprintf(url, 2048, "%s", seed)` cuts what does not fit.
unfoldable pub single_url : Torrent → Bytes → Outcome Bytes
unfolding append_url_path
single_url t seed =
    let name : Option Bytes = elim t.file_name [ none ↦ t.name | some n ↦ some n ] in
    if ends_in_slash seed
    then (text_of name >>= λ n. of_option (append_url_path 2048 seed n))
    else ok (take 2047 seed)

-- fetch_single_file_piece and fetch_single_file_span, which differ in the name of an argument.
unfoldable pub fetch_single_file_span : Fetch → Torrent → Bytes → ℕ → ℕ → Outcome Bytes
unfolding single_url
fetch_single_file_span fetch t seed first_piece len =
    single_url t seed >>= λ url. of_option (fetch url ((first_piece * t.piece_length) % 2 ^ 64) len)

-- `name/path` of a file behind the seed.
unfoldable pub file_url : Bytes → Option Bytes → Option Bytes → Outcome Bytes
unfolding append_url_path
file_url seed name path = text_of name >>= λ n. text_of path >>= λ p.
    let relative = n ++ codes "/" ++ p in
    if leb 1024 (length relative) then null else of_option (append_url_path 2048 seed relative)

-- The bounds of the part of the piece in a file.
abbrev pub part_from : ℕ → ℕ → ℕ
part_from piece_start file_start =
    if ltb file_start piece_start then piece_start - file_start else 0

abbrev pub part_to : ℕ → ℕ → ℕ → ℕ
part_to piece_end file_start file_end =
    if ltb piece_end file_end then piece_end - file_start else file_end - file_start

-- The bytes that a file has of the piece; more than the buffer's rest is a fault.
unfoldable pub fetch_part : Fetch → Bytes → ℕ → ℕ → ℕ → Outcome Bytes
fetch_part fetch url from part_len room =
    if ltb room part_len then fault else of_option (fetch url from part_len)

-- The loop over the files, with the buffer's bytes so far.
unfoldable pub fetch_files :
    Fetch → Bytes → Option Bytes → ℕ → ℕ → List TorrentFile → ℕ → Bytes → Outcome Bytes
unfolding file_url fetch_part
fetch_files fetch seed name piece_start len [] file_offset out = ok out
fetch_files fetch seed name piece_start len (f ∷ fs) file_offset out =
    let piece_end = add64 piece_start len in
    let file_end = add64 file_offset f.length in
    let from = part_from piece_start file_offset in
    let part_len = sub64 (part_to piece_end file_offset file_end) from in
    let next = fetch_files fetch seed name piece_start len fs file_end out in
    if leb len (length out)
    then ok out
    else if not (ltb piece_start file_end && ltb file_offset piece_end)
    then next
    else file_url seed name f.path >>= λ url.
        fetch_part fetch url from part_len (len - length out) >>= λ part.
        fetch_files fetch seed name piece_start len fs file_end (out ++ part)

unfoldable pub fetch_multi_file_piece : Fetch → Torrent → Bytes → ℕ → ℕ → Outcome Bytes
unfolding fetch_files
fetch_multi_file_piece fetch t seed piece_index len =
    fetch_files fetch seed t.name ((piece_index * t.piece_length) % 2 ^ 64) len t.files 0 []
    >>= λ out. if length out == len then ok out else null

-- The pieces of a batch from several files, one after the other.
unfoldable pub fetch_batch : Fetch → Torrent → Bytes → ℕ → List ℕ → Outcome Bytes
unfolding fetch_multi_file_piece
fetch_batch fetch t seed piece [] = ok []
fetch_batch fetch t seed piece (size ∷ sizes) =
    fetch_multi_file_piece fetch t seed piece size >>= λ bytes.
    fetch_batch fetch t seed (piece + 1) sizes >>= λ more. ok (bytes ++ more)

abbrev pub usable_seed : Bytes → Bool
usable_seed seed = not (length seed == 0) && is_http seed

-- The loop over the seeds: a failure goes on to the next one.
unfoldable pub try_seeds : (Bytes → Outcome Bytes) → List Bytes → Outcome Bytes
try_seeds attempt [] = null
try_seeds attempt (seed ∷ seeds) =
    let rest = try_seeds attempt seeds in
    if not (usable_seed seed) then rest else elim (attempt seed) [
      | ok bytes ↦ ok bytes
      | null ↦ rest
      | fault ↦ fault
      | out_of_fuel ↦ out_of_fuel
    ]

unfoldable pub web_seed_fetch_piece : Fetch → Torrent → ℕ → ℕ → Outcome Bytes
unfolding try_seeds fetch_multi_file_piece fetch_single_file_span
web_seed_fetch_piece fetch t piece_index len =
    if len == 0
    then null
    else try_seeds
        (λ seed.
          if t.is_multi_file
          then fetch_multi_file_piece fetch t seed piece_index len
          else fetch_single_file_span fetch t seed piece_index len)
        t.web_seeds

-- The sum of the sizes, none where one of them is 0.
unfoldable pub total_of : List ℕ → Option ℕ
total_of [] = some 0
total_of (size ∷ sizes) =
    let rest = total_of sizes in
    if size == 0 then none else elim rest [ none ↦ none | some n ↦ some (add64 size n) ]

unfoldable pub web_seed_fetch_pieces : Fetch → Torrent → ℕ → List ℕ → Outcome Bytes
unfolding total_of try_seeds fetch_batch fetch_single_file_span
web_seed_fetch_pieces fetch t first_piece sizes =
    if length sizes == 0 then null else elim (total_of sizes) [
      | none ↦ null
      | some total ↦
          try_seeds
            (λ seed.
              if t.is_multi_file
              then fetch_batch fetch t seed first_piece sizes
              else fetch_single_file_span fetch t seed first_piece total)
            t.web_seeds
    ]
