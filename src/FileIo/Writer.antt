-- ===== src/FileIo/Writer.antt =====
-- src/file_io.c: the writer. The calls of the operating system are a parameter; what reaches the
-- disk is a log of writes.
use ps5torrent.Base.{
  ℕ, ◌+◌, ◌*◌, ◌%◌, ◌^◌, Bool, true, false, not, ◌&&◌, ◌||◌, Option, none, some, List, [], ◌∷◌,
  ◌++◌, Bytes, codes, length, take, drop, leb, ◌==◌, if◌then◌else◌,
}
use mathlib.Core.Option
use ps5torrent.Base.Outcome.{Outcome, ok, null, fault}
use ps5torrent.Base.Signed.{add64, sub64, slt64}
use ps5torrent.Torrent.Types.{Torrent, TorrentFile, c_string}
use ps5torrent.FileIo.Path.{safe_relative_path}

-- `bytes` went to the file at `path` from byte `offset` on.
pub record Write : Type 0 where
  pub path : Bytes
  pub offset : ℕ
  pub bytes : Bytes

-- The operating system: each answer may depend on what was written before. `mkdir` is true also
-- where the directory exists; `write` gives the number of bytes written.
pub record Os : Type 0 where
  pub mkdir : List Write → Bytes → Bool
  pub open_file : List Write → Bytes → Bool
  pub seek : List Write → Bytes → ℕ → Bool
  pub write : List Write → Bytes → ℕ → Bytes → Option ℕ

-- `fd` is the path of the open file, `none` for -1. The two fields for a current file are never
-- read or written after the memset.
pub record FileWriter : Type 0 where
  pub base_path : Option Bytes
  pub torrent : Option Torrent
  pub multi_file : Bool
  pub fd : Option Bytes
  pub written : ℕ

abbrev pub no_writer : FileWriter
no_writer = record { base_path = none; torrent = none; multi_file = false; fd = none; written = 0 }

-- `snprintf(full_path, 1024, "%s/%s", base, relative)`: `none` where it does not fit.
unfoldable pub full_path : Bytes → Bytes → Option Bytes
full_path base relative =
    let full = base ++ codes "/" ++ relative in if leb 1024 (length full) then none else some full

-- The loop, with the text before `p`.
unfoldable pub create_from : Os → List Write → Bytes → Bytes → Bool
create_from os log before [] = true
create_from os log before (c ∷ r) =
    let rest = create_from os log (before ++ c ∷ []) r in
    if not (c == b'/') then rest else if os.mkdir log before then rest else false

unfoldable pub create_parent_directories : Os → List Write → Bytes → Bool
unfolding create_from
create_parent_directories os log [] = true
create_parent_directories os log (c ∷ r) = create_from os log (c ∷ []) r

-- The writer without its base path, as the error paths of file_writer_init leave it.
abbrev pub released : FileWriter → FileWriter
released fw = record fw { base_path = none }

unfoldable pub open_single : Os → List Write → FileWriter → Bytes → Bytes → FileWriter × Bool
unfolding full_path
open_single os log fw base relative = elim (full_path base relative) [
  | none ↦ (released fw, false)
  | some full ↦
      if os.open_file log full then (record fw { fd = some full }, true) else (released fw, false)
]

-- file_writer_init on a torrent and a base path that are not null.
unfoldable pub file_writer_init : (ℕ → Bool) → Os → List Write → Torrent → Bytes → FileWriter × Bool
unfolding open_single safe_relative_path
file_writer_init malloc os log torrent base_path =
    let fw : FileWriter = record {
      base_path = some base_path;
      torrent = some torrent;
      multi_file = torrent.is_multi_file;
      fd = none;
      written = 0;
    } in
    let relative =
      Option.map c_string (elim torrent.file_name [ none ↦ torrent.name | some n ↦ some n ]) in
    if not (malloc (length base_path + 1))
    then (no_writer, false)
    else if torrent.is_multi_file
    then (fw, true)
    else if not (safe_relative_path relative)
    then (released fw, false)
    else elim relative [ none ↦ (released fw, false) | some r ↦ open_single os log fw base_path r ]

-- What write reports: a short write reaches the disk and is an error.
abbrev pub reported : List Write → Bytes → ℕ → Bytes → Option ℕ → List Write × Bool
reported log path offset bytes none = (log, false)
reported log path offset bytes (some n) =
    (log ++ record { path = path; offset = offset; bytes = take n bytes } ∷ [], n == length bytes)

-- lseek and write, with the log that results.
unfoldable pub write_at : Os → List Write → Bytes → ℕ → Bytes → List Write × Bool
write_at os log path offset bytes =
    if os.seek log path offset
    then reported log path offset bytes (os.write log path offset bytes)
    else (log, false)

-- The result of a routine that returns 0 or -1.
abbrev pub Status : Type 0
Status = Outcome Unit

-- The loop's state; `status` is `null` behind a `return -1`.
pub record WriteState : Type 0 where
  pub data_offset : ℕ
  pub written : ℕ
  pub log : List Write
  pub status : Status

abbrev pub stop : Status → WriteState → WriteState
stop status st = record st { status = status }

-- The end of the body: the directories, the file, the write.
unfoldable pub write_full : Os → Bytes → ℕ → Bytes → WriteState → WriteState
unfolding create_parent_directories write_at
write_full os full write_start part st =
    let result = write_at os st.log full write_start part in
    if not (create_parent_directories os st.log full)
    then stop null st
    else if not (os.open_file st.log full)
    then stop null st
    else if result.1
    then record {
      data_offset = st.data_offset + length part;
      written = add64 st.written (length part);
      log = result.0;
      status = ok tt;
    }
    else record st { log = result.0; status = null }

-- The part of the body that runs where `write_len > 0`, with the file's path and the bytes.
unfoldable pub write_part : Os → Bytes → Option Bytes → ℕ → Bytes → WriteState → WriteState
unfolding full_path safe_relative_path write_full
write_part os base none write_start part st = stop null st
write_part os base (some name) write_start part st =
    if not (safe_relative_path (some (c_string name)))
    then stop null st
    else elim (full_path base (c_string name)) [
      | none ↦ stop null st
      | some full ↦ write_full os full write_start part st
    ]

abbrev pub running : WriteState → Bool
running st = elim st.status [ ok _ ↦ true | _ ↦ false ]

-- The piece, from `start` to `end`, has bytes of the file.
unfoldable pub overlaps : ℕ → ℕ → ℕ → ℕ → Bool
overlaps piece_start piece_end file_start file_end =
    slt64 piece_start file_end && slt64 file_start piece_end

unfoldable pub part_start : ℕ → ℕ → ℕ
part_start piece_start file_start =
    if slt64 file_start piece_start then sub64 piece_start file_start else 0

-- `write_end - write_start`.
unfoldable pub part_length : ℕ → ℕ → ℕ → ℕ → ℕ → ℕ
unfolding part_start
part_length piece_start piece_end file_start file_end file_length =
    let write_end = if slt64 piece_end file_end then sub64 piece_end file_start else file_length in
    sub64 write_end (part_start piece_start file_start)

-- One round of the loop over the files; `file_start` is the sum of the lengths before. Reading
-- behind the piece's data is a fault.
unfoldable pub write_step : Os → Bytes → Bytes → ℕ → TorrentFile → ℕ → WriteState → WriteState
unfolding write_part overlaps part_length
write_step os base bytes piece_start f file_start st =
    let piece_end = add64 piece_start (length bytes) in
    let file_end = add64 file_start f.length in
    let write_len = part_length piece_start piece_end file_start file_end f.length in
    if not (running st) || leb (length bytes) st.data_offset
    then st
    else if not (overlaps piece_start piece_end file_start file_end)
    then st
    else if write_len == 0
    then st
    else if leb (st.data_offset + write_len) (length bytes)
    then write_part os base f.path (part_start piece_start file_start)
        (take write_len (drop st.data_offset bytes)) st
    else stop fault st

unfoldable pub write_files : Os → Bytes → Bytes → ℕ → List TorrentFile → ℕ → WriteState → WriteState
unfolding write_step
write_files os base bytes piece_start [] file_start st = st
write_files os base bytes piece_start (f ∷ fs) file_start st =
    write_files os base bytes piece_start fs (add64 file_start f.length)
      (write_step os base bytes piece_start f file_start st)

abbrev pub start_at : FileWriter → List Write → WriteState
start_at fw log = record { data_offset = 0; written = fw.written; log = log; status = ok tt }

unfoldable pub write_single : Os → List Write → FileWriter → Bytes → ℕ → WriteState
unfolding write_at
write_single os log fw bytes offset = elim fw.fd [
  | none ↦ stop null (start_at fw log)
  | some path ↦
      let (log', all) = write_at os log path offset bytes in
      if all
      then record {
        data_offset = length bytes;
        written = add64 fw.written (length bytes);
        log = log';
        status = ok tt;
      }
      else record { data_offset = 0; written = fw.written; log = log'; status = null }
]

-- file_writer_write_piece: the writer afterwards, the log, and the result. A null base path, which
-- snprintf would read, is a fault.
unfoldable pub file_writer_write_piece :
    Os → List Write → FileWriter → Bytes → ℕ → FileWriter × List Write × Status
unfolding write_single write_files
file_writer_write_piece os log fw bytes piece_index = elim fw.torrent [
  | none ↦ (fw, log, null)
  | some t ↦
      let piece_start = (piece_index * t.piece_length) % 2 ^ 64 in
      let st =
        if not fw.multi_file then write_single os log fw bytes piece_start else elim fw.base_path [
          | none ↦ stop fault (start_at fw log)
          | some base ↦ write_files os base bytes piece_start t.files 0 (start_at fw log)
        ] in
      (record fw { written = st.written }, st.log, st.status)
]

unfoldable pub file_writer_finish : FileWriter → FileWriter
file_writer_finish fw = record fw { fd = none }

-- file_writer_destroy clears the whole structure.
unfoldable pub file_writer_destroy : FileWriter → FileWriter
file_writer_destroy fw = no_writer
