-- ===== src/AppLog/Defs.antt =====
-- src/app_log.c: the state and the operations under the lock. The calls on files are a parameter.
use ps5torrent.Base.{
  ℕ, ◌+◌, ◌-◌, ◌*◌, ◌++◌, Bool, true, false, not, ◌&&◌, [], ◌∷◌, Bytes, length, take, drop, ltb,
  leb, ◌==◌, if◌then◌else◌,
}

abbrev pub log_limit : ℕ
log_limit = 1024 * 1024

abbrev pub log_tail : ℕ
log_tail = 64 * 1024

-- `output` says that the file is open; `file` and `previous` are the contents of the two files. The
-- source keeps in persistence_error the number of the last error; here it is whether there was one.
pub record Log : Type 0 where
  pub recent : Bytes
  pub file_length : ℕ
  pub output : Bool
  pub persistence_error : Bool
  pub file : Bytes
  pub previous : Bytes

-- rename succeeds, or there is no such file (ENOENT, which rotate passes over), or it fails.
pub data Renaming : Type 0 where
  renamed missing refused : Renaming

-- rename, fopen, and the number of bytes that fwrite and fflush bring to the file.
pub record Files : Type 0 where
  pub rename : Renaming
  pub fopen : Bool
  pub fwrite : Bytes → ℕ
  pub fflush : Bool

-- `discard` bytes at the front make room.
unfoldable pub remember : Bytes → Bytes → Bytes
remember recent line =
    let line' = if ltb log_tail (length line) then drop (length line - log_tail) line else line in
    let n = length recent + length line' in
    let kept = if ltb log_tail n then drop (n - log_tail) recent else recent in kept ++ line'

-- The new file is opened, with nothing in it; `older` is what the other file has.
abbrev pub reopened : Files → Bytes → Log → Log × Bool
reopened io older log =
    (record log { output = io.fopen; file_length = 0; file = []; previous = older }, io.fopen)

unfoldable pub rotate : Files → Log → Log × Bool
rotate io log = elim io.rename [
  | renamed ↦ reopened io log.file log
  | missing ↦ reopened io log.previous log
  | refused ↦ (record log { output = false }, false)
]

-- The part of persist behind the rotation.
unfoldable pub append_line : Files → Bytes → Log → Log
append_line io line log =
    let log' = record log { file = log.file ++ take (io.fwrite line) line } in
    if (io.fwrite line == length line) && io.fflush
    then record log' { file_length = log.file_length + length line }
    else record log' { output = false; persistence_error = true }

unfoldable pub persist : Files → Bytes → Log → Log
unfolding rotate append_line
persist io line log =
    let rotated = rotate io log in
    if not log.output
    then log
    else if ltb log_limit (log.file_length + length line)
    then if rotated.1
      then append_line io line rotated.0
      else record rotated.0 { persistence_error = true }
    else append_line io line log

-- The bytes of an event: `text` is what snprintf made of the date, the level and the message. The
-- line buffer has 2048 bytes.
abbrev pub one_line : Bytes → Bytes
one_line [] = []
one_line (c ∷ r) = (if ltb c 32 then 32 else c) ∷ one_line r

unfoldable pub shortened : Bytes → Bytes
shortened text = if leb 2047 (length text) then take 2046 text else text

unfoldable pub line_of : Bytes → Bytes
unfolding shortened
line_of text = one_line (shortened text) ++ 10 ∷ []

unfoldable pub app_log_write : Files → Bytes → Log → Log
unfolding remember persist line_of
app_log_write io text log =
    let line = line_of text in persist io line (record log { recent = remember log.recent line })
