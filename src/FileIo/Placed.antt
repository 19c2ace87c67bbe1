-- ===== src/FileIo/Placed.antt =====
-- src/file_io.c, file_writer_write_piece on the files of a torrent: where the bytes
-- of a piece belong.
use ps5torrent.Base.{
  ℕ, ◌+◌, ◌-◌, ◌≤◌, ◌≢◌, true, some, none, List, [], ◌∷◌, ◌++◌, Bytes, length, All,
}
use ps5torrent.Base.Outcome.{ok, null}
use ps5torrent.Torrent.Types.{Torrent, TorrentFile}
use ps5torrent.FileIo.Parts.{Holds, Willing, Writable}
use ps5torrent.FileIo.Writer.{Os, Write, FileWriter, Status}

abbrev pub total_length : List TorrentFile → ℕ
total_length [] = 0
total_length (f ∷ fs) = f.length + total_length fs

-- The writes put the bytes, which begin at byte `position` of the torrent, where they belong: the
-- first of the files begins at byte `start`, each write stays inside one file, and the parts follow
-- each other with no gap until no byte is left.
pub data Placed (base : Bytes) : List TorrentFile → ℕ → ℕ → Bytes → List Write → Type 0 where
  placed : {fs : List TorrentFile} {start position : ℕ} → Placed base fs start position [] []
  later :
      {f : TorrentFile} {fs : List TorrentFile} {start position : ℕ} {bytes : Bytes}
      {ws : List Write}
      → start + f.length ≤ position
      → Placed base fs (start + f.length) position bytes ws
      → Placed base (f ∷ fs) start position bytes ws
  here :
      {f : TorrentFile} {fs : List TorrentFile} {start position : ℕ} {path part rest : Bytes}
      {ws : List Write}
      → Holds base f.path path
      → part ≢ []
      → start ≤ position
      → position + length part ≤ start + f.length
      → Placed base fs (start + f.length) (position + length part) rest ws
      → Placed base
          (f ∷ fs)
          start
          position
          (part ++ rest)
          (record { path = path; offset = position - start; bytes = part } ∷ ws)

-- What file_writer_write_piece owes to its caller: the bytes are placed, or the result is an error
-- and then a path cannot be used or a call of the operating system failed.
pub data WriteResult (os : Os) (files : List TorrentFile) (base : Bytes) (log : List Write)
    (position : ℕ) (bytes : Bytes) : List Write → Status → Type 0 where
  wrote :
      {ws : List Write}
      → Placed base files 0 position bytes ws
      → WriteResult os files base log position bytes (log ++ ws) (ok tt)
  not_written :
      {log' : List Write}
      → ¬ (Willing os × All (λ f. Writable base f.path) files)
      → WriteResult os files base log position bytes log' null

-- The writer of a torrent of several files.
abbrev pub multi_writer : Torrent → Bytes → ℕ → FileWriter
multi_writer t base written = record {
  base_path = some base;
  torrent = some t;
  multi_file = true;
  fd = none;
  written = written;
}
