-- ===== src/AppLog/Tests.antt =====
-- Runs of src/app_log.c on short lines.
use ps5torrent.Base.{
  ◌≡◌, ◌≤◌, refl, arith, ◌++◌, true, false, List, [], ◌∷◌, Bytes, codes, length, All,
}
use ps5torrent.AppLog.Defs.{renamed, Log, Files, log_tail, persist, line_of}
use ps5torrent.AppLog.Tail.{last, remember_all, joined_lines, remember_all_lem}
use ps5torrent.AppLog.Persist.{Persisted}
use ps5torrent.AppLog.Rotation.{IsBounded, persist-IsBounded, line_of_lem}

abbrev two_lines : List Bytes
two_lines = codes "ab" ∷ codes "c" ∷ []

remember_all_lem_example :
    (remember_all [] two_lines ≡ last log_tail ([] ++ joined_lines two_lines))
    × (length (remember_all [] two_lines) ≤ log_tail)
remember_all_lem_example = remember_all_lem [] two_lines (omega arith)

abbrev working : Files
working = record { rename = renamed; fopen = true; fwrite = λ line. length line; fflush = true }

abbrev open_log : Log
open_log = record {
  recent = [];
  file_length = 2;
  output = true;
  persistence_error = false;
  file = codes "x\n";
  previous = [];
}

persist-IsBounded_example :
    IsBounded (persist working (codes "abc") open_log)
    × Persisted working (codes "abc") open_log (persist working (codes "abc") open_log)
persist-IsBounded_example =
    persist-IsBounded working (codes "abc") open_log (omega arith) (λ _. (refl, omega arith))

-- Where the line does not fit, the file becomes the previous one.
rotated :
    (persist working (codes "abc") (record open_log { file_length = 1048576 })).previous
    ≡ codes "x\n"
unfolding persist
rotated = refl

line_of_lem_example :
    (body : Bytes) × (line_of (codes "a\tb") ≡ body ++ 10 ∷ [])
    × All (λ c. 32 ≤ c) body
    × (length (line_of (codes "a\tb")) ≤ 2047)
line_of_lem_example = line_of_lem (codes "a\tb")
