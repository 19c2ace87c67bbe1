-- ===== src/AppLog/Rotation.antt =====
-- src/app_log.c, persist and app_log_write: the size of the file, and the shape of its lines.
use ps5torrent.Base.{
  inl, inr, suc, ◌+◌, ◌≤◌, ◌≡◌, refl, ap, ◌++◌, Bool, true, false, ◌&&◌, [], ◌∷◌, Bytes, length,
  take, ltb, leb, ◌==◌, ==_iff, arith, if◌then◌else◌, if_cases, if_not_cases, length-append,
  length-take, All,
}
use ps5torrent.AppLog.Defs.{
  Renaming, renamed, missing, refused, reopened, log_limit, Log, Files, rotate, append_line,
  persist, one_line, shortened, line_of,
}
use ps5torrent.AppLog.Persist.{both, Persisted, append_line-Appended, rotate-Renewed}

-- While the log file is open, the length that is kept is that of the file, and below the limit.
abbrev pub IsBounded : Log → Type 0
IsBounded log =
    log.output ≡ true → (log.file_length ≡ length log.file) × (log.file_length ≤ log_limit)

whole_line :
    (io : Files) (line : Bytes) (log : Log)
    → (io.fwrite line == length line) ≡ true
    → log.file_length ≡ length log.file
    → log.file_length + length line ≡ length (log.file ++ take (io.fwrite line) line)
whole_line io line log e f =
    let n : io.fwrite line ≡ length line = (==_iff (io.fwrite line) (length line)).0 e in
    omega (
      arith,
      n,
      f,
      length-append log.file (take (io.fwrite line) line),
      length-take (io.fwrite line) line,
    )

append_line-IsBounded :
    (io : Files) (line : Bytes) (log : Log)
    → log.output ≡ true
    → IsBounded log
    → log.file_length + length line ≤ log_limit
    → IsBounded (append_line io line log)
unfolding append_line
append_line-IsBounded io line log o h l =
    if_cases IsBounded ((io.fwrite line == length line) && io.fflush)
      (λ e _.
        (whole_line io line log (both (io.fwrite line == length line) io.fflush e) (h o).0, l))
      (λ _ e. cc)

-- A rotation that succeeds leaves an empty file open; one that fails leaves none.
Rotated : Log × Bool → Type 0
Rotated (log, done) =
    if done
    then (log.output ≡ true) × (log.file_length ≡ 0) × (log.file ≡ [])
    else log.output ≡ false

Rotated-reopened :
    (log : Log) (older : Bytes) (b : Bool)
    → Rotated (record log { output = b; file_length = 0; file = []; previous = older }, b)
unfolding Rotated
Rotated-reopened log older true = (refl, refl, refl)
Rotated-reopened log older false = refl

rotate-Rotated : (io : Files) (log : Log) → Rotated (rotate io log)
unfolding rotate Rotated
rotate-Rotated io log = by_rename io.rename
  where
    by_rename :
        (r : Renaming)
        → Rotated (elim r [
          | renamed ↦ reopened io log.file log
          | missing ↦ reopened io log.previous log
          | refused ↦ (record log { output = false }, false)
        ])
    by_rename renamed = Rotated-reopened log log.file io.fopen
    by_rename missing = Rotated-reopened log log.previous io.fopen
    by_rename refused = refl

Rotated-case :
    (io : Files) (line : Bytes) (r : Log × Bool)
    → Rotated r
    → length line ≤ log_limit
    → IsBounded (if r.1 then append_line io line r.0 else record r.0 { persistence_error = true })
unfolding Rotated
Rotated-case io line (log, true) (o, n, f) l =
    append_line-IsBounded io line log o (λ _. (omega (arith, n, ap length f), omega (arith, n)))
      (omega (arith, n, l))
Rotated-case io line (log, false) o l = λ e. cc

-- For lines of at most 1 MiB, persist keeps the length that is kept of an open log file that of the
-- file, and within 1 MiB. A closed file stays as it is; a line that fits goes behind what the file
-- has; where it does not fit, what the file has becomes the previous file, unless somebody removed it,
-- and the line starts a new one; and where a call fails, or not the whole line is written, the file is
-- closed and the error kept.
pub persist-IsBounded :
    (io : Files) (line : Bytes) (log : Log)
    → length line ≤ log_limit
    → IsBounded log
    → IsBounded (persist io line log) × Persisted io line log (persist io line log)
unfolding persist
persist-IsBounded io line log l h =
    let Good : Log → Type 0 = λ after. IsBounded after × Persisted io line log after in
    if_not_cases Good log.output (λ o. (h, inl (o, refl)))
      (λ o.
        if_cases Good (ltb log_limit (log.file_length + length line))
          (λ e. (
            Rotated-case io line (rotate io log) (rotate-Rotated io log) l,
            inr (inr (o, ground arith, rotate-Renewed io line log)),
          ))
          (λ e. (
            append_line-IsBounded io line log o h (ground arith),
            inr (inl (o, ground arith, append_line-Appended io line log o)),
          )))

one_line-printable : (text : Bytes) → All (λ c. 32 ≤ c) (one_line text)
one_line-printable [] = tt
one_line-printable (c ∷ r) =
    (if_cases (λ d. 32 ≤ d) (ltb c 32) (λ _. omega arith) (λ e. ground arith), one_line-printable r)

length-one_line : (text : Bytes) → length (one_line text) ≡ length text
length-one_line [] = refl
length-one_line (c ∷ r) = ap suc (length-one_line r)

shortened_le : (text : Bytes) → length (shortened text) ≤ 2046
unfolding shortened
shortened_le text =
    if_cases (λ t. length t ≤ 2046) (leb 2047 (length text)) {x = take 2046 text}
      (λ _. let e = length-take 2046 text in omega (arith, e)) (λ e. ground arith)

-- A line of the log ends with its only newline, has no other byte below 32, and fits the buffer.
pub line_of_lem :
    (text : Bytes)
    → (body : Bytes) × (line_of text ≡ body ++ 10 ∷ [])
      × All (λ c. 32 ≤ c) body
      × (length (line_of text) ≤ 2047)
unfolding line_of
line_of_lem text =
    let body = one_line (shortened text) in
    (
      body,
      refl,
      one_line-printable (shortened text),
      omega (
        arith,
        length-append body (10 ∷ []),
        length-one_line (shortened text),
        shortened_le text,
      ),
    )
