-- ===== src/AppLog/Persist.antt =====
-- src/app_log.c, persist: what it makes of a log, branch by branch.
use ps5torrent.Base.{
  ℕ, ◌<◌, ◌≢◌, ◌⊎◌, inl, inr, sym, subst, ◌∙◌, take_over, ◌+◌, ◌≤◌, ◌≡◌, refl, ap, ◌++◌, Bool, true,
  false, ◌&&◌, [], Bytes, length, take, ◌==◌, ==_iff, arith, if◌then◌else◌, if_cases,
}
use ps5torrent.AppLog.Defs.{
  Renaming, renamed, missing, refused, reopened, log_limit, Log, Files, rotate, append_line,
}

pub both : (p q : Bool) → (p && q) ≡ true → p ≡ true
both true q e = refl
both false q e = cc

-- The file has `content` and the other file `older`, and `line` goes behind the content: whole, with
-- the file left open, or else with the file closed and the error kept.
abbrev pub Appended : Files → Bytes → Bytes → Bytes → Log → Type 0
Appended io line content older log =
    (log.previous ≡ older)
    × (((log.output ≡ true) × (log.file ≡ content ++ line))
        ⊎ ((io.fwrite line ≢ length line) ⊎ (io.fflush ≡ false))
          × (log.output ≡ false)
          × (log.persistence_error ≡ true)
          × (log.file ≡ content ++ take (io.fwrite line) line))

-- What the other file has after a rename.
abbrev pub older_by : Renaming → Log → Bytes
older_by renamed log = log.file
older_by _ log = log.previous

-- The line does not fit: what the file has becomes the other file, unless it is gone, and the line is
-- the first of a new file; a call that fails leaves the file closed, with the error kept.
abbrev pub Renewed : Files → Bytes → Log → Log → Type 0
Renewed io line before log =
    ((io.rename ≢ refused)
      × (io.fopen ≡ true)
      × Appended io line [] (older_by io.rename before) log)
    ⊎ (((io.rename ≡ refused) ⊎ (io.fopen ≡ false))
        × (log.output ≡ false)
        × (log.persistence_error ≡ true))

-- What persist makes of a log: nothing where the file is closed.
abbrev pub Persisted : Files → Bytes → Log → Log → Type 0
Persisted io line before log =
    ((before.output ≡ false) × (log ≡ before))
    ⊎ ((before.output ≡ true)
        × (before.file_length + length line ≤ log_limit)
        × Appended io line before.file before.previous log)
    ⊎ ((before.output ≡ true)
        × (log_limit < before.file_length + length line)
        × Renewed io line before log)

take_whole :
    (io : Files) (line : Bytes) → io.fwrite line ≡ length line → take (io.fwrite line) line ≡ line
take_whole io line e = take_over (io.fwrite line) line (omega (arith, e))

cut_or_unflushed :
    (n m : ℕ) (flushed : Bool) → ((n == m) && flushed) ≡ false → (n ≢ m) ⊎ (flushed ≡ false)
cut_or_unflushed n m true e = inl (ground arith)
cut_or_unflushed n m false e = inr refl

pub append_line-Appended :
    (io : Files) (line : Bytes) (log : Log)
    → log.output ≡ true
    → Appended io line log.file log.previous (append_line io line log)
unfolding append_line
append_line-Appended io line log o =
    if_cases (Appended io line log.file log.previous) ((io.fwrite line == length line) && io.fflush)
      (λ e.
        let n =
          (==_iff (io.fwrite line) (length line)).0
            (both (io.fwrite line == length line) io.fflush e) in
        (refl, inl (o, ap (λ t. log.file ++ t) (take_whole io line n))))
      (λ e.
        (refl, inr (cut_or_unflushed (io.fwrite line) (length line) io.fflush e, refl, refl, refl)))

renamed≢refused : renamed ≢ refused
renamed≢refused = λ e. cc

missing≢refused : missing ≢ refused
missing≢refused = λ e. cc

-- A rotation that has opened the new file, or not, and what persist does behind it.
abbrev pub behind : Files → Bytes → Log × Bool → Log
behind io line r = if r.1 then append_line io line r.0 else record r.0 { persistence_error = true }

reopened-Renewed :
    (io : Files) (line : Bytes) (log : Log) (b : Bool)
    → io.rename ≢ refused
    → io.fopen ≡ b
    → Renewed io line log (
        behind io line (
          record log { output = b; file_length = 0; file = []; previous = older_by io.rename log },
          b,
        ))
reopened-Renewed io line log true n e = inl (
  n,
  e,
  append_line-Appended io line
      (record log { output = true; file_length = 0; file = []; previous = older_by io.rename log })
      refl,
)
reopened-Renewed io line log false n e = inr (inr e, refl, refl)

pub rotate-Renewed :
    (io : Files) (line : Bytes) (log : Log) → Renewed io line log (behind io line (rotate io log))
unfolding rotate
rotate-Renewed io line log = by_rename io.rename refl
  where
    by_rename :
        (r : Renaming)
        → io.rename ≡ r
        → Renewed io line log (
            behind io line (elim r [
              | renamed ↦ reopened io log.file log
              | missing ↦ reopened io log.previous log
              | refused ↦ (record log { output = false }, false)
            ]))
    by_rename renamed e =
        let k = reopened-Renewed io line log io.fopen (λ f. renamed≢refused (sym e ∙ f)) refl in
        subst (λ older. Renewed io line log (behind io line (reopened io older log)))
          (ap (λ r. older_by r log) e) k
    by_rename missing e =
        let k = reopened-Renewed io line log io.fopen (λ f. missing≢refused (sym e ∙ f)) refl in
        subst (λ older. Renewed io line log (behind io line (reopened io older log)))
          (ap (λ r. older_by r log) e) k
    by_rename refused e = inr (inl e, refl, refl)
