-- ===== src/FileIo/Parts.antt =====
-- src/file_io.c, file_writer_write_piece: one write of a part of a piece, on every branch.
use ps5torrent.Base.{
  ℕ, ◌+◌, ◌≡◌, refl, ap, Bool, true, false, Option, none, some, List, [], ◌∷◌, ◌++◌, Bytes, length,
  take, ◌==◌, ==_iff, ==_refl, if_cases, if_not_cases, if◌then◌else◌, inl, inr, Bool-cases, sym,
  subst,
}
use ps5torrent.Base.Outcome.{ok, null}
use ps5torrent.Torrent.Types.{c_string}
use ps5torrent.FileIo.Path.{safe_relative_path, IsContained, safe_relative_path_iff}
use ps5torrent.FileIo.Writer.{
  Os, Write, WriteState, full_path, create_parent_directories, create_from, write_at, write_part,
  stop, reported, write_full,
}

-- The path that the writer uses for the file: below the base path, and short enough.
abbrev pub Holds : Bytes → Option Bytes → Bytes → Type 0
Holds base file path =
    (name : Bytes) × (file ≡ some name)
    × IsContained (c_string name)
    × (full_path base (c_string name) ≡ some path)

-- No call of the operating system fails, and every write is complete.
abbrev pub Willing : Os → Type 0
Willing os =
    ((log : List Write) (path : Bytes) → os.mkdir log path ≡ true)
    × ((log : List Write) (path : Bytes) → os.open_file log path ≡ true)
    × ((log : List Write) (path : Bytes) (offset : ℕ) → os.seek log path offset ≡ true)
    × ((log : List Write) (path : Bytes) (offset : ℕ) (bytes : Bytes)
        → os.write log path offset bytes ≡ some (length bytes))

abbrev pub Writable : Bytes → Option Bytes → Type 0
Writable base file = (path : Bytes) × Holds base file path

pub data PartResult (os : Os) (base : Bytes) (file : Option Bytes) (start : ℕ) (part : Bytes)
    (st : WriteState) : WriteState → Type 0 where
  accepted :
      {path : Bytes} {written : ℕ}
      → Holds base file path
      → PartResult os base file start part st (record {
        data_offset = st.data_offset + length part;
        written = written;
        log = st.log ++ record { path = path; offset = start; bytes = part } ∷ [];
        status = ok tt;
      })
  refused :
      {st' : WriteState}
      → st'.status ≡ null
      → ¬ (Willing os × Writable base file)
      → PartResult os base file start part st st'

take_all : (xs : Bytes) → take (length xs) xs ≡ xs
take_all [] = refl
take_all (x ∷ xs) = ap (λ t. x ∷ t) (take_all xs)

module _ (os : Os) (log : List Write) (path : Bytes) (start : ℕ) (part : Bytes) where
  abbrev whole : List Write
  whole = log ++ record { path = path; offset = start; bytes = part } ∷ []

  reported_all :
      (n : Option ℕ)
      → (reported log path start part n).1 ≡ true
      → (reported log path start part n).0 ≡ whole
  reported_all none h = cc
  reported_all (some n) h = rw ((==_iff n (length part)).0 h, take_all part) refl

  if_all :
      (b : Bool) (r : List Write × Bool)
      → (r.1 ≡ true → r.0 ≡ whole)
      → (if b then r else (log, false)).1 ≡ true
      → (if b then r else (log, false)).0 ≡ whole
  if_all true r k h = k h
  if_all false r k h = cc

  -- A write that reports every byte has appended the whole write to the log.
  write_at_all :
      (write_at os log path start part).1 ≡ true → (write_at os log path start part).0 ≡ whole
  unfolding write_at
  write_at_all = if_all (os.seek log path start) _ (reported_all (os.write log path start part))

  write_at-Willing : Willing os → (write_at os log path start part).1 ≡ true
  unfolding write_at
  write_at-Willing (m, o, s, w) =
      rw (s log path start, w log path start part) (==_refl (length part))

create_from-Willing :
    (os : Os) (log : List Write) (before rest : Bytes)
    → Willing os
    → create_from os log before rest ≡ true
unfolding create_from
create_from-Willing os log before [] h = refl
create_from-Willing os log before (c ∷ r) h = elim (Bool-cases (c == b'/')) [
  | inl e ↦ rw (e, h.0 log before) (create_from-Willing os log _ r h)
  | inr e ↦ rw e (create_from-Willing os log _ r h)
]

create_parent_directories-Willing :
    (os : Os) (log : List Write) (path : Bytes)
    → Willing os
    → create_parent_directories os log path ≡ true
unfolding create_parent_directories
create_parent_directories-Willing os log [] h = refl
create_parent_directories-Willing os log (c ∷ r) h = create_from-Willing os log (c ∷ []) r h

module _ (os : Os) (base : Bytes) (start : ℕ) (part : Bytes) (st : WriteState) where
  abbrev Result : Option Bytes → WriteState → Type 0
  Result file = PartResult os base file start part st

  unwilling :
      {file : Option Bytes} (b : Bool)
      → b ≡ false
      → (Willing os → b ≡ true)
      → ¬ (Willing os × Writable base file)
  unwilling b e k (w, _) = let t = k w in cc

  write_full_lem :
      (file : Option Bytes) (full : Bytes)
      → Holds base file full
      → Result file (write_full os full start part st)
  unfolding write_full
  write_full_lem file full h =
      if_not_cases (Result file) (create_parent_directories os st.log full)
        (λ e. refused refl (unwilling _ e (create_parent_directories-Willing os st.log full)))
        (λ _.
          if_not_cases (Result file) (os.open_file st.log full)
            (λ e. refused refl (unwilling _ e (λ w. w.1 st.log full)))
            (λ _.
              if_cases (Result file) (write_at os st.log full start part).1
                (λ e. rw (write_at_all os st.log full start part e) (accepted h))
                (λ e. refused refl (unwilling _ e (write_at-Willing os st.log full start part)))))

  injected : (name n : Bytes) → some name ≡ some n → name ≡ n
  injected name n p = cc

  named_path :
      (name path : Bytes)
      → Holds base (some name) path
      → IsContained (c_string name) × (full_path base (c_string name) ≡ some path)
  named_path name path (n, p, c, q) =
      subst (λ m. IsContained (c_string m) × (full_path base (c_string m) ≡ some path))
        (sym (injected name n p)) (c, q)

  Unwritable : (name : Bytes) → Type 0
  Unwritable name = ¬ (Willing os × Writable base (some name))

  not_contained :
      (name : Bytes) → safe_relative_path (some (c_string name)) ≡ false → Unwritable name
  unfolding Unwritable
  not_contained name e (_, (path, h)) =
      let t = (safe_relative_path_iff (c_string name)).1 (named_path name path h).0 in cc

  too_long : (name : Bytes) → full_path base (c_string name) ≡ none → Unwritable name
  unfolding Unwritable
  too_long name e (_, (path, h)) = let t = (named_path name path h).1 in cc

  at_full_path :
      (name : Bytes)
      → IsContained (c_string name)
      → (o : Option Bytes) → full_path base (c_string name) ≡ o
      → Result
          (some name)
          (elim o [ none ↦ stop null st | some full ↦ write_full os full start part st ])
  unfolding Unwritable
  at_full_path name c none e = refused refl (too_long name e)
  at_full_path name c (some full) e = write_full_lem (some name) full (name, refl, c, e)

  no_name : ¬ Writable base none
  no_name (_, (_, p, _, _)) = cc

  pub write_part_lem : (file : Option Bytes) → Result file (write_part os base file start part st)
  unfolding write_part Unwritable
  write_part_lem none = refused refl (λ w. no_name w.1)
  write_part_lem (some name) =
      if_not_cases (Result (some name)) (safe_relative_path (some (c_string name)))
        (λ e. refused refl (not_contained name e))
        (λ e. at_full_path name ((safe_relative_path_iff (c_string name)).0 e) _ refl)
