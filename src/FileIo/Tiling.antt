-- ===== src/FileIo/Tiling.antt =====
-- src/file_io.c, file_writer_write_piece on the files of a torrent: the loop's result.
use ps5torrent.Base.{
  ℕ, ◌+◌, ◌-◌, ◌*◌, ◌%◌, ◌<◌, ◌≤◌, ◌^◌, ◌≡◌, ◌≢◌, refl, ap, Bool, true, false, not, ◌||◌, List, [],
  ◌∷◌, ◌++◌, Bytes, length, take, drop, leb, arith, min, ◌⊎◌, inl, inr, Bool-cases, append_assoc,
  append-nil, All, sym, subst, ◌∙◌, length-take, length-drop, take-append-drop, drop_all, drop-drop,
  leb→le,
}
use ps5torrent.Base.Outcome.{ok, null}
use ps5torrent.Base.Signed.{add64, add64_lem}
use ps5torrent.Torrent.Types.{Torrent, TorrentFile}
use ps5torrent.FileIo.Placed.{
  total_length, Placed, placed, later, here, WriteResult, wrote, not_written, multi_writer,
}
use ps5torrent.FileIo.Parts.{
  Holds, Willing, Writable, PartResult, accepted, refused, write_part_lem,
}
use ps5torrent.FileIo.Placement.{step_idle, step_part, Aligned, leb-true}
use ps5torrent.FileIo.Writer.{
  Os, Write, WriteState, running, write_step, write_files, start_at, FileWriter,
  file_writer_write_piece,
}

or_true : (b : Bool) → (b || true) ≡ true
or_true true = refl
or_true false = refl

module _ (os : Os) (base bytes : Bytes) (ps : ℕ) (fits : ps + length bytes < 2 ^ 63) where
  over : WriteState → Bool
  over st = not (running st) || leb (length bytes) st.data_offset

  -- Behind the loop's end nothing happens.
  write_files-over :
      (files : List TorrentFile) (start : ℕ) (st : WriteState)
      → over st ≡ true
      → write_files os base bytes ps files start st ≡ st
  unfolding write_files write_step over
  write_files-over [] start st h = refl
  write_files-over (f ∷ fs) start st h = rw h (write_files-over fs (add64 start f.length) st h)

  data Finished (files : List TorrentFile) (start : ℕ) (st st' : WriteState) : Type 0 where
    finished :
        {ws : List Write}
        → st'.status ≡ ok tt
        → st'.log ≡ st.log ++ ws
        → Placed base files start (ps + st.data_offset) (drop st.data_offset bytes) ws
        → Finished files start st st'
    failed :
        st'.status ≡ null
        → ¬ (Willing os × All (λ f. Writable base f.path) files)
        → Finished files start st st'

  -- The state in front of a file that starts at `start`.
  abbrev Ready : ℕ → ℕ → Type 0
  Ready start d =
      (length bytes ≡ d) ⊎ ((start ≤ ps + d) × (d < length bytes) × ((d ≡ 0) ⊎ (start ≡ ps + d)))

  abbrev Room : List TorrentFile → ℕ → Type 0
  Room files start =
      (start + total_length files < 2 ^ 63) × (ps + length bytes ≤ start + total_length files)

  Ready-next :
      (start fl d d' : ℕ)
      → d' ≡ d + (min (ps + length bytes) (start + fl) - (ps + d))
      → d < length bytes
      → ps + d < start + fl
      → Ready (start + fl) d'
  Ready-next start fl d d' e m h = elim (Bool-cases (leb (ps + length bytes) (start + fl))) [
    | inl t ↦ inl (ground arith)
    | inr t ↦ inr (ground arith, ground arith, inr (ground arith))
  ]

  Ready-start : Ready 0 0
  Ready-start = elim (Bool-cases (leb (length bytes) 0)) [
    | inl e ↦ inl (ground arith)
    | inr e ↦ inr (omega arith, ground arith, inl refl)
  ]

  over_null : (st : WriteState) → st.status ≡ null → over st ≡ true
  unfolding over
  over_null st s = rw (s, running) refl

  ok_running : (st : WriteState) → st.status ≡ ok tt → running st ≡ true
  ok_running st s = rw (s, running) refl

  all_done :
      (files : List TorrentFile) (start : ℕ) (st : WriteState)
      → st.status ≡ ok tt
      → length bytes ≡ st.data_offset
      → Finished files start st (write_files os base bytes ps files start st)
  unfolding over
  all_done files start st s e =
      let o : over st ≡ true =
        rw (leb-true (length bytes) st.data_offset (omega (arith, e)))
          (or_true (not (running st))) in
      rw (write_files-over files start st o) (
        finished s (sym (append-nil st.log)) (
          subst (λ b. Placed base files start (ps + st.data_offset) b [])
            (sym (drop_all st.data_offset bytes e)) placed))

  -- One file that has no more bytes of the piece.
  passed :
      (f : TorrentFile) (fs : List TorrentFile) (start : ℕ) (st st' : WriteState)
      → start + f.length ≤ ps + st.data_offset
      → Finished fs (start + f.length) st st'
      → Finished (f ∷ fs) start st st'
  passed f fs start st st' h (finished s l p) = finished s l (later h p)
  passed f fs start st st' h (failed s n) = failed s (λ (w, (_, a)). n (w, a))

  write_files-next :
      (f : TorrentFile) (fs : List TorrentFile) (start : ℕ) (st : WriteState)
      → start + f.length < 2 ^ 64
      → write_files os base bytes ps (f ∷ fs) start st
        ≡ write_files os base bytes ps fs
            (start + f.length)
            (write_step os base bytes ps f start st)
  unfolding write_files
  write_files-next f fs start st h =
      ap (λ e. write_files os base bytes ps fs e (write_step os base bytes ps f start st))
        (add64_lem start f.length h)

  -- One file that takes the next `n` bytes of the piece.
  module _ (f : TorrentFile) (fs : List TorrentFile) (start : ℕ) (st : WriteState) (n : ℕ)
      (b : start ≤ ps + st.data_offset) (pos : 0 < n) (fit : st.data_offset + n ≤ length bytes)
      (inside : ps + st.data_offset + n ≤ start + f.length) where
    abbrev part : Bytes
    part = take n (drop st.data_offset bytes)

    part_size : length part ≡ n
    part_size =
        omega (arith, length-take n (drop st.data_offset bytes), length-drop st.data_offset bytes)

    part_ne : part ≢ []
    part_ne e = let l = part_size in let z = ap length e in omega arith

    abbrev next : Bytes → ℕ → WriteState
    next path written = record {
      data_offset = st.data_offset + length part;
      written = written;
      log =
          st.log ++ record { path = path; offset = ps + st.data_offset - start; bytes = part } ∷ [];
      status = ok tt;
    }

    next-Placed :
        {path : Bytes} {ws : List Write}
        → Holds base f.path path
        → Placed base fs
            (start + f.length)
            (ps + (st.data_offset + length part))
            (drop (st.data_offset + length part) bytes)
            ws
        → Placed base
            (f ∷ fs)
            start
            (ps + st.data_offset)
            (drop st.data_offset bytes)
            (record { path = path; offset = ps + st.data_offset - start; bytes = part } ∷ ws)
    next-Placed {path} {ws} h p =
        let l = part_size in
        let q =
          subst (λ t. Placed base fs (start + f.length) t (drop n (drop st.data_offset bytes)) ws)
            (omega arith)
            (subst
              (λ t. Placed base fs (start + f.length) (ps + (st.data_offset + length part)) t ws)
              (ap (λ t. drop (st.data_offset + t) bytes) l ∙ drop-drop st.data_offset n bytes) p) in
        subst
          (λ t.
            Placed base (f ∷ fs) start (ps + st.data_offset) t
              (record { path = path; offset = ps + st.data_offset - start; bytes = part } ∷ ws))
          (take-append-drop n (drop st.data_offset bytes)) (here h part_ne b (omega arith) q)

    joined :
        {path : Bytes} {written : ℕ} {st' : WriteState}
        → Holds base f.path path
        → Finished fs (start + f.length) (next path written) st'
        → Finished (f ∷ fs) start st st'
    joined h (finished {ws} s l p) = finished s (l ∙ append_assoc st.log _ ws) (next-Placed h p)
    joined h (failed s n) = failed s (λ (w, (_, a)). n (w, a))

    advanced :
        {st' : WriteState}
        → PartResult os base f.path (ps + st.data_offset - start) part st st'
        → (st'.status ≡ ok tt
            → st'.data_offset ≡ st.data_offset + n
            → Finished fs
                (start + f.length)
                st'
                (write_files os base bytes ps fs (start + f.length) st'))
        → Finished (f ∷ fs) start st (write_files os base bytes ps fs (start + f.length) st')
    advanced (accepted {path} {written} h) k =
        joined h (k refl (ap (λ t. st.data_offset + t) part_size))
    advanced {st'} (refused s never) k =
        rw (write_files-over fs (start + f.length) st' (over_null st' s))
          (failed s (λ (w, (r, _)). never (w, r)))

  files_lem :
      (files : List TorrentFile) (start : ℕ) (st : WriteState)
      → st.status ≡ ok tt
      → Ready start st.data_offset
      → Room files start
      → Finished files start st (write_files os base bytes ps files start st)
  files_lem files start st s (inl e) room = all_done files start st s e
  files_lem [] start st s (inr (b, m, w)) (r, r') = absurd (omega arith)
  files_lem (f ∷ fs) start st s (inr (b, m, w)) (r, r') =
      let al : Aligned ps (length bytes) start f.length st.data_offset =
        (fits, omega arith, m, b, w) in
      let run = ok_running st s in
      rw (write_files-next f fs start st (omega arith))
        (elim (Bool-cases (leb (start + f.length) (ps + st.data_offset))) [
          | inl e ↦ rw (step_idle os base bytes ps start f st run al (leb→le _ _ e)) (
              passed f fs start st _ (leb→le _ _ e)
                (files_lem fs (start + f.length) st s (ground arith) (ground arith)))
          | inr e ↦ rw (step_part os base bytes ps start f st run al (ground arith)) (
              advanced f fs start st
                (min (ps + length bytes) (start + f.length) - (ps + st.data_offset)) b
                (ground arith) (ground arith) (ground arith) (write_part_lem os base _ _ st f.path)
                (λ s' e'.
                  files_lem fs (start + f.length) _ s'
                    (Ready-next start f.length st.data_offset _ e' m (ground arith))
                    (ground arith)))
        ])

to_result :
    (os : Os) (base bytes : Bytes) (ps : ℕ) (fits : ps + length bytes < 2 ^ 63)
    (files : List TorrentFile) (fw : FileWriter) (log : List Write) {st : WriteState}
    → Finished os base bytes ps fits files 0 (start_at fw log) st
    → WriteResult os files base log ps bytes st.log st.status
to_result os base bytes ps fits files fw log (finished {ws} s l p) =
    rw (s, l) (wrote (subst (λ q. Placed base files 0 q bytes ws) (omega arith) p))
to_result os base bytes ps fits files fw log (failed s n) = rw s (not_written n)

-- In a torrent of several files with a total below 2 ^ 63 bytes, a piece that lies inside the
-- torrent is written part by part to the files it spans, each byte at its place and inside its
-- file, at a path below the base path; the loop never reads behind the piece, and it fails only
-- where a path cannot be used or the operating system refuses a call.
pub file_writer_write_piece-Placed :
    (os : Os) (log : List Write) (t : Torrent) (base bytes : Bytes) (index written : ℕ)
    → total_length t.files < 2 ^ 63
    → index * t.piece_length + length bytes ≤ total_length t.files
    → let (fw, log', status) =
        file_writer_write_piece os log (multi_writer t base written) bytes index in
      WriteResult os t.files base log (index * t.piece_length) bytes log' status
unfolding file_writer_write_piece
file_writer_write_piece-Placed os log t base bytes index written small inside =
    let ps = index * t.piece_length in
    let e : ps % 2 ^ 64 ≡ ps = omega arith in
    rw e (
      to_result os base bytes ps (omega arith) t.files (multi_writer t base written) log (
        files_lem os base bytes ps (omega arith) t.files 0 _ refl
          (Ready-start os base bytes ps (omega arith)) (omega arith, omega arith)))
