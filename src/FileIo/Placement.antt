-- ===== src/FileIo/Placement.antt =====
-- src/file_io.c, file_writer_write_piece: which byte of a piece goes where.
use ps5torrent.Base.{
  ℕ, ◌+◌, ◌-◌, ◌<◌, ◌≤◌, ◌^◌, ◌≡◌, refl, true, false, Bytes, length, take, drop, leb, ltb, ◌==◌,
  arith, min, ◌⊎◌, inl, inr, Bool-cases, lt→ltb, ltb→lt, if_not_cases,
}
use ps5torrent.Base.Signed.{add64, slt64-ltb, add64_lem}
use ps5torrent.Torrent.Types.{TorrentFile}
use ps5torrent.FileIo.Writer.{
  Os, WriteState, running, write_step, write_part, overlaps, part_start, part_length,
}

-- The sums below do not wrap, and the byte `pos` of the torrent is the next one to write: it is not
-- before the file, and behind the file's start only where the piece starts there.
abbrev pub Aligned : ℕ → ℕ → ℕ → ℕ → ℕ → Type 0
Aligned piece_start len file_start file_length done =
    (piece_start + len < 2 ^ 63)
    × (file_start + file_length < 2 ^ 63)
    × (done < len)
    × (file_start ≤ piece_start + done)
    × ((done ≡ 0) ⊎ (file_start ≡ piece_start + done))

leb-false : (a b : ℕ) → b < a → leb a b ≡ false
leb-false a b h = ground arith

pub leb-true : (a b : ℕ) → a ≤ b → leb a b ≡ true
leb-true a b h = ground arith

zero-true : (n : ℕ) → n ≤ 0 → (n == 0) ≡ true
zero-true n h = ground arith

zero-false : (n : ℕ) → 0 < n → (n == 0) ≡ false
zero-false n h = ground arith

module _ (ps len fs fl d : ℕ) (al : Aligned ps len fs fl d) where
  overlaps_lem : overlaps ps (add64 ps len) fs (add64 fs fl) ≡ ltb ps (fs + fl)
  unfolding overlaps
  overlaps_lem =
      let (p, f, m, b, w) = al in
      rw
        (
          add64_lem ps len (omega arith),
          add64_lem fs fl (omega arith),
          slt64-ltb ps (fs + fl) (omega arith) f,
          slt64-ltb fs (ps + len) (omega arith) p,
          lt→ltb fs (ps + len) (omega arith),
        )
        (elim (Bool-cases (ltb ps (fs + fl))) [ inl e ↦ rw e refl | inr e ↦ rw e refl ])

  part_start_lem : part_start ps fs ≡ ps + d - fs
  unfolding part_start
  part_start_lem =
      let (p, f, m, b, w) = al in rw (slt64-ltb fs ps (omega arith) (omega arith)) (ground arith)

  part_length_lem :
      ps < fs + fl
      → part_length ps (add64 ps len) fs (add64 fs fl) fl ≡ min (ps + len) (fs + fl) - (ps + d)
  unfolding part_length
  part_length_lem o =
      let (p, f, m, b, w) = al in
      rw
        (
          add64_lem ps len (omega arith),
          add64_lem fs fl (omega arith),
          slt64-ltb (ps + len) (fs + fl) p f,
          part_start_lem,
        )
        (ground arith)

module _ (os : Os) (base bytes : Bytes) (ps fs : ℕ) (f : TorrentFile) (st : WriteState)
    (run : running st ≡ true) (al : Aligned ps (length bytes) fs f.length st.data_offset) where
  abbrev position : ℕ
  position = ps + st.data_offset

  -- What is written: the bytes up to the end of the piece or of the file.
  abbrev share : ℕ
  share = min (ps + length bytes) (fs + f.length) - position

  pub step_idle : fs + f.length ≤ position → write_step os base bytes ps f fs st ≡ st
  unfolding write_step
  step_idle h =
      let (p, q, m, b, w) = al in
      rw
        (
          run,
          leb-false (length bytes) st.data_offset m,
          overlaps_lem ps (length bytes) fs f.length st.data_offset al,
        )
        (if_not_cases (λ s. s ≡ st) (ltb ps (fs + f.length)) (λ _. refl)
          (λ e.
            rw (part_length_lem ps (length bytes) fs f.length st.data_offset al (ltb→lt _ _ e))
              (rw (zero-true share (ground arith)) refl)))

  pub step_part :
      position < fs + f.length
      → write_step os base bytes ps f fs st
        ≡ write_part os base f.path (position - fs) (take share (drop st.data_offset bytes)) st
  unfolding write_step
  step_part h =
      let (p, q, m, b, w) = al in
      rw
        (
          run,
          leb-false (length bytes) st.data_offset m,
          overlaps_lem ps (length bytes) fs f.length st.data_offset al,
          lt→ltb ps (fs + f.length) (omega arith),
          part_length_lem ps (length bytes) fs f.length st.data_offset al (omega arith),
          part_start_lem ps (length bytes) fs f.length st.data_offset al,
        )
        (rw
          (
            zero-false share (ground arith),
            leb-true (st.data_offset + share) (length bytes) (ground arith),
          )
          refl)
