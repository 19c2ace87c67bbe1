-- ===== src/TorrentMgr/Served.antt =====
-- src/torrent_mgr.c over src/file_io.c: the writer of a valid torrent reads nothing outside a piece.
use ps5torrent.Base.{
  ℕ, ◌+◌, ◌-◌, ◌*◌, ◌%◌, ◌^◌, ◌<◌, ◌≤◌, ◌≡◌, ◌≢◌, refl, sym, subst, suc, ap, ◌∙◌, true, false, ◌⊎◌,
  inl, inr, some, List, Bytes, length, ◌==◌, ==_iff, arith, if_cases, if_not_cases, Option-elim,
}
use native.Mathlib.Nat.{mul-le-mul_right}
use ps5torrent.Base.Outcome.{fault, out_of_fuel}
use ps5torrent.Base.Signed.{sub64, sub64_lem}
use ps5torrent.Torrent.Types.{Torrent}
use ps5torrent.Torrent.Sizes.{IsTorrent}
use ps5torrent.FileIo.Writer.{
  Os, Write, WriteState, FileWriter, Status, write_at, write_single, file_writer_write_piece,
}
use ps5torrent.FileIo.Placed.{WriteResult, wrote, not_written, multi_writer}
use ps5torrent.FileIo.Tiling.{file_writer_write_piece-Placed}
use ps5torrent.TorrentMgr.Transfer.{size_of_piece}
use ps5torrent.TorrentMgr.Sound.{SafeWriter}

-- A piece as large as process_peer takes it lies inside the torrent.
pub size_of_piece_inside :
    (t : Torrent) (index : ℕ)
    → IsTorrent t
    → index < t.num_pieces
    → index * t.piece_length + size_of_piece t index ≤ t.total_size
unfolding size_of_piece
size_of_piece_inside t index (name, pieces, pl, ts, (some_, short, cover), adds) i =
    let before : index * t.piece_length ≤ (t.num_pieces - 1) * t.piece_length =
      mul-le-mul_right t.piece_length (omega (arith, i)) in
    let few : t.num_pieces - 1 ≤ (t.num_pieces - 1) * t.piece_length = grind (arith, pl.0) in
    let last : sub64 t.num_pieces 1 ≡ t.num_pieces - 1 =
      sub64_lem t.num_pieces 1 (omega (arith, some_)) (omega (arith, few, short, ts.1)) in
    if_cases (λ (size : ℕ). index * t.piece_length + size ≤ t.total_size)
      (index == sub64 t.num_pieces 1)
      (λ e.
        let l : index ≡ t.num_pieces - 1 = (==_iff _ _).0 e ∙ last in
        let at : index * t.piece_length ≡ (t.num_pieces - 1) * t.piece_length =
          ap (λ k. k * t.piece_length) l in
        let low : index * t.piece_length % 2 ^ 64 ≡ index * t.piece_length =
          omega (arith, at, short, ts.1) in
        let s =
          sub64_lem t.total_size (index * t.piece_length % 2 ^ 64) (omega (arith, at, short, low))
            (omega (arith, ts.1)) in
        omega (arith, s, low, at, short))
      (λ e.
        let ne : suc index ≤ t.num_pieces - 1 = ground (arith, last, i) in
        let next : suc index * t.piece_length ≤ (t.num_pieces - 1) * t.piece_length =
          mul-le-mul_right t.piece_length ne in
        let split : suc index * t.piece_length ≡ index * t.piece_length + t.piece_length =
          grind arith in
        omega (arith, next, split, short))

abbrev pub Quiet : Status → Type 0
Quiet st = (st ≢ fault) × (st ≢ out_of_fuel)

WriteResult-Quiet :
    (os : Os) (t : Torrent) (base : Bytes) (log : List Write) (position : ℕ) (bytes : Bytes)
    (log' : List Write) (status : Status)
    → WriteResult os t.files base log position bytes log' status
    → Quiet status
WriteResult-Quiet os t base log position bytes log' status (wrote p) = (cc, cc)
WriteResult-Quiet os t base log position bytes log' status (not_written n) = (cc, cc)

write_single-Quiet :
    (os : Os) (log : List Write) (fw : FileWriter) (bytes : Bytes) (offset : ℕ)
    → Quiet (write_single os log fw bytes offset).status
unfolding write_single
write_single-Quiet os log fw bytes offset =
    let P : WriteState → Type 0 = λ st. (st.status ≢ fault) × (st.status ≢ out_of_fuel) in
    Option-elim P fw.fd (λ _. (cc, cc))
      (λ path _. if_cases P (write_at os log path offset bytes).1 (λ _. (cc, cc)) (λ _. (cc, cc)))

-- The writer that file_writer_init leaves for the torrent, after any writes.
abbrev pub Serves : Torrent → FileWriter → Type 0
Serves t fw =
    IsTorrent t
    × ((t.is_multi_file ≡ true)
          × ((base : Bytes) × (written : ℕ) × (fw ≡ multi_writer t base written))
        ⊎ ((fw.multi_file ≡ false) × (fw.torrent ≡ some t)))

abbrev pub Quietly : Os → Torrent → FileWriter × List Write × Status → Type 0
Quietly os t (fw, log, status) = Serves t fw × Quiet status

serves_single :
    (os : Os) (t : Torrent) (fw : FileWriter) (log : List Write) (index : ℕ) (piece : Bytes)
    → IsTorrent t
    → fw.multi_file ≡ false
    → fw.torrent ≡ some t
    → Quietly os t (file_writer_write_piece os log fw piece index)
unfolding file_writer_write_piece
serves_single os t fw log index piece v m e =
    Option-elim (Quietly os t) fw.torrent (λ e'. cc)
      (λ t' e'. (
        (v, inr (m, e)),
        if_not_cases (λ (st : WriteState). Quiet st.status) fw.multi_file
            (λ _. write_single-Quiet os log fw piece (index * t'.piece_length % 2 ^ 64)) (λ m'. cc),
      ))

serves_multi :
    (os : Os) (t : Torrent) (base : Bytes) (written : ℕ) (log : List Write) (index : ℕ)
    (piece : Bytes)
    → IsTorrent t
    → t.is_multi_file ≡ true
    → index < t.num_pieces
    → length piece ≡ size_of_piece t index
    → Quietly os t (file_writer_write_piece os log (multi_writer t base written) piece index)
unfolding file_writer_write_piece
serves_multi os t base written log index piece v m i l =
    let inside = size_of_piece_inside t index v i in
    let total = (v.5 m).0 in
    let r =
      file_writer_write_piece-Placed os log t base piece index written (omega (arith, total, v.3.1))
        (omega (arith, total, inside, l)) in
    ((v, inl (m, (base, _, refl))), WriteResult-Quiet os t base log _ piece _ _ r)

-- One of the two writers, on a piece of the torrent's size.
pub serves_lem :
    (os : Os) (t : Torrent) (fw : FileWriter) (log : List Write) (index : ℕ) (piece : Bytes)
    → Serves t fw
    → index < t.num_pieces
    → length piece ≡ size_of_piece t index
    → Quietly os t (file_writer_write_piece os log fw piece index)
serves_lem os t fw log index piece (v, inl (m, (base, written, e))) i l =
    subst (λ w. Quietly os t (file_writer_write_piece os log w piece index)) (sym e)
      (serves_multi os t base written log index piece v m i l)
serves_lem os t fw log index piece (v, inr (m, e)) i l = serves_single os t fw log index piece v m e

abbrev pub torrent_writer : (os : Os) → SafeWriter os
torrent_writer os = record {
  Serves = Serves;
  serves = λ t fw log index piece s i l.
      let a = serves_lem os t fw log index piece s i l in (a.0, a.1.0, a.1.1);
}
