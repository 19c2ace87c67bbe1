-- ===== src/WebSeed/Pieces.antt =====
-- src/web_seed.c, fetch_multi_file_piece: the parts that are fetched are the piece, and an empty file
-- in its middle makes it fail.
use ps5torrent.Base.{
  take_over, ℕ, ◌+◌, ◌-◌, ◌*◌, ◌%◌, ◌^◌, ◌<◌, ◌≤◌, ◌≡◌, refl, ap, sym, subst, ◌∙◌, ◌++◌, true,
  false, ◌&&◌, Option, some, none, List, [], ◌∷◌, Bytes, length, take, drop, length-append,
  length-take, length-drop, append_assoc, append-nil, leb, ltb, ◌==◌, All, arith, Bool-cases, inl,
  inr, if_cases, if_not_cases, if◌then◌else◌,
}
use ps5torrent.Base.Outcome.{Outcome, ok, null, bind_ok, bind}
use ps5torrent.Base.Signed.{add64, sub64, add64_lem, sub64_lem}
use ps5torrent.Torrent.Types.{Torrent, TorrentFile}
use ps5torrent.WebSeed.Fetch.{
  Fetch, of_option, file_url, part_from, part_to, fetch_part, fetch_files, fetch_multi_file_piece,
}
use ps5torrent.WebSeed.Http.{Network, http_fetch_range}
use ps5torrent.WebSeed.Window.{
  drop_over, window, behind, window-append, part_lem, ended, skipped, size_of_window,
}

-- `content` is what the server has for each file.
module _ (fetch : Fetch) (seed : Bytes) (name : Option Bytes) (content : TorrentFile → Bytes) where
  -- The file is not empty, its address fits, and the server answers each range with its bytes.
  abbrev pub Served : TorrentFile → Type 0
  Served f =
      (url : Bytes) × (file_url seed name f.path ≡ ok url)
      × (length (content f) ≡ f.length)
      × (0 < f.length)
      × ((from len : ℕ)
          → 0 < len
          → from + len ≤ f.length
          → fetch url from len ≡ some (take len (drop from (content f))))

  abbrev pub contents : List TorrentFile → Bytes
  contents [] = []
  contents (f ∷ fs) = content f ++ contents fs

  module _ (ps len : ℕ) where
    module _ (small : ps + len < 2 ^ 63) where
      fetched_part :
          (a : Bytes) (f : TorrentFile) (url : Bytes)
          → length (content f) ≡ f.length
          → 0 < f.length
          → ((from n : ℕ)
              → 0 < n
              → from + n ≤ f.length
              → fetch url from n ≡ some (take n (drop from (content f))))
          → ps < length a + f.length
          → length a < ps + len
          → length (window ps len a) < len
          → length a + f.length < 2 ^ 63
          → let from = part_from ps (length a) in
            fetch_part fetch url from
              (sub64 (part_to (ps + len) (length a) (length a + f.length)) from)
              (len - length (window ps len a))
            ≡ ok (behind ps len (length a) (content f))
      unfolding fetch_part
      fetched_part a f url l pos answers below above open_ fits =
          let from = part_from ps (length a) in
          let to = part_to (ps + len) (length a) (length a + f.length) in
          let (e, p, i, o, r) =
            part_lem ps len a (content f) f.length l pos (omega (arith, open_)) below above in
          let s : sub64 to from ≡ to - from = sub64_lem to from o (ground arith) in
          let enough : ltb (len - length (window ps len a)) (to - from) ≡ false =
            ground (arith, size_of_window ps len a) in
          let got : fetch url from (to - from) ≡ some (behind ps len (length a) (content f)) =
            answers from (to - from) p i ∙ ap some e in
          rw s (rw enough (ap of_option got))

      -- A file in front of the piece's end: the loop goes on with what the window has of it.
      step_lem :
          (f : TorrentFile) (fs : List TorrentFile) (a : Bytes)
          → Served f
          → length (window ps len a) < len
          → length a + f.length < 2 ^ 63
          → fetch_files fetch seed name ps len (f ∷ fs) (length a) (window ps len a)
            ≡ fetch_files fetch seed name ps len fs
                (length (a ++ content f))
                (window ps len (a ++ content f))
      unfolding fetch_files
      step_lem f fs a (url, address, l, pos, answers) open_ fits =
          let c = content f in
          let rest : Bytes → Outcome Bytes =
            fetch_files fetch seed name ps len fs (length a + f.length) in
          let Goes : Outcome Bytes → Type 0 = λ o.
            o ≡ fetch_files fetch seed name ps len fs (length (a ++ c)) (window ps len (a ++ c)) in
          let pe : add64 ps len ≡ ps + len = add64_lem ps len (omega (arith, small)) in
          let fe : add64 (length a) f.length ≡ length a + f.length =
            add64_lem (length a) f.length (omega (arith, fits)) in
          let fa : length a + f.length ≡ length (a ++ c) = omega (arith, length-append a c, l) in
          let later : Goes (rest (window ps len (a ++ c))) =
            ap (λ n. fetch_files fetch seed name ps len fs n (window ps len (a ++ c))) fa in
          rw (pe, fe)
            (if_cases Goes (leb len (length (window ps len a))) (λ full. absurd (ground arith))
              (λ _.
                if_not_cases Goes (ltb ps (length a + f.length) && ltb (length a) (ps + len))
                  (λ out.
                    let before : length a + f.length ≤ ps =
                      ground (arith, size_of_window ps len a) in
                    subst (λ w. Goes (rest w)) (skipped ps len a c (omega (arith, l, before)))
                      later)
                  (λ in_.
                    bind_ok Goes (file_url seed name f.path)
                      (λ u.
                        bind
                          (fetch_part fetch u (part_from ps (length a))
                            (sub64 (part_to (ps + len) (length a) (length a + f.length))
                              (part_from ps (length a)))
                            (len - length (window ps len a)))
                          (λ part. rest (window ps len a ++ part)))
                      address
                      (bind_ok Goes _ (λ part. rest (window ps len a ++ part))
                        (fetched_part a f url l pos answers (ground arith) (ground arith) open_
                          fits)
                        (subst (λ w. Goes (rest w)) (window-append ps len a c) later)))))

      full_lem :
          (f : TorrentFile) (fs : List TorrentFile) (start : ℕ) (out : Bytes)
          → len ≤ length out
          → fetch_files fetch seed name ps len (f ∷ fs) start out ≡ ok out
      unfolding fetch_files
      full_lem f fs start out h = let e : leb len (length out) ≡ true = ground arith in rw e refl

      files_lem :
          (files : List TorrentFile) (a : Bytes)
          → All Served files
          → length a + length (contents files) < 2 ^ 63
          → fetch_files fetch seed name ps len files (length a) (window ps len a)
            ≡ ok (window ps len (a ++ contents files))
      files_lem [] a h fits =
          unfold fetch_files in ap (λ t. ok (window ps len t)) (sym (append-nil a))
      files_lem (f ∷ fs) a (h, hs) fits =
          let l = h.2 in
          let lf = length-append (content f) (contents fs) in
          elim (Bool-cases (leb len (length (window ps len a)))) [
            | inl full ↦
                full_lem f fs (length a) (window ps len a) (ground arith)
                ∙ ap ok (sym (ended ps len a (content f ++ contents fs) (ground arith)))
            | inr open_ ↦
                step_lem f fs a h (ground arith) (omega (arith, l, lf, fits))
                ∙ (files_lem fs (a ++ content f) hs
                      (omega (arith, lf, fits, length-append a (content f)))
                    ∙ ap (λ t. ok (window ps len t)) (append_assoc a (content f) (contents fs)))
          ]

      -- The loop over some files, in front of others, where the piece goes on behind them.
      before_lem :
          (files rest : List TorrentFile) (a : Bytes)
          → All Served files
          → length a + length (contents files) < 2 ^ 63
          → length a + length (contents files) < ps + len
          → 0 < len
          → fetch_files fetch seed name ps len (files ++ rest) (length a) (window ps len a)
            ≡ fetch_files fetch seed name ps len rest
                (length (a ++ contents files))
                (window ps len (a ++ contents files))
      before_lem [] rest a h fits in_ pos =
          ap (λ t. fetch_files fetch seed name ps len rest (length t) (window ps len t))
            (sym (append-nil a))
      before_lem (f ∷ fs) rest a (h, hs) fits in_ pos =
          let l = h.2 in
          let lf = length-append (content f) (contents fs) in
          let la = length-append a (content f) in
          step_lem f (fs ++ rest) a h (omega (arith, size_of_window ps len a, in_, pos))
            (omega (arith, l, lf, fits))
          ∙ (before_lem fs rest (a ++ content f) hs (omega (arith, lf, fits, la))
                (omega (arith, lf, in_, la)) pos
              ∙ ap (λ t. fetch_files fetch seed name ps len rest (length t) (window ps len t))
                  (append_assoc a (content f) (contents fs)))

      -- An empty file in the middle of the piece: its range has no byte.
      empty_lem :
          (f : TorrentFile) (rest : List TorrentFile) (a url : Bytes)
          → f.length ≡ 0
          → file_url seed name f.path ≡ ok url
          → ((from : ℕ) → fetch url from 0 ≡ none)
          → ps < length a
          → length a < ps + len
          → fetch_files fetch seed name ps len (f ∷ rest) (length a) (window ps len a) ≡ null
      unfolding fetch_files fetch_part
      empty_lem f rest a url z address never below above =
          let pe : add64 ps len ≡ ps + len = add64_lem ps len (omega (arith, small)) in
          let fe : add64 (length a) f.length ≡ length a =
            add64_lem (length a) f.length (omega (arith, small, z)) ∙ omega (arith, z) in
          let full : leb len (length (window ps len a)) ≡ false =
            ground (arith, size_of_window ps len a) in
          let lo : ltb ps (length a) ≡ true = ground arith in
          let hi : ltb (length a) (ps + len) ≡ true = ground arith in
          let size : sub64 (part_to (ps + len) (length a) (length a)) (part_from ps (length a))
              ≡ 0 =
            ground arith in
          let room : ltb (len - length (window ps len a)) 0 ≡ false = ground arith in
          rw (pe, fe, full, lo, hi, address, size, room, never (part_from ps (length a))) refl

-- Where the server answers each range of each file, none of them empty, fetch_multi_file_piece gives
-- the bytes of the piece, for any piece that lies inside the torrent.
pub fetch_multi_file_piece_lem :
    (fetch : Fetch) (content : TorrentFile → Bytes) (t : Torrent) (seed : Bytes) (index len : ℕ)
    → All (Served fetch seed t.name content) t.files
    → length (contents fetch seed t.name content t.files) < 2 ^ 63
    → index * t.piece_length + len ≤ length (contents fetch seed t.name content t.files)
    → fetch_multi_file_piece fetch t seed index len
      ≡ ok (take len (drop (index * t.piece_length) (contents fetch seed t.name content t.files)))
unfolding fetch_multi_file_piece
fetch_multi_file_piece_lem fetch content t seed index len h small inside =
    let ps = index * t.piece_length in
    let bytes = contents fetch seed t.name content t.files in
    let e : ps % 2 ^ 64 ≡ ps = omega arith in
    let start = take_over {A = ℕ} len (drop ps []) (omega (arith, length-drop {A = ℕ} ps [])) in
    let none_yet = drop_over ps [] (omega arith) in
    let size : length (window ps len bytes) ≡ len =
      omega (arith, length-take len (drop ps bytes), length-drop ps bytes, inside) in
    let result = window ps len bytes in
    rw e (
      bind_ok (λ (r : Outcome Bytes). r ≡ ok result) _
        (λ out. if length out == len then ok out else null)
        (subst (λ w. fetch_files fetch seed t.name ps len t.files 0 w ≡ ok result)
          (start ∙ none_yet)
          (files_lem fetch seed t.name content ps len (omega (arith, small, inside)) t.files [] h
            (omega (arith, small))))
        (if_cases (λ (r : Outcome Bytes). r ≡ ok result) (length result == len) (λ _. refl)
          (λ no_. absurd (ground (arith, size)))))

-- http_fetch_range gives nothing where no byte is asked for.
pub http_fetch_range_no_bytes :
    (network : Network) (url : Bytes) (start : ℕ) → http_fetch_range network url start 0 ≡ none
unfolding http_fetch_range
http_fetch_range_no_bytes network url start = refl

-- Where an empty file stands in the middle of a piece, fetch_multi_file_piece fails, as long as
-- the files before it are served and the file's address fits; like http_fetch_range, the fetch gives
-- nothing where no byte is asked for.
pub fetch_multi_file_piece_empty_file :
    (fetch : Fetch) (content : TorrentFile → Bytes) (t : Torrent) (seed url : Bytes) (index len : ℕ)
    (before after : List TorrentFile) (f : TorrentFile)
    → ((u : Bytes) (from : ℕ) → fetch u from 0 ≡ none)
    → t.files ≡ before ++ f ∷ after
    → All (Served fetch seed t.name content) before
    → f.length ≡ 0
    → file_url seed t.name f.path ≡ ok url
    → index * t.piece_length < length (contents fetch seed t.name content before)
    → length (contents fetch seed t.name content before) < index * t.piece_length + len
    → index * t.piece_length + len < 2 ^ 63
    → fetch_multi_file_piece fetch t seed index len ≡ null
unfolding fetch_multi_file_piece
fetch_multi_file_piece_empty_file fetch content t seed url index len before after f never files h z
      address below above small =
    let ps = index * t.piece_length in
    let e : ps % 2 ^ 64 ≡ ps = omega (arith, small) in
    let start = take_over {A = ℕ} len (drop ps []) (omega (arith, length-drop {A = ℕ} ps [])) in
    let none_yet = drop_over ps [] (omega arith) in
    let run : fetch_files fetch seed t.name ps len (before ++ f ∷ after) 0 [] ≡ null =
      subst (λ w. fetch_files fetch seed t.name ps len (before ++ f ∷ after) 0 w ≡ null)
        (start ∙ none_yet)
        (before_lem fetch seed t.name content ps len small before (f ∷ after) [] h
            (omega (arith, above, small)) (omega (arith, above)) (omega (arith, below, above))
          ∙ empty_lem fetch seed t.name content ps len small f after
              (contents fetch seed t.name content before) url z address (never url) below above) in
    rw (e, files, run) refl
