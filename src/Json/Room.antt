-- ===== src/Json/Room.antt =====
-- src/torrent_mgr.c, torrent_mgr_status_json: the text stays inside its buffer.
use ps5torrent.Base.{
  ℕ, ◌+◌, ◌-◌, ◌<◌, ◌≡◌, ap, List, [], ◌∷◌, Bytes, codes, length, length-append, length-take, take,
  ltb, leb, ◌==◌, if_cases, arith, Option, none, some,
}
use ps5torrent.Json.Writer.{
  json_writef, json_byte, write_bytes, json_write_string, TorrentStatus, member, numbers_text,
  head_text, write_torrent, write_torrents, opening, torrent_mgr_status_json,
}

module _ (size : ℕ) where
  -- There is room for the closing zero.
  abbrev Inside : Bytes → Type 0
  Inside out = length out < size

  json_writef-Inside : (out text : Bytes) → Inside out → Inside (json_writef size out text)
  unfolding json_writef
  json_writef-Inside out text h =
      if_cases Inside (leb size (length out)) (λ _. h)
        (λ _.
          if_cases Inside (leb (size - length out) (length text))
            (λ e.
              let l = length-append out (take (size - length out - 1) text) in
              let m = length-take (size - length out - 1) text in omega (arith, l, m, h))
            (λ e. ground (arith, length-append out text)))

  write_bytes-Inside : (out value : Bytes) → Inside out → Inside (write_bytes size out value)
  unfolding write_bytes
  write_bytes-Inside out [] h = h
  write_bytes-Inside out (c ∷ r) h =
      if_cases Inside (ltb (length out + 7) size)
        (λ _.
          write_bytes-Inside (json_writef size out (json_byte c)) r
            (json_writef-Inside out (json_byte c) h))
        (λ _. h)

  json_write_string-Inside :
      (out value : Bytes) → Inside out → Inside (json_write_string size out value)
  unfolding json_write_string
  json_write_string-Inside out value h =
      json_writef-Inside _ (b'"' ∷ [])
        (write_bytes-Inside _ value (json_writef-Inside out (b'"' ∷ []) h))

  write_torrent-Inside :
      (now i : ℕ) (out : Bytes) (t : TorrentStatus)
      → Inside out
      → Inside (write_torrent size now i out t)
  unfolding write_torrent
  write_torrent-Inside now i out t h = json_writef-Inside _ (codes "}") (
      json_write_string-Inside _ t.error_msg (
        json_writef-Inside _ (member (codes "error") []) (
          json_write_string-Inside _ t.save_path (
            json_writef-Inside _ (numbers_text now t) (
              json_write_string-Inside _ t.id (
                json_writef-Inside _ (member (codes "hash") []) (
                  json_write_string-Inside _ t.name (
                    json_writef-Inside _ (head_text i) (
                      if_cases Inside (i == 0) (λ _. h)
                        (λ _. json_writef-Inside out (codes ",") h))))))))))

  write_torrents-Inside :
      (now i : ℕ) (out : Bytes) (ts : List TorrentStatus)
      → Inside out
      → Inside (write_torrents size now i out ts)
  unfolding write_torrents
  write_torrents-Inside now i out [] h = h
  write_torrents-Inside now i out (t ∷ ts) h =
      write_torrents-Inside now (i + 1) (write_torrent size now i out t) ts
        (write_torrent-Inside now i out t h)

  -- Whatever the torrents' texts are, the status stays inside its buffer, the closing zero included.
  pub torrent_mgr_status_json-Inside :
      (now : ℕ) (ts : List TorrentStatus) (text : Bytes)
      → torrent_mgr_status_json size now ts ≡ some text
      → length text < size
  unfolding torrent_mgr_status_json
  torrent_mgr_status_json-Inside now ts text =
      if_cases (λ (o : Option Bytes). o ≡ some text → length text < size) (ltb size 64) (λ _ h. cc)
        (λ big h.
          let start : Inside [] = ground arith in
          let inside =
            json_writef-Inside _ (codes "]}")
              (write_torrents-Inside now 0 _ ts (json_writef-Inside [] opening start)) in
          given inside h)
    where
      given : {out : Bytes} → Inside out → some out ≡ some text → length text < size
      given {out} i e =
          omega
            (arith, ap {B = ℕ} (λ (o : Option Bytes). elim o [ none ↦ 0 | some b ↦ length b ]) e, i)
