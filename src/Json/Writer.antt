-- ===== src/Json/Writer.antt =====
-- src/torrent_mgr.c, json_writef, json_write_string and torrent_mgr_status_json. The writer is the
-- text so far and the buffer's size.
use ps5torrent.Base.{
  ℕ, ◌+◌, ◌-◌, ◌/◌, ◌%◌, Bool, ◌&&◌, List, [], ◌∷◌, ◌++◌, Bytes, codes, length, take, ltb, leb,
  ◌==◌, if◌then◌else◌, Option, none, some,
}
use ps5torrent.Base.Decimal.{print_u64}
use ps5torrent.Net.Url.{hex}
use ps5torrent.Json.Escape.{is_special}
use ps5torrent.TorrentMgr.State.{TorrentState, stopped, downloading, seeding, error, done}

-- json_writef with the text that the format gives: what does not fit is cut.
unfoldable pub json_writef : ℕ → Bytes → Bytes → Bytes
json_writef size out text =
    if leb size (length out)
    then out
    else if leb (size - length out) (length text)
    then out ++ take (size - length out - 1) text
    else out ++ text

-- The escape of a byte.
unfoldable pub json_byte : ℕ → Bytes
json_byte c =
    if is_special c
    then 92 ∷ c ∷ []
    else if c == 8
    then 92 ∷ b'b' ∷ []
    else if c == 12
    then 92 ∷ b'f' ∷ []
    else if c == 10
    then 92 ∷ b'n' ∷ []
    else if c == 13
    then 92 ∷ b'r' ∷ []
    else if c == 9
    then 92 ∷ b't' ∷ []
    else if ltb c 0x20
    then 92 ∷ b'u' ∷ b'0' ∷ b'0' ∷ hex (c / 16) ∷ hex (c % 16) ∷ []
    else c ∷ []

-- The loop over the value: it stops where fewer than eight bytes are left.
unfoldable pub write_bytes : ℕ → Bytes → Bytes → Bytes
unfolding json_writef json_byte
write_bytes size out [] = out
write_bytes size out (c ∷ r) =
    let next = write_bytes size (json_writef size out (json_byte c)) r in
    if ltb (length out + 7) size then next else out

unfoldable pub json_write_string : ℕ → Bytes → Bytes → Bytes
unfolding json_writef write_bytes
json_write_string size out value =
    let quote = b'"' ∷ [] in
    json_writef size (write_bytes size (json_writef size out quote) value) quote

-- What the status shows of a torrent. `progress` is the text of the fraction with three digits;
-- num_pieces is none where there is no torrent.
pub record TorrentStatus : Type 0 where
  pub name : Bytes
  pub id : Bytes
  pub state : TorrentState
  pub progress : Bytes
  pub total_size : ℕ
  pub downloaded : ℕ
  pub uploaded : ℕ
  pub start_time : ℕ
  pub speed_down : ℕ
  pub speed_up : ℕ
  pub num_peers : ℕ
  pub active_peers : ℕ
  pub num_complete : ℕ
  pub num_pieces : Option ℕ
  pub tracker_announces : ℕ
  pub is_magnet : Bool
  pub save_path : Bytes
  pub error_msg : Bytes

abbrev pub state_str : TorrentState → Bytes
state_str stopped = codes "stopped"
state_str downloading = codes "downloading"
state_str seeding = codes "seeding"
state_str error = codes "error"
state_str done = codes "done"

-- `,"key":value`, and with a text as value.
abbrev pub member : Bytes → Bytes → Bytes
member key value = codes "," ++ (b'"' ∷ key ++ (b'"' ∷ b':' ∷ value))

abbrev pub quoted : Bytes → Bytes
quoted text = b'"' ∷ text ++ b'"' ∷ []

-- The text of the long format.
unfoldable pub numbers_text : ℕ → TorrentStatus → Bytes
unfolding print_u64
numbers_text now t =
    let remaining = if ltb t.downloaded t.total_size then t.total_size - t.downloaded else 0 in
    let elapsed = if ltb 0 t.start_time && leb t.start_time now then now - t.start_time else 0 in
    let pieces_total : ℕ = elim t.num_pieces [ none ↦ 0 | some n ↦ n ] in
    let pieces_done = if pieces_total == 0 then 0 else t.num_complete in
    member (codes "state") (quoted (state_str t.state))
    ++ (member (codes "progress") t.progress
        ++ (member (codes "size") (print_u64 t.total_size)
            ++ (member (codes "downloaded") (print_u64 t.downloaded)
                ++ (member (codes "uploaded") (print_u64 t.uploaded)
                    ++ (member (codes "remaining") (print_u64 remaining)
                        ++ (member (codes "speed_down") (print_u64 t.speed_down)
                            ++ (member (codes "speed_up") (print_u64 t.speed_up)
                                ++ (member (codes "peers") (print_u64 t.num_peers)
                                    ++ (member (codes "active_peers") (print_u64 t.active_peers)
                                        ++ (member (codes "pieces_done") (print_u64 pieces_done)
                                            ++ (member (codes "pieces_total")
                                                  (print_u64 pieces_total)
                                                ++ (member (codes "elapsed") (print_u64 elapsed)
                                                    ++ (member (codes "tracker_announces")
                                                          (print_u64 t.tracker_announces)
                                                        ++ (member (codes "is_magnet") (
                                                            if t.is_magnet
                                                            then codes "true"
                                                            else codes "false")
                                                            ++ member (codes "save_path")
                                                            []))))))))))))))

-- The text in front of the name.
unfoldable pub head_text : ℕ → Bytes
unfolding print_u64
head_text i = codes "{" ++ (quoted (codes "id") ++ (b':' ∷ print_u64 i ++ member (codes "name") []))

-- The body of the loop for the torrent at index `i`.
unfoldable pub write_torrent : ℕ → ℕ → ℕ → Bytes → TorrentStatus → Bytes
unfolding json_writef json_write_string head_text numbers_text
write_torrent size now i out t =
    let a = if i == 0 then out else json_writef size out (codes ",") in
    let b = json_writef size a (head_text i) in
    let c = json_write_string size b t.name in
    let d = json_writef size c (member (codes "hash") []) in
    let e = json_write_string size d t.id in
    let f = json_writef size e (numbers_text now t) in
    let g = json_write_string size f t.save_path in
    let h = json_writef size g (member (codes "error") []) in
    json_writef size (json_write_string size h t.error_msg) (codes "}")

unfoldable pub write_torrents : ℕ → ℕ → ℕ → Bytes → List TorrentStatus → Bytes
unfolding write_torrent
write_torrents size now i out [] = out
write_torrents size now i out (t ∷ ts) =
    write_torrents size now (i + 1) (write_torrent size now i out t) ts

abbrev pub opening : Bytes
opening = codes "{" ++ (quoted (codes "torrents") ++ codes ":[")

-- The text in a buffer of at least 64 bytes; a smaller one is left alone.
unfoldable pub torrent_mgr_status_json : ℕ → ℕ → List TorrentStatus → Option Bytes
unfolding json_writef write_torrents
torrent_mgr_status_json size now ts =
    if ltb size 64
    then none
    else some
        (json_writef size (write_torrents size now 0 (json_writef size [] opening) ts) (codes "]}"))
