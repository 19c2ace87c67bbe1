-- ===== src/Torrent/Parse.antt =====
-- src/torrent.c, torrent_parse: the metainfo from bencoded text. `malloc` says which allocations
-- succeed, and `stack` is what the hash context on the stack holds before.
use ps5torrent.Base.{
  ℕ, suc, ◌+◌, ◌-◌, ◌*◌, ◌/◌, ◌%◌, ◌^◌, ◌++◌, Bool, true, false, not, ◌&&◌, Option, none, some,
  List, [], ◌∷◌, Bytes, codes, length, leb, ◌==◌, if◌then◌else◌,
}
use ps5torrent.Base.Outcome.{Outcome, ok, null, ◌>>=◌}
use ps5torrent.Base.Signed.{slt64}
use ps5torrent.Bencode.Node.{
  Node, Items, str, list, dict, no_items, item, count_items, dict_get, str_val, int_val,
}
use ps5torrent.Bencode.Parser.{bcode_parse}
use ps5torrent.Bencode.Encoder.{bcode_encode}
use ps5torrent.Sha1.Context.{sha1_hash}
use ps5torrent.Torrent.Types.{Torrent, TorrentFile}

-- An integer node's value is an int64_t.
abbrev pub int64_of : Option Node → ℕ
int64_of none = 0
int64_of (some node) = int_val node % 2 ^ 64

abbrev pub text_of : Option Node → Option Bytes
text_of none = none
text_of (some node) = str_val node

-- `if (p) p->type == BCODE_LIST`, and the same for a string.
abbrev pub list_of : Option Node → Option Items
list_of (some (list xs)) = some xs
list_of _ = none

abbrev pub is_dict : Node → Bool
is_dict (dict fs) = true
is_dict _ = false

-- `if (!condition) return NULL`.
abbrev pub check {ℓ} : {A : Type ℓ} → Bool → Outcome A → Outcome A
check condition rest = if condition then rest else null

unfoldable pub count_trackers : Items → ℕ
count_trackers no_items = 0
count_trackers (item (list ys) xs) = count_items ys + count_trackers xs
count_trackers (item node xs) = count_trackers xs

unfoldable pub count_strings : Items → ℕ
count_strings no_items = 0
count_strings (item (str s) xs) = suc (count_strings xs)
count_strings (item node xs) = count_strings xs

-- The components of a path joined by slashes; a component that is no string is empty.
unfoldable pub join_path : Items → Bytes
join_path no_items = []
join_path (item node no_items) = elim (str_val node) [ none ↦ [] | some c ↦ c ]
join_path (item node (item next xs)) =
    elim (str_val node) [ none ↦ [] | some c ↦ c ] ++ b'/' ∷ join_path (item next xs)

-- The branch of torrent_parse on `files`: whether there are several, the files, the total size,
-- the single file's length and its name.
pub record Layout : Type 0 where
  pub is_multi_file : Bool
  pub files : List TorrentFile
  pub total_size : ℕ
  pub length : ℕ
  pub file_name : Option Bytes

abbrev pub size_of : Option Bytes → ℕ
size_of none = 0
size_of (some s) = length s

abbrev pub is_some : Option Bytes → Bool
is_some none = false
is_some (some s) = true

-- The last test: the number of digests is that of the pieces.
unfoldable pub consistent : Torrent → Bool
consistent t =
    is_some t.name
    && is_some t.pieces
    && slt64 0 t.piece_length
    && slt64 0 t.total_size
    && size_of t.pieces % 20 == 0
    && t.num_pieces
      == t.total_size / t.piece_length + (if t.total_size % t.piece_length == 0 then 0 else 1)

-- sizeof(torrent_t) on a 64-bit target.
abbrev pub torrent_size : ℕ
torrent_size = 184

module _ (malloc : ℕ → Bool) where
  -- A copy with a closing zero; a failed allocation leaves the field null.
  abbrev pub copied : Option Bytes → Option Bytes
  copied none = none
  copied (some s) = if malloc (length s + 1) then some s else none

  -- The trackers of one tier, while there is room in the array.
  unfoldable pub tier_urls : ℕ → Items → List Bytes
  tier_urls room no_items = []
  tier_urls room (item node xs) =
      let more = tier_urls (room - 1) xs in
      let skip = tier_urls room xs in
      elim (copied (str_val node)) [ none ↦ skip | some url ↦ if room == 0 then [] else url ∷ more ]

  unfoldable pub tracker_urls : ℕ → Items → List Bytes
  unfolding tier_urls
  tracker_urls room no_items = []
  tracker_urls room (item node xs) =
      let tier : List Bytes = elim (list_of (some node)) [
        | none ↦ []
        | some ys ↦ tier_urls room ys
      ] in
      tier ++ tracker_urls (room - length tier) xs

  -- The pointers of `count` texts: calloc(count, 8).
  unfoldable pub parse_announce_list : Option Node → Outcome (List Bytes)
  unfolding tracker_urls count_trackers
  parse_announce_list node = elim (list_of node) [
    | none ↦ ok []
    | some tiers ↦
        let count = count_trackers tiers in
        if count == 0 then ok [] else check (malloc (count * 8)) (ok (tracker_urls count tiers))
  ]

  -- The seeds of a list: a seed that cannot be copied fails the parse.
  unfoldable pub seed_urls : Items → Outcome (List Bytes)
  seed_urls no_items = ok []
  seed_urls (item node xs) =
      let rest = seed_urls xs in
      elim (str_val node) [
        | none ↦ rest
        | some url ↦
            if length url == 0
            then rest
            else check (malloc (length url + 1)) (rest >>= λ urls. ok (url ∷ urls))
      ]

  unfoldable pub parse_web_seeds : Option Node → Outcome (List Bytes)
  unfolding seed_urls count_strings
  parse_web_seeds (some (str url)) =
      if length url == 0 then ok [] else check (malloc 8 && malloc (length url + 1)) (ok (url ∷ []))
  parse_web_seeds (some (list xs)) =
      if count_strings xs == 0 then ok [] else check (malloc (count_strings xs * 8)) (seed_urls xs)
  parse_web_seeds _ = ok []

  unfoldable pub parse_path : Option Node → Option Bytes
  unfolding join_path
  parse_path node = elim (list_of node) [ none ↦ none | some xs ↦ copied (some (join_path xs)) ]

  -- One entry of `files`: what is no dictionary keeps the zeros of calloc.
  unfoldable pub parse_file : Node → TorrentFile
  unfolding parse_path dict_get
  parse_file node =
      if is_dict node
      then record {
        path = parse_path (dict_get node (codes "path"));
        length = int64_of (dict_get node (codes "length"));
      }
      else record { path = none; length = 0 }

  -- The loop over the entries, with the total so far. No length is negative, and no sum overflows.
  unfoldable pub parse_files : ℕ → Items → Outcome (List TorrentFile × ℕ)
  unfolding parse_file
  parse_files total no_items = ok ([], total)
  parse_files total (item node xs) =
      let f = parse_file node in
      let rest = parse_files (total + f.length) xs in
      check (not (slt64 f.length 0) && not (slt64 (2 ^ 63 - 1 - total) f.length))
        (rest >>= λ (fs, total'). ok (f ∷ fs, total'))

  abbrev pub several : List TorrentFile × ℕ → Outcome Layout
  several (fs, total) = ok (record {
    is_multi_file = true;
    files = fs;
    total_size = total;
    length = 0;
    file_name = none;
  })

  -- The branch on the entries of `files`, `none` where it is no list.
  unfoldable pub layout_from : Node → Option Items → Outcome Layout
  unfolding parse_files dict_get
  layout_from info (some xs) =
      check (leb (count_items xs) 1024 && malloc (count_items xs * 24))
        (parse_files 0 xs >>= several)
  layout_from info none =
      let n = int64_of (dict_get info (codes "length")) in
      ok (record {
        is_multi_file = false;
        files = [];
        total_size = n;
        length = n;
        file_name = copied (text_of (dict_get info (codes "name")));
      })

  unfoldable pub parse_layout : Node → Outcome Layout
  unfolding layout_from dict_get
  parse_layout info = layout_from info (list_of (dict_get info (codes "files")))

  -- The pieces' digests, and their number.
  abbrev pub digests_of : Option Node → Option Bytes
  digests_of (some (str s)) = if malloc (length s) then some s else none
  digests_of _ = none

  -- The fields, before the last test.
  unfoldable pub parse_fields_of : Node → Node → Bytes → Bytes → Layout → Outcome Torrent
  unfolding parse_announce_list parse_web_seeds dict_get
  parse_fields_of root info raw hash layout =
      parse_announce_list (dict_get root (codes "announce-list")) >>= λ trackers.
      parse_web_seeds (dict_get root (codes "url-list")) >>= λ seeds.
      let pieces = digests_of (dict_get info (codes "pieces")) in
      ok (record {
        announce = copied (text_of (dict_get root (codes "announce")));
        announce_list = trackers;
        web_seeds = seeds;
        info_dict_raw = some raw;
        info_hash = hash;
        name = copied (text_of (dict_get info (codes "name")));
        piece_length = int64_of (dict_get info (codes "piece length"));
        pieces = pieces;
        num_pieces = size_of pieces / 20;
        is_multi_file = layout.is_multi_file;
        total_size = layout.total_size;
        length = layout.length;
        file_name = layout.file_name;
        files = layout.files;
      })

  unfoldable pub parse_info : Bytes → Node → Node → Outcome Torrent
  unfolding parse_layout parse_fields_of consistent bcode_encode sha1_hash
  parse_info stack root info = check (is_dict info) (
      bcode_encode malloc info >>= λ raw. parse_layout info >>= λ layout.
      parse_fields_of root info raw (sha1_hash stack raw) layout >>= λ t.
      check (consistent t) (ok t))

  unfoldable pub torrent_parse : Bytes → Bytes → Outcome Torrent
  unfolding bcode_parse parse_info dict_get
  torrent_parse stack input = bcode_parse malloc input >>= λ root.
      check (is_dict root && malloc torrent_size) (elim (dict_get root (codes "info")) [
        | none ↦ null
        | some info ↦ parse_info stack root info
      ])
