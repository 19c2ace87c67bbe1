-- ===== src/Torrent/Types.antt =====
-- include/torrent.h: the parsed metainfo. A pointer with its count is a list, `none` where it is
-- null; a length is that of the bytes.
use ps5torrent.Base.{ℕ, Bool, Option, List, [], ◌∷◌, Bytes, ◌==◌, if◌then◌else◌}

-- torrent_file_t; the length is the pattern of an int64_t.
pub record TorrentFile : Type 0 where
  pub path : Option Bytes
  pub length : ℕ

pub record Torrent : Type 0 where
  pub announce : Option Bytes
  pub announce_list : List Bytes
  pub web_seeds : List Bytes
  pub info_dict_raw : Option Bytes
  pub info_hash : Bytes
  pub name : Option Bytes
  pub piece_length : ℕ
  pub pieces : Option Bytes
  pub num_pieces : ℕ
  pub is_multi_file : Bool
  pub total_size : ℕ
  pub length : ℕ
  pub file_name : Option Bytes
  pub files : List TorrentFile

-- What a C routine reads of a text: the bytes before the first zero.
abbrev pub c_string : Bytes → Bytes
c_string [] = []
c_string (c ∷ r) = let rest = c_string r in if c == 0 then [] else c ∷ rest
