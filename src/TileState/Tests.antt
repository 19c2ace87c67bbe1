-- ===== src/TileState/Tests.antt =====
-- Runs of src/tile_state.c.
use ps5torrent.Base.{
  ◌≡◌, ◌↔◌, refl, arith, true, false, none, some, List, [], ◌∷◌, Bytes, codes, bytes_eq,
  if◌then◌else◌,
}
use ps5torrent.TileState.Search.{contains_version, contents_of, Within, contains_version_iff}
use ps5torrent.TileState.State.{Files, tile_state_version}

-- The version stands across a border.
abbrev chunks : List Bytes
chunks = codes "ab2.0" ∷ codes ".4" ∷ []

contains_version_iff_example :
    (contains_version (codes "2.0.4") chunks ≡ true) ↔ Within (codes "2.0.4") (contents_of chunks)
contains_version_iff_example =
    contains_version_iff (codes "2.0.4") chunks (omega arith) (omega arith)
      (omega arith, (omega arith, tt))

across : contains_version (codes "2.0.4") chunks ≡ true
unfolding contains_version
across = refl

-- A package with the version, and a marker alone.
abbrev installed : Files
installed = record {
  size = λ path. if bytes_eq path (codes "/a/app.pkg") then some 7 else none;
  chunks = λ path. if bytes_eq path (codes "/a/app.pkg") then some chunks else none;
}

abbrev only_marker : Files
only_marker = record { size = λ path. none; chunks = λ path. some chunks }

in_package :
    tile_state_version installed (codes "/a") (codes "/m") (codes "/k") (codes "2.0.4") ≡ true
unfolding tile_state_version
in_package = refl

marker_alone :
    tile_state_version only_marker (codes "/a") (codes "/m") (codes "/k") (codes "2.0.4") ≡ false
unfolding tile_state_version
marker_alone = refl
