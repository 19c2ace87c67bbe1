-- ===== src/TileState/State.antt =====
-- src/tile_state.c: whether the title is there, and in which version.
use ps5torrent.Base.{
  ℕ, Bool, true, false, not, ◌&&◌, ◌||◌, ◌++◌, Option, none, some, List, [], ◌∷◌, Bytes, codes,
  length, ltb, if◌then◌else◌,
}
use ps5torrent.TileState.Search.{contains_version}

-- What stat says of a regular file's size, and what fread returns of a file that can be opened.
pub record Files : Type 0 where
  pub size : Bytes → Option ℕ
  pub chunks : Bytes → Option (List Bytes)

abbrev pub file_path : Bytes → Bytes → Bytes
file_path directory name = directory ++ (b'/' ∷ name)

unfoldable pub has_file : Files → Bytes → Bytes → Bool
has_file files directory name =
    let path = file_path directory name in
    let filled : Bool = elim (files.size path) [ none ↦ false | some n ↦ ltb 0 n ] in
    ltb (length path) 1024 && filled

unfoldable pub tile_state_present : Files → Bytes → Bool
unfolding has_file
tile_state_present files app_dir =
    has_file files app_dir (codes "app.pkg") || has_file files app_dir (codes "sce_sys/param.json")

unfoldable pub file_contains : Files → Bytes → Bytes → Bool
unfolding contains_version
file_contains files path version = elim (files.chunks path) [
  | none ↦ false
  | some chunks ↦ contains_version version chunks
]

-- The loop over the places where the version may stand.
unfoldable pub some_contains : Files → Bytes → List (Bytes × Bytes) → Bool
unfolding file_contains
some_contains files version [] = false
some_contains files version ((directory, name) ∷ places) =
    let rest = some_contains files version places in
    let path = file_path directory name in
    if ltb (length path) 1024 && file_contains files path version then true else rest

abbrev pub places : Bytes → Bytes → List (Bytes × Bytes)
places app_dir appmeta_dir =
    (app_dir, codes "sce_sys/param.json")
    ∷ (app_dir, codes "sce_sys/param.sfo")
    ∷ (appmeta_dir, codes "param.json")
    ∷ (appmeta_dir, codes "param.sfo")
    ∷ (app_dir, codes "app.pkg")
    ∷ []

unfoldable pub tile_state_version : Files → Bytes → Bytes → Bytes → Bytes → Bool
unfolding tile_state_present some_contains file_contains
tile_state_version files app_dir appmeta_dir marker version =
    if not (tile_state_present files app_dir)
    then false
    else some_contains files version (places app_dir appmeta_dir)
      || file_contains files marker version
