-- ===== src/Asar/Paths.antt =====
-- The paths of internal/asar/archive.go: of an archive, of an entry in it, and of both in one.
pub mod Escapes
use golectron.Prelude.{
  ℕ, ℤ, pos, negsuc, is_negative, Bool, true, false, not, ◌&&◌, ◌||◌, Option, none, some, List, [],
  ◌∷◌, ◌++◌, Outcome, ok, err, if◌then◌else◌,
}
use golectron.Text.{Text, codes, text_eq, is_empty, trim_space, has_prefix, has_suffix, split}
use golectron.FilePath.{slash, is_dot, clean, join_elements}

pub data AsarError : Type 0 where
  archive_path entry_path entry_size entry_offset entry_not_found entry_unpacked directory :
      AsarError
  header_json header_files header_entry_path header_entry_name header_entry_size
        header_entry_offset :
      AsarError

pub record Entry : Type 0 where
  pub path : Text
  pub offset : ℤ
  pub size : ℤ
  pub mode : ℕ
  pub dir : Bool
  pub unpacked : Bool

-- `strings.TrimPrefix(path, "/")`
abbrev trim_slash : Text → Text
trim_slash [] = []
trim_slash (c ∷ s) = if has_prefix (c ∷ s) (codes "/") then s else c ∷ s

unfoldable pub normalize_inner_path : Text → Text
normalize_inner_path path =
    let cleaned = clean (trim_slash (trim_space path)) in if is_dot cleaned then [] else cleaned

-- `path == "" || strings.HasPrefix(path, "../")`
abbrev pub outside : Text → Bool
outside path = is_empty path || has_prefix path (codes "../")

pub normalize_entry : Entry → Outcome AsarError Entry
normalize_entry entry =
    let path = normalize_inner_path entry.path in
    if outside path
    then err entry_path
    else if is_negative entry.size
    then err entry_size
    else if is_negative entry.offset
    then err entry_offset
    else ok (record entry { path = path })

-- The archive's own path, as `NewArchive`, `Open` and `Write` take it.
unfoldable pub normalize_archive_path : Text → Outcome AsarError Text
normalize_archive_path path =
    let cleaned = clean (trim_space path) in
    if is_dot cleaned || not (has_suffix cleaned (codes ".asar"))
    then err archive_path
    else ok cleaned

pub record SplitPath : Type 0 where
  pub archive_path : Text
  pub inner_path : Text
  pub unpacked_path : Text

abbrev no_dot : Text → Text
no_dot inner = if is_dot inner then [] else inner

-- The loop of `Split`, with the parts that it has passed.
unfoldable pub split_parts : List Text → List Text → Option SplitPath
split_parts passed [] = none
split_parts passed (part ∷ rest) =
    let later = split_parts (passed ++ part ∷ []) rest in
    let archive = join_elements (passed ++ part ∷ []) in
    if has_suffix part (codes ".asar")
    then some (record {
      archive_path = archive;
      inner_path = no_dot (join_elements rest);
      unpacked_path = archive ++ (codes ".unpacked" ++ slash ∷ join_elements rest);
    })
    else later

-- `Split`
unfoldable pub split_path : Text → Option SplitPath
split_path path = split_parts [] (split (clean (trim_space path)) slash)

-- Where an entry stands on the disk beside its archive.
abbrev pub unpacked_target : Text → Text → Text
unpacked_target archive path = join_elements ((archive ++ codes ".unpacked") ∷ path ∷ [])
