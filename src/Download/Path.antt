-- ===== src/Download/Path.antt =====
-- Paths of staged files: `cleanDownloadPath`, `unsafeWindowsName` and `StagedPath` of
-- internal/aliyunpan/source_download.go. `to_upper` is `strings.ToUpper`; the staging directory is absolute.
pub mod Below
use tdrive_aliyunpan.Base.{
  ◌≡◌, Bool, true, false, not, ◌||◌, List, [], ◌∷◌, ◌++◌, Text, codes, is_empty, text_eq, contains,
  ◌==◌, any, Result, ok, err, if◌then◌else◌,
}
use tdrive_aliyunpan.Settings.Paths.{trim_space, split_slash, join_slash, clean_step, clean_parts}
use tdrive_aliyunpan.Sync.Names.{unsafe_file_name}

pub data PathFault : Type 0 where
  empty_path nul_character drive_root parent_part unsafe_part : PathFault

-- `path.Clean("/" + s)`, as the names of its parts.
unfoldable pub clean_names : Text → List Text
clean_names s = clean_parts [] (split_slash s)

abbrev pub rooted : List Text → Text
rooted names = b'/' ∷ join_slash names

-- `strings.TrimPrefix(s, "/")`
abbrev pub trim_slash : Text → Text
trim_slash [] = []
trim_slash (c ∷ s) = if c == b'/' then s else c ∷ s

-- `unsafeWindowsName`: the same text as `unsafeFileName` of internal/sync/scan.go.
unfoldable pub unsafe_windows_name : (Text → Text) → Text → Bool
unfolding unsafe_file_name
unsafe_windows_name to_upper name = unsafe_file_name to_upper name

abbrev pub is_unsafe_part : (Text → Text) → Text → Bool
is_unsafe_part to_upper part =
    is_empty part
    || (text_eq part (codes ".")
        || (text_eq part (codes "..") || unsafe_windows_name to_upper part))

abbrev pub checked_parts : (Text → Text) → Text → Result PathFault Text
checked_parts to_upper raw =
    let clean = rooted (clean_names raw) in
    if text_eq clean (codes "/")
    then err PathFault.drive_root
    else if contains (split_slash (trim_slash raw)) (codes "..")
    then err PathFault.parent_part
    else if any (is_unsafe_part to_upper) (split_slash (trim_slash clean))
    then err PathFault.unsafe_part
    else ok clean

-- `cleanDownloadPath`
unfoldable pub clean_download_path : (Text → Text) → Text → Result PathFault Text
clean_download_path to_upper path =
    let raw = trim_space path in
    if is_empty raw
    then err PathFault.empty_path
    else if any (λ c. c == 0) raw
    then err PathFault.nul_character
    else checked_parts to_upper raw

-- `filepath.Join(dir, rel)` for an absolute directory.
unfoldable pub join_path : Text → Text → Text
join_path dir rel =
    if is_empty rel then rooted (clean_names dir) else rooted (clean_names (dir ++ b'/' ∷ rel))

-- `StagedPath`
unfoldable pub staged_path : Text → Text → Text
staged_path stage_dir cloud_path =
    join_path stage_dir (trim_slash (rooted (clean_names (trim_space cloud_path))))
