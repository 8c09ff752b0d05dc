-- ===== src/Sync/Names.antt =====
-- Names and paths of a scan: `mapPath`, `parentCloudDir`, `unsafeFileName` and `unstorableName` of
-- internal/sync/scan.go.
pub mod Rebase
use tdrive_aliyunpan.Base.{
  ℕ, zero, suc, ◌+◌, ◌/◌, ◌%◌, negsuc, Bool, true, false, not, ◌&&◌, ◌||◌, List, [], ◌∷◌, ◌++◌,
  Option, none, some, ℤ, pos, eqb_ℤ, Text, codes, text_eq, is_empty, has_prefix, byte_len, contains,
  ltb, leb, ◌==◌, any, if◌then◌else◌,
}
use tdrive_aliyunpan.Base.Dict.{lookup}
use tdrive_aliyunpan.Settings.{Settings, Job, job_by_id}
use tdrive_aliyunpan.Sync.Item.{Item, State, Stage, is_active, is_complete, is_failed, is_cancelled}
use tdrive_aliyunpan.Sync.Engine.{Engine, mark_queue_dirty}

-- `strings.TrimLeft` and `strings.TrimRight` by slashes.
unfoldable pub drop_slashes : Text → Text
drop_slashes [] = []
drop_slashes (c ∷ s) = if c == b'/' then drop_slashes s else c ∷ s

unfoldable pub drop_last_slashes : Text → Text
drop_last_slashes [] = []
drop_last_slashes (c ∷ s) =
    let rest = drop_last_slashes s in if c == b'/' && is_empty rest then [] else c ∷ rest

-- `strings.TrimPrefix(s, p)` for a prefix of the text.
pub drop_prefix : Text → Text → Text
drop_prefix [] s = s
drop_prefix (c ∷ p) [] = []
drop_prefix (c ∷ p) (d ∷ s) = drop_prefix p s

abbrev pub under_root : Text → Text → Text
under_root target_root [] = target_root
under_root target_root (c ∷ s) =
    if text_eq target_root (codes "/") then b'/' ∷ c ∷ s else target_root ++ b'/' ∷ c ∷ s

-- `mapPath`.
pub map_path : Text → Text → Text → Text
map_path remote_root target_root cloud_path =
    let relative =
      if text_eq cloud_path remote_root
      then []
      else if has_prefix (remote_root ++ b'/' ∷ []) cloud_path
      then drop_prefix remote_root cloud_path
      else cloud_path in
    under_root target_root (drop_last_slashes (drop_slashes relative))

-- The text before its last slash, if it has one.
abbrev before_slash : Text → Option Text
before_slash [] = none
before_slash (c ∷ s) = elim (before_slash s) [
  | some t ↦ some (c ∷ t)
  | none ↦ if c == b'/' then some [] else none
]

abbrev parent_of : Option Text → Text
parent_of none = b'/' ∷ []
parent_of (some []) = b'/' ∷ []
parent_of (some (c ∷ s)) = c ∷ s

-- `parentCloudDir`.
unfoldable pub parent_cloud_dir : Text → Text
parent_cloud_dir path = parent_of (before_slash path)

abbrev max_name_bytes : ℕ
max_name_bytes = 255

abbrev is_reserved_char : ℕ → Bool
is_reserved_char c = any (λ r. r == c) (codes "<>:\"/\\|?*")

abbrev ends_badly : Text → Bool
ends_badly [] = false
ends_badly (c ∷ []) = c == b' ' || c == b'.'
ends_badly (c ∷ d ∷ s) = ends_badly (d ∷ s)

abbrev before_dot : Text → Text
before_dot [] = []
before_dot (c ∷ s) = if c == b'.' then [] else c ∷ before_dot s

abbrev device_names : List Text
device_names =
    codes "CON"
    ∷ codes "PRN"
    ∷ codes "AUX"
    ∷ codes "NUL"
    ∷ codes "COM1"
    ∷ codes "COM2"
    ∷ codes "COM3"
    ∷ codes "COM4"
    ∷ codes "COM5"
    ∷ codes "COM6"
    ∷ codes "COM7"
    ∷ codes "COM8"
    ∷ codes "COM9"
    ∷ codes "LPT1"
    ∷ codes "LPT2"
    ∷ codes "LPT3"
    ∷ codes "LPT4"
    ∷ codes "LPT5"
    ∷ codes "LPT6"
    ∷ codes "LPT7"
    ∷ codes "LPT8"
    ∷ codes "LPT9"
    ∷ []

-- `unsafeFileName`; `to_upper` is `strings.ToUpper`.
unfoldable pub unsafe_file_name : (Text → Text) → Text → Bool
unsafe_file_name to_upper name =
    any is_reserved_char name
    || (ends_badly name || contains device_names (before_dot (to_upper name)))

abbrev is_control : ℕ → Bool
is_control c = ltb c 0x20 || (c == 0x7f || (leb 0x80 c && leb c 0x9f))

-- `unstorableName`, with the reasons named in place of their messages.
pub data NameFault : Type 0 where
  not_a_name reserved too_long control : NameFault

pub unstorable_name : (Text → Text) → Text → Option NameFault
unstorable_name to_upper name =
    if is_empty name || (text_eq name (codes ".") || text_eq name (codes ".."))
    then some not_a_name
    else if unsafe_file_name to_upper name
    then some reserved
    else if ltb max_name_bytes (byte_len name)
    then some too_long
    else if any is_control name
    then some control
    else none
