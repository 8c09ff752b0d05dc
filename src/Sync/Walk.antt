-- ===== src/Sync/Walk.antt =====
-- `walkCloudDir` of internal/sync/scan.go and the loop of `scanChosen` over ticked directories: which
-- files a scan hands to `consider`. What the cloud and the cache of drive directories answer for a
-- directory is an argument, the same for one scan, and so is what the exclude patterns match.
pub mod Laws
pub mod Entries
pub mod Tests
use tdrive_aliyunpan.Base.{
  ℕ, zero, suc, Bool, true, false, not, ◌&&◌, ◌||◌, List, [], ◌∷◌, ◌++◌, Option, none, some, ℤ, pos,
  ltb_ℤ, Text, text_eq, Result, ok, err, if◌then◌else◌,
}
use tdrive_aliyunpan.Settings.{Job}
use tdrive_aliyunpan.Sync.Names.{map_path}
use tdrive_aliyunpan.Sync.Scan.{Entry}

abbrev pub max_scan_directories : ℕ
max_scan_directories = 5000

pub data WalkError : Type 0 where
  path_not_found too_many context_ended failed : WalkError

-- One entry of a cloud listing.
pub record Node : Type 0 where
  pub entry : Entry
  pub is_dir : Bool

pub record CloudTree : Type 0 where
  pub list : Text → Result WalkError (List Node)
  pub index_error : Text → Option WalkError
  pub matches_any : Text → Bool
  pub context_ended : ℕ → Bool

-- The files handed to `consider`, each with the cloud directory it is in and its target directory, in order; the
-- directories asked for, in order, the failed one included; those that the scan may still list; and how the walk ended.
pub record Found : Type 0 where
  pub entry : Entry
  pub cloud_dir : Text
  pub target_dir : Text

pub record Walked : Type 0 where
  pub found : List Found
  pub listed : List Text
  pub left : ℕ
  pub error : Option WalkError

-- `job.MinSizeBytes` and `job.MaxSizeBytes`; zero means no bound.
abbrev pub fits : Job → ℤ → Bool
fits job size =
    not (ltb_ℤ (pos 0) job.min_size_bytes && ltb_ℤ size job.min_size_bytes)
    && not (ltb_ℤ (pos 0) job.max_size_bytes && ltb_ℤ job.max_size_bytes size)

-- What the loop over the entries appends to the queue of directories.
unfoldable pub dirs_of : CloudTree → List Node → List Text
dirs_of t [] = []
dirs_of t (n ∷ nodes) =
    let rest = dirs_of t nodes in
    if t.matches_any n.entry.name then rest else if n.is_dir then n.entry.path ∷ rest else rest

-- What the loop hands to `consider`.
abbrev pub is_wanted : CloudTree → Job → Node → Bool
is_wanted t job n = not (t.matches_any n.entry.name) && (not n.is_dir && fits job n.entry.size)

unfoldable pub files_of : CloudTree → Job → Text → List Node → List Found
files_of t job dir [] = []
files_of t job dir (n ∷ nodes) =
    let rest = files_of t job dir nodes in
    if is_wanted t job n
    then record {
      entry = n.entry;
      cloud_dir = dir;
      target_dir = map_path job.remote_path job.target_path dir;
    }
      ∷ rest
    else rest

-- Listing a file answers with the file itself.
abbrev pub is_itself : Text → List Node → Bool
is_itself dir [] = false
is_itself dir (n ∷ []) = not n.is_dir && text_eq n.entry.path dir
is_itself dir (n ∷ m ∷ nodes) = false

abbrev pub stopped : ℕ → WalkError → Walked
stopped left e = record { found = []; listed = []; left = left; error = some e }

-- A directory that was listed, or asked for, in vain.
abbrev pub stopped_at : Text → ℕ → WalkError → Walked
stopped_at dir left e = record { found = []; listed = dir ∷ []; left = left; error = some e }

abbrev pub visited : Text → List Found → Walked → Walked
visited dir files w = record w { found = files ++ w.found; listed = dir ∷ w.listed }

abbrev pub after_index :
    (List Text → Walked)
    → ℕ
    → CloudTree
    → Job
    → Text
    → List Text
    → List Node
    → Option WalkError
    → Walked
after_index again left t job dir dirs nodes (some e) = stopped_at dir left e
after_index again left t job dir dirs nodes none =
    visited dir (files_of t job dir nodes) (again (dirs ++ dirs_of t nodes))

abbrev pub after_list :
    (List Text → Walked)
    → ℕ
    → CloudTree
    → Job
    → Text
    → List Text
    → Result WalkError (List Node)
    → Walked
after_list again left t job dir dirs (err e) = stopped_at dir left e
after_list again left t job dir dirs (ok nodes) =
    if is_itself dir nodes
    then stopped_at dir left path_not_found
    else after_index again left t job dir dirs nodes
        (t.index_error (map_path job.remote_path job.target_path dir))

-- `walkCloudDir` from a queue of directories, with the number of directories the scan may still list.
unfoldable pub walk : CloudTree → Job → ℕ → List Text → Walked
walk t job left [] = record { found = []; listed = []; left = left; error = none }
walk t job zero (dir ∷ dirs) =
    if t.context_ended 0 then stopped 0 context_ended else stopped 0 too_many
walk t job (suc left) (dir ∷ dirs) =
    let next = after_list (walk t job left) left t job dir dirs (t.list dir) in
    if t.context_ended (suc left) then stopped (suc left) context_ended else next

unfoldable pub walk_cloud_dir : CloudTree → Job → Text → ℕ → Walked
walk_cloud_dir t job root left = walk t job left (root ∷ [])

-- What `scanChosen` gathers over the ticked directories: one that is not there is only missing.
pub record Chosen : Type 0 where
  pub found : List Found
  pub missing : List Text
  pub error : Option WalkError

abbrev pub more : List Found → Chosen → Chosen
more files c = record c { found = files ++ c.found }

abbrev pub also_missing : Text → Chosen → Chosen
also_missing dir c = record c { missing = dir ∷ c.missing }

abbrev pub after_walk : Text → Walked → Chosen → Chosen
after_walk dir w rest = elim w.error [
  | none ↦ more w.found rest
  | some e ↦ elim e [
    | path_not_found ↦ more w.found (also_missing dir rest)
    | too_many ↦ record { found = w.found; missing = []; error = some too_many }
    | context_ended ↦ record { found = w.found; missing = []; error = some context_ended }
    | failed ↦ record { found = w.found; missing = []; error = some failed }
  ]
]

pub scan_chosen : CloudTree → Job → ℕ → List Text → Chosen
scan_chosen t job left [] = record { found = []; missing = []; error = none }
scan_chosen t job left (dir ∷ dirs) =
    let w = walk_cloud_dir t job dir left in after_walk dir w (scan_chosen t job w.left dirs)
