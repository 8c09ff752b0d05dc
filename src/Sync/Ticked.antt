-- ===== src/Sync/Ticked.antt =====
-- `scanChosenFiles` of internal/sync/scan.go: the files that a job names are looked for in listings of their
-- directories. What the cloud and the cache of drive directories answer is that of Sync/Walk.
pub mod Exact
pub mod Laws
use tdrive_aliyunpan.Base.{
  Bool, true, false, not, ◌&&◌, List, [], ◌∷◌, ◌++◌, Option, none, some, Text, text_eq, contains,
  length, Result, ok, err, if◌then◌else◌,
}
use tdrive_aliyunpan.Settings.{Job}
use tdrive_aliyunpan.Sync.Names.{map_path, parent_cloud_dir}
use tdrive_aliyunpan.Sync.Walk.{
  WalkError, path_not_found, too_many, context_ended, failed, Node, CloudTree, Found, Chosen,
}

-- The directories of the files, each once, in order.
unfoldable pub directories : List Text → List Text → List Text
directories seen [] = []
directories seen (path ∷ files) =
    let dir = parent_cloud_dir path in
    let rest = directories (dir ∷ seen) files in if contains seen dir then rest else dir ∷ rest

-- `byDirectory[dir]`
unfoldable pub files_in : Text → List Text → List Text
files_in dir [] = []
files_in dir (path ∷ files) =
    let rest = files_in dir files in
    if text_eq (parent_cloud_dir path) dir then path ∷ rest else rest

abbrev pub or_this : Option Node → Text → Node → Option Node
or_this (some later) path n = some later
or_this none path n = if not n.is_dir && text_eq n.entry.path path then some n else none

-- `found[path]`: of two files under one path the later one is kept.
unfoldable pub file_at : Text → List Node → Option Node
file_at path [] = none
file_at path (n ∷ nodes) = or_this (file_at path nodes) path n

abbrev pub stopped_by : WalkError → Chosen
stopped_by e = record { found = []; missing = []; error = some e }

-- An error returns no missing files.
abbrev pub missing_if : Option WalkError → List Text → Chosen → Chosen
missing_if none paths c = record c { missing = paths ++ c.missing }
missing_if (some e) paths c = c

abbrev pub add_missing : List Text → Chosen → Chosen
add_missing paths c = missing_if c.error paths c

abbrev pub look_at : Job → Text → Text → Option Node → Chosen → Chosen
look_at job dir path none c = add_missing (path ∷ []) c
look_at job dir path (some n) c = record c {
  found =
      record {
        entry = n.entry;
        cloud_dir = dir;
        target_dir = map_path job.remote_path job.target_path dir;
      }
      ∷ c.found;
}

-- The files wanted of one directory, before what follows.
unfoldable pub look_for : Job → Text → List Node → List Text → Chosen → Chosen
look_for job dir nodes [] c = c
look_for job dir nodes (path ∷ wanted) c =
    look_at job dir path (file_at path nodes) (look_for job dir nodes wanted c)

abbrev pub after_listing :
    CloudTree → Job → List Text → Text → Result WalkError (List Node) → Chosen → Chosen
after_listing t job files dir (err path_not_found) rest = add_missing (files_in dir files) rest
after_listing t job files dir (err e) rest = stopped_by e
after_listing t job files dir (ok nodes) rest =
    elim (t.index_error (map_path job.remote_path job.target_path dir)) [
      | some e ↦ stopped_by e
      | none ↦ look_for job dir nodes (files_in dir files) rest
    ]

unfoldable pub scan_directories : CloudTree → Job → List Text → List Text → Chosen
scan_directories t job files [] = record { found = []; missing = []; error = none }
scan_directories t job files (dir ∷ dirs) =
    let rest = scan_directories t job files dirs in
    if t.context_ended (length (dir ∷ dirs))
    then stopped_by context_ended
    else after_listing t job files dir (t.list dir) rest

-- `scanChosenFiles`
unfoldable pub scan_chosen_files : CloudTree → Job → Chosen
unfolding scan_directories directories
scan_chosen_files t job =
    scan_directories t job job.include_files (directories [] job.include_files)
