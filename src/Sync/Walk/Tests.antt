-- ===== src/Sync/Walk/Tests.antt =====
-- A walk over a cloud directory that holds a file and a way back to itself, and a scan of ticked files in it.
use tdrive_aliyunpan.Base.{
  ◌+◌, ◌≡◌, refl, Bool, true, false, [], ◌∷◌, none, pos, Text, codes, ok, length,
}
use tdrive_aliyunpan.Settings.{Job}
use tdrive_aliyunpan.Sync.Walk.{Node, CloudTree, Found, walk, walk_cloud_dir}
use tdrive_aliyunpan.Sync.Names.{parent_cloud_dir}
use tdrive_aliyunpan.Sync.Ticked.{files_in, file_at, look_for, scan_chosen_files}
use tdrive_aliyunpan.Sync.Ticked.Exact.{IsExact}
use tdrive_aliyunpan.Sync.Ticked.Laws.{OnlyNamed, IsHandled, scan_chosen_files-handles}
use tdrive_aliyunpan.Sync.Walk.Entries.{IsIn}
use tdrive_aliyunpan.Sync.Walk.Laws.{Under, HasFile, walk_cloud_dir-files, walk-ends}

abbrev photos : Job
photos = record {
  id = codes "p";
  name = codes "Photos";
  enabled = true;
  drive_name = codes "backup";
  remote_path = codes "/a";
  target_path = codes "/b";
  include_files = [];
  include_dirs = [];
  exclude_names = [];
  min_size_bytes = pos 0;
  max_size_bytes = pos 0;
  overwrite = false;
  delete_after_upload = false;
}

abbrev node : Text → Text → Bool → Node
node name path is_dir = record {
  entry = record { file_id = name; name = name; path = path; size = pos 3; sha1 = [] };
  is_dir = is_dir;
}

abbrev looped : CloudTree
looped = record {
  list =
      λ dir. ok (node (codes "x") (codes "/a/x") false ∷ node (codes "a") (codes "/a") true ∷ []);
  index_error = λ dir. none;
  matches_any = λ name. false;
  context_ended = λ n. false;
}

walk_cloud_dir-files_example :
    ((f : Found)
      → IsIn f (walk_cloud_dir looped photos (codes "/a") 2).found
      → (dir : Text) × Under looped (codes "/a") dir × HasFile looped photos dir f)
    × ((walk_cloud_dir looped photos (codes "/a") 2).error ≡ none
        → (dir : Text) → Under looped (codes "/a") dir
        → (f : Found) → HasFile looped photos dir f
        → IsIn f (walk_cloud_dir looped photos (codes "/a") 2).found)
walk_cloud_dir-files_example = walk_cloud_dir-files looped photos (codes "/a") 2

walk-ends_example :
    length (walk looped photos 2 (codes "/a" ∷ [])).listed
      + (walk looped photos 2 (codes "/a" ∷ [])).left
    ≡ 2
walk-ends_example = walk-ends looped photos 2 (codes "/a" ∷ [])

-- One file of the job is there, another is gone.
abbrev ticked : Job
ticked = record photos { include_files = codes "/a/x" ∷ codes "/a/y" ∷ [] }

ticked-missing : (scan_chosen_files looped ticked).missing ≡ codes "/a/y" ∷ []
unfolding scan_chosen_files files_in file_at look_for parent_cloud_dir
ticked-missing = refl

scan_chosen_files-handles_example :
    OnlyNamed ticked.include_files (scan_chosen_files looped ticked)
    × IsExact looped ticked (scan_chosen_files looped ticked)
    × ((scan_chosen_files looped ticked).error ≡ none
        → (path : Text) → IsIn path ticked.include_files
        → IsHandled (scan_chosen_files looped ticked) path)
scan_chosen_files-handles_example = scan_chosen_files-handles looped ticked
