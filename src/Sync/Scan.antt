-- ===== src/Sync/Scan.antt =====
-- What a scan queues: `consider`, `inspectLocked` and `deliveredElsewhere` of internal/sync/scan.go. A
-- job's nil and empty lists are one list here.
pub mod Once
use tdrive_aliyunpan.Base.{
  ℕ, zero, suc, ◌+◌, ◌/◌, ◌%◌, negsuc, Bool, true, false, not, ◌&&◌, ◌||◌, List, [], ◌∷◌, ◌++◌,
  Option, none, some, ℤ, pos, eqb_ℤ, Text, codes, text_eq, is_empty, has_prefix, byte_len, contains,
  ltb, leb, ◌==◌, any, if◌then◌else◌,
}
use tdrive_aliyunpan.Base.Dict.{lookup}
use tdrive_aliyunpan.Settings.{Settings, Job, job_by_id}
use tdrive_aliyunpan.Sync.Item.{Item, State, Stage, is_active, is_complete, is_failed, is_cancelled}
use tdrive_aliyunpan.Sync.Engine.{Engine, mark_queue_dirty}
use tdrive_aliyunpan.Sync.Names.{NameFault, unstorable_name}

-- `strconv.FormatInt(n, 10)`, with more fuel than n has digits.
abbrev digits : ℕ → ℕ → Text → Text
digits zero n s = s
digits (suc fuel) n s =
    let rest = digits fuel (n / 10) ((b'0' + n % 10) ∷ s) in
    if n / 10 == 0 then (b'0' + n % 10) ∷ s else rest

abbrev format_int : ℤ → Text
format_int (pos n) = digits (suc n) n []
format_int (negsuc n) = b'-' ∷ digits (suc (suc n)) (suc n) []

-- `Item.key`, by the fields it reads.
unfoldable pub key : Text → Text → Text → ℤ → Text
key job_id remote_path sha1 size = job_id ++ 0 ∷ remote_path ++ 0 ∷ sha1 ++ 0 ∷ format_int size

abbrev pub item_key : Item → Text
item_key i = key i.job_id i.remote_path i.sha1 i.size

-- `aliyunpan.Entry`, by the fields a scan reads.
pub record Entry : Type 0 where
  pub file_id : Text
  pub name : Text
  pub path : Text
  pub size : ℤ
  pub sha1 : Text

abbrev texts_eq : List Text → List Text → Bool
texts_eq [] [] = true
texts_eq [] (t ∷ ts) = false
texts_eq (s ∷ ss) [] = false
texts_eq (s ∷ ss) (t ∷ ts) = text_eq s t && texts_eq ss ts

abbrev bool_eq : Bool → Bool → Bool
bool_eq true b = b
bool_eq false b = not b

-- `reflect.DeepEqual` on jobs.
abbrev pub job_eq : Job → Job → Bool
job_eq a b =
    text_eq a.id b.id
    && (text_eq a.name b.name
        && (bool_eq a.enabled b.enabled
            && (text_eq a.drive_name b.drive_name
                && (text_eq a.remote_path b.remote_path
                    && (text_eq a.target_path b.target_path
                        && (texts_eq a.include_files b.include_files
                            && (texts_eq a.include_dirs b.include_dirs
                                && (texts_eq a.exclude_names b.exclude_names
                                    && (eqb_ℤ a.min_size_bytes b.min_size_bytes
                                        && (eqb_ℤ a.max_size_bytes b.max_size_bytes
                                            && (bool_eq a.overwrite b.overwrite
                                                && bool_eq a.delete_after_upload
                                                    b.delete_after_upload)))))))))))

unfoldable pub is_current : Option Job → Job → Bool
is_current none job = false
is_current (some now) job = job_eq now job

-- A row that keeps a file with its key from being queued.
unfoldable pub holds_back : Text → Item → Bool
holds_back k i =
    text_eq (item_key i) k && (is_active i || (is_failed i.state || is_cancelled i.state))

abbrev pub delivered_to : Text → Text → Item → Bool
delivered_to k target_dir i =
    text_eq (item_key i) k && (is_complete i.state && not (text_eq i.target_dir target_dir))

abbrev pub add_dir : Item → Option (List Text) → Option (List Text)
add_dir i none = none
add_dir i (some dirs) = some (i.target_dir ∷ dirs)

-- The loop of `inspectLocked`: nothing when the file must not be queued.
pub inspect_rows : Text → Text → List Item → Option (List Text)
inspect_rows k target_dir [] = some []
inspect_rows k target_dir (i ∷ is) =
    let rest = inspect_rows k target_dir is in
    if holds_back k i then none else if delivered_to k target_dir i then add_dir i rest else rest

pub inspect : Job → Entry → Text → Engine → Option (List Text)
inspect job entry target_dir e =
    if not (is_current (job_by_id job.id e.settings.jobs) job)
    then none
    else inspect_rows (key job.id entry.path entry.sha1 entry.size) target_dir e.queue

-- A listing of a drive directory: file names with their sizes, or nothing when it cannot be read.
abbrev pub Listing : Type 0
Listing = Option (List (Text × ℤ))

abbrev stored_same : Entry → Option ℤ → Bool
stored_same entry none = false
stored_same entry (some size) = eqb_ℤ size entry.size

abbrev listed_same : Entry → Listing → Bool
listed_same entry none = false
listed_same entry (some files) = stored_same entry (lookup entry.name files)

-- `deliveredElsewhere`; `at` is what the cache answers for a directory.
pub delivered_elsewhere : (Text → Listing) → Entry → List Text → Bool
delivered_elsewhere at entry dirs = any (λ dir. listed_same entry (at dir)) dirs

-- The first test of `consider`: what is stored under the name is kept.
abbrev pub is_kept : Job → Entry → Option ℤ → Bool
is_kept job entry none = false
is_kept job entry (some size) = eqb_ℤ size entry.size || not job.overwrite

-- The row of a new file.
unfoldable pub new_row :
    Text → ℕ → Job → Entry → Text → Option NameFault → (NameFault → Text) → Item
new_row id now job entry target_dir fault message = record {
  id = id;
  job_id = job.id;
  job_name = job.name;
  drive_name = job.drive_name;
  remote_path = entry.path;
  file_id = entry.file_id;
  target_dir = target_dir;
  name = entry.name;
  size = entry.size;
  sha1 = entry.sha1;
  state = elim fault [ some f ↦ State.failed | none ↦ State.pending ];
  stage = Stage.idle;
  downloaded = pos 0;
  uploaded = pos 0;
  error = elim fault [ some f ↦ message f | none ↦ [] ];
  attempts = 0;
  next_attempt_at = 0;
  overwrite = job.overwrite;
  delete_after = job.delete_after_upload;
  created_at = now;
  started_at = 0;
  finished_at = elim fault [ some f ↦ now | none ↦ 0 ];
  upload_job_id = [];
}

-- What the scan reads outside the engine: `strings.ToUpper`, the message for a refused name, and what
-- the cache of drive directories answers.
pub record Outside : Type 0 where
  pub to_upper : Text → Text
  pub message : NameFault → Text
  pub listing : Text → Listing

-- The ID and the time that the new row is given.
pub record Stamp : Type 0 where
  pub id : Text
  pub now : ℕ

unfoldable pub considered_row : Outside → Stamp → Job → Entry → Text → Item
considered_row o stamp job entry target_dir =
    new_row stamp.id stamp.now job entry target_dir (unstorable_name o.to_upper entry.name)
      o.message

abbrev pub queue_row : Option (List Text) → Item → Engine → Engine
queue_row none row e = e
queue_row (some dirs) row e = mark_queue_dirty (record e { queue = e.queue ++ row ∷ [] })

-- The last locked part of `consider`.
unfoldable pub consider_end : Outside → Stamp → Job → Entry → Text → Engine → Engine
consider_end o stamp job entry target_dir e =
    queue_row (inspect job entry target_dir e) (considered_row o stamp job entry target_dir) e

abbrev pub after_look : Outside → Entry → Option (List Text) → Engine → Engine → Engine
after_look o entry none e queued = e
after_look o entry (some dirs) e queued =
    if delivered_elsewhere o.listing entry dirs then e else queued

-- `consider`, with what others do to the engine between its two locked parts as `between`.
pub consider :
    Outside → (Engine → Engine) → Stamp → Job → Entry → Text → List (Text × ℤ) → Engine → Engine
consider o between stamp job entry target_dir existing e =
    if is_kept job entry (lookup entry.name existing)
    then e
    else after_look o entry (inspect job entry target_dir e) (between e)
        (consider_end o stamp job entry target_dir (between e))
