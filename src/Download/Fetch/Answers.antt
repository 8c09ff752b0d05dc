-- ===== src/Download/Fetch/Answers.antt =====
-- What surrounds `Download` of internal/aliyunpan/source_download.go: the request with its defaults, the staged
-- file's paths, the answers of the cloud and of the system, and the choice of the cloud file.
use tdrive_aliyunpan.Base.{
  ℕ, Bool, true, false, not, ◌&&◌, List, [], Option, none, some, ℤ, pos, leb_ℤ, ltb_ℤ, eqb_ℤ, Text,
  is_empty, text_eq, Result, ok, err, if◌then◌else◌,
}
use tdrive_aliyunpan.Download.Checkpoint.{ChunkCheckpoint, CheckpointFile}
use tdrive_aliyunpan.Download.Path.{PathFault}

-- What `os.Stat` finds at a path.
pub data Node : Type 0 where
  absent directory : Node
  regular : ℤ → Node

-- The staged file, what an old release left beside it, the partial file and its sidecar.
pub record Staging : Type 0 where
  pub finished : Node
  pub legacy : Node
  pub partial : Node
  pub sidecar : Option ChunkCheckpoint

abbrev pub is_regular_of : ℤ → Node → Bool
is_regular_of size (regular s) = eqb_ℤ s size
is_regular_of size _ = false

-- `isRegularFile`
abbrev pub is_regular_file : Node → Bool
is_regular_file (regular s) = true
is_regular_file _ = false

-- `DownloadRequest`; the timeout is in nanoseconds.
pub record DownloadRequest : Type 0 where
  pub cloud_path : Text
  pub stage_dir : Text
  pub file_id : Text
  pub drive_id : Text
  pub slice_parallel : ℤ
  pub retry : ℤ
  pub timeout : ℤ
  pub chunk_size : ℤ

pub data Fault : Type 0 where
  no_stage_dir : Fault
  bad_path : PathFault → Fault
  no_drive not_found lookup_failed : Fault
  entity_changed not_a_file size_changed : Fault
  cleanup_failed mkdir_failed open_failed truncate_failed close_failed rename_failed : Fault
  chunks_failed chunks_changed : Fault

-- `errors.Is(err, ErrSourceChanged)`
abbrev pub is_source_changed : Fault → Bool
is_source_changed Fault.entity_changed = true
is_source_changed Fault.not_a_file = true
is_source_changed Fault.size_changed = true
is_source_changed Fault.chunks_changed = true
is_source_changed _ = false

pub record CloudFile : Type 0 where
  pub id : Text
  pub size : ℤ
  pub hash : Text
  pub folder : Bool

-- What `downloadChunks` leaves: its error, the sidecar if it was stored, and the reported bytes.
pub record Chunked : Type 0 where
  pub error : Option Fault
  pub saved : Option ChunkCheckpoint
  pub reported : List ℤ

-- The answers: of the cloud, by drive and ID or path, a file or none for a nil entity; of the system, whether a call fails.
pub record World : Type 0 where
  pub resolve_drive : Result Fault Text
  pub file_by_id : Text → Text → Result Fault (Option CloudFile)
  pub file_by_path : Text → Text → Result Fault (Option CloudFile)
  pub remove_finished : Bool
  pub remove_legacy : Bool
  pub make_dir : Bool
  pub remove_partial : Bool
  pub open_partial : Bool
  pub truncate : Bool
  pub save : Bool
  pub close : Bool
  pub rename : Bool
  pub forget_partial : Bool
  pub forget_sidecar : Bool
  pub chunks : CheckpointFile → List ℕ → Chunked

-- An outcome, the files and the calls of `progress` in order.
pub record Fetched : Type 0 where
  pub outcome : Result Fault Text
  pub files : Staging
  pub progress : List ℤ

abbrev pub failed : Fault → Staging → List ℤ → Fetched
failed fault files progress = record { outcome = err fault; files = files; progress = progress }

abbrev pub parallel_download_limit : ℤ
parallel_download_limit = pos 3

abbrev pub download_chunk_size : ℤ
download_chunk_size = pos 33_554_432

abbrev clamp_parallel : ℤ → ℤ
clamp_parallel n =
    if ltb_ℤ n (pos 1)
    then pos 1
    else if ltb_ℤ parallel_download_limit n
    then parallel_download_limit
    else n

-- The defaults at the start of `Download`.
unfoldable pub with_defaults : DownloadRequest → DownloadRequest
with_defaults r = record r {
  slice_parallel = clamp_parallel r.slice_parallel;
  retry = if ltb_ℤ r.retry (pos 1) then pos 3 else r.retry;
  timeout = if leb_ℤ r.timeout (pos 0) then pos 43_200_000_000_000 else r.timeout;
  chunk_size = if leb_ℤ r.chunk_size (pos 0) then download_chunk_size else r.chunk_size;
}

abbrev pub same_entity : Text → Result Fault (Option CloudFile) → Result Fault (Option CloudFile)
same_entity file_id (err e) = err e
same_entity file_id (ok none) = ok none
same_entity file_id (ok (some f)) =
    if not (is_empty f.id) && not (text_eq f.id file_id)
    then err Fault.entity_changed
    else ok (some f)

-- The answer by ID, and the one by path in case.
abbrev pub by_id :
    Text
    → Result Fault (Option CloudFile)
    → Result Fault (Option CloudFile)
    → Result Fault (Option CloudFile)
by_id file_id at_path (ok found) = ok found
by_id file_id at_path (err Fault.not_found) = same_entity file_id at_path
by_id file_id at_path (err e) = err e

-- The file that the request names.
unfoldable pub find_file : World → DownloadRequest → Result Fault (Option CloudFile)
find_file w r =
    let at_path = w.file_by_path r.drive_id r.cloud_path in
    if is_empty r.file_id
    then at_path
    else by_id r.file_id at_path (w.file_by_id r.drive_id r.file_id)

abbrev pub identity : DownloadRequest → CloudFile → ChunkCheckpoint
identity r f = record {
  version = pos 0;
  drive_id = r.drive_id;
  file_id = f.id;
  size = f.size;
  hash = f.hash;
  chunk_size = r.chunk_size;
  done = [];
  partial = [];
}
