-- ===== src/Download/Fetch.antt =====
-- `Download`, `DiscardPartialDownload`, `StagedFilePath` and `StagedDownloadBytes` of
-- internal/aliyunpan/source_download.go: what is done around the chunks of one cloud file. The four paths of
-- a staged file are a record; what the cloud and the operating system answer is another. The chunks
-- themselves are an argument, which Download/Durable and Download/Attempts model.
pub mod Answers
pub mod Keeps
pub mod Finished
pub mod Tests
use tdrive_aliyunpan.Base.{
  ℕ, Bool, true, false, not, ◌&&◌, ◌||◌, List, [], ◌∷◌, ◌++◌, Option, none, some, ℤ, pos, ◌+ℤ◌,
  leb_ℤ, ltb_ℤ, eqb_ℤ, Text, codes, is_empty, text_eq, Result, ok, err, if◌then◌else◌,
}
use tdrive_aliyunpan.Download.Bitmap.{Codec}
use tdrive_aliyunpan.Download.Checkpoint.{
  ChunkCheckpoint, CheckpointFile, Decimal, new_checkpoint, load_checkpoint, document, completed,
  pending, checkpoint_bytes_for_size,
}
use tdrive_aliyunpan.Download.Path.{PathFault, clean_download_path, staged_path}
use tdrive_aliyunpan.Download.Fetch.Answers.{
  Node, Staging, is_regular_of, is_regular_file, DownloadRequest, Fault, is_source_changed,
  CloudFile, Chunked, World, Fetched, failed, parallel_download_limit, download_chunk_size,
  with_defaults, find_file, identity,
}

-- After the chunks: closing, the rename, and the removal of the sidecar.
abbrev pub close_and_rename : World → Text → ℤ → Staging → List ℤ → Fetched
close_and_rename w staged size files progress =
    if w.close
    then failed Fault.close_failed files progress
    else if w.rename
    then failed Fault.rename_failed files progress
    else record {
      outcome = ok staged;
      files = record files {
        finished = files.partial;
        partial = Node.absent;
        sidecar = if w.forget_sidecar then files.sidecar else none;
      };
      progress = progress ++ size ∷ [];
    }

abbrev pub kept_or : Option ChunkCheckpoint → Option ChunkCheckpoint → Option ChunkCheckpoint
kept_or old none = old
kept_or old (some saved) = some saved

abbrev pub after_chunks : World → Text → ℤ → Staging → List ℤ → Chunked → Fetched
after_chunks w staged size files progress c =
    let files' = record files { sidecar = kept_or files.sidecar c.saved } in
    let progress' = progress ++ c.reported in
    elim c.error [
      | some fault ↦ failed fault files' progress'
      | none ↦ close_and_rename w staged size files' progress'
    ]

-- The chunks that are pending, if there are any.
abbrev pub fetch_chunks : World → Text → ℤ → CheckpointFile → Staging → List ℤ → Fetched
fetch_chunks w staged size c files progress = elim (pending c) [
  | [] ↦ close_and_rename w staged size files progress
  | index ∷ more ↦
      if ltb_ℤ (pos 0) size
      then after_chunks w staged size files progress (w.chunks c (index ∷ more))
      else close_and_rename w staged size files progress
]

abbrev pub baseline : CheckpointFile → ℤ
baseline c = let (chunks, done, partial) = completed c in done +ℤ partial

-- Opening and preallocating the partial file, the first progress and the first save.
abbrev pub open_partial : Codec → Decimal → World → Text → ℤ → CheckpointFile → Staging → Fetched
open_partial k d w staged size c files =
    if w.open_partial
    then failed Fault.open_failed files []
    else if w.truncate
    then failed Fault.truncate_failed
        (record files {
          partial = if is_regular_file files.partial then files.partial else Node.regular (pos 0);
        })
        []
    else fetch_chunks w staged size c
        (record files {
          partial = Node.regular size;
          sidecar = if w.save then files.sidecar else some (document k d c);
        })
        (baseline c ∷ [])

-- The record to resume from, if the partial file has the right shape.
abbrev pub resumable : Codec → Decimal → ChunkCheckpoint → Staging → Option CheckpointFile
resumable k d want files =
    if is_regular_of want.size files.partial then load_checkpoint k d files.sidecar want else none

abbrev pub resume_or_start :
    Codec → Decimal → World → Text → ChunkCheckpoint → Staging → Option CheckpointFile → Fetched
resume_or_start k d w staged want files (some c) = open_partial k d w staged want.size c files
resume_or_start k d w staged want files none =
    if w.remove_partial
    then failed Fault.cleanup_failed files []
    else open_partial k d w staged want.size (new_checkpoint want)
        (record files { partial = Node.absent })

-- What is left under the final name cannot be resumed into.
abbrev pub clear_old : Codec → Decimal → World → Text → ChunkCheckpoint → Staging → Fetched
clear_old k d w staged want files =
    if w.remove_finished
    then failed Fault.cleanup_failed files []
    else if w.remove_legacy
    then failed Fault.cleanup_failed (record files { finished = Node.absent }) []
    else let cleared = record files { finished = Node.absent; legacy = Node.absent } in
      if w.make_dir
      then failed Fault.mkdir_failed cleared []
      else resume_or_start k d w staged want cleared (resumable k d want cleared)

-- With the file known: a finished copy is the cheapest outcome.
abbrev pub fetch_file :
    Codec → Decimal → World → DownloadRequest → ℤ → CloudFile → Staging → Fetched
fetch_file k d w r expected f files =
    let staged = staged_path r.stage_dir r.cloud_path in
    if f.folder
    then failed Fault.not_a_file files []
    else if leb_ℤ (pos 0) expected && not (eqb_ℤ f.size expected)
    then failed Fault.size_changed files []
    else if is_regular_of f.size files.finished
    then record {
      outcome = ok staged;
      files = record files {
        partial = if w.forget_partial then files.partial else Node.absent;
        sidecar = if w.forget_sidecar then files.sidecar else none;
      };
      progress = f.size ∷ [];
    }
    else clear_old k d w staged (identity r f) files

abbrev pub found_file :
    Codec
    → Decimal
    → World
    → DownloadRequest
    → ℤ
    → Staging
    → Result Fault (Option CloudFile)
    → Fetched
found_file k d w r expected files (err fault) = failed fault files []
found_file k d w r expected files (ok none) = failed Fault.not_a_file files []
found_file k d w r expected files (ok (some f)) = fetch_file k d w r expected f files

abbrev pub on_drive :
    Codec → Decimal → World → DownloadRequest → ℤ → Staging → Result Fault Text → Fetched
on_drive k d w r expected files (err fault) = failed fault files []
on_drive k d w r expected files (ok drive) =
    let r' = record r { drive_id = drive } in found_file k d w r' expected files (find_file w r')

abbrev pub drive_of : World → DownloadRequest → Result Fault Text
drive_of w r = if is_empty r.drive_id then w.resolve_drive else ok r.drive_id

abbrev pub at_path :
    Codec → Decimal → World → DownloadRequest → ℤ → Staging → Result PathFault Text → Fetched
at_path k d w r expected files (err fault) = failed (Fault.bad_path fault) files []
at_path k d w r expected files (ok path) =
    let r' = record r { cloud_path = path } in on_drive k d w r' expected files (drive_of w r')

-- `Download`
unfoldable pub download :
    Codec → Decimal → (Text → Text) → World → DownloadRequest → ℤ → Staging → Fetched
download k d to_upper w r expected files =
    if is_empty r.stage_dir
    then failed Fault.no_stage_dir files []
    else at_path k d w (with_defaults r) expected files (clean_download_path to_upper r.cloud_path)

abbrev discard : World → Staging → Result PathFault Text → Staging
discard w files (err fault) = files
discard w files (ok path) = record files {
  partial = if w.forget_partial then files.partial else Node.absent;
  sidecar = if w.forget_sidecar then files.sidecar else none;
}

-- `DiscardPartialDownload`
unfoldable pub discard_partial_download : (Text → Text) → World → Text → Staging → Staging
discard_partial_download to_upper w cloud_path files =
    discard w files (clean_download_path to_upper cloud_path)

abbrev staged_file : Text → Staging → Result PathFault Text → Text
staged_file stage_dir files (err fault) = []
staged_file stage_dir files (ok path) =
    let staged = staged_path stage_dir path in
    if is_regular_file files.finished
    then staged
    else if is_regular_file files.partial
    then staged ++ codes ".part"
    else staged

-- `StagedFilePath`
pub staged_file_path : (Text → Text) → Text → Text → Staging → Text
staged_file_path to_upper stage_dir cloud_path files =
    staged_file stage_dir files (clean_download_path to_upper cloud_path)

abbrev pub staged_bytes : Codec → Decimal → ℤ → Staging → Result PathFault Text → ℤ
staged_bytes k d size files (err fault) = pos 0
staged_bytes k d size files (ok path) =
    if is_regular_of size files.finished
    then size
    else if not (is_regular_of size files.partial)
    then pos 0
    else checkpoint_bytes_for_size k d files.sidecar size

-- `StagedDownloadBytes`
unfoldable pub staged_download_bytes : Codec → Decimal → (Text → Text) → Text → ℤ → Staging → ℤ
staged_download_bytes k d to_upper cloud_path size files =
    staged_bytes k d size files (clean_download_path to_upper cloud_path)
