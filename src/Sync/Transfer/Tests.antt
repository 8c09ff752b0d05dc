-- ===== src/Sync/Transfer/Tests.antt =====
-- The theorems on the transfer pipeline, a start and a change of the settings at concrete inputs.
use tdrive_aliyunpan.Base.{
  ℕ, ◌+◌, ◌*◌, ◌/◌, ◌^◌, ◌≤◌, min, ◌≡◌, refl, ◌⊎◌, Bool, true, false, List, [], ◌∷◌, ◌++◌, Option,
  none, some, ℤ, pos, pos_part, ◌≤ℤ◌, ◌+ℤ◌, ◌-ℤ◌, Text, codes, Result, ok, err, arith,
}
use tdrive_aliyunpan.Settings.{Settings, Job, default_settings}
use tdrive_aliyunpan.Settings.Backoff.Laws.{IsPolicy}
use tdrive_aliyunpan.Download.Chunks.{chunk_count}
use tdrive_aliyunpan.Sync.Item.{Item, State, Stage}
use tdrive_aliyunpan.Sync.Engine.{
  Engine, find_item, cancellation_requested, has_run, register_run, set_stage, note_download,
  mark_queue_dirty, modify, persisted, quota_persisted, mark_deleting, unmark_deleting,
  mark_quota_dirty, is_deleting,
}
use tdrive_aliyunpan.Sync.Outcome.{
  is_stopped, complete, complete_begin, complete_trim, completed_row,
}
use tdrive_aliyunpan.Sync.Runs.{watch_item}
use tdrive_aliyunpan.Sync.History.{trim_history, history, is_history}
use tdrive_aliyunpan.Sync.Room.{
  acquire_download_slot, reserve_stage_room, take_room, release_stage_room, release_download_slot,
  acquire_upload_slot, release_upload_slot,
}
use tdrive_aliyunpan.Sync.Retries.{ErrorKind, Format, Context, retry_later}
use tdrive_aliyunpan.Sync.Retries.Laws.{retry_later-waits}
use tdrive_aliyunpan.Sync.Staging.{Cloud, stage}
use tdrive_aliyunpan.Sync.Staging.Laws.{GivenBack, stage-GivenBack}
use tdrive_aliyunpan.Sync.Owner.{User, upload_owner}
use tdrive_aliyunpan.Sync.Upload.{
  UploadJob, Host, Session, send_segments, indices_from, upload, upload_rounds, send_loop,
  send_segment, put_segment, commit,
}
use tdrive_aliyunpan.Sync.Upload.Cover.{sent, send_segments-covers}
use tdrive_aliyunpan.Sync.Upload.Closed.{Closed, upload-closes}
use tdrive_aliyunpan.Sync.Start.{today_completed, load}
use tdrive_aliyunpan.Sync.Start.Laws.{committed_bytes, Reloaded, load-Reloaded}
use tdrive_aliyunpan.Sync.Transfer.{Answers, pipeline, transfer, finish}
use tdrive_aliyunpan.Sync.Transfer.Laws.{transfer-keeps_staged}

abbrev photo : Item
photo = record {
  id = codes "x";
  job_id = codes "p";
  job_name = codes "Photos";
  drive_name = codes "backup";
  remote_path = codes "/a/x";
  file_id = codes "x";
  target_dir = codes "/b";
  name = codes "x";
  size = pos 10;
  sha1 = [];
  state = State.running;
  stage = Stage.idle;
  downloaded = pos 0;
  uploaded = pos 0;
  error = [];
  attempts = 1;
  next_attempt_at = 0;
  overwrite = false;
  delete_after = false;
  created_at = 0;
  started_at = 0;
  finished_at = 0;
  upload_job_id = [];
}

abbrev engine : Engine
engine = record {
  settings = default_settings;
  queue = photo ∷ [];
  quota = record { day = []; used_bytes = pos 0 };
  active = 1;
  download_active = 0;
  upload_active = 0;
  reserved = pos 10;
  stage_reserved = pos 0;
  stage_reservations = [];
  scanning = false;
  paused = false;
  stopping = false;
  dirty = false;
  queue_revision = 0;
  quota_revision = 0;
  quota_dirty = false;
  runs = [];
  cancelling = [];
  deleting = [];
}

abbrev job : UploadJob
job = record { id = codes "j"; segment_size = pos 4; segment_count = 3 }

-- A host that takes everything.
abbrev host : Host
host = record {
  begin_upload = ok job;
  put_segment = λ n. none;
  deltas = λ n. [];
  complete_upload = λ n. none;
  abort_upload = λ n. none;
  context_error = λ n. none;
  stopped_by_cancel = λ n. false;
}

upload-closes_example :
    Closed photo job (upload host photo (record { engine = engine; calls = []; asked = 0 }))
upload-closes_example =
    upload-closes host photo photo job engine (unfold find_item in refl) refl refl

abbrev session : Session
session = record { engine = engine; calls = []; asked = 0 }

send_segments-covers_example :
    ((send_segments host photo job (indices_from 3 1) session).0 ≡ none)
    × ((send_segments host photo job (indices_from 3 1) session).1.calls
        ≡ sent (pos 10) (pos 4) (indices_from (chunk_count (pos 10) (pos 4)) 1) [])
send_segments-covers_example =
    send_segments-covers 10 4 (omega arith) host photo job refl refl session (omega arith)
      (unfold chunk_count in refl) (λ n. refl) (λ n. refl)

abbrev cloud : Cloud
cloud = record {
  configured = true;
  slot = record { kind = ErrorKind.other; message = [] };
  used = pos 0;
  cache_limit = pos 100;
  room_error = λ room. [];
  resolve_drive = none;
  set_download_rate = none;
  progress = pos 4 ∷ pos 10 ∷ [];
  download = ok (codes "/stage/x");
}

stage-GivenBack_example : GivenBack engine (stage cloud photo engine).1
stage-GivenBack_example =
    stage-GivenBack cloud photo engine (omega arith)
      (unfold tdrive_aliyunpan.Base.Dict.lookup in tt)

abbrev format : Format
format = record { give_up = λ n m. m; retry = λ n most wait m. m }

retry_later-waits_example :
    (row' : Item) × (find_item
        (codes "x")
        (retry_later format Context.alive none 0 (codes "x") [] engine).engine.queue
      ≡ some row')
    × (row'.state ≡ State.pending)
    × (row'.attempts ≡ 1)
    × ((0
            + 800_000_000
              * min
                  (pos_part default_settings.retry.initial_seconds * 2 ^ 0)
                  (pos_part default_settings.retry.max_seconds))
          / 1_000_000
        ≤ row'.next_attempt_at)
    × (row'.next_attempt_at
        ≤ (0
            + 1_200_000_000
              * min
                  (pos_part default_settings.retry.initial_seconds * 2 ^ 0)
                  (pos_part default_settings.retry.max_seconds))
          / 1_000_000)
retry_later-waits_example =
    retry_later-waits format Context.alive none 0 0 (codes "x") [] photo engine
      (unfold find_item in refl) refl stopped refl refl policy refl tt
  where
    stopped : is_stopped engine (codes "x") ≡ false
    stopped =
        unfold is_stopped cancellation_requested find_item tdrive_aliyunpan.Base.Dict.lookup in refl

    policy : IsPolicy default_settings.retry
    policy = record {
      attempts_low = omega arith;
      attempts_high = omega arith;
      initial_low = omega arith;
      ordered = omega arith;
      maximum_high = omega arith;
    }

abbrev owner : User
owner = record { id = codes "o"; username = codes "O"; role = codes "user"; enabled = true }

-- A transfer that succeeds, under settings that ask for the local copy to go.
abbrev answers : Answers
answers = record {
  cloud = cloud;
  users = ok (owner ∷ []);
  open_error = none;
  host = host;
  upload_limit = pos 1;
  slot_error = [];
  writes = record { queue_written = true; quota_written = true; trimmed_written = true };
  resolves = λ n. true;
  removes = λ n. none;
  wait_cut = λ n. false;
  after_stage = λ e. e;
  after_upload = λ e. e;
  after_complete = λ e. e;
  context = Context.alive;
  offset = none;
  format = format;
  now = 0;
}

abbrev eager : Engine
eager = record engine { settings = record default_settings { delete_local_after_upload = true } }

transfer-keeps_staged_example :
    (cancellation_requested (pipeline answers photo eager).engine (codes "x") ≡ true)
    ⊎ (((transfer answers photo eager).completed ≡ true) × (true ≡ true))
transfer-keeps_staged_example = transfer-keeps_staged answers photo eager discards
  where
    discards : (transfer answers photo eager).discard ≡ true
    discards =
        unfold transfer pipeline stage watch_item has_run register_run cancellation_requested
          tdrive_aliyunpan.Base.Dict.lookup tdrive_aliyunpan.Base.Dict.insert acquire_download_slot
          reserve_stage_room take_room release_stage_room release_download_slot
          tdrive_aliyunpan.Base.Dict.delete set_stage note_download mark_queue_dirty modify
          find_item acquire_upload_slot release_upload_slot upload_owner upload upload_rounds
          send_segments send_loop send_segment put_segment commit finish complete complete_begin
          complete_trim trim_history history is_history is_stopped persisted quota_persisted
          mark_deleting unmark_deleting mark_quota_dirty completed_row is_deleting ◌+ℤ◌ ◌-ℤ◌ in
        refl

load-Reloaded_example :
    Reloaded
      (λ i. pos 4)
      7
      (photo ∷ [])
      (load (λ i. pos 4) 7 0 default_settings (photo ∷ []) engine.quota engine).queue
    × (engine.quota.used_bytes +ℤ committed_bytes (photo ∷ [])
        ≤ℤ (load
            (λ i. pos 4)
            7
            0
            default_settings
            (photo ∷ [])
            engine.quota
            engine).quota.used_bytes)
    × (today_completed 0
          (load (λ i. pos 4) 7 0 default_settings (photo ∷ []) engine.quota engine).queue
        ≤ℤ (load
            (λ i. pos 4)
            7
            0
            default_settings
            (photo ∷ [])
            engine.quota
            engine).quota.used_bytes)
    × ((load (λ i. pos 4) 7 0 default_settings (photo ∷ []) engine.quota engine).dirty ≡ false)
load-Reloaded_example =
    load-Reloaded (λ i. pos 4) 7 0 default_settings (photo ∷ []) engine.quota engine

-- The settings are the same but for the job, which is new.
abbrev photos : Job
photos = record {
  id = codes "p";
  name = codes "Photos";
  enabled = true;
  drive_name = codes "backup";
  remote_path = codes "/a";
  target_path = codes "/b";
  include_files = [];
  include_dirs = [];
  exclude_names = [];
  min_size_bytes = pos 0;
  max_size_bytes = pos 0;
  overwrite = false;
  delete_after_upload = false;
}

abbrev with_job : Settings
with_job = record default_settings { jobs = photos ∷ [] }
