-- ===== src/Sync/Tests.antt =====
-- The engine's theorems at concrete inputs.
use tdrive_aliyunpan.Base.{
  ◌≡◌, refl, true, false, List, [], ◌∷◌, ◌++◌, none, some, arith, ℤ, pos, ◌+ℤ◌, ◌-ℤ◌, Text, codes,
}
use tdrive_aliyunpan.Base.Dict.{lookup}
use tdrive_aliyunpan.Settings.{Settings, Job, default_settings}
use tdrive_aliyunpan.Sync.Actions.{cancel_mark}
use tdrive_aliyunpan.Sync.Actions.Stop.{cancel_mark-is_stopped}
use tdrive_aliyunpan.Sync.History.Kept.{IsNeeded, trim_history-keeps}
use tdrive_aliyunpan.Sync.History.{trim_history}
use tdrive_aliyunpan.Sync.Item.{Item, State, Stage}
use tdrive_aliyunpan.Sync.Engine.{Engine, find_item, has_run, cancellation_requested}
use tdrive_aliyunpan.Sync.Claim.{take_next_with_run, roll_quota}
use tdrive_aliyunpan.Sync.Claim.Laws.{ClaimSpec, take_next-ClaimSpec}
use tdrive_aliyunpan.Sync.Outcome.{Writes, complete, complete_begin, complete_rollback, is_stopped}
use tdrive_aliyunpan.Sync.Outcome.Laws.{
  complete-restores, complete-charges, complete_rollback-roll_quota,
}
use tdrive_aliyunpan.Sync.Budget.{World}
use tdrive_aliyunpan.Sync.Scan.{Entry, Outside, consider}
use tdrive_aliyunpan.Sync.Names.{map_path, drop_slashes, drop_last_slashes}
use tdrive_aliyunpan.Sync.Names.Rebase.{child, IsRelative, map_path-child}
use tdrive_aliyunpan.Sync.Scan.Once.{IsOnce, consider-IsOnce}
use tdrive_aliyunpan.Sync.Room.{reserve_stage_room}
use tdrive_aliyunpan.Sync.Room.Laws.{RoomSpec, reserve_stage_room-RoomSpec}

abbrev photos : Job
photos = record {
  id = codes "p";
  name = codes "Photos";
  enabled = true;
  drive_name = codes "backup";
  remote_path = codes "/a";
  target_path = codes "/b";
  include_files = [];
  include_dirs = [];
  exclude_names = [];
  min_size_bytes = pos 0;
  max_size_bytes = pos 0;
  overwrite = false;
  delete_after_upload = false;
}

abbrev row : Text → State → ℤ → Item
row id state size = record {
  id = id;
  job_id = codes "p";
  job_name = codes "Photos";
  drive_name = codes "backup";
  remote_path = codes "/a/" ++ id;
  file_id = id;
  target_dir = codes "/b";
  name = id;
  size = size;
  sha1 = id;
  state = state;
  stage = Stage.idle;
  downloaded = pos 0;
  uploaded = pos 0;
  error = [];
  attempts = 0;
  next_attempt_at = 0;
  overwrite = false;
  delete_after = false;
  created_at = 0;
  started_at = 0;
  finished_at = 0;
  upload_job_id = [];
}

abbrev settings : Settings
settings = record default_settings {
  quota = record { daily_bytes = pos 100; reset_at = codes "00:00" };
  jobs = photos ∷ [];
}

-- An engine with this queue, and 20 bytes used.
abbrev engine : List Item → Engine
engine queue = record {
  settings = settings;
  queue = queue;
  quota = record { day = codes "4"; used_bytes = pos 20 };
  active = 0;
  download_active = 0;
  upload_active = 0;
  reserved = pos 0;
  stage_reserved = pos 0;
  stage_reservations = [];
  scanning = false;
  paused = false;
  stopping = false;
  dirty = false;
  queue_revision = 0;
  quota_revision = 0;
  quota_dirty = false;
  runs = [];
  cancelling = [];
  deleting = [];
}

abbrev waiting : Engine
waiting =
    engine (row (codes "x") State.pending (pos 30) ∷ row (codes "y") State.pending (pos 40) ∷ [])

take_next-ClaimSpec_example : ClaimSpec true 5 2 waiting (take_next_with_run true 5 2 waiting)
take_next-ClaimSpec_example = take_next-ClaimSpec true 5 2 waiting

abbrev start : World
start = record { engine = waiting; held = []; leaving = [] }

abbrev taken : Item
taken = record (row (codes "x") State.running (pos 30)) { started_at = 5; attempts = 1 }

abbrev taken_engine : Engine
taken_engine = (take_next_with_run true 5 2 waiting).1

abbrev busy : World
busy = record { engine = taken_engine; held = (codes "x", pos 30) ∷ []; leaving = [] }

abbrev done : World
done = record busy { engine = complete_begin taken 9 taken_engine }

-- A transfer that is running, with one row complete.
abbrev sending : Engine
sending =
    engine (row (codes "x") State.running (pos 30) ∷ row (codes "z") State.complete (pos 1) ∷ [])

abbrev sent : Item
sent = row (codes "x") State.running (pos 30)

sent_found : find_item (codes "x") sending.queue ≡ some sent
unfolding find_item
sent_found = refl

sent_live : is_stopped sending (codes "x") ≡ false
unfolding is_stopped cancellation_requested find_item lookup
sent_live = refl

abbrev unwritten : Writes
unwritten = record { queue_written = false; quota_written = true; trimmed_written = true }

abbrev written : Writes
written = record { queue_written = true; quota_written = false; trimmed_written = true }

complete-restores_example :
    ((complete unwritten sent 9 sending).done ≡ false)
    × ((complete unwritten sent 9 sending).engine.queue ≡ sending.queue)
    × ((complete unwritten sent 9 sending).engine.quota ≡ sending.quota)
complete-restores_example =
    complete-restores unwritten sent 9 sending (refl, (refl, tt)) sent_found sent_live refl

complete-charges_example :
    ((complete written sent 9 sending).done ≡ true)
    × ((complete written sent 9 sending).engine.quota.used_bytes ≡ pos 20 +ℤ pos 30)
complete-charges_example = complete-charges written sent 9 sending sent_live refl

abbrev stopped : Engine
stopped = engine (row (codes "x") State.cancelled (pos 30) ∷ [])

stopped_is : is_stopped stopped (codes "x") ≡ true
unfolding is_stopped cancellation_requested find_item lookup
stopped_is = refl

complete_rollback-roll_quota_example :
    (complete_rollback sent
      (roll_quota (codes "5") (complete_begin sent 9 sending))).quota.used_bytes
    ≡ pos 0 -ℤ pos 30
complete_rollback-roll_quota_example = complete_rollback-roll_quota sent 9 (codes "5") sending refl

abbrev room : Engine
room = engine []

reserve_stage_room-RoomSpec_example :
    RoomSpec
      (codes "x")
      (pos 30)
      (pos 80)
      (pos 100)
      room
      (reserve_stage_room (codes "x") (pos 30) (pos 80) (pos 100) room)
reserve_stage_room-RoomSpec_example =
    reserve_stage_room-RoomSpec (codes "x") (pos 30) (pos 80) (pos 100) room

below-IsRelative : IsRelative (codes "c/d")
unfolding drop_slashes drop_last_slashes
below-IsRelative = record { some_text = refl; no_first = refl; no_last = refl }

map_path-child_example :
    (map_path (codes "/a") (codes "/b") (child (codes "/a") (codes "c/d"))
      ≡ child (codes "/b") (codes "c/d"))
    × (map_path (codes "/a") (codes "/b") (codes "/a") ≡ codes "/b")
map_path-child_example = map_path-child (codes "/a") (codes "/b") (codes "c/d") below-IsRelative

abbrev outside : Outside
outside = record { to_upper = λ t. t; message = λ f. codes "refused"; listing = λ dir. none }

abbrev found : Entry
found = record {
  file_id = codes "w";
  name = codes "w";
  path = codes "/a/w";
  size = pos 3;
  sha1 = codes "w";
}

empty-IsOnce : IsOnce room.queue
empty-IsOnce k = omega arith

consider-IsOnce_example :
    IsOnce
      (consider outside
        (λ e. e)
        (record { id = codes "n"; now = 6 })
        photos
        found
        (codes "/b")
        []
        room).queue
consider-IsOnce_example =
    consider-IsOnce outside (record { id = codes "n"; now = 6 }) photos found (codes "/b") (λ e. e)
      [] room empty-IsOnce empty-IsOnce

abbrev transferring : Engine
transferring = record sending {
  runs = (codes "x", record { cancel_requested = false; started = true; interrupted = false }) ∷ [];
}

transferring_run : has_run transferring (codes "x") ≡ true
unfolding has_run lookup
transferring_run = refl

cancel_mark-is_stopped_example :
    is_stopped (cancel_mark 9 (codes "x" ∷ []) transferring).engine (codes "x") ≡ true
cancel_mark-is_stopped_example =
    cancel_mark-is_stopped 9 (codes "x" ∷ []) sent transferring sent_found refl refl
      transferring_run

sent_needed : IsNeeded sending sent
sent_needed = IsNeeded.running refl

trim_history-keeps_example : find_item (codes "x") (trim_history sending).1.queue ≡ some sent
trim_history-keeps_example =
    trim_history-keeps sending sent (refl, (refl, tt)) sent_found sent_needed
