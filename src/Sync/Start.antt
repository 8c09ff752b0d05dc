-- ===== src/Sync/Start.antt =====
-- The locked part of `Load` (internal/sync/engine.go): the engine after a start, from the stored
-- documents. `staged` is what `StagedDownloadBytes` measures for a row, and `today` the instant at which the
-- quota's period began. A stored queue has no null rows here; a queue that could not be read is empty.
pub mod Laws
use tdrive_aliyunpan.Base.{
  ℕ, ◌+◌, ◌-◌, Bool, true, false, ◌&&◌, ◌||◌, List, [], ◌∷◌, ℤ, pos, ◌+ℤ◌, ltb_ℤ, Text, is_empty,
  ltb, leb, if◌then◌else◌,
}
use tdrive_aliyunpan.Settings.{Settings, default_drive_name}
use tdrive_aliyunpan.Sync.Item.{Item, State, Stage, is_running, is_complete, is_active}
use tdrive_aliyunpan.Sync.Engine.{Engine, QuotaState}

abbrev pub is_finishing : Stage → Bool
is_finishing Stage.finishing = true
is_finishing _ = false

-- The upload was committed before the process stopped.
abbrev pub was_finishing : Item → Bool
was_finishing i = is_running i.state && is_finishing i.stage

abbrev pub named : Item → Item
named i = if is_empty i.drive_name then record i { drive_name = default_drive_name } else i

-- What a row that was running becomes.
abbrev pub recovered : ℕ → Item → Item
recovered now i =
    if is_finishing i.stage
    then record i {
      state = State.complete;
      stage = Stage.idle;
      finished_at = now;
      uploaded = i.size;
    }
    else record i {
      state = State.pending;
      stage = Stage.idle;
      uploaded = pos 0;
      upload_job_id = [];
      next_attempt_at = 0;
      attempts = i.attempts - 1;
    }

abbrev pub measured : (Item → ℤ) → Item → Item
measured staged i = if is_active i then record i { downloaded = staged i } else i

unfoldable pub load_row : (Item → ℤ) → ℕ → Item → Item
load_row staged now i =
    measured staged (if is_running i.state then recovered now (named i) else named i)

unfoldable pub load_rows : (Item → ℤ) → ℕ → List Item → List Item
load_rows staged now [] = []
load_rows staged now (i ∷ is) = load_row staged now i ∷ load_rows staged now is

-- The sizes that the loop charges.
unfoldable pub charged_bytes : List Item → ℤ
charged_bytes [] = pos 0
charged_bytes (i ∷ is) = (if was_finishing i then i.size else pos 0) +ℤ charged_bytes is

-- The sizes of the rows that were completed in the period.
unfoldable pub today_completed : ℕ → List Item → ℤ
today_completed today [] = pos 0
today_completed today (i ∷ is) =
    (if is_complete i.state && leb today i.finished_at then i.size else pos 0)
    +ℤ today_completed today is

abbrev pub healed : ℤ → QuotaState → QuotaState
healed completed q = if ltb_ℤ q.used_bytes completed then record q { used_bytes = completed } else q

-- `Load`, for settings that were read and normalized.
unfoldable pub load : (Item → ℤ) → ℕ → ℕ → Settings → List Item → QuotaState → Engine → Engine
load staged now today settings queue quota e =
    let rows = load_rows staged now queue in
    record e {
      settings = settings;
      queue = rows;
      quota =
          healed (today_completed today rows)
            (record quota { used_bytes = quota.used_bytes +ℤ charged_bytes queue });
      dirty = false;
      quota_dirty = false;
      queue_revision = 0;
      quota_revision = 0;
    }
