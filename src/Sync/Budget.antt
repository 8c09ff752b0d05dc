-- ===== src/Sync/Budget.antt =====
-- The daily quota across every interleaving of the operations that touch it. A world is an engine with
-- the reservations that its transfers still hold: `held` before a transfer has unwound, by its
-- item's ID, and `leaving` after. Each step is one locked part of an operation.
pub mod Rows
pub mod Sums
pub mod Writes
pub mod Calm
pub mod Operator
pub mod Host
pub mod Invariant
pub mod Ends
pub mod Others
pub mod Unwind
pub mod Safety
use tdrive_aliyunpan.Base.{
  ℕ, ◌≡◌, Bool, true, false, List, [], ◌∷◌, ◌++◌, Option, none, some, ℤ, pos, ◌+ℤ◌, ◌≤ℤ◌, Text,
  contains,
}
use tdrive_aliyunpan.Base.Dict.{lookup, delete}
use tdrive_aliyunpan.Sync.Item.{Item, State, Stage, is_running}
use tdrive_aliyunpan.Sync.Engine.{
  has_run, persisted, Engine, find_item, release_reservation, unmark_deleting, finish_active,
  set_stage, note_download, charge_quota_delta,
}
use tdrive_aliyunpan.Sync.Claim.{take_next_with_run, roll_quota}
use tdrive_aliyunpan.Sync.History.{ids}
use tdrive_aliyunpan.Sync.Outcome.{
  requeue, fail, is_stopped, complete_begin, complete_rollback, complete_trim,
}
use tdrive_aliyunpan.Sync.Runs.{watch_item, unwatch_item}
use tdrive_aliyunpan.Sync.Actions.{
  abort, cancel_mark, retry_rows, RetryPass, stale_done, clear_finished,
}
use tdrive_aliyunpan.Settings.{Settings, Job}
use tdrive_aliyunpan.Sync.Scan.{Entry, Outside, Stamp, consider_end}
use tdrive_aliyunpan.Sync.Reload.{apply_settings}

pub record World : Type 0 where
  pub engine : Engine
  pub held : List (Text × ℤ)
  pub leaving : List ℤ

-- A row's size counts while the row is running.
abbrev pub counted : Bool → ℤ → ℤ
counted true n = n
counted false n = pos 0

abbrev pub share : Item → ℤ
share i = counted (is_running i.state) i.size

abbrev pub running_bytes : List Item → ℤ
running_bytes [] = pos 0
running_bytes (i ∷ is) = share i +ℤ running_bytes is

-- The bytes already sent in the period and those of the files being sent.
abbrev pub exposure : Engine → ℤ
exposure e = e.quota.used_bytes +ℤ running_bytes e.queue

abbrev pub with_engine : World → Engine → World
with_engine w e = record w { engine = e }

-- The locked parts that other steps may come between. A transfer asks for `completes` while its row
-- is running, for `rolls_back` while the row is the complete one that it has written and no new
-- period has begun since, and it unwinds when its row is no longer running. A scan queues files of at
-- most `most` bytes under new IDs, and a change of the settings keeps the daily limit.
pub data Step (most : ℤ) (w : World) : World → Type 0 where
  claims :
      (now workers : ℕ) (c : Item) (e : Engine)
      → take_next_with_run true now workers w.engine ≡ (some c, e)
      → Step most w (record w { engine = e; held = (c.id, c.size) ∷ w.held })
  requeues :
      (id reason : Text) (not_before : ℕ) (charge : Bool)
      → Step most w (with_engine w (requeue id reason not_before charge w.engine))
  fails : (id reason : Text) (now : ℕ) → Step most w (with_engine w (fail id now reason w.engine).1)
  completes :
      (item : Item) (now : ℕ)
      → find_item item.id w.engine.queue ≡ some item
      → is_running item.state ≡ true
      → is_stopped w.engine item.id ≡ false
      → Step most w (with_engine w (complete_begin item now w.engine))
  rolls_back :
      (item row : Item)
      → find_item item.id w.engine.queue ≡ some row
      → row.state ≡ State.complete
      → row.size ≡ item.size
      → item.state ≡ State.running
      → lookup item.id w.held ≡ some item.size
      → item.size ≤ℤ w.engine.quota.used_bytes
      → Step most w (with_engine w (complete_rollback item w.engine))
  trims : Step most w (with_engine w (complete_trim w.engine).1)
  cancels :
      (now : ℕ) (wanted : List Text)
      → Step most w (with_engine w (cancel_mark now wanted w.engine).engine)
  retries :
      (wanted : List Text) (rows : List Item) (p : RetryPass)
      → Step most w (with_engine w (retry_rows wanted rows (record p { engine = w.engine })).engine)
  clears : (wanted : List Text) → Step most w (with_engine w (clear_finished wanted w.engine).1)
  stages : (id : Text) (stage : Stage) → Step most w (with_engine w (set_stage id stage w.engine))
  downloads : (id : Text) (done : ℤ) → Step most w (with_engine w (note_download id done w.engine))
  sends :
      (id : Text) (delta : ℤ) → Step most w (with_engine w (charge_quota_delta id delta w.engine))
  unwinds :
      (id : Text) (size : ℤ)
      → lookup id w.held ≡ some size
      → ((row : Item) → find_item id w.engine.queue ≡ some row → is_running row.state ≡ false)
      → Step most w (record w {
        engine = unwatch_item id w.engine;
        held = delete id w.held;
        leaving = size ∷ w.leaving;
      })
  releases :
      (before after : List ℤ) (size : ℤ)
      → w.leaving ≡ before ++ size ∷ after
      → Step most w
          (record w { engine = release_reservation size w.engine; leaving = before ++ after })
  watches :
      (id : Text)
      → has_run w.engine id ≡ true
      → Step most w (with_engine w (watch_item id w.engine))
  aborts :
      (id job : Text) (answered : Bool)
      → Step most w (with_engine w (abort id job answered w.engine).1)
  persists :
      (revision : ℕ) (written : Bool)
      → Step most w (with_engine w (persisted revision written w.engine))
  unmarks : (id : Text) → Step most w (with_engine w (unmark_deleting id w.engine))
  finishes : Step most w (with_engine w (finish_active w.engine))
  settles :
      (id job : Text) (requeued : ℕ) (clean answered : Bool)
      → Step most w (with_engine w (stale_done id job requeued clean (answered, w.engine)).engine)
  considers :
      (o : Outside) (stamp : Stamp) (job : Job) (entry : Entry) (target_dir : Text)
      → contains (ids w.engine.queue) stamp.id ≡ false
      → pos 0 ≤ℤ entry.size
      → entry.size ≤ℤ most
      → Step most w (with_engine w (consider_end o stamp job entry target_dir w.engine))
  applies :
      (settings : Settings)
      → settings.quota.daily_bytes ≡ w.engine.settings.quota.daily_bytes
      → Step most w (with_engine w (apply_settings settings w.engine))
  rolls : (day : Text) → Step most w (with_engine w (roll_quota day w.engine))

pub data Reach (most : ℤ) (w : World) : World → Type 0 where
  here : Reach most w w
  next : {u v : World} → Reach most w u → Step most u v → Reach most w v
