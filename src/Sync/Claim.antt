-- ===== src/Sync/Claim.antt =====
-- `takeNextWithRun`, `quotaAllowsLocked` and `rollQuota` of internal/sync/engine.go.
pub mod Laws
use tdrive_aliyunpan.Base.{
  ℕ, suc, Bool, true, false, not, ◌&&◌, ◌||◌, List, [], ◌∷◌, Option, none, some, ℤ, pos, ◌+ℤ◌,
  ltb_ℤ, leb_ℤ, eqb_ℤ, Text, text_eq, ltb, leb, if◌then◌else◌,
}
use tdrive_aliyunpan.Settings.{Job, job_by_id}
use tdrive_aliyunpan.Sync.Item.{Item, State, Stage, is_pending}
use tdrive_aliyunpan.Sync.Engine.{
  Engine, has_run, is_deleting, register_run, mark_queue_dirty, mark_quota_dirty,
}

-- `quotaAllowsLocked`
unfoldable pub quota_allows : Engine → ℤ → Bool
quota_allows e size =
    let limit = e.settings.quota.daily_bytes in
    if leb_ℤ limit (pos 0)
    then true
    else if leb_ℤ (e.quota.used_bytes +ℤ e.reserved +ℤ size) limit
    then true
    else ltb_ℤ limit size && (eqb_ℤ e.quota.used_bytes (pos 0) && eqb_ℤ e.reserved (pos 0))

abbrev pub job_enabled : Option Job → Bool
job_enabled none = false
job_enabled (some job) = job.enabled

-- The tests that make the loop skip an item.
unfoldable pub is_eligible : Engine → ℕ → Item → Bool
is_eligible e now i =
    is_pending i.state
    && (not (ltb now i.next_attempt_at)
        && (not (has_run e i.id || is_deleting e i.id)
            && job_enabled (job_by_id i.job_id e.settings.jobs)))

-- What a claim writes to the item.
unfoldable pub claim : ℕ → Item → Item
claim now i = record i {
  state = State.running;
  stage = Stage.idle;
  started_at = now;
  error = [];
  attempts = suc i.attempts;
  next_attempt_at = 0;
}

abbrev keep_before : Item → Option (Item × List Item) → Option (Item × List Item)
keep_before i none = none
keep_before i (some (c, is)) = some (c, i ∷ is)

-- The loop: the claimed item and the queue with it, if there is one.
unfoldable pub pick : Engine → ℕ → List Item → Option (Item × List Item)
pick e now [] = none
pick e now (i ∷ is) =
    let later = keep_before i (pick e now is) in
    if not (is_eligible e now i)
    then later
    else if not (quota_allows e i.size)
    then none
    else some (claim now i, claim now i ∷ is)

-- The run is registered for the scheduler's calls, `dispatching`.
abbrev claimed : Bool → Engine → Option (Item × List Item) → Option Item × Engine
claimed dispatching e none = (none, e)
claimed dispatching e (some (c, queue)) =
    let taken = record e {
      queue = queue;
      active = suc e.active;
      reserved = e.reserved +ℤ c.size;
    } in
    (some c, mark_queue_dirty (if dispatching then register_run c.id taken else taken))

unfoldable pub take_next_with_run : Bool → ℕ → ℕ → Engine → Option Item × Engine
take_next_with_run dispatching now workers e =
    if e.paused || leb workers e.active
    then (none, e)
    else claimed dispatching e (pick e now e.queue)

-- The locked part of `rollQuota`, at the name of the current period.
unfoldable pub roll_quota : Text → Engine → Engine
roll_quota day e =
    if text_eq e.quota.day day
    then e
    else mark_quota_dirty (record e { quota = record { day = day; used_bytes = pos 0 } })
