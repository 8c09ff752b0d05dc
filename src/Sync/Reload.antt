-- ===== src/Sync/Reload.antt =====
-- What the scheduler does besides claims (internal/sync/engine.go): `applySettings` with `changedJobIDs`,
-- `retryPendingCleanups`, `Pause`, `Resume`, the number of workers of `dispatch` and the decisions of
-- `tick`. Whether an original could be removed is an argument; the clock is one too.
pub mod Laws
use tdrive_aliyunpan.Base.{
  ℕ, ◌*◌, Bool, true, false, not, ◌&&◌, ◌||◌, List, [], ◌∷◌, ◌++◌, Option, none, some, ℤ, pos,
  pos_part, ltb_ℤ, leb_ℤ, Text, text_eq, contains, if◌then◌else◌, length, ◌==◌,
}
use tdrive_aliyunpan.Settings.{Settings, Job, default_download_concurrency}
use tdrive_aliyunpan.Sync.Item.{Item, is_running, is_complete}
use tdrive_aliyunpan.Sync.Engine.{
  Engine, is_deleting, mark_deleting, unmark_deleting, mark_queue_dirty, modify,
}
use tdrive_aliyunpan.Sync.Scan.{job_eq}

-- The last job of a list with an ID, as the loop that fills the map leaves it.
unfoldable pub last_job : Text → List Job → Option Job
last_job id [] = none
last_job id (j ∷ jobs) =
    let rest = last_job id jobs in
    elim rest [ some k ↦ some k | none ↦ if text_eq j.id id then some j else none ]

abbrev differs : Option Job → Job → Bool
differs none job = true
differs (some old) job = not (job_eq old job)

unfoldable pub job_ids : List Job → List Text
job_ids [] = []
job_ids (j ∷ jobs) = j.id ∷ job_ids jobs

-- The loop over the new jobs; a job that has been seen is no longer among the old ones.
unfoldable pub changed_jobs : List Text → List Job → List Job → List Text
changed_jobs seen old [] = []
changed_jobs seen old (j ∷ jobs) =
    let rest = changed_jobs (j.id ∷ seen) old jobs in
    if contains seen j.id || differs (last_job j.id old) j then j.id ∷ rest else rest

unfoldable pub dropped_jobs : List Job → List Job → List Text
dropped_jobs [] jobs = []
dropped_jobs (j ∷ old) jobs =
    let rest = dropped_jobs old jobs in if contains (job_ids jobs) j.id then rest else j.id ∷ rest

-- `changedJobIDs`
unfoldable pub changed_job_ids : List Job → List Job → List Text
changed_job_ids old jobs = changed_jobs [] old jobs ++ dropped_jobs old jobs

-- The rows that stay when these jobs have changed.
abbrev pub is_stale : List Text → Item → Bool
is_stale changed i = contains changed i.job_id && not (is_running i.state || is_complete i.state)

unfoldable pub drop_stale : List Text → List Item → List Item
drop_stale changed [] = []
drop_stale changed (i ∷ is) =
    let rest = drop_stale changed is in if is_stale changed i then rest else i ∷ rest

abbrev pub requeue_rows : List Item → Engine → Engine
requeue_rows rows e =
    if length rows == length e.queue then e else mark_queue_dirty (record e { queue = rows })

abbrev jobs_eq : List Job → List Job → Bool
jobs_eq [] [] = true
jobs_eq [] (k ∷ jobs) = false
jobs_eq (j ∷ old) [] = false
jobs_eq (j ∷ old) (k ∷ jobs) = job_eq j k && jobs_eq old jobs

-- Nothing is stale when the lists of jobs are equal.
unfoldable pub stale_jobs : List Job → List Job → List Text
stale_jobs old jobs = if jobs_eq old jobs then [] else changed_job_ids old jobs

-- `applySettings`
unfoldable pub apply_settings : Settings → Engine → Engine
apply_settings next e =
    requeue_rows (drop_stale (stale_jobs e.settings.jobs next.jobs) e.queue)
      (record e { settings = next })

unfoldable pub pause : Engine → Engine
pause e = record e { paused = true }

unfoldable pub resume : Engine → Engine
resume e = record e { paused = false }

abbrev or_default : ℤ → ℤ
or_default workers = if ltb_ℤ workers (pos 1) then default_download_concurrency else workers

-- The number of workers of `dispatch`, for the host's upload limit.
unfoldable pub dispatch_workers : ℤ → Settings → ℤ
dispatch_workers upload s =
    let uploads = or_default upload in
    let downloads = or_default s.download_concurrency in
    if ltb_ℤ uploads downloads then downloads else uploads

-- What `tick` starts.
pub record Ticked : Type 0 where
  pub scans : Bool
  pub dispatches : Bool
  pub cleans : Bool

-- The decisions of `tick`, times in nanoseconds.
unfoldable pub tick : Bool → Bool → ℤ → Engine → Ticked
tick ready is_open since_scan e =
    if e.paused || not ready
    then record { scans = false; dispatches = false; cleans = false }
    else record {
      scans =
          is_open
          && (not e.scanning
              && leb_ℤ (pos (60_000_000_000 * pos_part e.settings.schedule.interval_minutes))
                  since_scan);
      dispatches = is_open;
      cleans = true;
    }

-- The rows that `retryPendingCleanups` takes, and the engine with their marks.
abbrev pub is_pending_cleanup : Engine → Item → Bool
is_pending_cleanup e i = is_complete i.state && (i.delete_after && not (is_deleting e i.id))

unfoldable pub mark_cleanups : List Item → Engine → List Text × Engine
mark_cleanups [] e = ([], e)
mark_cleanups (i ∷ is) e =
    let (rest, later) =
      mark_cleanups is (if is_pending_cleanup e i then mark_deleting i.id e else e) in
    (if is_pending_cleanup e i then i.id ∷ rest else rest, later)

unfoldable pub clean_rows : (Text → Bool) → List Text → Engine → Engine
clean_rows removed [] e = e
clean_rows removed (id ∷ ids) e = clean_rows removed ids (
    if removed id
    then mark_queue_dirty
        (record e { queue = modify id (λ i. record i { delete_after = false }) e.queue })
    else e)

unfoldable pub unmark_all : List Text → Engine → Engine
unmark_all [] e = e
unmark_all (id ∷ ids) e = unmark_all ids (unmark_deleting id e)

-- `retryPendingCleanups`, with no other step between its locked parts.
unfoldable pub retry_pending_cleanups : (Text → Bool) → Engine → Engine
retry_pending_cleanups removed e =
    let (pending, marked) = mark_cleanups e.queue e in
    unmark_all pending (clean_rows removed pending marked)
