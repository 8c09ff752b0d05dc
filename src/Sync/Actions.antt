-- ===== src/Sync/Actions.antt =====
-- The operator's actions on queue rows (internal/sync/engine.go): `Retry`, `Cancel` and
-- `ClearFinished`. The host's answer to each `AbortUpload` is an argument.
pub mod Stop
use tdrive_aliyunpan.Base.{
  ℕ, suc, Bool, true, false, not, ◌&&◌, ◌||◌, List, [], ◌∷◌, ◌++◌, Option, none, some, pos, Text,
  text_eq, is_empty, contains, ltb, ◌==◌, if◌then◌else◌,
}
use tdrive_aliyunpan.Base.Dict.{lookup, insert}
use tdrive_aliyunpan.Sync.Item.{Item, State, Stage, is_running, is_complete, is_finished}
use tdrive_aliyunpan.Sync.Engine.{
  Engine, Run, has_run, is_deleting, mark_deleting, unmark_deleting, mark_queue_dirty, modify,
  find_item, remove_text, persisted,
}

-- `abort`: the job is claimed by clearing its ID from the row; who finds another ID there does not call
-- the host. `answered` is the host's answer, true for success. (transfer.go)
abbrev pub abort_row : Text → Text → Bool → Option Item → Engine → Bool × Engine
abort_row id job answered none e = (answered, e)
abort_row id job answered (some i) e =
    if is_empty job || not (text_eq i.upload_job_id job)
    then (true, e)
    else (answered, record e { queue = modify id (λ r. record r { upload_job_id = [] }) e.queue })

unfoldable pub abort : Text → Text → Bool → Engine → Bool × Engine
abort id job answered e = abort_row id job answered (find_item id e.queue) e

unfoldable pub reset_row : Item → Item
reset_row i = record i {
  state = State.pending;
  stage = Stage.idle;
  error = [];
  downloaded = pos 0;
  uploaded = pos 0;
  upload_job_id = [];
  finished_at = 0;
  attempts = 0;
  next_attempt_at = 0;
}

-- `resetForRetryLocked`
unfoldable pub reset_for_retry : Text → Engine → Engine
unfolding reset_row
reset_for_retry id e = record e {
  cancelling = remove_text id e.cancelling;
  queue = modify id reset_row e.queue;
}

pub record RetryPass : Type 0 where
  pub engine : Engine
  pub matched : ℕ
  pub requeued : ℕ
  pub stale : List (Text × Text)

-- What the first loop of `Retry` does with a row that was asked for.
unfoldable pub retry_row : Item → RetryPass → RetryPass
retry_row i p =
    let e = p.engine in
    let seen = record p { matched = suc p.matched } in
    if is_running i.state || (is_complete i.state || (has_run e i.id || is_deleting e i.id))
    then seen
    else if not (is_empty i.upload_job_id)
    then record seen {
      engine = mark_deleting i.id e;
      stale = p.stale ++ (i.id, i.upload_job_id) ∷ [];
    }
    else record seen { engine = reset_for_retry i.id e; requeued = suc p.requeued }

unfoldable pub retry_rows : List Text → List Item → RetryPass → RetryPass
retry_rows wanted [] p = p
retry_rows wanted (i ∷ is) p =
    retry_rows wanted is (if contains wanted i.id then retry_row i p else p)

abbrev pub restore_job : Text → Text → Option Item → Engine → Engine
restore_job id job none e = e
restore_job id job (some i) e =
    if is_empty i.upload_job_id
    then mark_queue_dirty
        (record e { queue = modify id (λ r. record r { upload_job_id = job }) e.queue })
    else e

pub record CleanPass : Type 0 where
  pub engine : Engine
  pub requeued : ℕ
  pub clean : Bool

-- One stale upload: aborted and reset, or left with its job's ID for a later attempt.
abbrev pub stale_done : Text → Text → ℕ → Bool → Bool × Engine → CleanPass
stale_done id job requeued clean (false, e) = record {
  engine = unmark_deleting id (restore_job id job (find_item id e.queue) e);
  requeued = requeued;
  clean = false;
}
stale_done id job requeued clean (true, e) =
    if has_run e id
    then record { engine = unmark_deleting id e; requeued = requeued; clean = clean }
    else record {
      engine = unmark_deleting id (mark_queue_dirty (reset_for_retry id e));
      requeued = suc requeued;
      clean = clean;
    }

pub retry_stale : (Text → Bool) → List (Text × Text) → CleanPass → CleanPass
retry_stale answers [] p = p
retry_stale answers ((id, job) ∷ stale) p =
    retry_stale answers stale
      (stale_done id job p.requeued p.clean (abort id job (answers job) p.engine))

pub data ActionResult : Type 0 where
  done no_ids none_matched cleanup_failed nothing_to_do : ActionResult

abbrev retry_result : ℕ → CleanPass → ActionResult
retry_result matched p =
    if matched == 0
    then none_matched
    else if not p.clean
    then cleanup_failed
    else if p.requeued == 0
    then nothing_to_do
    else done

abbrev pub marked_if : ℕ → Engine → Engine
marked_if n e = if ltb 0 n then mark_queue_dirty e else e

pub retry_clean : (Text → Bool) → RetryPass → CleanPass
retry_clean answers p =
    retry_stale answers p.stale
      (record { engine = marked_if p.requeued p.engine; requeued = p.requeued; clean = true })

-- `Retry`, with no other step between its locked parts; `written` is the answer to the last write.
pub retry : (Text → Bool) → Bool → List Text → Engine → ActionResult × Engine
retry answers written [] e = (no_ids, e)
retry answers written (id ∷ ids) e =
    let pass =
      retry_rows (id ∷ ids) e.queue
        (record { engine = e; matched = 0; requeued = 0; stale = [] }) in
    let clean = retry_clean answers pass in
    let settled = clean.engine in
    (
      retry_result pass.matched clean,
      if pass.matched == 0 || (clean.requeued == 0 && clean.clean)
          then settled
          else persisted settled.queue_revision written settled,
    )

unfoldable pub cancelled_row : ℕ → Item → Item
cancelled_row now i = record i {
  state = State.cancelled;
  stage = Stage.idle;
  error = [];
  next_attempt_at = 0;
  finished_at = now;
}

abbrev pub request_cancel : Option Run → Text → Engine → Engine
request_cancel none id e = record e { cancelling = remove_text id e.cancelling }
request_cancel (some r) id e = record e {
  runs = insert id (record r { cancel_requested = true }) e.runs;
  cancelling = id ∷ remove_text id e.cancelling;
}

pub record CancelPass : Type 0 where
  pub engine : Engine
  pub matched : ℕ
  pub cancelled : ℕ
  pub interrupted : List Text
  pub resting : List (Text × Text)

-- What the loop of `Cancel` does with a row that was asked for.
unfoldable pub cancel_row : ℕ → Item → CancelPass → CancelPass
cancel_row now i p =
    let e = p.engine in
    let seen = record p { matched = suc p.matched } in
    let stopped = mark_deleting i.id (request_cancel (lookup i.id e.runs) i.id e) in
    if is_complete i.state || (not (has_run e i.id) && is_deleting e i.id)
    then seen
    else record seen {
      engine = record stopped { queue = modify i.id (cancelled_row now) stopped.queue };
      cancelled = suc p.cancelled;
      interrupted = if has_run e i.id then p.interrupted ++ i.id ∷ [] else p.interrupted;
      resting = if has_run e i.id then p.resting else p.resting ++ (i.id, i.upload_job_id) ∷ [];
    }

unfoldable pub cancel_rows : ℕ → List Text → List Item → CancelPass → CancelPass
cancel_rows now wanted [] p = p
cancel_rows now wanted (i ∷ is) p =
    cancel_rows now wanted is (if contains wanted i.id then cancel_row now i p else p)

-- The locked first part of `Cancel`.
unfoldable pub cancel_mark : ℕ → List Text → Engine → CancelPass
cancel_mark now wanted e =
    let pass =
      cancel_rows now wanted e.queue
        (record { engine = e; matched = 0; cancelled = 0; interrupted = []; resting = [] }) in
    record pass { engine = marked_if pass.cancelled pass.engine }

-- The rows that `ClearFinished` drops; no IDs means every row.
abbrev pub is_cleared : Engine → List Text → Item → Bool
is_cleared e ids i = not (
    not (is_finished i)
    || (has_run e i.id
        || (is_deleting e i.id || (not (is_empty_list ids) && not (contains ids i.id)))))
  where
    is_empty_list : List Text → Bool
    is_empty_list [] = true
    is_empty_list (t ∷ ts) = false

unfoldable pub split_cleared : Engine → List Text → List Item → List Item × List Item
split_cleared e ids [] = ([], [])
split_cleared e ids (i ∷ is) =
    let (kept, dropped) = split_cleared e ids is in
    if is_cleared e ids i then (kept, i ∷ dropped) else (i ∷ kept, dropped)

-- The locked part of `ClearFinished`: the rows whose staged files are discarded, and the engine.
unfoldable pub clear_finished : List Text → Engine → List Item × Engine
clear_finished ids e =
    let (kept, dropped) = split_cleared e ids e.queue in
    (dropped, mark_queue_dirty (record e { queue = kept }))
