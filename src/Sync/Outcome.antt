-- ===== src/Sync/Outcome.antt =====
-- How a transfer ends: `requeue`, `fail` and `complete` of internal/sync (transfer.go, engine.go),
-- each with the parts that hold the mutex, and the host's answers to its writes as arguments.
pub mod Laws
use tdrive_aliyunpan.Base.{
  ℕ, ◌-◌, ◌+◌, suc, Bool, true, false, not, ◌&&◌, ◌||◌, List, [], ◌∷◌, Option, none, some, ℤ, pos,
  ◌+ℤ◌, ◌-ℤ◌, Text, ltb, if◌then◌else◌,
}
use tdrive_aliyunpan.Sync.Item.{Item, State, Stage, is_cancelled}
use tdrive_aliyunpan.Sync.Engine.{
  Engine, QuotaState, modify, find_item, cancellation_requested, mark_deleting, unmark_deleting,
  mark_queue_dirty, mark_quota_dirty, persisted, quota_persisted,
}
use tdrive_aliyunpan.Sync.History.{trim_history}

abbrev pub row_cancelled : Option Item → Bool
row_cancelled none = false
row_cancelled (some i) = is_cancelled i.state

-- The first test of all three: the operator has cancelled the item.
unfoldable pub is_stopped : Engine → Text → Bool
is_stopped e id = cancellation_requested e id || row_cancelled (find_item id e.queue)

unfoldable pub requeued : Text → ℕ → Bool → Item → Item
requeued reason not_before charge i = record i {
  state = State.pending;
  stage = Stage.idle;
  uploaded = pos 0;
  upload_job_id = [];
  error = reason;
  finished_at = 0;
  next_attempt_at = not_before;
  attempts = if not charge && ltb 0 i.attempts then i.attempts - 1 else i.attempts;
}

unfoldable pub requeue : Text → Text → ℕ → Bool → Engine → Engine
requeue id reason not_before charge e =
    if is_stopped e id
    then e
    else mark_queue_dirty
        (record e { queue = modify id (requeued reason not_before charge) e.queue })

unfoldable pub failed_row : ℕ → Text → Item → Item
failed_row now reason i = record i {
  state = State.failed;
  stage = Stage.idle;
  finished_at = now;
  error = reason;
  next_attempt_at = 0;
}

-- The rows whose staged files are discarded, and the engine.
unfoldable pub fail : Text → ℕ → Text → Engine → List Item × Engine
fail id now reason e =
    if is_stopped e id
    then ([], e)
    else trim_history
        (mark_queue_dirty (record e { queue = modify id (failed_row now reason) e.queue }))

unfoldable pub completed_row : ℕ → Item → Item
completed_row now i = record i {
  state = State.complete;
  stage = Stage.idle;
  finished_at = now;
  error = [];
}

abbrev charge_used : ℤ → QuotaState → QuotaState
charge_used size q = record q { used_bytes = q.used_bytes +ℤ size }

abbrev refund_used : ℤ → QuotaState → QuotaState
refund_used size q = record q { used_bytes = q.used_bytes -ℤ size }

-- The first locked part of `complete`: the row is complete and its size is charged.
unfoldable pub complete_begin : Item → ℕ → Engine → Engine
complete_begin item now e = mark_quota_dirty (
    mark_queue_dirty (record (mark_deleting item.id e) {
      queue = modify item.id (completed_row now) e.queue;
      quota = charge_used item.size e.quota;
    }))

-- The queue could not be written: the row and the counter go back to what they were.
unfoldable pub complete_rollback : Item → Engine → Engine
complete_rollback item e = mark_quota_dirty (
    mark_queue_dirty (record e {
      queue =
          modify item.id
            (λ i. record i {
              state = item.state;
              stage = item.stage;
              finished_at = item.finished_at;
              error = item.error;
            })
            e.queue;
      quota = refund_used item.size e.quota;
    }))

-- The queue was written: the history is trimmed.
abbrev pub mark_if_dropped : List Item × Engine → List Item × Engine
mark_if_dropped ([], e) = ([], e)
mark_if_dropped (i ∷ is, e) = (i ∷ is, mark_queue_dirty e)

unfoldable pub complete_trim : Engine → List Item × Engine
complete_trim e = mark_if_dropped (trim_history e)

-- The writes that the host is asked for, and whether each succeeded.
pub record Writes : Type 0 where
  pub queue_written : Bool
  pub quota_written : Bool
  pub trimmed_written : Bool

pub record Completed : Type 0 where
  pub done : Bool
  pub discarded : List Item
  pub engine : Engine

-- The staged files of dropped rows are discarded only once the queue without them is written.
abbrev pub complete_end : Writes → Text → List Item × Engine → Completed
complete_end w id ([], e) = record { done = true; discarded = []; engine = unmark_deleting id e }
complete_end w id (i ∷ is, e) = record {
  done = true;
  discarded = if w.trimmed_written then i ∷ is else [];
  engine = unmark_deleting id (persisted e.queue_revision w.trimmed_written e);
}

-- `complete`, with no other step between its locked parts. `item` is the row as it is now.
unfoldable pub complete : Writes → Item → ℕ → Engine → Completed
complete w item now e =
    let begun = complete_begin item now e in
    let written = persisted begun.queue_revision true begun in
    if is_stopped e item.id
    then record { done = false; discarded = []; engine = e }
    else if not w.queue_written
    then record {
      done = false;
      discarded = [];
      engine = unmark_deleting item.id (complete_rollback item begun);
    }
    else complete_end w item.id
        (complete_trim (quota_persisted written.quota_revision w.quota_written written))
