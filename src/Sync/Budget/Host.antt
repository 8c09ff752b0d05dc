-- ===== src/Sync/Budget/Host.antt =====
-- The start of a run, the host's aborts and the host's writes change nothing that the budget counts.
use tdrive_aliyunpan.Base.{
  ℕ, ◌≡◌, refl, Bool, true, false, not, ◌&&◌, ◌||◌, [], Option, none, some, Text, contains, text_eq,
  is_empty, Bool-cases, inl, inr, if◌then◌else◌, arith, ◌==◌,
}
use tdrive_aliyunpan.Base.Dict.{lookup, lookup-insert}
use tdrive_aliyunpan.Sync.Item.{Item}
use tdrive_aliyunpan.Sync.Engine.{Engine, Run, has_run, find_item, modify, persisted}
use tdrive_aliyunpan.Sync.Runs.{started_run, start_run, watch_item}
use tdrive_aliyunpan.Sync.Actions.{abort, abort_row}
use tdrive_aliyunpan.Sync.Budget.Rows.{Calmer-refl, Calmer-modify}
use tdrive_aliyunpan.Sync.Budget.Calm.{CalmStep, CalmStep-refl}

start_run-CalmStep : (id : Text) (r : Option Run) (e : Engine) → CalmStep e (start_run id r e)
unfolding has_run
start_run-CalmStep id none e = CalmStep-refl e
start_run-CalmStep id (some r) e = record {
  rows = Calmer-refl e.queue;
  used = refl;
  reserved = refl;
  settings = refl;
  runs = λ j h. ground (
    arith,
    lookup-insert id j (started_run (r.cancel_requested || contains e.cancelling id) r) e.runs,
  );
}

pub watch_item-CalmStep :
    (id : Text) (e : Engine) → has_run e id ≡ true → CalmStep e (watch_item id e)
unfolding watch_item
watch_item-CalmStep id e h = rw h (start_run-CalmStep id (lookup id e.runs) e)

pub abort-CalmStep :
    (id job : Text) (answered : Bool) (e : Engine) → CalmStep e (abort id job answered e).1
unfolding abort
abort-CalmStep id job answered e = aborted (find_item id e.queue)
  where
    cleared :
        CalmStep e (record e { queue = modify id (λ r. record r { upload_job_id = [] }) e.queue })
    cleared =
        unfold has_run in
        record {
          rows =
              Calmer-modify id _ e.queue
                (record { id = λ i. refl; size = λ i. refl; calm = λ i h. h });
          used = refl;
          reserved = refl;
          settings = refl;
          runs = λ j h. h;
        }

    aborted : (o : Option Item) → CalmStep e (abort_row id job answered o e).1
    aborted none = CalmStep-refl e
    aborted (some i) = elim (Bool-cases (is_empty job || not (text_eq i.upload_job_id job))) [
      | inl h ↦ rw h (CalmStep-refl e)
      | inr h ↦ rw h cleared
    ]

pub persisted-CalmStep :
    (revision : ℕ) (written : Bool) (e : Engine) → CalmStep e (persisted revision written e)
unfolding persisted
persisted-CalmStep revision written e = settled (written && (e.queue_revision == revision))
  where
    settled : (b : Bool) → CalmStep e (if b then record e { dirty = false } else e)
    settled true =
        unfold has_run in
        record {
          rows = Calmer-refl e.queue;
          used = refl;
          reserved = refl;
          settings = refl;
          runs = λ j h. h;
        }
    settled false = CalmStep-refl e
