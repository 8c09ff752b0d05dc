-- ===== src/Sync/Budget/Calm.antt =====
-- The operations that start nothing and charge nothing.
use tdrive_aliyunpan.Base.{
  ℕ, ◌≡◌, refl, ◌∙◌, Bool, true, false, List, [], ◌∷◌, Option, none, some, ℤ, Text, if◌then◌else◌,
  Bool-cases, inl, inr, leb, length,
}
use tdrive_aliyunpan.Sync.Item.{Item, Stage}
use tdrive_aliyunpan.Sync.Engine.{
  Engine, modify, find_item, has_run, mark_queue_dirty, set_stage, note_row, note_download,
  charge_quota_delta,
}
use tdrive_aliyunpan.Sync.History.{trim_history, history, history_limit}
use tdrive_aliyunpan.Sync.Outcome.{
  is_stopped, requeued, requeue, failed_row, fail, complete_trim, mark_if_dropped,
}
use tdrive_aliyunpan.Sync.Budget.Rows.{
  Calmer, Calmer-refl, Calmer-trans, IsCalm, Calmer-modify, Calmer-keep_rows,
}

pub record CalmStep (e e' : Engine) : Type 0 where
  pub rows : Calmer e.queue e'.queue
  pub used : e'.quota ≡ e.quota
  pub reserved : e'.reserved ≡ e.reserved
  pub settings : e'.settings.quota.daily_bytes ≡ e.settings.quota.daily_bytes
  pub runs : (id : Text) → has_run e' id ≡ false → has_run e id ≡ false

pub CalmStep-refl : (e : Engine) → CalmStep e e
CalmStep-refl e = record {
  rows = Calmer-refl e.queue;
  used = refl;
  reserved = refl;
  settings = refl;
  runs = λ id h. h;
}

pub CalmStep-trans : {a b c : Engine} → CalmStep a b → CalmStep b c → CalmStep a c
CalmStep-trans s t = record {
  rows = Calmer-trans s.rows t.rows;
  used = t.used ∙ s.used;
  reserved = t.reserved ∙ s.reserved;
  settings = t.settings ∙ s.settings;
  runs = λ id h. s.runs id (t.runs id h);
}

-- A step that writes only rows, and marks the queue dirty.
pub CalmStep-rows :
    (e : Engine) (q : List Item)
    → Calmer e.queue q
    → CalmStep e (mark_queue_dirty (record e { queue = q }))
unfolding mark_queue_dirty has_run
CalmStep-rows e q c = record {
  rows = c;
  used = refl;
  reserved = refl;
  settings = refl;
  runs = λ id h. h;
}

requeued-IsCalm : (reason : Text) (t : ℕ) (charge : Bool) → IsCalm (requeued reason t charge)
unfolding requeued
requeued-IsCalm reason t charge = record { id = λ i. refl; size = λ i. refl; calm = λ i h. cc }

pub requeue-CalmStep :
    (id reason : Text) (t : ℕ) (charge : Bool) (e : Engine)
    → CalmStep e (requeue id reason t charge e)
unfolding requeue
requeue-CalmStep id reason t charge e = elim (Bool-cases (is_stopped e id)) [
  | inl s ↦ rw s (CalmStep-refl e)
  | inr s ↦ rw s (CalmStep-rows e _ (Calmer-modify id _ e.queue (requeued-IsCalm reason t charge)))
]

pub trim_history-CalmStep : (e : Engine) → CalmStep e (trim_history e).1
unfolding trim_history has_run
trim_history-CalmStep e = elim (Bool-cases (leb (length (history e e.queue)) history_limit)) [
  | inl s ↦ rw s (CalmStep-refl e)
  | inr s ↦ rw s (record {
    rows = Calmer-keep_rows _ e.queue;
    used = refl;
    reserved = refl;
    settings = refl;
    runs = λ id h. h;
  })
]

pub complete_trim-CalmStep : (e : Engine) → CalmStep e (complete_trim e).1
unfolding complete_trim
complete_trim-CalmStep e = marked (trim_history e) (trim_history-CalmStep e)
  where
    marked : (t : List Item × Engine) → CalmStep e t.1 → CalmStep e (mark_if_dropped t).1
    marked ([], e') c = c
    marked (i ∷ is, e') c =
        CalmStep-trans c (unfold mark_queue_dirty in CalmStep-rows e' _ (Calmer-refl e'.queue))

-- Writes to one field of a row that leave it as it is for the quota.
pub set_stage-CalmStep :
    (id : Text) (stage : Stage) (e : Engine) → CalmStep e (set_stage id stage e)
unfolding set_stage
set_stage-CalmStep id stage e =
    CalmStep-rows e _
      (Calmer-modify id _ e.queue (record { id = λ i. refl; size = λ i. refl; calm = λ i h. h }))

pub charge_quota_delta-CalmStep :
    (id : Text) (delta : ℤ) (e : Engine) → CalmStep e (charge_quota_delta id delta e)
unfolding charge_quota_delta
charge_quota_delta-CalmStep id delta e =
    CalmStep-rows e _
      (Calmer-modify id _ e.queue (record { id = λ i. refl; size = λ i. refl; calm = λ i h. h }))

pub note_download-CalmStep :
    (id : Text) (done : ℤ) (e : Engine) → CalmStep e (note_download id done e)
unfolding note_download
note_download-CalmStep id done e = noted (find_item id e.queue)
  where
    written :
        (b : Bool) (now : ℤ)
        → CalmStep e (
            if b
            then e
            else mark_queue_dirty
                (record e { queue = modify id (λ r. record r { downloaded = now }) e.queue }))
    written true now = CalmStep-refl e
    written false now =
        CalmStep-rows e _ (
          Calmer-modify id _ e.queue (record { id = λ i. refl; size = λ i. refl; calm = λ i h. h }))

    noted : (o : Option Item) → CalmStep e (note_row id done o e)
    noted none = CalmStep-refl e
    noted (some i) = written _ _

failed_row-IsCalm : (now : ℕ) (reason : Text) → IsCalm (failed_row now reason)
unfolding failed_row
failed_row-IsCalm now reason = record { id = λ i. refl; size = λ i. refl; calm = λ i h. cc }

pub fail-CalmStep : (id reason : Text) (now : ℕ) (e : Engine) → CalmStep e (fail id now reason e).1
unfolding fail
fail-CalmStep id reason now e = elim (Bool-cases (is_stopped e id)) [
  | inl s ↦ rw s (CalmStep-refl e)
  | inr s ↦ rw s (
      CalmStep-trans (CalmStep-rows e _ (Calmer-modify id _ e.queue (failed_row-IsCalm now reason)))
        (trim_history-CalmStep _))
]
