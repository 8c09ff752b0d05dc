-- ===== src/Sync/Budget/Others.antt =====
-- The steps that only count or plan: cleanups, the end of a transfer, a retry's stale uploads, a change of the
-- settings, and a file that a scan queues.
use tdrive_aliyunpan.Base.{
  ℕ, ◌≡◌, refl, ap, Bool, true, false, List, [], ◌∷◌, ◌++◌, Option, none, some, ℤ, pos, ◌+ℤ◌, ◌≤ℤ◌,
  int_laws, Text, is_empty, text_eq, contains, IsDistinct, All, arith, length, if_elim, ◌==◌, ◌||◌,
  text_eq_iff,
}
use tdrive_aliyunpan.Settings.{Settings, Job}
use tdrive_aliyunpan.Sync.Item.{Item, is_running}
use tdrive_aliyunpan.Sync.Engine.{
  Engine, has_run, find_item, mark_queue_dirty, unmark_deleting, finish_active,
}
use tdrive_aliyunpan.Sync.History.{ids}
use tdrive_aliyunpan.Sync.Actions.{CleanPass, restore_job, stale_done}
use tdrive_aliyunpan.Sync.Reload.{stale_jobs, is_stale, drop_stale, apply_settings}
use tdrive_aliyunpan.Sync.Scan.{
  Entry, Outside, Stamp, new_row, considered_row, inspect, queue_row, consider_end,
}
use tdrive_aliyunpan.Sync.Budget.{World, share, running_bytes}
use tdrive_aliyunpan.Sync.Budget.Rows.{Calmer, nil, keep, drop, Calmer-refl, Calmer-modify}
use tdrive_aliyunpan.Sync.Budget.Sums.{IsSize, Covered}
use tdrive_aliyunpan.Sync.Budget.Calm.{CalmStep, CalmStep-refl, CalmStep-trans, CalmStep-rows}
use tdrive_aliyunpan.Sync.Budget.Operator.{reset_for_retry-CalmStep}
use tdrive_aliyunpan.Sync.Budget.Invariant.{IsSound}

pub unmark_deleting-CalmStep : (id : Text) (e : Engine) → CalmStep e (unmark_deleting id e)
unfolding unmark_deleting has_run
unmark_deleting-CalmStep id e = record {
  rows = Calmer-refl e.queue;
  used = refl;
  reserved = refl;
  settings = refl;
  runs = λ i h. h;
}

pub finish_active-CalmStep : (e : Engine) → CalmStep e (finish_active e)
unfolding finish_active has_run
finish_active-CalmStep e = record {
  rows = Calmer-refl e.queue;
  used = refl;
  reserved = refl;
  settings = refl;
  runs = λ i h. h;
}

restore_job-CalmStep :
    (id job : Text) (o : Option Item) (e : Engine) → CalmStep e (restore_job id job o e)
restore_job-CalmStep id job none e = CalmStep-refl e
restore_job-CalmStep id job (some i) e =
    if_elim (CalmStep e) (is_empty i.upload_job_id)
      (λ _.
        CalmStep-rows e _ (
          Calmer-modify id _ e.queue
            (record { id = λ r. refl; size = λ r. refl; calm = λ r h. h })))
      (λ _. CalmStep-refl e)

dirty-CalmStep : (e : Engine) → CalmStep e (mark_queue_dirty e)
dirty-CalmStep e = CalmStep-rows e e.queue (Calmer-refl e.queue)

pub stale_done-CalmStep :
    (id job : Text) (n : ℕ) (clean answered : Bool) (e : Engine)
    → CalmStep e (stale_done id job n clean (answered, e)).engine
stale_done-CalmStep id job n clean false e =
    CalmStep-trans (restore_job-CalmStep id job (find_item id e.queue) e)
      (unmark_deleting-CalmStep id _)
stale_done-CalmStep id job n clean true e =
    if_elim (λ (p : CleanPass). CalmStep e p.engine) (has_run e id)
      (λ _. unmark_deleting-CalmStep id e)
      (λ _.
        CalmStep-trans (reset_for_retry-CalmStep id e)
          (CalmStep-trans (dirty-CalmStep _) (unmark_deleting-CalmStep id _)))

drop_stale-Calmer : (changed : List Text) (q : List Item) → Calmer q (drop_stale changed q)
unfolding drop_stale
drop_stale-Calmer changed [] = nil
drop_stale-Calmer changed (i ∷ q) =
    let rest = drop_stale-Calmer changed q in
    if_elim (Calmer (i ∷ q)) (is_stale changed i) (λ _. drop i rest)
      (λ _. keep i i refl refl (λ h. h) rest)

settings-CalmStep :
    (next : Settings) (e : Engine)
    → next.quota.daily_bytes ≡ e.settings.quota.daily_bytes
    → CalmStep e (record e { settings = next })
unfolding has_run
settings-CalmStep next e h = record {
  rows = Calmer-refl e.queue;
  used = refl;
  reserved = refl;
  settings = h;
  runs = λ i k. k;
}

pub apply_settings-CalmStep :
    (next : Settings) (e : Engine)
    → next.quota.daily_bytes ≡ e.settings.quota.daily_bytes
    → CalmStep e (apply_settings next e)
unfolding apply_settings
apply_settings-CalmStep next e h =
    let changed : List Text = stale_jobs e.settings.jobs next.jobs in
    CalmStep-trans (settings-CalmStep next e h) (
      if_elim (CalmStep (record e { settings = next }))
        (length (drop_stale changed e.queue) == length e.queue)
        (λ _. CalmStep-refl (record e { settings = next }))
        (λ _. CalmStep-rows (record e { settings = next }) _ (drop_stale-Calmer changed e.queue)))

All-last : (P : Item → Type 0) (q : List Item) (i : Item) → All P q → P i → All P (q ++ i ∷ [])
All-last P [] i h p = (p, tt)
All-last P (x ∷ q) i h p = (h.0, All-last P q i h.1 p)

ids-last :
    (t : Text) (q : List Item) (i : Item)
    → contains (ids (q ++ i ∷ [])) t ≡ (contains (ids q) t || text_eq i.id t)
ids-last t [] i = ground arith
ids-last t (x ∷ q) i = ground (arith, ids-last t q i)

IsDistinct-last :
    (q : List Item) (i : Item)
    → IsDistinct (ids q)
    → contains (ids q) i.id ≡ false
    → IsDistinct (ids (q ++ i ∷ []))
IsDistinct-last [] i d h = (refl, tt)
IsDistinct-last (x ∷ q) i d h = (
  ground (arith, ids-last x.id q i, d.0, h, text_eq_iff i.id x.id, text_eq_iff x.id i.id),
  IsDistinct-last q i d.1 (ground (arith, h)),
)

running_bytes-last :
    (q : List Item) (i : Item)
    → is_running i.state ≡ false
    → running_bytes (q ++ i ∷ []) ≡ running_bytes q
running_bytes-last [] i h = rw h (omega int_laws)
running_bytes-last (x ∷ q) i h = ap (λ n. share x +ℤ n) (running_bytes-last q i h)

module _ (most limit : ℤ) (w : World) (s : IsSound most limit w) where
  queued-IsSound :
      (row : Item)
      → contains (ids w.engine.queue) row.id ≡ false
      → IsSize most row
      → is_running row.state ≡ false
      → IsSound most limit (record w {
        engine = mark_queue_dirty (record (w.engine) { queue = w.engine.queue ++ row ∷ [] });
      })
  unfolding mark_queue_dirty has_run
  queued-IsSound row fresh size rests = record {
    limited = s.limited;
    sizes = All-last (IsSize most) w.engine.queue row s.sizes size;
    distinct = IsDistinct-last w.engine.queue row s.distinct fresh;
    covered = All-last (Covered w.held) w.engine.queue row s.covered (λ e. cc);
    held_sizes = s.held_sizes;
    leaving_sizes = s.leaving_sizes;
    reserved = s.reserved;
    used = s.used;
    agree = s.agree;
    budget = rw (running_bytes-last w.engine.queue row rests) s.budget;
  }

  pub considers-IsSound :
      (o : Outside) (stamp : Stamp) (job : Job) (entry : Entry) (target_dir : Text)
      → contains (ids w.engine.queue) stamp.id ≡ false
      → pos 0 ≤ℤ entry.size
      → entry.size ≤ℤ most
      → IsSound most limit
          (record w { engine = consider_end o stamp job entry target_dir w.engine })
  unfolding consider_end new_row
  considers-IsSound o stamp job entry target_dir fresh least size =
      looked (inspect job entry target_dir w.engine)
    where
      row : Item
      row = considered_row o stamp job entry target_dir

      same : (row.id ≡ stamp.id) × (row.size ≡ entry.size) × (is_running row.state ≡ false)
      same = unfold considered_row in ground arith

      looked :
          (found : Option (List Text))
          → IsSound most limit (record w { engine = queue_row found row w.engine })
      looked none = s
      looked (some dirs) = queued-IsSound row (rw same.0 fresh) (rw same.1 (least, size)) same.2
