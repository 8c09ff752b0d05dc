-- ===== src/Sync/Outcome/Laws.antt =====
-- How a transfer's end is recorded.
use tdrive_aliyunpan.Base.{
  ℕ, ◌≡◌, refl, ap, ◌∙◌, Bool, true, false, ◌&&◌, List, [], ◌∷◌, some, pos, ◌+ℤ◌, ◌-ℤ◌, int_laws,
  Text, text_eq, IsDistinct, Bool-cases, inl, inr, ◌==◌,
}
use tdrive_aliyunpan.Sync.Item.{Item}
use tdrive_aliyunpan.Sync.Engine.{
  Engine, QuotaState, modify, find_item, mark_deleting, unmark_deleting, mark_queue_dirty,
  mark_quota_dirty, persisted, quota_persisted,
}
use tdrive_aliyunpan.Sync.Claim.{roll_quota}
use tdrive_aliyunpan.Sync.History.{ids}
use tdrive_aliyunpan.Sync.Outcome.{
  is_stopped, completed_row, complete_begin, complete_rollback, complete_trim, complete_end, Writes,
  complete,
}
use tdrive_aliyunpan.Sync.Budget.Writes.{head_row, tail_row, tail_absent}
use tdrive_aliyunpan.Sync.Budget.Calm.{complete_trim-CalmStep}

restored_row : Item → Item → Item
restored_row item i = record i {
  state = item.state;
  stage = item.stage;
  finished_at = item.finished_at;
  error = item.error;
}

restored_queue :
    (item : Item) (now : ℕ) (q : List Item)
    → IsDistinct (ids q)
    → find_item item.id q ≡ some item
    → modify item.id (restored_row item) (modify item.id (completed_row now) q) ≡ q
unfolding modify restored_row completed_row
restored_queue item now [] d h = refl
restored_queue item now (i ∷ q) d h = elim (Bool-cases (text_eq i.id item.id)) [
  | inl e ↦
      rw
        (
          e,
          tail_absent item.id (completed_row now) item i q e d.0,
          tail_absent item.id (restored_row item) item i q e d.0,
          e,
        )
        (ap (λ r. r ∷ q) (same i (head_row item.id (restored_row item) item i q e h)))
  | inr e ↦
      rw (e, e)
        (ap (◌∷◌ i)
          (restored_queue item now q d.1 (tail_row item.id (completed_row now) item i q e h)))
]
  where
    same : (r : Item) → r ≡ item → restored_row item (completed_row now r) ≡ r
    same r x = rw x refl

-- The end of a completion whose queue could not be written gives the queue and the quota back as they
-- were, and is not done. The item is the queue's row of its ID, and no ID stands twice in the queue.
pub complete-restores :
    (w : Writes) (item : Item) (now : ℕ) (e : Engine)
    → IsDistinct (ids e.queue)
    → find_item item.id e.queue ≡ some item
    → is_stopped e item.id ≡ false
    → w.queue_written ≡ false
    → ((complete w item now e).done ≡ false)
      × ((complete w item now e).engine.queue ≡ e.queue)
      × ((complete w item now e).engine.quota ≡ e.quota)
unfolding complete complete_begin complete_rollback mark_quota_dirty mark_queue_dirty mark_deleting
    unmark_deleting restored_row
complete-restores w item now e d found live unwritten =
    rw (live, unwritten)
      (
        refl,
        restored_queue item now e.queue d found,
        ap (λ n. record { day = e.quota.day; used_bytes = n }) back,
      )
  where
    back : e.quota.used_bytes +ℤ item.size -ℤ item.size ≡ e.quota.used_bytes
    back = omega int_laws

persisted-quota : (n : ℕ) (b : Bool) (e : Engine) → (persisted n b e).quota ≡ e.quota
unfolding persisted
persisted-quota n b e = elim (Bool-cases (b && (e.queue_revision == n))) [
  | inl h ↦ simp h refl
  | inr h ↦ simp h refl
]

quota_persisted-quota : (n : ℕ) (b : Bool) (e : Engine) → (quota_persisted n b e).quota ≡ e.quota
unfolding quota_persisted
quota_persisted-quota n b e = elim (Bool-cases (b && (e.quota_revision == n))) [
  | inl h ↦ simp h refl
  | inr h ↦ simp h refl
]

complete_end-quota :
    (w : Writes) (id : Text) (t : List Item × Engine)
    → ((complete_end w id t).done ≡ true) × ((complete_end w id t).engine.quota ≡ t.1.quota)
unfolding unmark_deleting
complete_end-quota w id ([], e) = (refl, refl)
complete_end-quota w id (i ∷ is, e) = (refl, persisted-quota e.queue_revision w.trimmed_written e)

-- When a period has begun between the charge and the rollback, the counter of the new period is
-- left below nothing: it is minus the item's size.
pub complete_rollback-roll_quota :
    (item : Item) (now : ℕ) (day : Text) (e : Engine)
    → text_eq e.quota.day day ≡ false
    → (complete_rollback item (roll_quota day (complete_begin item now e))).quota.used_bytes
      ≡ pos 0 -ℤ item.size
unfolding complete_rollback roll_quota complete_begin mark_quota_dirty mark_queue_dirty
    mark_deleting
complete_rollback-roll_quota item now day e h = rw h refl

-- A completion that the operator has not cancelled and whose queue was written is done, and charges
-- the item's size to the period.
pub complete-charges :
    (w : Writes) (item : Item) (now : ℕ) (e : Engine)
    → is_stopped e item.id ≡ false
    → w.queue_written ≡ true
    → ((complete w item now e).done ≡ true)
      × ((complete w item now e).engine.quota.used_bytes ≡ e.quota.used_bytes +ℤ item.size)
unfolding complete
complete-charges w item now e live written =
    rw (live, written)
      (
        ended.0,
        ap (λ (q : QuotaState). q.used_bytes)
            (ended.1 ∙ (complete_trim-CalmStep kept).used ∙ settled),
      )
  where
    begun : Engine
    begun = complete_begin item now e

    first : Engine
    first = persisted begun.queue_revision true begun

    kept : Engine
    kept = quota_persisted first.quota_revision w.quota_written first

    ended :
        ((complete_end w item.id (complete_trim kept)).done ≡ true)
        × ((complete_end w item.id (complete_trim kept)).engine.quota
            ≡ (complete_trim kept).1.quota)
    ended = complete_end-quota w item.id (complete_trim kept)

    settled :
        kept.quota ≡ record { day = e.quota.day; used_bytes = e.quota.used_bytes +ℤ item.size }
    settled =
        quota_persisted-quota first.quota_revision w.quota_written first
        ∙ persisted-quota begun.queue_revision true begun
        ∙ (unfold complete_begin mark_quota_dirty mark_queue_dirty mark_deleting in refl)
