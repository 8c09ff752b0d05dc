-- ===== src/Sync/Budget/Ends.antt =====
-- A completion and its rollback keep the budget.
use tdrive_aliyunpan.Base.{
  ℕ, ◌≡◌, refl, ap, ◌∙◌, subst, Bool, true, false, List, [], ◌∷◌, some, arith, ℤ, pos, pos_part,
  neg_part, ◌+ℤ◌, ◌-ℤ◌, ◌≤ℤ◌, int_laws, Text, text_eq, text_eq_iff, All, if◌then◌else◌,
}
use tdrive_aliyunpan.Base.Dict.{lookup}
use tdrive_aliyunpan.Sync.Item.{Item, State, is_running}
use tdrive_aliyunpan.Sync.Engine.{
  has_run, find_item, modify, mark_queue_dirty, mark_quota_dirty, mark_deleting,
}
use tdrive_aliyunpan.Sync.Outcome.{complete_begin, complete_rollback, completed_row}
use tdrive_aliyunpan.Sync.Budget.{World, share, running_bytes, exposure}
use tdrive_aliyunpan.Sync.Budget.Sums.{IsSize, Covered}
use tdrive_aliyunpan.Sync.Budget.Writes.{ids-modify, All-modify, running_bytes-modify}
use tdrive_aliyunpan.Sync.Budget.Invariant.{IsSound, budget_le}

All-found :
    (P : Item → Type 0) (id : Text) (row : Item) (q : List Item)
    → find_item id q ≡ some row
    → All P q
    → P row
unfolding find_item
All-found P id row [] h a = cc
All-found P id row (i ∷ q) h a = found (text_eq i.id id) h (λ e. All-found P id row q e a.1)
  where
    found :
        (b : Bool)
        → (if b then some i else find_item id q) ≡ some row
        → (find_item id q ≡ some row → P row)
        → P row
    found true e rest = subst P (ground (arith, e)) a.0
    found false e rest = rest e

find_item-id : (id : Text) (row : Item) (q : List Item) → find_item id q ≡ some row → row.id ≡ id
unfolding find_item
find_item-id id row [] h = cc
find_item-id id row (i ∷ q) h = found (text_eq i.id id) refl h (find_item-id id row q)
  where
    found :
        (b : Bool)
        → text_eq i.id id ≡ b
        → (if b then some i else find_item id q) ≡ some row
        → (find_item id q ≡ some row → row.id ≡ id)
        → row.id ≡ id
    found true t e rest =
        (let same : row ≡ i = ground (arith, e) in
          ap (λ (r : Item). r.id) same ∙ (text_eq_iff i.id id).0 t)
    found false t e rest = rest e

share_running : (i : Item) → is_running i.state ≡ true → share i ≡ i.size
share_running i h = rw h refl

share_resting : (i : Item) → is_running i.state ≡ false → share i ≡ pos 0
share_resting i h = rw h refl

-- A write that stops the row and charges its size moves the size from the running bytes to the used.
module _ (most limit : ℤ) (w : World) (s : IsSound most limit w) where
  pub completes-IsSound :
      (item : Item) (now : ℕ)
      → find_item item.id w.engine.queue ≡ some item
      → is_running item.state ≡ true
      → IsSound most limit (record w { engine = complete_begin item now w.engine })
  unfolding complete_begin mark_quota_dirty mark_queue_dirty mark_deleting completed_row has_run
  completes-IsSound item now found runs = record {
    limited = s.limited;
    sizes = All-modify item.id _ item (IsSize most) w.engine.queue s.distinct found size s.sizes;
    distinct = rw (ids-modify item.id (completed_row now) w.engine.queue (λ i. refl)) s.distinct;
    covered =
        All-modify item.id _ item (Covered w.held) w.engine.queue s.distinct found (λ e. cc)
          s.covered;
    held_sizes = s.held_sizes;
    leaving_sizes = s.leaving_sizes;
    reserved = s.reserved;
    used = omega (int_laws, s.used, size.0);
    agree = s.agree;
    budget = budget_le (exposure w.engine) _ most limit less s.budget;
  }
    where
      size : IsSize most item
      size = All-found (IsSize most) item.id item w.engine.queue found s.sizes

      moved :
          running_bytes (modify item.id (completed_row now) w.engine.queue) +ℤ share item
          ≡ running_bytes w.engine.queue +ℤ pos 0
      moved = running_bytes-modify item.id (completed_row now) item w.engine.queue s.distinct found

      whole : share item ≡ item.size
      whole = share_running item runs

      less :
          w.engine.quota.used_bytes
            +ℤ item.size
            +ℤ running_bytes (modify item.id (completed_row now) w.engine.queue)
          ≤ℤ exposure w.engine
      less =
          omega
            (int_laws, ap pos_part moved, ap neg_part moved, ap pos_part whole, ap neg_part whole)

  pub rolls_back-IsSound :
      (item row : Item)
      → find_item item.id w.engine.queue ≡ some row
      → row.state ≡ State.complete
      → row.size ≡ item.size
      → item.state ≡ State.running
      → lookup item.id w.held ≡ some item.size
      → item.size ≤ℤ w.engine.quota.used_bytes
      → IsSound most limit (record w { engine = complete_rollback item w.engine })
  unfolding complete_rollback mark_quota_dirty mark_queue_dirty has_run
  rolls_back-IsSound item row found done same runs holds charged = record {
    limited = s.limited;
    sizes =
        All-modify item.id restore row (IsSize most) w.engine.queue s.distinct found size s.sizes;
    distinct = rw (ids-modify item.id restore w.engine.queue (λ i. refl)) s.distinct;
    covered =
        All-modify item.id restore row (Covered w.held) w.engine.queue s.distinct found
          (λ e. rw (find_item-id item.id row w.engine.queue found, same) holds) s.covered;
    held_sizes = s.held_sizes;
    leaving_sizes = s.leaving_sizes;
    reserved = s.reserved;
    used = omega (int_laws, charged);
    agree = s.agree;
    budget = budget_le (exposure w.engine) _ most limit less s.budget;
  }
    where
      restore : Item → Item
      restore i = record i {
        state = item.state;
        stage = item.stage;
        finished_at = item.finished_at;
        error = item.error;
      }

      size : IsSize most row
      size = All-found (IsSize most) item.id row w.engine.queue found s.sizes

      moved :
          running_bytes (modify item.id restore w.engine.queue) +ℤ share row
          ≡ running_bytes w.engine.queue +ℤ share (restore row)
      moved = running_bytes-modify item.id restore row w.engine.queue s.distinct found

      was : share row ≡ pos 0
      was = share_resting row (rw done refl)

      becomes : share (restore row) ≡ item.size
      becomes = share_running (restore row) (rw runs refl) ∙ same

      less :
          (w.engine.quota.used_bytes -ℤ item.size)
            +ℤ running_bytes (modify item.id restore w.engine.queue)
          ≤ℤ exposure w.engine
      less = omega (
        int_laws,
        ap pos_part moved,
        ap neg_part moved,
        ap pos_part was,
        ap neg_part was,
        ap pos_part becomes,
        ap neg_part becomes,
      )
