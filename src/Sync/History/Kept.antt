-- ===== src/Sync/History/Kept.antt =====
-- What trimming the history never drops.
use tdrive_aliyunpan.Base.{
  ℕ, zero, suc, ◌-◌, ◌≡◌, refl, ap, ◌∙◌, subst, true, false, ◌||◌, List, [], ◌∷◌, some, Text,
  text_eq, text_eq_iff, leb, contains, length, take, IsDistinct, Bool-cases, inl, inr, arith,
}
use tdrive_aliyunpan.Sync.Item.{Item, State}
use tdrive_aliyunpan.Sync.Engine.{Engine, find_item, has_run, is_deleting}
use tdrive_aliyunpan.Sync.History.{
  is_history, history, insert_by_finish, sort_by_finish, ids, keep_rows, oldest, history_limit,
  trim_history,
}

module _ (t : Text) where
  history-absent :
      (e : Engine) (q : List Item)
      → contains (ids q) t ≡ false
      → contains (ids (history e q)) t ≡ false
  unfolding history
  history-absent e [] h = h
  history-absent e (i ∷ q) h = ground (arith, history-absent e q)

  insert-contains :
      (i : Item) (q : List Item)
      → contains (ids (insert_by_finish i q)) t ≡ (text_eq i.id t || contains (ids q) t)
  unfolding insert_by_finish
  insert-contains i [] = refl
  insert-contains i (j ∷ q) = ground (arith, insert-contains i q)

  sort-contains : (q : List Item) → contains (ids (sort_by_finish q)) t ≡ contains (ids q) t
  unfolding sort_by_finish
  sort-contains [] = refl
  sort-contains (i ∷ q) =
      insert-contains i (sort_by_finish q) ∙ ap (λ b. text_eq i.id t || b) (sort-contains q)

  take-absent :
      (n : ℕ) (q : List Item) → contains (ids q) t ≡ false → contains (ids (take n q)) t ≡ false
  take-absent zero q h = refl
  take-absent (suc n) [] h = refl
  take-absent (suc n) (i ∷ q) h = ground (arith, take-absent n q)

  oldest-absent : (q : List Item) → contains (ids q) t ≡ false → contains (ids (oldest q)) t ≡ false
  oldest-absent q h =
      take-absent (length q - history_limit) (sort_by_finish q) (sort-contains q ∙ h)

  keep_rows-found :
      (dropped : List Text) (q : List Item)
      → contains dropped t ≡ false
      → find_item t (keep_rows dropped q) ≡ find_item t q
  unfolding find_item keep_rows
  keep_rows-found dropped [] h = refl
  keep_rows-found dropped (i ∷ q) h = ground (arith, keep_rows-found dropped q, text_eq_iff i.id t)

  -- The row of an ID stands in the history if any of that ID does.
  history-without :
      (e : Engine) (item : Item) (q : List Item)
      → IsDistinct (ids q)
      → find_item t q ≡ some item
      → is_history e item ≡ false
      → contains (ids (history e q)) t ≡ false
  unfolding find_item history
  history-without e item [] d f h = refl
  history-without e item (i ∷ q) d f h = elim (Bool-cases (text_eq i.id t)) [
    | inl a ↦ rw (plain a) (
        history-absent e q (subst (λ s. contains (ids q) s ≡ false) ((text_eq_iff i.id t).0 a) d.0))
    | inr a ↦ ground (arith, history-without e item q d.1)
  ]
    where
      head : text_eq i.id t ≡ true → i ≡ item
      head a = ground arith

      plain : text_eq i.id t ≡ true → is_history e i ≡ false
      plain a = rw (head a) h

-- A row that is waiting or running, still has its cloud original to delete, has a run, or is being cleaned up.
pub data IsNeeded (e : Engine) (i : Item) : Type 0 where
  waiting : i.state ≡ State.pending → IsNeeded e i
  running : i.state ≡ State.running → IsNeeded e i
  original : i.delete_after ≡ true → IsNeeded e i
  worked_on : has_run e i.id ≡ true → IsNeeded e i
  cleaned_up : is_deleting e i.id ≡ true → IsNeeded e i

not_history : (e : Engine) (i : Item) → IsNeeded e i → is_history e i ≡ false
unfolding is_history
not_history e i (IsNeeded.waiting h) = rw h refl
not_history e i (IsNeeded.running h) = rw h refl
not_history e i (IsNeeded.original h) = ground (arith, h)
not_history e i (IsNeeded.worked_on h) = ground (arith, h)
not_history e i (IsNeeded.cleaned_up h) = ground (arith, h)

-- Trimming the history keeps every row that is waiting or running, that still has its cloud original to
-- delete, that has a run, or that is being cleaned up. No ID stands twice in the queue.
pub trim_history-keeps :
    (e : Engine) (item : Item)
    → IsDistinct (ids e.queue)
    → find_item item.id e.queue ≡ some item
    → IsNeeded e item
    → find_item item.id (trim_history e).1.queue ≡ some item
unfolding trim_history
trim_history-keeps e item d f h =
    elim (Bool-cases (leb (length (history e e.queue)) history_limit)) [
      | inl s ↦ simp s f
      | inr s ↦ simp s (
          keep_rows-found item.id (ids (oldest (history e e.queue))) e.queue (
            oldest-absent item.id (history e e.queue)
              (history-without item.id e item e.queue d f (not_history e item h)))
          ∙ f)
    ]
