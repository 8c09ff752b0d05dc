-- ===== src/Sync/Actions/Stop.antt =====
-- A cancel reaches the transfers that are running.
use tdrive_aliyunpan.Base.{
  ℕ, ◌≡◌, refl, sym, ap, subst, Bool, true, false, not, ◌&&◌, ◌||◌, List, [], ◌∷◌, Option, none,
  some, Text, text_eq, text_eq_iff, contains, ltb, Bool-cases, inl, inr, if◌then◌else◌, arith,
}
use tdrive_aliyunpan.Base.Dict.{lookup}
use tdrive_aliyunpan.Sync.Item.{Item, is_complete}
use tdrive_aliyunpan.Sync.Engine.{
  Engine, Run, is_some, has_run, is_deleting, mark_deleting, mark_queue_dirty, modify, find_item,
  cancellation_requested,
}
use tdrive_aliyunpan.Sync.Outcome.{row_cancelled, is_stopped}
use tdrive_aliyunpan.Sync.Actions.{
  CancelPass, cancelled_row, request_cancel, cancel_row, cancel_rows, cancel_mark,
}
use tdrive_aliyunpan.Sync.Budget.Operator.{cancel_row-CalmStep}

-- The row of this ID is cancelled, and there is one.
abbrev is_cut : Text → List Item → Bool
is_cut id q = row_cancelled (find_item id q)

abbrev is_there : Text → List Item → Bool
is_there id q = is_some (find_item id q)

module _ (now : ℕ) (id : Text) where
  is_cut-modify :
      (j : Text) (q : List Item)
      → is_cut id q ≡ true
      → is_cut id (modify j (cancelled_row now) q) ≡ true
  unfolding find_item modify cancelled_row
  is_cut-modify j [] h = h
  is_cut-modify j (i ∷ q) h = ground (arith, is_cut-modify j q)

  is_there-modify :
      (j : Text) (q : List Item)
      → is_there id q ≡ true
      → is_there id (modify j (cancelled_row now) q) ≡ true
  unfolding find_item modify cancelled_row
  is_there-modify j [] h = h
  is_there-modify j (i ∷ q) h = ground (arith, is_there-modify j q)

  modify-is_cut :
      (q : List Item) → is_there id q ≡ true → is_cut id (modify id (cancelled_row now) q) ≡ true
  unfolding find_item modify cancelled_row
  modify-is_cut [] h = cc
  modify-is_cut (i ∷ q) h = ground (arith, modify-is_cut q)

  request_cancel-queue :
      (r : Option Run) (j : Text) (e : Engine)
      → (mark_deleting j (request_cancel r j e)).queue ≡ e.queue
  unfolding mark_deleting
  request_cancel-queue none j e = refl
  request_cancel-queue (some r) j e = refl

  -- What the loop skips: a row that is complete, or is cleaned up with no transfer running.
  abbrev is_left : Item → Engine → Bool
  is_left i e = is_complete i.state || (not (has_run e i.id) && is_deleting e i.id)

  cancel_row_left :
      (i : Item) (p : CancelPass)
      → is_left i p.engine ≡ true
      → (cancel_row now i p).engine.queue ≡ p.engine.queue
  unfolding cancel_row
  cancel_row_left i p e = simp e refl

  cancel_row_cut :
      (i : Item) (p : CancelPass)
      → is_left i p.engine ≡ false
      → (cancel_row now i p).engine.queue ≡ modify i.id (cancelled_row now) p.engine.queue
  unfolding cancel_row
  cancel_row_cut i p e = simp e (
      ap (modify i.id (cancelled_row now))
        (request_cancel-queue (lookup i.id p.engine.runs) i.id p.engine))

  -- What every write of a cancelled row keeps, the loop keeps.
  module _ (P : List Item → Type 0)
      (kept : (j : Text) (q : List Item) → P q → P (modify j (cancelled_row now) q)) where
    cancel_row-keeps :
        (i : Item) (p : CancelPass) → P p.engine.queue → P (cancel_row now i p).engine.queue
    cancel_row-keeps i p h = elim (Bool-cases (is_left i p.engine)) [
      | inl e ↦ rw (cancel_row_left i p e) h
      | inr e ↦ rw (cancel_row_cut i p e) (kept i.id p.engine.queue h)
    ]

    cancel_rows-keeps :
        (wanted : List Text) (rows : List Item) (p : CancelPass)
        → P p.engine.queue
        → P (cancel_rows now wanted rows p).engine.queue
    unfolding cancel_rows
    cancel_rows-keeps wanted [] p h = h
    cancel_rows-keeps wanted (i ∷ is) p h =
        cancel_rows-keeps wanted is _ (asked (contains wanted i.id))
      where
        asked : (b : Bool) → P (if b then cancel_row now i p else p).engine.queue
        asked true = cancel_row-keeps i p h
        asked false = h

  has_run-cancel_row :
      (i : Item) (p : CancelPass)
      → has_run p.engine id ≡ true
      → has_run (cancel_row now i p).engine id ≡ true
  has_run-cancel_row i p h = ground (arith, (cancel_row-CalmStep now i p).runs id)

  -- The loop reaches the row.
  cancel_rows-is_cut :
      (wanted : List Text) (item : Item) (rows : List Item) (p : CancelPass)
      → contains wanted id ≡ true
      → find_item id rows ≡ some item
      → is_complete item.state ≡ false
      → has_run p.engine id ≡ true
      → is_there id p.engine.queue ≡ true
      → is_cut id (cancel_rows now wanted rows p).engine.queue ≡ true
  unfolding cancel_rows find_item
  cancel_rows-is_cut wanted item [] p w f c r t = cc
  cancel_rows-is_cut wanted item (i ∷ is) p w f c r t = elim (Bool-cases (text_eq i.id id)) [
    | inl e ↦
        cancel_rows-keeps (λ q. is_cut id q ≡ true) is_cut-modify wanted is _
          (reached ((text_eq_iff i.id id).0 e) (rw (head e) c))
    | inr e ↦
        (cancel_rows-is_cut wanted item is _ w (ground arith) c (runs (contains wanted i.id))
          (there (contains wanted i.id)))
  ]
    where
      head : text_eq i.id id ≡ true → i ≡ item
      head e = ground arith

      present : i.id ≡ id → contains wanted i.id ≡ true
      present same = subst (λ t. contains wanted t ≡ true) (sym same) w

      left : i.id ≡ id → is_complete i.state ≡ false → is_left i p.engine ≡ false
      left same k =
          let run : has_run p.engine i.id ≡ true =
            subst (λ t. has_run p.engine t ≡ true) (sym same) r in
          rw (k, run) refl

      reached :
          i.id ≡ id
          → is_complete i.state ≡ false
          → is_cut id (if contains wanted i.id then cancel_row now i p else p).engine.queue ≡ true
      reached same k =
          rw (present same, cancel_row_cut i p (left same k), same) (modify-is_cut p.engine.queue t)

      runs : (b : Bool) → has_run (if b then cancel_row now i p else p).engine id ≡ true
      runs true = has_run-cancel_row i p r
      runs false = r

      there : (b : Bool) → is_there id (if b then cancel_row now i p else p).engine.queue ≡ true
      there true = cancel_row-keeps (λ q. is_there id q ≡ true) is_there-modify i p t
      there false = t

-- A cancel that names a row which is not complete and whose transfer is running leaves the row
-- stopped, by the test that every end of the transfer makes first.
pub cancel_mark-is_stopped :
    (now : ℕ) (wanted : List Text) (item : Item) (e : Engine)
    → find_item item.id e.queue ≡ some item
    → contains wanted item.id ≡ true
    → is_complete item.state ≡ false
    → has_run e item.id ≡ true
    → is_stopped (cancel_mark now wanted e).engine item.id ≡ true
unfolding cancel_mark is_stopped
cancel_mark-is_stopped now wanted item e f w c r = stop (ltb 0 pass.cancelled)
  where
    pass : CancelPass
    pass =
        cancel_rows now wanted e.queue
          (record { engine = e; matched = 0; cancelled = 0; interrupted = []; resting = [] })

    cut : is_cut item.id pass.engine.queue ≡ true
    cut = cancel_rows-is_cut now item.id wanted item e.queue _ w f c r (rw f refl)

    stop :
        (b : Bool)
        → (cancellation_requested (if b then mark_queue_dirty pass.engine else pass.engine) item.id
            || is_cut item.id (if b then mark_queue_dirty pass.engine else pass.engine).queue)
          ≡ true
    stop true = unfold mark_queue_dirty in rw cut (last _)
      where
        last : (a : Bool) → (a || true) ≡ true
        last a = ground arith
    stop false = rw cut (last _)
      where
        last : (a : Bool) → (a || true) ≡ true
        last a = ground arith
