-- ===== src/Sync/Budget/Operator.antt =====
-- The operator's actions start nothing and charge nothing.
use tdrive_aliyunpan.Base.{
  ℕ, suc, refl, Bool, true, false, ◌||◌, List, [], ◌∷◌, Option, none, some, arith, Text, contains,
  ◌++◌, is_empty, not, if◌then◌else◌, Bool-cases, inl, inr, ltb, ◌&&◌,
}
use tdrive_aliyunpan.Base.Dict.{lookup, lookup-insert}
use tdrive_aliyunpan.Sync.Item.{Item, is_running, is_complete}
use tdrive_aliyunpan.Sync.Engine.{
  Engine, Run, modify, has_run, is_deleting, mark_queue_dirty, mark_deleting,
}
use tdrive_aliyunpan.Sync.Actions.{
  RetryPass, reset_row, reset_for_retry, retry_row, retry_rows, CancelPass, cancelled_row,
  request_cancel, cancel_row, cancel_rows, cancel_mark, is_cleared, split_cleared, clear_finished,
}
use tdrive_aliyunpan.Sync.Budget.Calm.{CalmStep, CalmStep-refl, CalmStep-trans, CalmStep-rows}
use tdrive_aliyunpan.Sync.Budget.Rows.{Calmer, nil, keep, drop, Calmer-refl, IsCalm, Calmer-modify}

reset_row-IsCalm : IsCalm reset_row
unfolding reset_row
reset_row-IsCalm = record { id = λ i. refl; size = λ i. refl; calm = λ i h. cc }

pub reset_for_retry-CalmStep : (id : Text) (e : Engine) → CalmStep e (reset_for_retry id e)
unfolding reset_for_retry has_run
reset_for_retry-CalmStep id e = record {
  rows = Calmer-modify id _ e.queue reset_row-IsCalm;
  used = refl;
  reserved = refl;
  settings = refl;
  runs = λ id h. h;
}

mark_deleting-CalmStep : (id : Text) (e : Engine) → CalmStep e (mark_deleting id e)
unfolding mark_deleting has_run
mark_deleting-CalmStep id e = record {
  rows = Calmer-refl e.queue;
  used = refl;
  reserved = refl;
  settings = refl;
  runs = λ id h. h;
}

retry_row-CalmStep : (i : Item) (p : RetryPass) → CalmStep p.engine (retry_row i p).engine
unfolding retry_row
retry_row-CalmStep i p =
    branch
      (is_running i.state
        || (is_complete i.state || (has_run p.engine i.id || is_deleting p.engine i.id)))
      (not (is_empty i.upload_job_id))
  where
    branch :
        (a b : Bool)
        → CalmStep p.engine
            (if a
              then record p { matched = suc p.matched }
              else if b
              then record p {
                matched = suc p.matched;
                engine = mark_deleting i.id p.engine;
                stale = p.stale ++ (i.id, i.upload_job_id) ∷ [];
              }
              else record p {
                matched = suc p.matched;
                engine = reset_for_retry i.id p.engine;
                requeued = suc p.requeued;
              }).engine
    branch true b = CalmStep-refl p.engine
    branch false true = mark_deleting-CalmStep i.id p.engine
    branch false false = reset_for_retry-CalmStep i.id p.engine

pub retry_rows-CalmStep :
    (wanted : List Text) (rows : List Item) (p : RetryPass)
    → CalmStep p.engine (retry_rows wanted rows p).engine
unfolding retry_rows
retry_rows-CalmStep wanted [] p = CalmStep-refl p.engine
retry_rows-CalmStep wanted (i ∷ is) p =
    CalmStep-trans (asked (contains wanted i.id)) (retry_rows-CalmStep wanted is _)
  where
    asked : (b : Bool) → CalmStep p.engine (if b then retry_row i p else p).engine
    asked true = retry_row-CalmStep i p
    asked false = CalmStep-refl p.engine

request_cancel-CalmStep :
    (r : Option Run) (id : Text) (e : Engine) → CalmStep e (request_cancel r id e)
unfolding has_run
request_cancel-CalmStep none id e = record {
  rows = Calmer-refl e.queue;
  used = refl;
  reserved = refl;
  settings = refl;
  runs = λ id h. h;
}
request_cancel-CalmStep (some r) id e = record {
  rows = Calmer-refl e.queue;
  used = refl;
  reserved = refl;
  settings = refl;
  runs = λ j h. ground (arith, lookup-insert id j (record r { cancel_requested = true }) e.runs);
}

cancelled_row-IsCalm : (now : ℕ) → IsCalm (cancelled_row now)
unfolding cancelled_row
cancelled_row-IsCalm now = record { id = λ i. refl; size = λ i. refl; calm = λ i h. cc }

-- Without the mark that the queue is dirty, which comes after the loop.
cancelled-CalmStep :
    (now : ℕ) (id : Text) (e : Engine)
    → CalmStep e (record e { queue = modify id (cancelled_row now) e.queue })
unfolding has_run
cancelled-CalmStep now id e = record {
  rows = Calmer-modify id _ e.queue (cancelled_row-IsCalm now);
  used = refl;
  reserved = refl;
  settings = refl;
  runs = λ id h. h;
}

pub cancel_row-CalmStep :
    (now : ℕ) (i : Item) (p : CancelPass) → CalmStep p.engine (cancel_row now i p).engine
unfolding cancel_row
cancel_row-CalmStep now i p =
    elim (Bool-cases
      (is_complete i.state || (not (has_run p.engine i.id) && is_deleting p.engine i.id))) [
        | inl e ↦ simp e (CalmStep-refl p.engine)
        | inr e ↦ simp e (
            CalmStep-trans (request_cancel-CalmStep (lookup i.id p.engine.runs) i.id p.engine)
              (CalmStep-trans (mark_deleting-CalmStep i.id _) (cancelled-CalmStep now i.id _)))
      ]

cancel_rows-CalmStep :
    (now : ℕ) (wanted : List Text) (rows : List Item) (p : CancelPass)
    → CalmStep p.engine (cancel_rows now wanted rows p).engine
unfolding cancel_rows
cancel_rows-CalmStep now wanted [] p = CalmStep-refl p.engine
cancel_rows-CalmStep now wanted (i ∷ is) p =
    CalmStep-trans (asked (contains wanted i.id)) (cancel_rows-CalmStep now wanted is _)
  where
    asked : (b : Bool) → CalmStep p.engine (if b then cancel_row now i p else p).engine
    asked true = cancel_row-CalmStep now i p
    asked false = CalmStep-refl p.engine

pub cancel_mark-CalmStep :
    (now : ℕ) (wanted : List Text) (e : Engine) → CalmStep e (cancel_mark now wanted e).engine
unfolding cancel_mark
cancel_mark-CalmStep now wanted e =
    CalmStep-trans (cancel_rows-CalmStep now wanted e.queue _) (marked (ltb 0 _) _)
  where
    marked : (b : Bool) (a : Engine) → CalmStep a (if b then mark_queue_dirty a else a)
    marked true a = unfold mark_queue_dirty in CalmStep-rows a _ (Calmer-refl a.queue)
    marked false a = CalmStep-refl a

split_cleared-Calmer :
    (e : Engine) (wanted : List Text) (q : List Item) → Calmer q (split_cleared e wanted q).0
unfolding split_cleared
split_cleared-Calmer e wanted [] = nil
split_cleared-Calmer e wanted (i ∷ q) = elim (Bool-cases (is_cleared e wanted i)) [
  | inl c ↦ rw c (drop i (split_cleared-Calmer e wanted q))
  | inr c ↦ rw c (keep i i refl refl (λ h. h) (split_cleared-Calmer e wanted q))
]

pub clear_finished-CalmStep :
    (wanted : List Text) (e : Engine) → CalmStep e (clear_finished wanted e).1
unfolding clear_finished
clear_finished-CalmStep wanted e = CalmStep-rows e _ (split_cleared-Calmer e wanted e.queue)
