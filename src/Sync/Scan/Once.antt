-- ===== src/Sync/Scan/Once.antt =====
-- No file is queued twice.
use tdrive_aliyunpan.Base.{
  ℕ, ◌+◌, ◌≤◌, ◌≡◌, refl, ap, Bool, true, false, not, List, [], ◌∷◌, ◌++◌, Option, none, some, ℤ,
  Text, text_eq, text_eq_iff, ◌&&◌, ◌||◌, arith, Bool-cases, inl, inr, if◌then◌else◌,
}
use tdrive_aliyunpan.Base.Dict.{lookup}
use tdrive_aliyunpan.Settings.{Job, job_by_id}
use tdrive_aliyunpan.Sync.Item.{Item, State, is_pending, is_running, is_failed, is_cancelled}
use tdrive_aliyunpan.Sync.Engine.{Engine, mark_queue_dirty}
use tdrive_aliyunpan.Sync.Scan.{
  Entry, Outside, Stamp, key, item_key, holds_back, delivered_to, inspect_rows, inspect, is_current,
  new_row, considered_row, queue_row, consider_end, after_look, is_kept, consider,
  delivered_elsewhere, add_dir,
}

-- Whether a row is waiting, running, failed or cancelled.
abbrev pub is_open : State → Bool
is_open State.pending = true
is_open State.running = true
is_open State.complete = false
is_open State.failed = true
is_open State.cancelled = true

-- How many open rows are of the file with this key.
abbrev pub open_rows : Text → List Item → ℕ
open_rows k [] = 0
open_rows k (i ∷ is) = (if text_eq (item_key i) k && is_open i.state then 1 else 0) + open_rows k is

abbrev held_back : Text → List Item → ℕ
held_back k [] = 0
held_back k (i ∷ is) = (if holds_back k i then 1 else 0) + held_back k is

-- The rows that the code's test counts are the open ones.
holds_back-open :
    (k : Text) (i : Item) → holds_back k i ≡ (text_eq (item_key i) k && is_open i.state)
unfolding holds_back
holds_back-open k i =
    elim i.state
      as (λ s.
        (text_eq (item_key i) k
          && ((is_pending s || is_running s) || (is_failed s || is_cancelled s)))
        ≡ (text_eq (item_key i) k && is_open s)) [
          | State.pending ↦ refl
          | State.running ↦ refl
          | State.complete ↦ refl
          | State.failed ↦ refl
          | State.cancelled ↦ refl
        ]

held_back-open_rows : (k : Text) (q : List Item) → held_back k q ≡ open_rows k q
held_back-open_rows k [] = refl
held_back-open_rows k (i ∷ q) = rw (holds_back-open k i, held_back-open_rows k q) refl

abbrev pub IsOnce : List Item → Type 0
IsOnce q = (k : Text) → open_rows k q ≤ 1

abbrev IsHeldOnce : List Item → Type 0
IsHeldOnce q = (k : Text) → held_back k q ≤ 1

held_back_last :
    (k : Text) (q : List Item) (i : Item)
    → held_back k (q ++ i ∷ []) ≡ held_back k q + (if holds_back k i then 1 else 0)
held_back_last k [] i = omega arith
held_back_last k (x ∷ q) i = omega (arith, held_back_last k q i)

inspect_rows-held_back :
    (k target_dir : Text) (dirs : List Text) (q : List Item)
    → inspect_rows k target_dir q ≡ some dirs
    → held_back k q ≡ 0
unfolding inspect_rows
inspect_rows-held_back k target_dir dirs [] h = refl
inspect_rows-held_back k target_dir dirs (i ∷ q) h =
    passed (holds_back k i) (delivered_to k target_dir i) (inspect_rows k target_dir q) h
      (λ ds e. inspect_rows-held_back k target_dir ds q e)
  where
    passed :
        (b d : Bool) (rest : Option (List Text))
        → (if b then none else if d then add_dir i rest else rest) ≡ some dirs
        → ((ds : List Text) → rest ≡ some ds → held_back k q ≡ 0)
        → (if b then 1 else 0) + held_back k q ≡ 0
    passed true d rest e ih = cc
    passed false true none e ih = cc
    passed false true (some ds) e ih = omega (arith, ih ds refl)
    passed false false rest e ih = omega (arith, ih dirs e)

considered_row-key :
    (o : Outside) (stamp : Stamp) (job : Job) (entry : Entry) (target_dir k : Text)
    → holds_back k (considered_row o stamp job entry target_dir) ≡ true
    → key job.id entry.path entry.sha1 entry.size ≡ k
unfolding considered_row new_row holds_back
considered_row-key o stamp job entry target_dir k h =
    (text_eq_iff (key job.id entry.path entry.sha1 entry.size) k).0 (ground arith)

module _ (o : Outside) (stamp : Stamp) (job : Job) (entry : Entry) (target_dir : Text) where
  file_key : Text
  file_key = key job.id entry.path entry.sha1 entry.size

  inspect-held_back :
      (e : Engine) (dirs : List Text)
      → inspect job entry target_dir e ≡ some dirs
      → held_back file_key e.queue ≡ 0
  unfolding inspect file_key
  inspect-held_back e dirs h = current (is_current (job_by_id job.id e.settings.jobs) job) h
    where
      current :
          (b : Bool)
          → (if not b then none else inspect_rows file_key target_dir e.queue) ≡ some dirs
          → held_back file_key e.queue ≡ 0
      current true x = inspect_rows-held_back file_key target_dir dirs e.queue x
      current false x = cc

  queue_row-IsOnce :
      (e : Engine) (found : Option (List Text))
      → inspect job entry target_dir e ≡ found
      → IsHeldOnce e.queue
      → IsHeldOnce (queue_row found (considered_row o stamp job entry target_dir) e).queue
  unfolding mark_queue_dirty
  queue_row-IsOnce e none h once k = once k
  queue_row-IsOnce e (some dirs) h once k = elim (Bool-cases (holds_back k row)) [
    | inl b ↦
        rw (held_back_last k e.queue row, b)
          (omega (arith, ap (λ t. held_back t e.queue) (same b), inspect-held_back e dirs h))
    | inr b ↦ rw (held_back_last k e.queue row, b) (omega (arith, once k))
  ]
    where
      row : Item
      row = considered_row o stamp job entry target_dir

      same : holds_back k row ≡ true → file_key ≡ k
      same b = unfold file_key in considered_row-key o stamp job entry target_dir k b

  -- A look at one file of the cloud leaves at most one row for each file that is waiting, running,
  -- failed or cancelled, if there was at most one before, and at most one after what others have done
  -- to the engine between its two looks.
  pub consider-IsOnce :
      (between : Engine → Engine) (existing : List (Text × ℤ)) (e : Engine)
      → IsOnce e.queue
      → IsOnce (between e).queue
      → IsOnce (consider o between stamp job entry target_dir existing e).queue
  unfolding consider consider_end
  consider-IsOnce between existing e before once =
      kept (is_kept job entry (lookup entry.name existing))
    where
      later : Engine
      later = consider_end o stamp job entry target_dir (between e)

      queued : IsOnce later.queue
      queued k = rw (← held_back-open_rows k later.queue) (
          queue_row-IsOnce (between e) (inspect job entry target_dir (between e)) refl
            (λ j. rw (held_back-open_rows j (between e).queue) (once j)) k)

      elsewhere : (dirs : List Text) (b : Bool) → IsOnce (if b then between e else later).queue
      elsewhere dirs true = once
      elsewhere dirs false = queued

      looked :
          (found : Option (List Text)) → IsOnce (after_look o entry found (between e) later).queue
      looked none = once
      looked (some dirs) = elsewhere dirs (delivered_elsewhere o.listing entry dirs)

      kept :
          (b : Bool)
          → IsOnce
              (if b
                then e
                else after_look o entry (inspect job entry target_dir e) (between e) later).queue
      kept true = before
      kept false = looked (inspect job entry target_dir e)
