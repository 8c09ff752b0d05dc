-- ===== src/Sync/Start/Laws.antt =====
-- The engine after a start.
use tdrive_aliyunpan.Base.{
  ℕ, ◌-◌, ◌≡◌, refl, pos, ◌&&◌, if_elim, ap, ◌∙◌, Bool, true, false, List, [], ◌∷◌, ℤ, ◌+ℤ◌, ◌≤ℤ◌,
  ltb_ℤ, is_empty, arith, Bool-cases, inl, inr, if◌then◌else◌,
}
use tdrive_aliyunpan.Settings.{Settings, default_drive_name}
use tdrive_aliyunpan.Sync.Item.{Item, State, Stage, is_running, is_active}
use tdrive_aliyunpan.Sync.Engine.{Engine, QuotaState}
use tdrive_aliyunpan.Sync.Start.{
  is_finishing, named, recovered, measured, load_row, load_rows, charged_bytes, today_completed,
  healed, load,
}

-- The row has the ID and the size of another.
abbrev Same : Item → Item → Type 0
Same i j = (j.id ≡ i.id) × (j.size ≡ i.size)

named-Same : (i : Item) → Same i (named i)
named-Same i = elim (Bool-cases (is_empty i.drive_name)) [
  | inl e ↦ rw e (refl, refl)
  | inr e ↦ rw e (refl, refl)
]

named_state : (i : Item) → (named i).state ≡ i.state
named_state i = elim (Bool-cases (is_empty i.drive_name)) [ inl e ↦ rw e refl | inr e ↦ rw e refl ]

recovered-Same :
    (now : ℕ) (i : Item) → Same i (recovered now i) × (is_running (recovered now i).state ≡ false)
recovered-Same now i = elim (Bool-cases (is_finishing i.stage)) [
  | inl e ↦ rw e ((refl, refl), refl)
  | inr e ↦ rw e ((refl, refl), refl)
]

measured-Same :
    (staged : Item → ℤ) (i : Item)
    → Same i (measured staged i) × ((measured staged i).state ≡ i.state)
measured-Same staged i = elim (Bool-cases (is_active i)) [
  | inl e ↦ rw e ((refl, refl), refl)
  | inr e ↦ rw e ((refl, refl), refl)
]

Same-trans : (i j k : Item) → Same i j → Same j k → Same i k
Same-trans i j k p q = (q.0 ∙ p.0, q.1 ∙ p.1)

-- What a row that was stored as running is after a start: complete if its upload had been committed, and
-- otherwise pending, as if the attempt had not been made.
pub record IsRecovered (now : ℕ) (i j : Item) : Type 0 where
  pub committed :
      i.stage ≡ Stage.finishing
      → (j.state ≡ State.complete) × (j.finished_at ≡ now) × (j.uploaded ≡ i.size)
  pub undone :
      is_finishing i.stage ≡ false
      → (j.state ≡ State.pending)
        × (j.attempts ≡ i.attempts - 1)
        × (j.next_attempt_at ≡ 0)
        × (j.upload_job_id ≡ [])

recovered-IsRecovered : (now : ℕ) (i : Item) → IsRecovered now i (recovered now i)
recovered-IsRecovered now i = record {
  committed = λ h. rw h (refl, refl, refl);
  undone = λ h. rw h (refl, refl, refl, refl);
}

named-IsRecovered : (now : ℕ) (i j : Item) → IsRecovered now (named i) j → IsRecovered now i j
named-IsRecovered now i j h = at_name (is_empty i.drive_name) h
  where
    at_name :
        (b : Bool)
        → IsRecovered now (if b then record i { drive_name = default_drive_name } else i) j
        → IsRecovered now i j
    at_name true r = record { committed = r.committed; undone = r.undone }
    at_name false r = r

measured-IsRecovered :
    (staged : Item → ℤ) (now : ℕ) (i j : Item)
    → IsRecovered now i j
    → IsRecovered now i (measured staged j)
measured-IsRecovered staged now i j r =
    if_elim (IsRecovered now i) (is_active j)
      (λ _. record { committed = r.committed; undone = r.undone }) (λ _. r)

-- The sizes of the rows that were stored as running in the stage after the host's commit.
abbrev committed : State → Stage → ℤ → ℤ
committed State.running Stage.finishing size = size
committed State.running Stage.idle size = pos 0
committed State.running Stage.downloading size = pos 0
committed State.running Stage.waiting_upload size = pos 0
committed State.running Stage.uploading size = pos 0
committed State.pending stage size = pos 0
committed State.complete stage size = pos 0
committed State.failed stage size = pos 0
committed State.cancelled stage size = pos 0

abbrev pub committed_bytes : List Item → ℤ
committed_bytes [] = pos 0
committed_bytes (i ∷ is) = committed i.state i.stage i.size +ℤ committed_bytes is

charged-committed :
    (s : State) (g : Stage) (size : ℤ)
    → (if is_running s && is_finishing g then size else pos 0) ≡ committed s g size
charged-committed State.running Stage.finishing size = refl
charged-committed State.running Stage.idle size = refl
charged-committed State.running Stage.downloading size = refl
charged-committed State.running Stage.waiting_upload size = refl
charged-committed State.running Stage.uploading size = refl
charged-committed State.pending stage size = refl
charged-committed State.complete stage size = refl
charged-committed State.failed stage size = refl
charged-committed State.cancelled stage size = refl

charged_bytes-committed : (q : List Item) → charged_bytes q ≡ committed_bytes q
unfolding charged_bytes
charged_bytes-committed [] = refl
charged_bytes-committed (i ∷ q) =
    rw (charged-committed i.state i.stage i.size, charged_bytes-committed q) refl

module _ (staged : Item → ℤ) (now : ℕ) where
  settled :
      (i : Item) (b : Bool)
      → is_running i.state ≡ b
      → Same i (if b then recovered now (named i) else named i)
        × (is_running (if b then recovered now (named i) else named i).state ≡ false)
  settled i true h =
      let r = recovered-Same now (named i) in
      (Same-trans i (named i) (recovered now (named i)) (named-Same i) r.0, r.1)
  settled i false h = (named-Same i, ap is_running (named_state i) ∙ h)

  load_row-Same :
      (i : Item)
      → Same i (load_row staged now i) × (is_running (load_row staged now i).state ≡ false)
  unfolding load_row
  load_row-Same i =
      let j : Item = if is_running i.state then recovered now (named i) else named i in
      let s = settled i (is_running i.state) refl in
      let m = measured-Same staged j in
      (Same-trans i j (measured staged j) s.0 m.0, ap is_running m.1 ∙ s.1)

  load_row-IsRecovered :
      (i : Item) → i.state ≡ State.running → IsRecovered now i (load_row staged now i)
  unfolding load_row
  load_row-IsRecovered i h = rw (ap is_running h) (
      measured-IsRecovered staged now i (recovered now (named i))
        (named-IsRecovered now i (recovered now (named i)) (recovered-IsRecovered now (named i))))

  load_row-rests : (i : Item) → is_running i.state ≡ false → (load_row staged now i).state ≡ i.state
  unfolding load_row
  load_row-rests i h = rw h ((measured-Same staged (named i)).1 ∙ named_state i)

  -- The rows after a start, one for each before.
  abbrev pub Reloaded : List Item → List Item → Type 0
  Reloaded [] [] = Unit
  Reloaded [] (j ∷ js) = ⊥
  Reloaded (i ∷ is) [] = ⊥
  Reloaded (i ∷ is) (j ∷ js) =
      Same i j
      × (is_running j.state ≡ false)
      × (i.state ≡ State.running → IsRecovered now i j)
      × (is_running i.state ≡ false → j.state ≡ i.state)
      × Reloaded is js

  load_rows-Reloaded : (q : List Item) → Reloaded q (load_rows staged now q)
  unfolding load_rows
  load_rows-Reloaded [] = tt
  load_rows-Reloaded (i ∷ q) =
      let r = load_row-Same i in
      (r.0, r.1, load_row-IsRecovered i, load_row-rests i, load_rows-Reloaded q)

healed_lem :
    (completed : ℤ) (q : QuotaState)
    → (q.used_bytes ≤ℤ (healed completed q).used_bytes)
      × (completed ≤ℤ (healed completed q).used_bytes)
healed_lem completed q = elim (Bool-cases (ltb_ℤ q.used_bytes completed)) [
  | inl e ↦ rw e (ground arith, omega arith)
  | inr e ↦ rw e (omega arith, ground arith)
]

-- After `Load` the queue has the stored rows in their order, each with its ID and size, and no row
-- runs. A row that was running is complete if it was in the finishing stage, with its whole size
-- uploaded, and else pending, due at once, without an upload job and with one attempt less; any other
-- row keeps its state. The counter is not below what was stored with the sizes of the rows that were
-- running in the finishing stage, nor below the sizes of the rows completed in the period. Nothing
-- waits to be written.
pub load-Reloaded :
    (staged : Item → ℤ) (now today : ℕ) (s : Settings) (queue : List Item) (quota : QuotaState)
    (e : Engine)
    → Reloaded staged now queue (load staged now today s queue quota e).queue
      × (quota.used_bytes +ℤ committed_bytes queue
          ≤ℤ (load staged now today s queue quota e).quota.used_bytes)
      × (today_completed today (load staged now today s queue quota e).queue
          ≤ℤ (load staged now today s queue quota e).quota.used_bytes)
      × ((load staged now today s queue quota e).dirty ≡ false)
unfolding load
load-Reloaded staged now today s queue quota e =
    let h =
      healed_lem (today_completed today (load_rows staged now queue))
        (record quota { used_bytes = quota.used_bytes +ℤ charged_bytes queue }) in
    (load_rows-Reloaded staged now queue, rw (← charged_bytes-committed queue) h.0, h.1, refl)
