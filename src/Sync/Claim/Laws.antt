-- ===== src/Sync/Claim/Laws.antt =====
-- Which item a claim takes, and why none is taken.
use tdrive_aliyunpan.Base.{
  ℕ, suc, ◌+◌, ◌≤◌, ◌<◌, ◌≡◌, refl, ap, ◌⊎◌, inl, inr, Bool, true, false, ◌||◌, List, [], ◌∷◌, ◌++◌,
  Option, none, some, arith, ◌+ℤ◌, All, Bool-cases, leb, leb→le, if◌then◌else◌,
}
use tdrive_aliyunpan.Settings.{Job, job_by_id}
use tdrive_aliyunpan.Sync.Item.{Item, State, Stage, is_pending}
use tdrive_aliyunpan.Sync.Engine.{Engine, has_run, is_deleting, register_run, mark_queue_dirty}
use tdrive_aliyunpan.Sync.Claim.{
  quota_allows, is_eligible, job_enabled, claim, keep_before, pick, claimed, take_next_with_run,
}

-- A row that can be taken: it is pending, its backoff is over, it has no run and no cleanup, and its job is there
-- and enabled.
pub record IsReady (e : Engine) (now : ℕ) (i : Item) : Type 0 where
  pub pending : i.state ≡ State.pending
  pub due : i.next_attempt_at ≤ now
  pub no_run : has_run e i.id ≡ false
  pub not_deleting : is_deleting e i.id ≡ false
  pub job : Job
  pub found : job_by_id i.job_id e.settings.jobs ≡ some job
  pub enabled : job.enabled ≡ true

abbrev pub IsUnready : Engine → ℕ → Item → Type 0
IsUnready e now i = IsReady e now i → ⊥

pending_lem : (s : State) → is_pending s ≡ true → s ≡ State.pending
pending_lem State.pending h = refl
pending_lem State.running h = cc
pending_lem State.complete h = cc
pending_lem State.failed h = cc
pending_lem State.cancelled h = cc

job_lem : (o : Option Job) → job_enabled o ≡ true → (j : Job) × (o ≡ some j) × (j.enabled ≡ true)
job_lem none h = absurd (cc)
job_lem (some j) h = (j, refl, h)

eligible-IsReady : (e : Engine) (now : ℕ) (i : Item) → is_eligible e now i ≡ true → IsReady e now i
unfolding is_eligible
eligible-IsReady e now i h =
    let j = job_lem (job_by_id i.job_id e.settings.jobs) (ground (arith, h)) in
    record {
      pending = pending_lem i.state (ground (arith, h));
      due = ground (arith, h);
      no_run = ground (arith, h);
      not_deleting = ground (arith, h);
      job = j.0;
      found = j.1;
      enabled = j.2;
    }

unready : (e : Engine) (now : ℕ) (i : Item) → is_eligible e now i ≡ false → IsUnready e now i
unfolding is_eligible
unready e now i h r = ground (
  arith,
  h,
  ap is_pending r.pending,
  r.due,
  r.no_run,
  r.not_deleting,
  ap job_enabled r.found,
  r.enabled,
)

-- The row `item` stands in the queue behind rows that cannot be taken.
pub record IsFirst (e : Engine) (now : ℕ) (queue : List Item) (item : Item) (queue' : List Item)
    : Type 0 where
  pub before : List Item
  pub after : List Item
  pub was : queue ≡ before ++ item ∷ after
  pub becomes : queue' ≡ before ++ claim now item ∷ after
  pub skipped : All (IsUnready e now) before
  pub eligible : IsReady e now item
  pub fits : quota_allows e item.size ≡ true

-- The row `item` could be taken but does not fit in the quota, and blocks the rows behind it.
pub record IsBlocked (e : Engine) (now : ℕ) (queue : List Item) (item : Item) : Type 0 where
  pub before : List Item
  pub after : List Item
  pub was : queue ≡ before ++ item ∷ after
  pub skipped : All (IsUnready e now) before
  pub eligible : IsReady e now item
  pub unfit : quota_allows e item.size ≡ false

abbrev pub PickSpec : Engine → ℕ → List Item → Option (Item × List Item) → Type 0
PickSpec e now queue none =
    All (IsUnready e now) queue ⊎ ((item : Item) × IsBlocked e now queue item)
PickSpec e now queue (some (c, queue')) =
    (item : Item) × (c ≡ claim now item) × IsFirst e now queue item queue'

keep_before-PickSpec :
    (e : Engine) (now : ℕ) (i : Item) (queue : List Item) (o : Option (Item × List Item))
    → IsUnready e now i
    → PickSpec e now queue o
    → PickSpec e now (i ∷ queue) (keep_before i o)
keep_before-PickSpec e now i queue none skip (inl all) = inl (skip, all)
keep_before-PickSpec e now i queue none skip (inr (item, b)) = inr (
  item,
  record {
    before = i ∷ b.before;
    after = b.after;
    was = ap (◌∷◌ i) b.was;
    skipped = (skip, b.skipped);
    eligible = b.eligible;
    unfit = b.unfit;
  },
)
keep_before-PickSpec e now i queue (some (c, queue')) skip (item, same, f) = (
  item,
  same,
  record {
    before = i ∷ f.before;
    after = f.after;
    was = ap (◌∷◌ i) f.was;
    becomes = ap (◌∷◌ i) f.becomes;
    skipped = (skip, f.skipped);
    eligible = f.eligible;
    fits = f.fits;
  },
)

pick-PickSpec : (e : Engine) (now : ℕ) (queue : List Item) → PickSpec e now queue (pick e now queue)
unfolding pick
pick-PickSpec e now [] = inl tt
pick-PickSpec e now (i ∷ is) = elim (Bool-cases (is_eligible e now i)) [
  | inr skip ↦ rw skip (
      keep_before-PickSpec e now i is (pick e now is) (unready e now i skip)
        (pick-PickSpec e now is))
  | inl able ↦ elim (Bool-cases (quota_allows e i.size)) [
    | inl fits ↦
        rw (able, fits)
          (
            i,
            refl,
            record {
              before = [];
              after = is;
              was = refl;
              becomes = refl;
              skipped = tt;
              eligible = eligible-IsReady e now i able;
              fits = fits;
            },
          )
    | inr unfit ↦
        rw (able, unfit)
          (inr (
            i,
            record {
              before = [];
              after = is;
              was = refl;
              skipped = tt;
              eligible = eligible-IsReady e now i able;
              unfit = unfit;
            },
          ))
  ]
]

-- What a claim of `item` makes of the engine.
pub record IsTaken (dispatching : Bool) (now workers : ℕ) (e : Engine) (item : Item) (e' : Engine)
    : Type 0 where
  pub first : IsFirst e now e.queue item e'.queue
  pub not_paused : e.paused ≡ false
  pub worker_free : e.active < workers
  pub active : e'.active ≡ e.active + 1
  pub reserved : e'.reserved ≡ e.reserved +ℤ item.size
  pub runs : e'.runs ≡ (if dispatching then (register_run item.id e).runs else e.runs)
  pub quota : e'.quota ≡ e.quota
  pub settings : e'.settings ≡ e.settings
  pub row : claim now item ≡ record item {
    state = State.running;
    stage = Stage.idle;
    started_at = now;
    error = [];
    attempts = suc item.attempts;
    next_attempt_at = 0;
  }
  pub others : e' ≡ record e {
    queue = e'.queue;
    active = e'.active;
    reserved = e'.reserved;
    runs = e'.runs;
    dirty = true;
    queue_revision = suc e.queue_revision;
  }

abbrev pub ClaimSpec : Bool → ℕ → ℕ → Engine → Option Item × Engine → Type 0
ClaimSpec dispatching now workers e (none, e') =
    (e' ≡ e)
    × ((e.paused ≡ true)
        ⊎ (workers ≤ e.active)
        ⊎ All (IsUnready e now) e.queue
        ⊎ ((item : Item) × IsBlocked e now e.queue item))
ClaimSpec dispatching now workers e (some c, e') =
    (item : Item) × (c ≡ claim now item) × IsTaken dispatching now workers e item e'

claimed-ClaimSpec :
    (dispatching : Bool) (now workers : ℕ) (e : Engine) (o : Option (Item × List Item))
    → e.paused ≡ false
    → e.active < workers
    → PickSpec e now e.queue o
    → ClaimSpec dispatching now workers e (claimed dispatching e o)
claimed-ClaimSpec dispatching now workers e none p w (inl all) = (refl, inr (inr (inl all)))
claimed-ClaimSpec dispatching now workers e none p w (inr b) = (refl, inr (inr (inr b)))
claimed-ClaimSpec true now workers e (some (c, queue')) p w (item, same, f) = (
  item,
  same,
  unfold mark_queue_dirty register_run claim in
      record {
        first = f;
        not_paused = p;
        worker_free = w;
        active = omega arith;
        reserved = ap (λ (i : Item). e.reserved +ℤ i.size) same;
        runs = cc;
        quota = refl;
        settings = refl;
        row = refl;
        others = refl;
      },
)
claimed-ClaimSpec false now workers e (some (c, queue')) p w (item, same, f) = (
  item,
  same,
  unfold mark_queue_dirty claim in
      record {
        first = f;
        not_paused = p;
        worker_free = w;
        active = omega arith;
        reserved = ap (λ (i : Item). e.reserved +ℤ i.size) same;
        runs = refl;
        quota = refl;
        settings = refl;
        row = refl;
        others = refl;
      },
)

-- A claim that returns an item took the first row of the queue that can be taken: pending, out of its
-- backoff, free of a run and of a cleanup, and of an enabled job; it fits in the quota, the engine was
-- not paused and had a worker free. The row is running from now, with no error and one more attempt; one
-- more is active, the size is reserved, a run is registered if the scheduler asks, the queue is to be
-- written, and the other rows and all else in the engine stay. A claim that returns none changes nothing, and then
-- the engine is paused, or no worker is free, or no row can be taken, or the first that can be
-- taken does not fit in the quota.
pub take_next-ClaimSpec :
    (dispatching : Bool) (now workers : ℕ) (e : Engine)
    → ClaimSpec dispatching now workers e (take_next_with_run dispatching now workers e)
unfolding take_next_with_run
take_next-ClaimSpec dispatching now workers e = gated e.paused (leb workers e.active) refl refl
  where
    gated :
        (p w : Bool)
        → e.paused ≡ p
        → leb workers e.active ≡ w
        → ClaimSpec dispatching now workers e
            (if p || w then (none, e) else claimed dispatching e (pick e now e.queue))
    gated true w hp hw = (refl, inl hp)
    gated false true hp hw = (refl, inr (inl (leb→le _ _ hw)))
    gated false false hp hw =
        claimed-ClaimSpec dispatching now workers e (pick e now e.queue) hp (ground arith)
          (pick-PickSpec e now e.queue)
