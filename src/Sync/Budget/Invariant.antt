-- ===== src/Sync/Budget/Invariant.antt =====
-- The daily quota is never exceeded, whatever the order of the steps.
use tdrive_aliyunpan.Base.{
  ℕ, ◌≡◌, refl, subst, sym, ap, ◌∙◌, ◌⊎◌, inl, inr, Bool, true, false, List, [], ◌∷◌, ◌++◌, none,
  some, arith, ℤ, pos, pos_part, neg_part, ◌+ℤ◌, ◌≤ℤ◌, ◌<ℤ◌, leb_ℤ, eqb_ℤ, int_laws, Text, text_eq,
  IsDistinct, All, Bool-cases, if◌then◌else◌,
}
use tdrive_aliyunpan.Base.Dict.{lookup, lookup-insert}
use tdrive_aliyunpan.Sync.Item.{Item, is_pending}
use tdrive_aliyunpan.Sync.Engine.{Engine, Run, is_some, has_run, register_run}
use tdrive_aliyunpan.Sync.Claim.{quota_allows, claim}
use tdrive_aliyunpan.Sync.Claim.Laws.{IsTaken}
use tdrive_aliyunpan.Sync.History.{ids}
use tdrive_aliyunpan.Sync.Budget.{World, running_bytes, exposure}
use tdrive_aliyunpan.Sync.Budget.Rows.{IsDistinct-Calmer}
use tdrive_aliyunpan.Sync.Budget.Sums.{
  total, held_total, IsSize, Covered, HeldSize, running_bytes-Calmer, running_bytes-le,
  IsSize-Calmer, Covered-Calmer,
}
use tdrive_aliyunpan.Sync.Budget.Writes.{
  claim-IsDistinct, claim-All, running_bytes-claim, claim-Covered,
}
use tdrive_aliyunpan.Sync.Budget.Calm.{CalmStep}

-- What holds between any two steps. `most` bounds the size of a file.
pub record IsSound (most limit : ℤ) (w : World) : Type 0 where
  pub limited : w.engine.settings.quota.daily_bytes ≡ limit
  pub sizes : All (IsSize most) w.engine.queue
  pub distinct : IsDistinct (ids w.engine.queue)
  pub covered : All (Covered w.held) w.engine.queue
  pub held_sizes : All HeldSize w.held
  pub leaving_sizes : All (λ n. pos 0 ≤ℤ n) w.leaving
  pub reserved : held_total w.held +ℤ total w.leaving ≤ℤ w.engine.reserved
  pub used : pos 0 ≤ℤ w.engine.quota.used_bytes
  pub agree : (id : Text) → has_run w.engine id ≡ false → lookup id w.held ≡ none
  pub budget : (exposure w.engine ≤ℤ limit) ⊎ (exposure w.engine ≤ℤ most)

-- Less exposure keeps the budget.
pub budget_le :
    (a b most limit : ℤ) → b ≤ℤ a → (a ≤ℤ limit) ⊎ (a ≤ℤ most) → (b ≤ℤ limit) ⊎ (b ≤ℤ most)
budget_le a b most limit h (inl x) = inl (omega (arith, h, x))
budget_le a b most limit h (inr x) = inr (omega (arith, h, x))

pub CalmStep-IsSound :
    (most limit : ℤ) (w : World) (e : Engine)
    → CalmStep w.engine e
    → IsSound most limit w
    → IsSound most limit (record w { engine = e })
CalmStep-IsSound most limit w e c s = record {
  limited = rw c.settings s.limited;
  sizes = IsSize-Calmer most c.rows s.sizes;
  distinct = IsDistinct-Calmer c.rows s.distinct;
  covered = Covered-Calmer w.held c.rows s.covered;
  held_sizes = s.held_sizes;
  leaving_sizes = s.leaving_sizes;
  reserved = rw c.reserved s.reserved;
  used = rw c.used s.used;
  agree = λ id h. s.agree id (c.runs id h);
  budget = rw c.used (
      budget_le (exposure w.engine) _ most limit
        (omega (int_laws, running_bytes-Calmer most c.rows s.sizes)) s.budget);
}

total-nonneg : (ns : List ℤ) → All (λ n. pos 0 ≤ℤ n) ns → pos 0 ≤ℤ total ns
total-nonneg [] h = omega arith
total-nonneg (n ∷ ns) h = omega (int_laws, h.0, total-nonneg ns h.1)

running_reserved :
    (most limit : ℤ) (w : World)
    → IsSound most limit w
    → running_bytes w.engine.queue ≤ℤ w.engine.reserved
running_reserved most limit w s = omega (
  int_laws,
  running_bytes-le most w.held w.engine.queue s.held_sizes s.sizes s.distinct s.covered,
  total-nonneg w.leaving s.leaving_sizes,
  s.reserved,
)

-- What the quota's test lets through.
quota_allows-le :
    (e : Engine) (n : ℤ)
    → pos 0 <ℤ e.settings.quota.daily_bytes
    → quota_allows e n ≡ true
    → (e.quota.used_bytes +ℤ e.reserved +ℤ n ≤ℤ e.settings.quota.daily_bytes)
      ⊎ (e.quota.used_bytes +ℤ e.reserved +ℤ n ≤ℤ n)
unfolding quota_allows
quota_allows-le e n p h =
    elim (Bool-cases (leb_ℤ (e.quota.used_bytes +ℤ e.reserved +ℤ n) e.settings.quota.daily_bytes)) [
      | inl a ↦ inl (ground arith)
      | inr a ↦ inr (rest (ground arith) (ground arith))
    ]
  where
    rest :
        eqb_ℤ e.quota.used_bytes (pos 0) ≡ true
        → eqb_ℤ e.reserved (pos 0) ≡ true
        → e.quota.used_bytes +ℤ e.reserved +ℤ n ≤ℤ n
    rest a b = omega (int_laws, zero e.quota.used_bytes a, zero e.reserved b)
      where
        zero : (z : ℤ) → eqb_ℤ z (pos 0) ≡ true → z ≤ℤ pos 0
        zero z h = ground arith

All-middle : (P : Item → Type 0) (b a : List Item) (i : Item) → All P (b ++ i ∷ a) → P i
All-middle P [] a i h = h.0
All-middle P (x ∷ b) a i h = All-middle P b a i h.1

module _ (most limit : ℤ) (positive : pos 0 <ℤ limit) (w : World) (s : IsSound most limit w) where
  claimed_agree :
      (item : Item) (e : Engine)
      → e.runs ≡ (register_run item.id w.engine).runs
      → (id : Text) → has_run e id ≡ false
      → lookup id ((item.id, item.size) ∷ w.held) ≡ none
  unfolding has_run register_run lookup
  claimed_agree item e runs id h = shown (text_eq item.id id) refl
    where
      run : Run
      run = record { cancel_requested = false; started = false; interrupted = false }

      after : is_some (if text_eq item.id id then some run else lookup id w.engine.runs) ≡ false
      after = ap is_some (sym (lookup-insert item.id id run w.engine.runs)) ∙ (rw (sym runs) h)

      shown :
          (b : Bool)
          → text_eq item.id id ≡ b
          → (if b then some item.size else lookup id w.held) ≡ none
      shown true x = ground (arith, after, x)
      shown false x = s.agree id (ground (arith, after, x))

  pub claims-IsSound :
      (now workers : ℕ) (item : Item) (e : Engine)
      → IsTaken true now workers w.engine item e
      → IsSound most limit (record w { engine = e; held = (item.id, item.size) ∷ w.held })
  claims-IsSound now workers item e t = record {
    limited = rw t.settings s.limited;
    sizes =
        rw t.first.becomes
          (claim-All (IsSize most) now t.first.before t.first.after item size_claim rows);
    distinct = rw t.first.becomes (
        claim-IsDistinct now t.first.before t.first.after item
          (subst (λ q. IsDistinct (ids q)) t.first.was s.distinct));
    covered = rw t.first.becomes (
        claim-Covered w.held now t.first.before t.first.after item
          (subst (λ q. IsDistinct (ids q)) t.first.was s.distinct)
          (subst (λ q. All (Covered w.held) q) t.first.was s.covered));
    held_sizes = (size.0, s.held_sizes);
    leaving_sizes = s.leaving_sizes;
    reserved = rw t.reserved (omega (int_laws, s.reserved));
    used = rw t.quota s.used;
    agree = claimed_agree item e t.runs;
    budget =
        rw t.quota
          (within (quota_allows-le w.engine item.size (rw s.limited positive) t.first.fits));
  }
    where
      rows : All (IsSize most) (t.first.before ++ item ∷ t.first.after)
      rows = subst (λ q. All (IsSize most) q) t.first.was s.sizes

      size : IsSize most item
      size = All-middle (IsSize most) t.first.before t.first.after item rows

      size_claim : IsSize most (claim now item)
      size_claim = unfold claim in size

      pending : is_pending item.state ≡ true
      pending = ap is_pending t.first.eligible.pending

      grown : running_bytes e.queue ≡ running_bytes w.engine.queue +ℤ item.size
      grown =
          ap running_bytes t.first.becomes
          ∙ running_bytes-claim now t.first.before t.first.after item pending
          ∙ ap (λ q. running_bytes q +ℤ item.size) (sym t.first.was)

      exposed : ℤ
      exposed = w.engine.quota.used_bytes +ℤ running_bytes e.queue

      charged : ℤ
      charged = w.engine.quota.used_bytes +ℤ w.engine.reserved +ℤ item.size

      less : exposed ≤ℤ charged
      less = omega (int_laws, ap pos_part grown, ap neg_part grown, running_reserved most limit w s)

      within :
          (charged ≤ℤ w.engine.settings.quota.daily_bytes) ⊎ (charged ≤ℤ item.size)
          → (exposed ≤ℤ limit) ⊎ (exposed ≤ℤ most)
      within (inl x) = inl (omega (arith, less, x, ap pos_part s.limited, ap neg_part s.limited))
      within (inr x) = inr (omega (arith, less, x, size.1))
