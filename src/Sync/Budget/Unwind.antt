-- ===== src/Sync/Budget/Unwind.antt =====
-- The unwinding of a transfer, the release of its reservation and the roll of the period keep the budget.
use tdrive_aliyunpan.Base.{
  ◌≡◌, refl, sym, ap, ◌∙◌, subst, inl, inr, Bool, true, false, List, [], ◌∷◌, ◌++◌, none, some,
  arith, ℤ, pos, pos_part, neg_part, ◌+ℤ◌, ◌-ℤ◌, ◌≤ℤ◌, ltb_ℤ, int_laws, Text, text_eq, text_eq_iff,
  text_eq_sym, IsDistinct, All, Bool-cases, if◌then◌else◌,
}
use tdrive_aliyunpan.Base.Dict.{lookup, delete, lookup-delete}
use tdrive_aliyunpan.Sync.Item.{Item, is_running}
use tdrive_aliyunpan.Sync.Engine.{
  Engine, remove_text, Run, is_some, has_run, find_item, release_reservation, mark_quota_dirty,
}
use tdrive_aliyunpan.Sync.Claim.{roll_quota}
use tdrive_aliyunpan.Sync.History.{ids}
use tdrive_aliyunpan.Sync.Runs.{unwatch_item}
use tdrive_aliyunpan.Sync.Budget.{World, exposure}
use tdrive_aliyunpan.Sync.Budget.Sums.{
  total, held_total, Covered, Covered-delete, HeldSize, HeldSize-delete, held_total-delete,
}
use tdrive_aliyunpan.Sync.Budget.Invariant.{IsSound, budget_le}

-- The rows that still run keep their cover when a resting row's reservation is taken out.
Covered-rest :
    (id : Text) (held : List (Text × ℤ)) (q : List Item)
    → IsDistinct (ids q)
    → ((row : Item) → find_item id q ≡ some row → is_running row.state ≡ false)
    → All (Covered held) q
    → All (Covered (delete id held)) q
unfolding find_item
Covered-rest id held [] d r h = tt
Covered-rest id held (i ∷ q) d r h = elim (Bool-cases (text_eq i.id id)) [
  | inl e ↦ (
    (λ runs. absurd_row runs (r i (rw e refl))),
    Covered-delete id held q (rw (sym ((text_eq_iff i.id id).0 e)) d.0) h.1,
  )
  | inr e ↦ (
    (λ runs. lookup-delete id i.id held ∙ rw (text_eq_sym id i.id, e) (h.0 runs)),
    Covered-rest id held q d.1 (λ row f. r row (rw e f)) h.1,
  )
]
  where
    absurd_row :
        is_running i.state ≡ true
        → is_running i.state ≡ false
        → lookup i.id (delete id held) ≡ some i.size
    absurd_row a b = cc

held_size :
    (id : Text) (size : ℤ) (held : List (Text × ℤ))
    → lookup id held ≡ some size
    → All HeldSize held
    → pos 0 ≤ℤ size
unfolding lookup
held_size id size [] h a = cc
held_size id size ((k, n) ∷ held) h a = elim (Bool-cases (text_eq k id)) [
  | inl e ↦ subst (λ m. pos 0 ≤ℤ m) (ground arith) a.0
  | inr e ↦ held_size id size held (ground arith) a.1
]

total-middle :
    (before after : List ℤ) (n : ℤ) → total (before ++ n ∷ after) ≡ n +ℤ total (before ++ after)
total-middle [] after n = refl
total-middle (m ∷ before) after n =
    let rest = total-middle before after n in omega (int_laws, ap pos_part rest, ap neg_part rest)

All-without :
    (P : ℤ → Type 0) (before after : List ℤ) (n : ℤ)
    → All P (before ++ n ∷ after)
    → All P (before ++ after)
All-without P [] after n h = h.1
All-without P (m ∷ before) after n h = (h.0, All-without P before after n h.1)

module _ (most limit : ℤ) (w : World) (s : IsSound most limit w) where
  unwatched_agree :
      (id : Text) (j : Text)
      → has_run (unwatch_item id w.engine) j ≡ false
      → lookup j (delete id w.held) ≡ none
  unfolding has_run unwatch_item
  unwatched_agree id j h = lookup-delete id j w.held ∙ gone (text_eq id j) refl
    where
      left :
          (b : Bool)
          → is_some (
              lookup j
                (if b
                  then record w.engine {
                    runs = delete id w.engine.runs;
                    cancelling = remove_text id w.engine.cancelling;
                  }
                  else w.engine).runs)
            ≡ false
          → text_eq id j ≡ false
          → has_run w.engine j ≡ false
      left true h n = ground (arith, lookup-delete id j w.engine.runs)
      left false h n = h

      gone : (b : Bool) → text_eq id j ≡ b → (if b then none else lookup j w.held) ≡ none
      gone true t = refl
      gone false t = s.agree j (left (has_run w.engine id) h t)

  -- A field that the unwinding does not write.
  kept :
      {A : Type 0} (field : Engine → A) (id : Text)
      → ((runs : List (Text × Run)) (cancelling : List Text)
          → field (record w.engine { runs = runs; cancelling = cancelling }) ≡ field w.engine)
      → field (unwatch_item id w.engine) ≡ field w.engine
  unfolding unwatch_item
  kept field id same = elim (Bool-cases (has_run w.engine id)) [
    | inl e ↦ rw e (same _ _)
    | inr e ↦ rw e refl
  ]

  pub unwinds-IsSound :
      (id : Text) (size : ℤ)
      → lookup id w.held ≡ some size
      → ((row : Item) → find_item id w.engine.queue ≡ some row → is_running row.state ≡ false)
      → IsSound most limit (record w {
        engine = unwatch_item id w.engine;
        held = delete id w.held;
        leaving = size ∷ w.leaving;
      })
  unwinds-IsSound id size holds rests = record {
    limited = rw (kept (λ e. e.settings) id (λ l m. refl)) s.limited;
    sizes = rw (kept (λ e. e.queue) id (λ l m. refl)) s.sizes;
    distinct = rw (kept (λ e. e.queue) id (λ l m. refl)) s.distinct;
    covered =
        rw (kept (λ e. e.queue) id (λ l m. refl))
          (Covered-rest id w.held w.engine.queue s.distinct rests s.covered);
    held_sizes = HeldSize-delete id w.held s.held_sizes;
    leaving_sizes = (All-found_size, s.leaving_sizes);
    reserved =
        rw (kept (λ e. e.reserved) id (λ l m. refl))
          (omega (int_laws, held_total-delete id size w.held s.held_sizes holds, s.reserved));
    used = rw (kept (λ e. e.quota) id (λ l m. refl)) s.used;
    agree = unwatched_agree id;
    budget =
        rw (kept (λ e. e.queue) id (λ l m. refl), kept (λ e. e.quota) id (λ l m. refl)) s.budget;
  }
    where
      All-found_size : pos 0 ≤ℤ size
      All-found_size = held_size id size w.held holds s.held_sizes

  pub releases-IsSound :
      (before after : List ℤ) (size : ℤ)
      → w.leaving ≡ before ++ size ∷ after
      → IsSound most limit
          (record w { engine = release_reservation size w.engine; leaving = before ++ after })
  unfolding release_reservation has_run
  releases-IsSound before after size same = record {
    limited = s.limited;
    sizes = s.sizes;
    distinct = s.distinct;
    covered = s.covered;
    held_sizes = s.held_sizes;
    leaving_sizes =
        All-without (λ n. pos 0 ≤ℤ n) before after size
          (subst (λ l. All (λ n. pos 0 ≤ℤ n) l) same s.leaving_sizes);
    reserved = floored (ltb_ℤ (w.engine.reserved -ℤ size) (pos 0)) refl;
    used = s.used;
    agree = s.agree;
    budget = s.budget;
  }
    where
      split : total w.leaving ≡ size +ℤ total (before ++ after)
      split = ap total same ∙ total-middle before after size

      below : held_total w.held +ℤ total (before ++ after) ≤ℤ w.engine.reserved -ℤ size
      below = omega (int_laws, ap pos_part split, ap neg_part split, s.reserved)

      negative : (x : ℤ) → ltb_ℤ x (pos 0) ≡ true → x ≤ℤ pos 0
      negative x t = ground arith

      floored :
          (b : Bool)
          → ltb_ℤ (w.engine.reserved -ℤ size) (pos 0) ≡ b
          → held_total w.held +ℤ total (before ++ after)
            ≤ℤ (if b then pos 0 else w.engine.reserved -ℤ size)
      floored true t = omega (int_laws, below, negative (w.engine.reserved -ℤ size) t)
      floored false t = below

  pub rolls-IsSound :
      (day : Text) → IsSound most limit (record w { engine = roll_quota day w.engine })
  unfolding roll_quota
  rolls-IsSound day = elim (Bool-cases (text_eq w.engine.quota.day day)) [
    | inl e ↦ rw e s
    | inr e ↦ rw e fresh
  ]
    where
      emptied : Engine
      emptied =
          mark_quota_dirty (record w.engine { quota = record { day = day; used_bytes = pos 0 } })

      less : exposure emptied ≤ℤ exposure w.engine
      less = unfold mark_quota_dirty in omega (int_laws, s.used)

      fresh : IsSound most limit (record w { engine = emptied })
      fresh =
          unfold mark_quota_dirty has_run in
          record {
            limited = s.limited;
            sizes = s.sizes;
            distinct = s.distinct;
            covered = s.covered;
            held_sizes = s.held_sizes;
            leaving_sizes = s.leaving_sizes;
            reserved = s.reserved;
            used = omega arith;
            agree = s.agree;
            budget = budget_le (exposure w.engine) _ most limit less s.budget;
          }
