-- ===== src/Sync/Retries/Laws.antt =====
-- When a failed transfer is tried again.
use tdrive_aliyunpan.Base.{
  ℕ, suc, ◌+◌, ◌-◌, ◌*◌, ◌/◌, ◌^◌, ◌<◌, ◌≤◌, min, ◌≡◌, refl, ap, ◌∙◌, Bool, true, false, ◌||◌,
  Option, none, some, pos, pos_part, Text, arith,
}
use tdrive_aliyunpan.Settings.{allows}
use tdrive_aliyunpan.Settings.Backoff.{backoff}
use tdrive_aliyunpan.Settings.Backoff.Laws.{IsPolicy, backoff-min}
use tdrive_aliyunpan.Sync.Item.{Item, State}
use tdrive_aliyunpan.Sync.Engine.{Engine, find_item, modify, mark_queue_dirty}
use tdrive_aliyunpan.Sync.Outcome.{is_stopped, requeued, requeue}
use tdrive_aliyunpan.Sync.Upload.Open.{find_item-modify, map_item}
use tdrive_aliyunpan.Sync.Retries.{Context, is_cut, Format, jitter, attempts_of, retry_later}

-- What `rand.Int` may answer for a wait.
abbrev pub IsOffset : ℕ → Option ℕ → Type 0
IsOffset wait none = Unit
IsOffset wait (some offset) = offset < 2 * (wait / 5)

jitter_bounds :
    (wait : ℕ) (offset : Option ℕ)
    → IsOffset wait offset
    → (wait - wait / 5 ≤ jitter offset (pos wait)) × (jitter offset (pos wait) ≤ wait + wait / 5)
unfolding jitter
jitter_bounds wait none h = ground arith
jitter_bounds wait (some offset) h = ground arith

or_false : {a b : Bool} → a ≡ false → b ≡ false → (a || b) ≡ false
or_false h k = ground arith

-- The queue after a failed attempt with attempts left.
retry_later-queue :
    (f : Format) (context : Context) (offset : Option ℕ) (now n : ℕ) (id message : Text)
    (e : Engine)
    → attempts_of (find_item id e.queue) ≡ suc n
    → is_stopped e id ≡ false
    → (e.stopping || is_cut context) ≡ false
    → allows e.settings.retry (pos (suc n)) ≡ true
    → (retry_later f context offset now id message e).engine.queue
      ≡ modify id
          (requeued
            (f.retry
              (suc n)
              e.settings.retry.max_attempts
              (jitter offset (backoff e.settings.retry (pos (suc n))))
              message)
            ((now + jitter offset (backoff e.settings.retry (pos (suc n)))) / 1_000_000)
            true)
          e.queue
unfolding retry_later requeue mark_queue_dirty
retry_later-queue f context offset now n id message e made stopped running allowed =
    rw (running, made, allowed, stopped) refl

-- A quotient by the milliseconds.
millis_mono : (a b : ℕ) → a ≤ b → a / 1_000_000 ≤ b / 1_000_000
millis_mono a b h = omega arith

-- A failed transfer that has attempts left goes back to the queue with the attempt charged. Its
-- next attempt is not before the policy's wait for that attempt less a fifth, and it is due after the wait and a
-- fifth more, at the latest: the wait after attempt n + 1 is the initial wait times 2 ^ n, or the
-- maximum if that is less. The row is on the queue, the operator has not stopped it, the engine is
-- not stopping, the context is not cancelled and the policy is normalized.
pub retry_later-waits :
    (f : Format) (context : Context) (offset : Option ℕ) (now n : ℕ) (id message : Text)
    (row : Item) (e : Engine)
    → find_item id e.queue ≡ some row
    → row.attempts ≡ suc n
    → is_stopped e id ≡ false
    → e.stopping ≡ false
    → is_cut context ≡ false
    → IsPolicy e.settings.retry
    → allows e.settings.retry (pos (suc n)) ≡ true
    → IsOffset
        (1_000_000_000
          * min
              (pos_part e.settings.retry.initial_seconds * 2 ^ n)
              (pos_part e.settings.retry.max_seconds))
        offset
    → (row' : Item) × (find_item id (retry_later f context offset now id message e).engine.queue
        ≡ some row')
      × (row'.state ≡ State.pending)
      × (row'.attempts ≡ suc n)
      × ((now
              + 800_000_000
                * min
                    (pos_part e.settings.retry.initial_seconds * 2 ^ n)
                    (pos_part e.settings.retry.max_seconds))
            / 1_000_000
          ≤ row'.next_attempt_at)
      × (row'.next_attempt_at
          ≤ (now
              + 1_200_000_000
                * min
                    (pos_part e.settings.retry.initial_seconds * 2 ^ n)
                    (pos_part e.settings.retry.max_seconds))
            / 1_000_000)
unfolding requeued
retry_later-waits f context offset now n id message row e found made stopped running alive policy
      allowed drawn =
    let w : ℕ =
      min (pos_part e.settings.retry.initial_seconds * 2 ^ n)
        (pos_part e.settings.retry.max_seconds) in
    let b = jitter_bounds (1_000_000_000 * w) offset drawn in
    let wait : backoff e.settings.retry (pos (suc n)) ≡ pos (1_000_000_000 * w) =
      backoff-min e.settings.retry n policy in
    let bounds : (800_000_000 * w ≤ jitter offset (backoff e.settings.retry (pos (suc n))))
        × (jitter offset (backoff e.settings.retry (pos (suc n))) ≤ 1_200_000_000 * w) =
      rw wait (omega (arith, b.0), omega (arith, b.1)) in
    let queue =
      retry_later-queue f context offset now n id message e (ap attempts_of found ∙ made) stopped
        (or_false running alive) allowed in
    (
      requeued _ _ true row,
      ap (find_item id) queue ∙ find_item-modify id _ e.queue (λ i. refl) ∙ ap (map_item _) found,
      refl,
      made,
      millis_mono _ _ (omega (arith, bounds.0)),
      millis_mono _ _ (omega (arith, bounds.1)),
    )
