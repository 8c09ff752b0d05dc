-- ===== src/Settings/Backoff/Laws.antt =====
-- What a normalized retry policy promises.
use native.Mathlib.Nat.{mul-le-mul_left, pow-suc, one-le-pow}
use tdrive_aliyunpan.Base.{
  ℕ, zero, suc, ◌*◌, ◌^◌, ◌≤◌, ◌≡◌, sym, subst, ap, ◌∙◌, min, arith, ℤ, pos, negsuc, pos_part, ◌≤ℤ◌,
  leb, Bool-cases, inl, inr,
}
use tdrive_aliyunpan.Settings.{Retry}
use tdrive_aliyunpan.Settings.Backoff.{
  seconds, backoff_loop, backoff, kept, check_retry, or_default, with_defaults, normalize_retry,
  wrap64, scale,
}

-- A policy that `normalize_retry` lets through.
pub record IsPolicy (r : Retry) : Type 0 where
  pub attempts_low : pos 1 ≤ℤ r.max_attempts
  pub attempts_high : r.max_attempts ≤ℤ pos 100
  pub initial_low : pos 1 ≤ℤ r.initial_seconds
  pub ordered : r.initial_seconds ≤ℤ r.max_seconds
  pub maximum_high : r.max_seconds ≤ℤ pos 86400

check_retry-kept : (r s : Retry) → check_retry r ≡ kept s → (s ≡ r) × IsPolicy r
unfolding check_retry
check_retry-kept r s h = (ground arith, ground arith)

IsPolicy-check_retry : (r : Retry) → IsPolicy r → check_retry r ≡ kept r
unfolding check_retry
IsPolicy-check_retry r p = ground arith

or_default_pos : (n d : ℤ) → pos 1 ≤ℤ n → or_default n d ≡ n
or_default_pos (pos n) d h = ground arith
or_default_pos (negsuc n) d h = absurd (omega arith)

IsPolicy-normalize_retry : (r : Retry) → IsPolicy r → normalize_retry r ≡ kept r
unfolding normalize_retry
IsPolicy-normalize_retry r p =
    rw
      (
        or_default_pos r.max_attempts _ p.attempts_low,
        or_default_pos r.initial_seconds _ p.initial_low,
        or_default_pos r.max_seconds _ (omega (arith, p.initial_low, p.ordered)),
      )
      (IsPolicy-check_retry r p)

-- Whatever policy `normalize_retry` returns is within its bounds, and normalizing it again returns it
-- unchanged.
pub normalize_retry-IsPolicy :
    (r s : Retry) → normalize_retry r ≡ kept s → IsPolicy s × (normalize_retry s ≡ kept s)
unfolding normalize_retry
normalize_retry-IsPolicy r s h =
    let (same, policy) = check_retry-kept (with_defaults r) s h in
    let valid : IsPolicy s = subst IsPolicy (sym same) policy in
    (valid, IsPolicy-normalize_retry s valid)

seconds_of_pos :
    (n : ℤ) → pos 1 ≤ℤ n → n ≤ℤ pos 86400 → seconds n ≡ pos (1_000_000_000 * pos_part n)
unfolding seconds
seconds_of_pos (pos n) h k = ground arith
seconds_of_pos (negsuc n) h k = absurd (omega arith)

pos_part_mono : (a b : ℤ) → pos 0 ≤ℤ a → a ≤ℤ b → pos_part a ≤ pos_part b
pos_part_mono (pos a) (pos b) h k = omega arith
pos_part_mono (pos a) (negsuc b) h k = absurd (omega arith)
pos_part_mono (negsuc a) b h k = absurd (omega arith)

doubling : (w : ℕ) → w ≤ 86_400_000_000_000 → wrap64 (scale 2 (pos w)) ≡ pos (2 * w)
doubling w h = ground arith

max_below : (a m : ℕ) → m ≤ a → min a m ≡ m
max_below a m h = omega arith

grown : (steps wait m : ℕ) → m ≤ 2 * wait → m ≤ wait * 2 ^ suc steps
grown steps wait m h =
    rw (pow-suc 2 steps) (omega (arith, h, mul-le-mul_left wait (one-le-pow steps 2 (omega arith))))

regroup : (steps wait : ℕ) → wait * 2 ^ suc steps ≡ 2 * wait * 2 ^ steps
regroup steps wait = rw (pow-suc 2 steps) (omega arith)

-- Without wrap-around the loop doubles, up to the maximum.
backoff_loop-min :
    (steps wait maximum : ℕ)
    → wait ≤ maximum
    → maximum ≤ 86_400_000_000_000
    → backoff_loop steps (pos wait) (pos maximum) ≡ pos (min (wait * 2 ^ steps) maximum)
unfolding backoff_loop
backoff_loop-min zero wait maximum h k = ground arith
backoff_loop-min (suc steps) wait maximum h k = elim (Bool-cases (leb maximum (2 * wait))) [
  | inl e ↦ rw (doubling wait (omega arith)) (
      ground
        (arith, max_below (wait * 2 ^ suc steps) maximum (grown steps wait maximum (ground arith))))
  | inr e ↦ rw (doubling wait (omega arith)) (
      ground
        (arith, backoff_loop-min steps (2 * wait) maximum (ground arith) k, regroup steps wait))
]

-- The wait before attempt n + 1 is the initial wait times 2 ^ (n - 1), or the maximum if that is less:
-- in nanoseconds, for a normalized policy. No doubling overflows.
pub backoff-min :
    (r : Retry) (n : ℕ)
    → IsPolicy r
    → backoff r (pos (suc n))
      ≡ pos (1_000_000_000 * min (pos_part r.initial_seconds * 2 ^ n) (pos_part r.max_seconds))
unfolding backoff
backoff-min r n p =
    rw
      (
        seconds_of_pos r.initial_seconds p.initial_low (omega (arith, p.ordered, p.maximum_high)),
        seconds_of_pos r.max_seconds (omega (arith, p.ordered, p.initial_low)) p.maximum_high,
      )
      (ground (arith, doubled))
  where
    ordered : pos_part r.initial_seconds ≤ pos_part r.max_seconds
    ordered = pos_part_mono r.initial_seconds r.max_seconds (omega (arith, p.initial_low)) p.ordered

    high : pos_part r.max_seconds ≤ 86400
    high =
        pos_part_mono r.max_seconds (pos 86400) (omega (arith, p.initial_low, p.ordered))
          p.maximum_high

    doubled :
        backoff_loop n
          (pos (1_000_000_000 * pos_part r.initial_seconds))
          (pos (1_000_000_000 * pos_part r.max_seconds))
        ≡ pos (1_000_000_000 * min (pos_part r.initial_seconds * 2 ^ n) (pos_part r.max_seconds))
    doubled =
        backoff_loop-min n (1_000_000_000 * pos_part r.initial_seconds)
          (1_000_000_000 * pos_part r.max_seconds) (omega (arith, ordered)) (omega (arith, high))
        ∙ ap pos (omega arith)
