-- ===== src/Settings/Backoff.antt =====
-- The retry policy: `Retry.Backoff` and `Retry.normalize` of internal/settings/settings.go.
-- A `time.Duration` is an int64 of nanoseconds, and its products and doublings wrap.
pub mod Laws
use tdrive_aliyunpan.Base.{
  ℕ, zero, suc, ◌+◌, ◌-◌, ◌*◌, ◌%◌, ◌^◌, Bool, true, false, ◌||◌, Option, none, some, ℤ, pos,
  negsuc, pos_part, ltb, ltb_ℤ, leb_ℤ, eqb_ℤ, if◌then◌else◌,
}
use tdrive_aliyunpan.Settings.{
  Retry, default_retry_attempts, default_retry_initial_seconds, default_retry_max_seconds,
  max_retry_attempts, max_retry_backoff_seconds,
}

-- The bits of an int64, and the int64 of such bits.
abbrev word : ℤ → ℕ
word (pos n) = n % 2 ^ 64
word (negsuc n) = 2 ^ 64 - 1 - n % 2 ^ 64

abbrev signed : ℕ → ℤ
signed w = if ltb w (2 ^ 63) then pos w else negsuc (2 ^ 64 - 1 - w)

abbrev pub wrap64 : ℤ → ℤ
wrap64 z = signed (word z)

-- k * z for a positive k.
abbrev pub scale : ℕ → ℤ → ℤ
scale k (pos n) = pos (k * n)
scale k (negsuc n) = negsuc (k * (n + 1) - 1)

-- `time.Duration(n) * time.Second`.
pub seconds : ℤ → ℤ
seconds n = wrap64 (scale 1_000_000_000 n)

-- The loop, for the given number of doublings.
pub backoff_loop : ℕ → ℤ → ℤ → ℤ
backoff_loop zero wait maximum = if ltb_ℤ maximum wait then maximum else wait
backoff_loop (suc steps) wait maximum =
    let doubled = wrap64 (scale 2 wait) in
    let rest = backoff_loop steps doubled maximum in if leb_ℤ maximum doubled then maximum else rest

pub backoff : Retry → ℤ → ℤ
backoff r attempts =
    let made : ℤ = if ltb_ℤ attempts (pos 1) then pos 1 else attempts in
    backoff_loop (pos_part made - 1) (seconds r.initial_seconds) (seconds r.max_seconds)

pub data RetryError : Type 0 where
  bad_attempts bad_initial bad_maximum maximum_below_initial : RetryError

pub data RetryResult : Type 0 where
  kept : Retry → RetryResult
  refused : RetryError → RetryResult

-- Zero means unset.
abbrev or_default : ℤ → ℤ → ℤ
or_default n d = if eqb_ℤ n (pos 0) then d else n

abbrev out_of_range : ℤ → ℤ → Bool
out_of_range n high = ltb_ℤ n (pos 1) || ltb_ℤ high n

unfoldable pub check_retry : Retry → RetryResult
check_retry r =
    if out_of_range r.max_attempts max_retry_attempts
    then refused bad_attempts
    else if out_of_range r.initial_seconds max_retry_backoff_seconds
    then refused bad_initial
    else if out_of_range r.max_seconds max_retry_backoff_seconds
    then refused bad_maximum
    else if ltb_ℤ r.max_seconds r.initial_seconds
    then refused maximum_below_initial
    else kept r

abbrev with_defaults : Retry → Retry
with_defaults r = record {
  max_attempts = or_default r.max_attempts default_retry_attempts;
  initial_seconds = or_default r.initial_seconds default_retry_initial_seconds;
  max_seconds = or_default r.max_seconds default_retry_max_seconds;
}

unfoldable pub normalize_retry : Retry → RetryResult
normalize_retry r = check_retry (with_defaults r)
