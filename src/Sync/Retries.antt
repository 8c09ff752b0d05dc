-- ===== src/Sync/Retries.antt =====
-- What follows a failed attempt: `permanentTransferError`, the deferrals, `retryLater` and `jitter` of
-- internal/sync/transfer.go. Times are milliseconds, and nanoseconds where `time.Now()` is added to.
-- The texts that `fmt` prints are an argument.
pub mod Laws
use tdrive_aliyunpan.Base.{
  ℕ, ◌+◌, ◌-◌, ◌*◌, ◌/◌, Bool, true, false, not, ◌||◌, List, [], ◌∷◌, Option, none, some, ℤ, pos,
  negsuc, Text, codes, ◌==◌, if◌then◌else◌,
}
use tdrive_aliyunpan.Settings.{allows}
use tdrive_aliyunpan.Settings.Backoff.{backoff}
use tdrive_aliyunpan.Sync.Item.{Item}
use tdrive_aliyunpan.Sync.Engine.{Engine, find_item}
use tdrive_aliyunpan.Sync.Outcome.{requeue, fail}

-- The errors that the code tells apart with `errors.Is`.
pub data ErrorKind : Type 0 where
  not_logged_in stage_room source_changed path_not_found other : ErrorKind

pub record Failure : Type 0 where
  pub kind : ErrorKind
  pub message : Text

abbrev pub permanent_transfer_error : ErrorKind → Bool
permanent_transfer_error source_changed = true
permanent_transfer_error path_not_found = true
permanent_transfer_error _ = false

-- `resourceWait`, in milliseconds.
abbrev pub resource_wait : ℕ
resource_wait = 30_000

unfoldable pub defer_until_login : Text → ℕ → Engine → Engine
defer_until_login id now e = requeue id (codes "等待重新登录阿里云盘") (now + resource_wait) false e

unfoldable pub defer_until_resource : Text → Text → ℕ → Engine → Engine
defer_until_resource id message now e = requeue id message (now + resource_wait) false e

unfoldable pub defer_until_restart : Text → Engine → Engine
defer_until_restart id e = requeue id (codes "插件重启，等待继续") 0 false e

abbrev offset_by : ℕ → ℕ → Option ℕ → ℕ
offset_by wait spread none = wait
offset_by wait spread (some offset) = wait - spread + offset

-- `jitter`; `offset` is `rand.Int`'s answer, below twice the spread, or none if it fails.
unfoldable pub jitter : Option ℕ → ℤ → ℕ
jitter offset (negsuc n) = 0
jitter offset (pos wait) =
    let spread = wait / 5 in if spread == 0 then wait else offset_by wait spread offset

-- `ctx.Err()`
pub data Context : Type 0 where
  alive deadline_exceeded cancelled : Context

abbrev is_cut : Context → Bool
is_cut cancelled = true
is_cut _ = false

pub record Format : Type 0 where
  pub give_up : ℕ → Text → Text
  pub retry : ℕ → ℤ → ℕ → Text → Text

abbrev pub attempts_of : Option Item → ℕ
attempts_of none = 0
attempts_of (some i) = i.attempts

-- The engine, whether to wake the scheduler, and the rows that the history dropped.
pub record Settled : Type 0 where
  pub engine : Engine
  pub wake : Bool
  pub dropped : List Item

abbrev pub gave_up : List Item × Engine → Settled
gave_up (dropped, e) = record { engine = e; wake = true; dropped = dropped }

abbrev pub parked : Engine → Settled
parked e = record { engine = e; wake = false; dropped = [] }

-- `retryLater`, at a time in nanoseconds.
unfoldable pub retry_later : Format → Context → Option ℕ → ℕ → Text → Text → Engine → Settled
retry_later f context offset now id message e =
    let attempts = attempts_of (find_item id e.queue) in
    let policy = e.settings.retry in
    let wait = jitter offset (backoff policy (pos attempts)) in
    if e.stopping || is_cut context
    then parked (defer_until_restart id e)
    else if not (allows policy (pos attempts))
    then gave_up (fail id (now / 1_000_000) (f.give_up attempts message) e)
    else parked (
        requeue id (f.retry attempts policy.max_attempts wait message) ((now + wait) / 1_000_000)
          true e)
