-- ===== src/Settings.antt =====
-- The configuration document of internal/settings/settings.go: its records and constants.
-- Go's `int` and `int64` fields are integers; a nil slice and an empty one are the same list.
pub mod Clock
pub mod Calendar
pub mod Window
pub mod Period
pub mod Backoff
pub mod Paths
pub mod Normalize
pub mod Tests
use tdrive_aliyunpan.Base.{ℕ, ◌*◌, ◌^◌, ◌≡◌, Bool, true, false, List, [], ◌∷◌, Option, none, some}
use tdrive_aliyunpan.Base.{ℤ, pos, ltb_ℤ, Text, codes, text_eq, if◌then◌else◌}

pub record Retry : Type 0 where
  pub max_attempts : ℤ
  pub initial_seconds : ℤ
  pub max_seconds : ℤ

pub record Schedule : Type 0 where
  pub enabled : Bool
  pub window_start : Text
  pub window_end : Text
  pub interval_minutes : ℤ

pub record Quota : Type 0 where
  pub daily_bytes : ℤ
  pub reset_at : Text

pub record Job : Type 0 where
  pub id : Text
  pub name : Text
  pub enabled : Bool
  pub drive_name : Text
  pub remote_path : Text
  pub target_path : Text
  pub include_files : List Text
  pub include_dirs : List Text
  pub exclude_names : List Text
  pub min_size_bytes : ℤ
  pub max_size_bytes : ℤ
  pub overwrite : Bool
  pub delete_after_upload : Bool

pub record Settings : Type 0 where
  pub binary_path : Text
  pub stage_dir : Text
  pub stage_limit_bytes : ℤ
  pub owner_user_id : Text
  pub download_rate : Text
  pub download_concurrency : ℤ
  pub delete_local_after_upload : Bool
  pub retry : Retry
  pub schedule : Schedule
  pub quota : Quota
  pub jobs : List Job

abbrev pub default_daily_bytes : ℤ
default_daily_bytes = pos (20 * 2 ^ 30)

abbrev pub default_interval : ℤ
default_interval = pos 15

abbrev pub default_download_concurrency : ℤ
default_download_concurrency = pos 2

abbrev pub min_interval_minutes : ℤ
min_interval_minutes = pos 1

abbrev pub max_interval_minutes : ℤ
max_interval_minutes = pos (24 * 60)

abbrev pub max_exclude_pattern_len : ℕ
max_exclude_pattern_len = 512

abbrev pub max_download_concurrency : ℤ
max_download_concurrency = pos 32

abbrev pub default_drive_name : Text
default_drive_name = codes "backup"

abbrev pub default_retry_attempts : ℤ
default_retry_attempts = pos 5

abbrev pub default_retry_initial_seconds : ℤ
default_retry_initial_seconds = pos 30

abbrev pub default_retry_max_seconds : ℤ
default_retry_max_seconds = pos (30 * 60)

abbrev pub max_retry_attempts : ℤ
max_retry_attempts = pos 100

abbrev pub max_retry_backoff_seconds : ℤ
max_retry_backoff_seconds = pos (24 * 60 * 60)

-- `Default`.
abbrev pub default_settings : Settings
default_settings = record {
  binary_path = [];
  stage_dir = [];
  stage_limit_bytes = pos 0;
  owner_user_id = [];
  download_rate = [];
  download_concurrency = default_download_concurrency;
  delete_local_after_upload = true;
  retry = record {
    max_attempts = default_retry_attempts;
    initial_seconds = default_retry_initial_seconds;
    max_seconds = default_retry_max_seconds;
  };
  schedule = record {
    enabled = true;
    window_start = [];
    window_end = [];
    interval_minutes = default_interval;
  };
  quota = record { daily_bytes = default_daily_bytes; reset_at = codes "00:00" };
  jobs = [];
}

-- `Retry.Allows`.
abbrev pub allows : Retry → ℤ → Bool
allows r attempts = ltb_ℤ attempts r.max_attempts

-- The loop of `Settings.JobByID`.
unfoldable pub job_by_id : Text → List Job → Option Job
job_by_id id [] = none
job_by_id id (job ∷ jobs) = if text_eq job.id id then some job else job_by_id id jobs
