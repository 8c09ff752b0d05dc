-- ===== src/Settings/Tests.antt =====
-- The settings' theorems at concrete inputs.
use tdrive_aliyunpan.Base.{
  ◌*◌, ◌^◌, ◌<◌, ◌≤◌, ◌≡◌, refl, ◌↔◌, true, false, [], ◌∷◌, ◌++◌, some, arith, pos, codes, min,
  has_prefix,
}
use tdrive_aliyunpan.Settings.{Settings, Schedule, Quota, Retry, Job, default_settings}
use tdrive_aliyunpan.Settings.Calendar.{Moment, minute_of_day, fixed_offset, fixed_offset-IsCivil}
use tdrive_aliyunpan.Settings.Clock.{clock_match, minutes_of_day}
use tdrive_aliyunpan.Settings.Window.{open_at, open_now, next_open}
use tdrive_aliyunpan.Settings.Window.Laws.{IsOpen, open_now-IsOpen, next_open-first}
use tdrive_aliyunpan.Settings.Period.{reset_minute, period_start, next_reset, quota_day}
use tdrive_aliyunpan.Settings.Period.Laws.{quota_day-period}
use tdrive_aliyunpan.Settings.Backoff.{kept, backoff, check_retry, normalize_retry}
use tdrive_aliyunpan.Settings.Backoff.Laws.{IsPolicy, backoff-min}
use tdrive_aliyunpan.Settings.Paths.{trim_right, clean_cloud_path}
use tdrive_aliyunpan.Settings.Paths.Clean.{IsName}
use tdrive_aliyunpan.Settings.Paths.Unstable.{clean_cloud_path_unstable}
use tdrive_aliyunpan.Settings.Normalize.{Platform}

-- Ten to midnight on the fourth day, with a window from 23:00 to 06:30.
abbrev night : Schedule
night = record {
  enabled = true;
  window_start = codes "23:00";
  window_end = codes "06:30";
  interval_minutes = pos 15;
}

abbrev late : Moment
late = record { on_day = 4; at_minute = 1430; at_ms = 7 }

abbrev noon : Moment
noon = record { on_day = 4; at_minute = 720; at_ms = 0 }

open_now-IsOpen_example :
    (open_now fixed_offset night late ≡ true)
    ↔ IsOpen
        (minutes_of_day (codes "23:00"))
        (minutes_of_day (codes "06:30"))
        (minute_of_day fixed_offset late)
open_now-IsOpen_example = open_now-IsOpen fixed_offset fixed_offset-IsCivil night late refl

closed_at_noon : open_now fixed_offset night noon ≡ false
unfolding open_now open_at minutes_of_day clock_match
closed_at_noon = refl

next_open-first_example :
    (t : Moment) × (next_open fixed_offset night noon ≡ some t)
    × (fixed_offset.instant noon < fixed_offset.instant t)
    × (open_now fixed_offset night t ≡ true)
    × ((u : Moment)
        → fixed_offset.instant noon ≤ fixed_offset.instant u
        → fixed_offset.instant u < fixed_offset.instant t
        → open_now fixed_offset night u ≡ false)
next_open-first_example =
    next_open-first fixed_offset fixed_offset-IsCivil night noon refl closed_at_noon

abbrev morning_reset : Quota
morning_reset = record { daily_bytes = pos 100; reset_at = codes "08:00" }

noon_not_before :
    fixed_offset.instant (period_start fixed_offset morning_reset late) ≤ fixed_offset.instant noon
unfolding period_start reset_minute minutes_of_day clock_match
noon_not_before = omega arith

noon_before_reset :
    fixed_offset.instant noon < fixed_offset.instant (next_reset fixed_offset morning_reset late)
unfolding next_reset period_start reset_minute minutes_of_day clock_match
noon_before_reset = omega arith

quota_day-period_example :
    (period_start fixed_offset morning_reset noon ≡ period_start fixed_offset morning_reset late)
    × (quota_day fixed_offset morning_reset noon ≡ quota_day fixed_offset morning_reset late)
quota_day-period_example =
    quota_day-period fixed_offset fixed_offset-IsCivil morning_reset late noon (omega arith)
      (omega arith) noon_not_before noon_before_reset

abbrev unset_policy : Retry
unset_policy = record { max_attempts = pos 0; initial_seconds = pos 10; max_seconds = pos 0 }

abbrev policy : Retry
policy = record { max_attempts = pos 5; initial_seconds = pos 10; max_seconds = pos 1800 }

policy-kept : normalize_retry unset_policy ≡ kept policy
unfolding normalize_retry check_retry
policy-kept = refl

policy-IsPolicy : IsPolicy policy
policy-IsPolicy = record {
  attempts_low = omega arith;
  attempts_high = omega arith;
  initial_low = omega arith;
  ordered = omega arith;
  maximum_high = omega arith;
}

backoff-min_example : backoff policy (pos 4) ≡ pos (1_000_000_000 * min (10 * 2 ^ 3) 1800)
backoff-min_example = backoff-min policy 3 policy-IsPolicy

ab-IsName : IsName (codes "ab")
ab-IsName = (((λ h. cc), ((λ h. cc), tt)), (λ h. cc), (λ h. cc), (λ h. cc))

ab_trimmed : trim_right (codes "ab") ≡ codes "ab"
unfolding trim_right
ab_trimmed = refl

clean_cloud_path_unstable_example :
    (clean_cloud_path (b'/' ∷ codes "ab" ++ codes " /") ≡ b'/' ∷ codes "ab" ++ codes " ")
    × (clean_cloud_path (b'/' ∷ codes "ab" ++ codes " ") ≡ b'/' ∷ codes "ab")
clean_cloud_path_unstable_example = clean_cloud_path_unstable (codes "ab") ab-IsName ab_trimmed

abbrev platform : Platform
platform = record { is_abs = has_prefix (codes "/"); to_lower = λ t. t; compiles = λ t. true }

abbrev photos : Job
photos = record {
  id = codes "photos";
  name = codes "Photos";
  enabled = true;
  drive_name = codes "backup";
  remote_path = codes "/a";
  target_path = codes "/b";
  include_files = codes "/a/c" ∷ [];
  include_dirs = [];
  exclude_names = [];
  min_size_bytes = pos 0;
  max_size_bytes = pos 0;
  overwrite = false;
  delete_after_upload = false;
}

abbrev document : Settings
document = record default_settings { jobs = photos ∷ [] }
