-- ===== src/Settings/Period.antt =====
-- The quota period: `Quota.PeriodStart`, `Quota.NextReset` and `Quota.Day` of
-- internal/settings/settings.go.
pub mod Laws
use tdrive_aliyunpan.Base.{ℕ, ◌/◌, ◌%◌, ℤ, pos, pos_part, Text, ltb, ltb_ℤ, if◌then◌else◌}
use tdrive_aliyunpan.Settings.{Quota}
use tdrive_aliyunpan.Settings.Calendar.{Calendar}
use tdrive_aliyunpan.Settings.Clock.{minutes_of_day}

-- The minute of the day at which the counter resets; an unreadable one means midnight.
unfoldable pub reset_minute : Quota → ℕ
reset_minute q =
    let reset = minutes_of_day q.reset_at in if ltb_ℤ reset (pos 0) then 0 else pos_part reset

module _ (c : Calendar) where
  unfoldable pub period_start : Quota → c.Time → c.Time
  period_start q now =
      let start = c.date now (reset_minute q / 60) (reset_minute q % 60) in
      if ltb (c.instant now) (c.instant start) then c.prev_day start else start

  unfoldable pub next_reset : Quota → c.Time → c.Time
  next_reset q now =
      let candidate = c.date now (reset_minute q / 60) (reset_minute q % 60) in
      if ltb (c.instant now) (c.instant candidate) then candidate else c.next_day candidate

  pub quota_day : Quota → c.Time → Text
  quota_day q now = c.format_day (period_start q now)
