-- ===== src/Settings/Window.antt =====
-- `Schedule.Open` and `Schedule.NextOpen` of internal/settings/settings.go.
pub mod Laws
use tdrive_aliyunpan.Base.{
  ℕ, ◌+◌, ◌*◌, ◌/◌, ◌%◌, Bool, true, false, not, ◌&&◌, ◌||◌, Option, none, some, ℤ, pos, negsuc,
  pos_part, ltb_ℤ, eqb_ℤ, leb, ltb, if◌then◌else◌,
}
use tdrive_aliyunpan.Settings.{Schedule}
use tdrive_aliyunpan.Settings.Calendar.{Calendar, minute_of_day}
use tdrive_aliyunpan.Settings.Clock.{minutes_of_day}

-- The window test on the minutes past midnight; the window wraps where `finish` is not after `start`.
unfoldable pub open_at : Bool → ℤ → ℤ → ℕ → Bool
open_at false start finish current = false
open_at true start finish current =
    if ltb_ℤ start (pos 0) || (ltb_ℤ finish (pos 0) || eqb_ℤ start finish)
    then true
    else if ltb_ℤ start finish
    then leb (pos_part start) current && ltb current (pos_part finish)
    else leb (pos_part start) current || ltb current (pos_part finish)

module _ (c : Calendar) where
  unfoldable pub open_now : Schedule → c.Time → Bool
  unfolding open_at
  open_now s now =
      open_at s.enabled (minutes_of_day s.window_start) (minutes_of_day s.window_end)
        (minute_of_day c now)

  -- The next start of the window; `none` is Go's zero time.
  unfoldable pub next_start : ℕ → c.Time → c.Time
  next_start start now =
      let candidate = c.date now (start / 60) (start % 60) in
      if ltb (c.instant now) (c.instant candidate) then candidate else c.next_day candidate

  unfoldable pub next_open : Schedule → c.Time → Option c.Time
  unfolding next_start
  next_open s now =
      if not s.enabled || open_now s now
      then none
      else if ltb_ℤ (minutes_of_day s.window_start) (pos 0)
      then none
      else some (next_start (pos_part (minutes_of_day s.window_start)) now)
