-- ===== src/Settings/Period/Laws.antt =====
-- The quota period contains now, and its name is the same throughout it.
use tdrive_aliyunpan.Base.{
  ◌+◌, ◌/◌, ◌%◌, ◌<◌, ◌≤◌, ◌≡◌, sym, ap, ◌∙◌, inl, inr, arith, ℤ, pos, negsuc, pos_part, ◌<ℤ◌,
  ltb_ℤ, if◌then◌else◌, lt_cases,
}
use tdrive_aliyunpan.Settings.{Quota}
use tdrive_aliyunpan.Settings.Calendar.{Calendar, IsCivil, day_mono}
use tdrive_aliyunpan.Settings.Clock.{minutes_of_day, minutes_of_day-lt}
use tdrive_aliyunpan.Settings.Period.{reset_minute, period_start, next_reset, quota_day}

reset_bound : (z : ℤ) → z <ℤ pos 1440 → (if ltb_ℤ z (pos 0) then 0 else pos_part z) < 1440
reset_bound (pos n) h = ground arith
reset_bound (negsuc n) h = ground arith

reset_minute-lt : (q : Quota) → reset_minute q < 1440
unfolding reset_minute
reset_minute-lt q = reset_bound (minutes_of_day q.reset_at) (minutes_of_day-lt q.reset_at)

module _ (c : Calendar) (civil : IsCivil c) (q : Quota) where
  open civil use {
    earlier_day, date_day, date_same, next_day_date, next_day_day, prev_day_date, prev_day_day,
  }

  reset_hour : reset_minute q / 60 < 24
  reset_hour = omega (arith, reset_minute-lt q)

  reset_min : reset_minute q % 60 < 60
  reset_min = omega arith

  -- The reset on the date of `t`.
  abbrev reset_on : c.Time → c.Time
  reset_on t = c.date t (reset_minute q / 60) (reset_minute q % 60)

  day-reset_on : (t : c.Time) → c.day (reset_on t) ≡ c.day t
  day-reset_on t = date_day t _ _ reset_hour reset_min

  -- A period is named by the date of its first instant: that of now, or the one before.
  period_start-today :
      (now : c.Time)
      → c.instant (reset_on now) ≤ c.instant now
      → period_start c q now ≡ reset_on now
  unfolding period_start
  period_start-today now h = ground arith

  period_start-yesterday :
      (now : c.Time)
      → c.instant now < c.instant (reset_on now)
      → period_start c q now ≡ reset_on (c.prev_day now)
  unfolding period_start
  period_start-yesterday now h = ground (arith, prev_day_date now _ _ reset_hour reset_min)

  next_reset-today :
      (now : c.Time) → c.instant now < c.instant (reset_on now) → next_reset c q now ≡ reset_on now
  unfolding next_reset
  next_reset-today now h = ground arith

  next_reset-tomorrow :
      (now : c.Time)
      → c.instant (reset_on now) ≤ c.instant now
      → next_reset c q now ≡ reset_on (c.next_day now)
  unfolding next_reset
  next_reset-tomorrow now h = ground (arith, next_day_date now _ _ reset_hour reset_min)

  reset_on_same : (t u : c.Time) → c.day t ≡ c.day u → reset_on t ≡ reset_on u
  reset_on_same t u e = date_same t u _ _ reset_hour reset_min e

  -- For a date after the calendar's first, the period of now begins no later than now, ends after now,
  -- and ends a day after it begins.
  pub period_start-next_reset :
      (now : c.Time)
      → 0 < c.day now
      → (c.instant (period_start c q now) ≤ c.instant now)
        × (c.instant now < c.instant (next_reset c q now))
        × (next_reset c q now ≡ c.next_day (period_start c q now))
  period_start-next_reset now h = elim (lt_cases (c.instant now) (c.instant (reset_on now))) [
    | inl early ↦
        rw (period_start-yesterday now early, next_reset-today now early)
          (
            omega (
              arith,
              earlier_day (reset_on (c.prev_day now)) now
                  (omega (arith, day-reset_on (c.prev_day now), prev_day_day now h)),
            ),
            early,
            sym (
                next_day_date (c.prev_day now) _ _ reset_hour reset_min
                ∙ reset_on_same _ _
                    (omega (arith, next_day_day (c.prev_day now), prev_day_day now h))),
          )
    | inr late ↦
        rw (period_start-today now (omega arith), next_reset-tomorrow now (omega arith))
          (
            omega arith,
            earlier_day now _ (omega (arith, day-reset_on (c.next_day now), next_day_day now)),
            sym (next_day_date now _ _ reset_hour reset_min),
          )
  ]

  same_period_today :
      (now t : c.Time)
      → 0 < c.day t
      → c.instant (reset_on now) ≤ c.instant t
      → c.instant t < c.instant (reset_on (c.next_day now))
      → period_start c q t ≡ reset_on now
  same_period_today now t h from to = elim (lt_cases (c.day now) (c.day t)) [
    | inl next ↦
        period_start-yesterday t
          (rw (reset_on_same t (c.next_day now) (omega (arith, after, next_day_day now))) to)
        ∙ reset_on_same _ _ (omega (arith, after, prev_day_day t h))
    | inr (inl same) ↦
        period_start-today t (rw (reset_on_same t now (sym same)) from)
        ∙ reset_on_same t now (sym same)
    | inr (inr past) ↦ absurd (omega (arith, day_mono c civil _ t from, day-reset_on now))
  ]
    where
      after : c.day t ≤ c.day now + 1
      after = omega (
        arith,
        day_mono c civil t (reset_on (c.next_day now)) (omega arith),
        day-reset_on (c.next_day now),
        next_day_day now,
      )

  -- Every instant of the quota period of now, after the calendar's first date, has the same period
  -- start and so the same name: the persisted counter is reset once a period, at its end.
  pub quota_day-period :
      (now t : c.Time)
      → 0 < c.day now
      → 0 < c.day t
      → c.instant (period_start c q now) ≤ c.instant t
      → c.instant t < c.instant (next_reset c q now)
      → (period_start c q t ≡ period_start c q now) × (quota_day c q t ≡ quota_day c q now)
  unfolding quota_day
  quota_day-period now t h k from to = (same, ap c.format_day same)
    where
      same : period_start c q t ≡ period_start c q now
      same = elim (lt_cases (c.instant now) (c.instant (reset_on now))) [
        | inl early ↦ rw (period_start-yesterday now early) (
            same_period_today (c.prev_day now) t k (rw (period_start-yesterday now early) at from) (
              rw
                (reset_on_same (c.next_day (c.prev_day now)) now
                  (omega (arith, next_day_day (c.prev_day now), prev_day_day now h)))
                (rw (next_reset-today now early) at to)))
        | inr late ↦ rw (period_start-today now (omega arith)) (
            same_period_today now t k (rw (period_start-today now (omega arith)) at from)
              (rw (next_reset-tomorrow now (omega arith)) at to))
      ]
