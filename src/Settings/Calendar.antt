-- ===== src/Settings/Calendar.antt =====
-- The calls of Go's `time` package that internal/settings/settings.go makes, as an interface:
-- local civil time in one location. `IsCivil` states the package's documented behaviour for a
-- location whose clock is not shifted (no daylight saving time).
use tdrive_aliyunpan.Base.{
  ℕ, ◌+◌, ◌*◌, ◌/◌, ◌%◌, ◌-◌, ◌<◌, ◌≤◌, ◌≡◌, refl, inl, inr, lt_cases, arith, Text, [], ◌∷◌,
}

-- `date t h m` is `time.Date(t.Year(), t.Month(), t.Day(), h, m, 0, 0, t.Location())`; `next_day` and
-- `prev_day` are `AddDate(0, 0, 1)` and `AddDate(0, 0, -1)`; `Before` and `After` compare `instant`s.
-- `format_day` is `Format("2006-01-02")`.
pub record Calendar : Type 1 where
  pub Time : Type 0
  pub instant : Time → ℕ
  pub day : Time → ℕ
  pub hour : Time → ℕ
  pub minute : Time → ℕ
  pub date : Time → ℕ → ℕ → Time
  pub next_day : Time → Time
  pub prev_day : Time → Time
  pub format_day : Time → Text

abbrev pub minute_of_day : (c : Calendar) → c.Time → ℕ
minute_of_day c t = c.hour t * 60 + c.minute t

pub record IsCivil (c : Calendar) : Type 0 where
  pub hour_lt : (t : c.Time) → c.hour t < 24
  pub minute_lt : (t : c.Time) → c.minute t < 60
  -- Instants are ordered as the local dates, then as the times of day.
  pub earlier_day : (t u : c.Time) → c.day t < c.day u → c.instant t < c.instant u
  pub earlier_minute :
      (t u : c.Time)
      → c.day t ≡ c.day u
      → minute_of_day c t < minute_of_day c u
      → c.instant t < c.instant u
  -- `time.Date` keeps the fields that it is given, and is the first instant of its minute.
  pub date_day : (t : c.Time) (h m : ℕ) → h < 24 → m < 60 → c.day (c.date t h m) ≡ c.day t
  pub date_minute :
      (t : c.Time) (h m : ℕ) → h < 24 → m < 60 → minute_of_day c (c.date t h m) ≡ h * 60 + m
  pub date_first :
      (t u : c.Time) (h m : ℕ)
      → h < 24
      → m < 60
      → c.day u ≡ c.day t
      → minute_of_day c u ≡ h * 60 + m
      → c.instant (c.date t h m) ≤ c.instant u
  -- It reads only the date of its first argument.
  pub date_same :
      (t u : c.Time) (h m : ℕ) → h < 24 → m < 60 → c.day t ≡ c.day u → c.date t h m ≡ c.date u h m
  -- `AddDate` moves the date by a day and keeps the time of day.
  pub next_day_date :
      (t : c.Time) (h m : ℕ)
      → h < 24
      → m < 60
      → c.next_day (c.date t h m) ≡ c.date (c.next_day t) h m
  pub next_day_day : (t : c.Time) → c.day (c.next_day t) ≡ c.day t + 1
  pub prev_day_date :
      (t : c.Time) (h m : ℕ)
      → h < 24
      → m < 60
      → c.prev_day (c.date t h m) ≡ c.date (c.prev_day t) h m
  pub prev_day_day : (t : c.Time) → 0 < c.day t → c.day (c.prev_day t) + 1 ≡ c.day t

-- Later instants have later dates, or the same.
pub day_mono :
    (c : Calendar) → IsCivil c → (t u : c.Time) → c.instant t ≤ c.instant u → c.day t ≤ c.day u
day_mono c civil t u h = elim (lt_cases (c.day u) (c.day t)) [
  | inl p ↦ absurd (omega (arith, civil.earlier_day u t p))
  | inr p ↦ omega arith
]

-- A location at a fixed offset: days, minutes and milliseconds.
pub record Moment : Type 0 where
  pub on_day : ℕ
  pub at_minute : ℕ
  pub at_ms : ℕ

abbrev pub fixed_offset : Calendar
fixed_offset = record {
  Time = Moment;
  instant = λ t. (t.on_day * 1440 + t.at_minute % 1440) * 60000 + t.at_ms % 60000;
  day = λ t. t.on_day;
  hour = λ t. (t.at_minute % 1440) / 60;
  minute = λ t. t.at_minute % 60;
  date = λ t h m. record { on_day = t.on_day; at_minute = h * 60 + m; at_ms = 0 };
  next_day = λ t. record t { on_day = t.on_day + 1 };
  prev_day = λ t. record t { on_day = t.on_day - 1 };
  format_day = λ t. t.on_day ∷ [];
}

pub fixed_offset-IsCivil : IsCivil fixed_offset
fixed_offset-IsCivil = record {
  hour_lt = λ t. omega arith;
  minute_lt = λ t. omega arith;
  earlier_day = λ t u h. omega arith;
  earlier_minute = λ t u e h. omega arith;
  date_day = λ t h m p q. refl;
  date_minute = λ t h m p q. omega arith;
  date_first = λ t u h m p q d e. omega arith;
  date_same = λ t u h m p q d. ground arith;
  next_day_date = λ t h m p q. refl;
  next_day_day = λ t. refl;
  prev_day_date = λ t h m p q. refl;
  prev_day_day = λ t p. omega arith;
}
