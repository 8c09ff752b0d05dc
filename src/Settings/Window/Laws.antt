-- ===== src/Settings/Window/Laws.antt =====
-- What the schedule's window means.
use tdrive_aliyunpan.Base.{
  ℕ, ◌+◌, ◌-◌, ◌/◌, ◌%◌, ◌<◌, ◌≤◌, ◌≡◌, sym, ◌⊎◌, inl, inr, ◌↔◌, true, false, some, arith, ℤ, pos,
  negsuc, pos_part, ◌≤ℤ◌, ◌<ℤ◌, Bool-cases, ltb, ◌∙◌, lt_cases,
}
use tdrive_aliyunpan.Settings.{Schedule}
use tdrive_aliyunpan.Settings.Calendar.{Calendar, minute_of_day, IsCivil, day_mono}
use tdrive_aliyunpan.Settings.Clock.{minutes_of_day, minutes_of_day-lt}
use tdrive_aliyunpan.Settings.Window.{open_at, open_now, next_start, next_open}

-- How many minutes `current` is after `start`, round the clock.
abbrev pub minutes_after : ℕ → ℕ → ℕ
minutes_after start current = (current + 1440 - start) % 1440

-- An unset bound, or equal bounds, restrict nothing; else the minutes from the start of the window to
-- now are fewer than the window's length, both counted round the clock.
abbrev pub IsOpen : ℤ → ℤ → ℕ → Type 0
IsOpen start finish current =
    (start <ℤ pos 0)
    ⊎ (finish <ℤ pos 0)
    ⊎ (start ≡ finish)
    ⊎ (minutes_after (pos_part start) current < minutes_after (pos_part start) (pos_part finish))

open_at-IsOpen :
    (start finish : ℤ) (current : ℕ)
    → start <ℤ pos 1440
    → finish <ℤ pos 1440
    → current < 1440
    → (open_at true start finish current ≡ true) ↔ IsOpen start finish current
unfolding open_at
open_at-IsOpen (pos s) (pos f) current p q r = (ground arith, ground arith)
open_at-IsOpen (negsuc s) (pos f) current p q r = (ground arith, ground arith)
open_at-IsOpen (pos s) (negsuc f) current p q r = (ground arith, ground arith)
open_at-IsOpen (negsuc s) (negsuc f) current p q r = (ground arith, ground arith)

open_at_start :
    (start finish : ℤ) (m : ℕ)
    → pos 0 ≤ℤ start
    → m ≡ pos_part start
    → open_at true start finish m ≡ true
unfolding open_at
open_at_start (pos s) (pos f) m h e = ground arith
open_at_start (pos s) (negsuc f) m h e = ground arith
open_at_start (negsuc s) finish m h e = absurd (omega arith)

-- A closed window has its start set, and stays closed while the time since its start grows.
closed_start : (start finish : ℤ) (m : ℕ) → open_at true start finish m ≡ false → pos 0 ≤ℤ start
unfolding open_at
closed_start (pos s) finish m h = omega arith
closed_start (negsuc s) finish m h = ground arith

pos_part-lt : (z : ℤ) (n : ℕ) → pos 0 ≤ℤ z → z <ℤ pos n → pos_part z < n
pos_part-lt (pos k) n h p = omega arith
pos_part-lt (negsuc k) n h p = absurd (omega arith)

closed_later :
    (start finish : ℤ) (m v : ℕ)
    → start <ℤ pos 1440
    → finish <ℤ pos 1440
    → m < 1440
    → v < 1440
    → open_at true start finish m ≡ false
    → minutes_after (pos_part start) m ≤ minutes_after (pos_part start) v
    → open_at true start finish v ≡ false
unfolding open_at
closed_later (pos s) (pos f) m v p q hm hv h g = ground arith
closed_later (pos s) (negsuc f) m v p q hm hv h g = ground arith
closed_later (negsuc s) finish m v p q hm hv h g = ground arith

module _ (c : Calendar) (civil : IsCivil c) where
  open civil use {
    hour_lt, minute_lt, earlier_day, earlier_minute, date_day, date_minute, date_first,
    next_day_date, next_day_day,
  }

  minute_of_day-lt : (t : c.Time) → minute_of_day c t < 1440
  minute_of_day-lt t = omega (arith, hour_lt t, minute_lt t)

  minute_mono :
      (t u : c.Time)
      → c.day t ≡ c.day u
      → c.instant t ≤ c.instant u
      → minute_of_day c t ≤ minute_of_day c u
  minute_mono t u e h = elim (lt_cases (minute_of_day c u) (minute_of_day c t)) [
    | inl p ↦ absurd (omega (arith, earlier_minute u t (sym e) p))
    | inr p ↦ omega arith
  ]

  -- Before the first instant of a minute it is an earlier minute.
  minute_before :
      (t u : c.Time) (start : ℕ)
      → minute_of_day c t ≡ start
      → ((v : c.Time) → c.day v ≡ c.day t → minute_of_day c v ≡ start → c.instant t ≤ c.instant v)
      → c.day u ≡ c.day t
      → c.instant u < c.instant t
      → minute_of_day c u < start
  minute_before t u start m first d h = elim (lt_cases (minute_of_day c u) start) [
    | inl p ↦ p
    | inr (inl p) ↦ absurd (omega (arith, first u d p))
    | inr (inr p) ↦ absurd (omega (arith, minute_mono u t d (omega arith)))
  ]

  -- With the schedule enabled, `open_now` holds exactly if a bound is unset, the bounds are equal, or
  -- now lies in the window [start, finish), which wraps past midnight where start is later than finish.
  pub open_now-IsOpen :
      (s : Schedule) (now : c.Time)
      → s.enabled ≡ true
      → (open_now c s now ≡ true)
        ↔ IsOpen (minutes_of_day s.window_start) (minutes_of_day s.window_end) (minute_of_day c now)
  unfolding open_now
  open_now-IsOpen s now e = rw e (
      open_at-IsOpen (minutes_of_day s.window_start) (minutes_of_day s.window_end) _
        (minutes_of_day-lt s.window_start) (minutes_of_day-lt s.window_end) (minute_of_day-lt now))

  -- What `next_start` returns: the next instant at which the time of day is `start`. From now up to
  -- that instant the time since the last start only grows.
  pub record IsNextStart (start : ℕ) (now t : c.Time) : Type 0 where
    pub later : c.instant now < c.instant t
    pub at_start : minute_of_day c t ≡ start
    pub before :
        (u : c.Time)
        → c.instant now ≤ c.instant u
        → c.instant u < c.instant t
        → minutes_after start (minute_of_day c now) ≤ minutes_after start (minute_of_day c u)

  -- On the day of the start `t`, or on the day before and past the start of that day.
  grows :
      (now t u : c.Time) (start : ℕ)
      → minute_of_day c t ≡ start
      → ((v : c.Time) → c.day v ≡ c.day t → minute_of_day c v ≡ start → c.instant t ≤ c.instant v)
      → (c.day now ≡ c.day t) ⊎ ((c.day now + 1 ≡ c.day t) × (start ≤ minute_of_day c now))
      → c.instant now ≤ c.instant u
      → c.instant u < c.instant t
      → minutes_after start (minute_of_day c now) ≤ minutes_after start (minute_of_day c u)
  grows now t u start m first days from to = elim (lt_cases (c.day u) (c.day t)) [
    | inl p ↦ omega (
      arith,
      minute_mono now u (omega (arith, day_mono c civil now u from)) from,
      minute_of_day-lt u,
      day_mono c civil now u from,
    )
    | inr (inl p) ↦ elim days [
      | inl q ↦
          omega (arith, minute_before t u start m first p to, minute_mono now u (q ∙ sym p) from)
      | inr q ↦ omega (arith, minute_before t u start m first p to, minute_of_day-lt now)
    ]
    | inr (inr p) ↦ absurd (omega (arith, day_mono c civil u t (omega arith)))
  ]

  next_start-IsNextStart :
      (start : ℕ) (now : c.Time) → start < 1440 → IsNextStart start now (next_start c start now)
  unfolding next_start
  next_start-IsNextStart start now h =
      elim (Bool-cases (ltb (c.instant now) (c.instant (c.date now (start / 60) (start % 60))))) [
        | inl e ↦ rw e (record {
          later = ground arith;
          at_start = at now;
          before = λ u from to.
              grows now _ u start (at now) (first now) (inl (sym (date_day now _ _ hour min))) from
                to;
        })
        | inr e ↦
            rw (e, next_day_date now _ _ hour min)
              (record {
                later = earlier_day now _ (omega (arith, tomorrow));
                at_start = at (c.next_day now);
                before = λ u from to.
                    grows now _ u start (at (c.next_day now)) (first (c.next_day now))
                      (inr (
                        sym tomorrow,
                        omega (
                          arith,
                          at now,
                          minute_mono _ now (date_day now _ _ hour min) (ground arith),
                        ),
                      ))
                      from to;
              })
      ]
    where
      hour : start / 60 < 24
      hour = omega arith

      min : start % 60 < 60
      min = omega arith

      at : (t : c.Time) → minute_of_day c (c.date t (start / 60) (start % 60)) ≡ start
      at t = omega (arith, date_minute t _ _ hour min)

      first :
          (t u : c.Time)
          → c.day u ≡ c.day (c.date t (start / 60) (start % 60))
          → minute_of_day c u ≡ start
          → c.instant (c.date t (start / 60) (start % 60)) ≤ c.instant u
      first t u d m = date_first t u _ _ hour min (d ∙ date_day t _ _ hour min) (omega arith)

      tomorrow : c.day (c.date (c.next_day now) (start / 60) (start % 60)) ≡ c.day now + 1
      tomorrow = date_day (c.next_day now) _ _ hour min ∙ next_day_day now

  -- While the enabled schedule is closed, `next_open` returns an instant: it lies after now, the window
  -- is open at it, and at every instant from now up to it the window is closed.
  pub next_open-first :
      (s : Schedule) (now : c.Time)
      → s.enabled ≡ true
      → open_now c s now ≡ false
      → (t : c.Time) × (next_open c s now ≡ some t)
        × (c.instant now < c.instant t)
        × (open_now c s t ≡ true)
        × ((u : c.Time)
            → c.instant now ≤ c.instant u
            → c.instant u < c.instant t
            → open_now c s u ≡ false)
  unfolding next_open open_now
  next_open-first s now e closed =
      let start = minutes_of_day s.window_start in
      let finish = minutes_of_day s.window_end in
      let shut : open_at true start finish (minute_of_day c now) ≡ false = rw e at closed in
      let set = closed_start start finish (minute_of_day c now) shut in
      let t = next_start c (pos_part start) now in
      let next =
        next_start-IsNextStart (pos_part start) now
          (pos_part-lt start 1440 set (minutes_of_day-lt s.window_start)) in
      (
        t,
        rw (e, shut) (ground (arith, set)),
        next.later,
        rw e (open_at_start start finish (minute_of_day c t) set next.at_start),
        λ u from to. rw e (
            closed_later start finish (minute_of_day c now) (minute_of_day c u)
              (minutes_of_day-lt s.window_start) (minutes_of_day-lt s.window_end)
              (minute_of_day-lt now) (minute_of_day-lt u) shut (next.before u from to)),
      )
