-- ===== src/Settings/Clock.antt =====
-- Times of day in the settings: `clockPattern`, `checkClock` and `minutesOfDay` of
-- internal/settings/settings.go. `\d` is an ASCII digit, and `^…$` spans the whole text.
use tdrive_aliyunpan.Base.{
  ℕ, ◌+◌, ◌-◌, ◌*◌, ◌/◌, ◌%◌, ◌<◌, ◌≡◌, refl, ◌⊎◌, inl, ◌↔◌, Bool, true, false, ◌&&◌, ◌||◌, [], ◌∷◌,
  Option, none, some, arith, ℤ, pos, negsuc, ◌≤ℤ◌, ◌<ℤ◌, Text, leb, ◌==◌, if◌then◌else◌,
}

-- A code point in the range of a character class.
abbrev in_class : ℕ → ℕ → ℕ → Bool
in_class lo hi c = leb lo c && leb c hi

abbrev digit : ℕ → ℕ
digit c = c - b'0'

-- The alternatives of the hour group with two digits.
abbrev two_digit_hour : ℕ → ℕ → Bool
two_digit_hour a b =
    (in_class b'0' b'1' a && in_class b'0' b'9' b) || (a == b'2' && in_class b'0' b'3' b)

-- `:([0-5]\d)$`
abbrev minute_part : ℕ → ℕ → ℕ → Bool
minute_part colon a b = colon == b':' && (in_class b'0' b'5' a && in_class b'0' b'9' b)

-- `clockPattern.FindStringSubmatch`: the hour and the minute, read as numbers.
unfoldable pub clock_match : Text → Option (ℕ × ℕ)
clock_match (h ∷ colon ∷ a ∷ b ∷ []) =
    if in_class b'0' b'9' h && minute_part colon a b
    then some (digit h, digit a * 10 + digit b)
    else none
clock_match (g ∷ h ∷ colon ∷ a ∷ b ∷ []) =
    if two_digit_hour g h && minute_part colon a b
    then some (digit g * 10 + digit h, digit a * 10 + digit b)
    else none
clock_match _ = none

abbrev minutes_of_match : Option (ℕ × ℕ) → ℤ
minutes_of_match none = negsuc 0
minutes_of_match (some (hour, minute)) = pos (hour * 60 + minute)

unfoldable pub minutes_of_day : Text → ℤ
minutes_of_day value = minutes_of_match (clock_match value)

abbrev matched : Option (ℕ × ℕ) → Bool
matched none = false
matched (some _) = true

-- `checkClock`: whether the value is accepted.
unfoldable pub check_clock : Text → Bool
check_clock [] = true
check_clock (c ∷ value) = matched (clock_match (c ∷ value))

abbrev InDay : Option (ℕ × ℕ) → Type 0
InDay none = Unit
InDay (some (h, m)) = (h < 24) × (m < 60)

clock_match-InDay : (t : Text) → InDay (clock_match t)
unfolding clock_match
clock_match-InDay (h ∷ colon ∷ a ∷ b ∷ []) = ground arith
clock_match-InDay (g ∷ h ∷ colon ∷ a ∷ b ∷ []) = ground arith
clock_match-InDay _ = tt

minutes_of_match_bound : (m : Option (ℕ × ℕ)) → InDay m → minutes_of_match m <ℤ pos 1440
minutes_of_match_bound none h = omega arith
minutes_of_match_bound (some (a, b)) h = omega arith

pub minutes_of_day-lt : (t : Text) → minutes_of_day t <ℤ pos 1440
unfolding minutes_of_day
minutes_of_day-lt t = minutes_of_match_bound (clock_match t) (clock_match-InDay t)

-- "HH:MM" with two digits each.
pub format_clock : ℕ → ℕ → Text
format_clock h m = (b'0' + h / 10) ∷ (b'0' + h % 10) ∷ b':' ∷ (b'0' + m / 10) ∷ (b'0' + m % 10) ∷ []

-- Every time of day, written as HH:MM, is accepted by `check_clock` and read back as its minutes.
pub minutes_of_day-format_clock :
    (h m : ℕ)
    → h < 24
    → m < 60
    → (check_clock (format_clock h m) ≡ true)
      × (minutes_of_day (format_clock h m) ≡ pos (h * 60 + m))
unfolding check_clock minutes_of_day clock_match format_clock
minutes_of_day-format_clock h m p q = (ground arith, ground arith)

-- `check_clock` accepts exactly the empty text and the texts that `minutes_of_day` reads as a minute
-- of the day; what it refuses is read as "not set".
pub check_clock-minutes_of_day :
    (t : Text)
    → (check_clock t ≡ true)
      ↔ ((t ≡ []) ⊎ ((pos 0 ≤ℤ minutes_of_day t) × (minutes_of_day t <ℤ pos 1440)))
unfolding check_clock minutes_of_day
check_clock-minutes_of_day [] = ((λ _. inl refl), (λ _. refl))
check_clock-minutes_of_day (c ∷ t) = (ground (arith, clock_match-InDay (c ∷ t)), ground arith)
