-- ===== src/Calendar/Ordinals.antt =====
-- Days and their ordinals: the day after is one further on, and the order of the texts is the order
-- of the ordinals.
use employee_attendance.Prelude.{ℕ, ◌+◌, ◌≤◌, ◌<◌, ◌≡◌, refl, ap, true, arith, ◌↔◌}
use employee_attendance.Calendar.{
  Day, is_leap, month_length, days_before, days_before_year, ordinal, next_day, day_le, day_eq,
}

-- A date of the calendar, from year 1 on.
pub record IsDate (d : Day) : Type 0 where
  pub year_pos : 1 ≤ d.year
  pub month_pos : 1 ≤ d.month
  pub month_le : d.month ≤ 12
  pub day_pos : 1 ≤ d.day
  pub day_le_length : d.day ≤ month_length d.year d.month

pub next_day-IsDate : (d : Day) → IsDate d → IsDate (next_day d)
unfolding next_day month_length is_leap
next_day-IsDate d v = ground arith

days_before_suc :
    (y m : ℕ) → 1 ≤ m → m < 12 → days_before y (m + 1) ≡ days_before y m + month_length y m
unfolding month_length is_leap days_before
days_before_suc y m p q = ground arith

-- A year is the days before December and the 31 days of December.
days_before_year_suc :
    (y : ℕ) → 1 ≤ y → days_before_year (y + 1) ≡ days_before_year y + days_before y 12 + 31
unfolding is_leap days_before days_before_year
days_before_year_suc y p = ground arith

december : (y : ℕ) → month_length y 12 ≡ 31
unfolding month_length
december y = refl

january : (y : ℕ) → days_before y 1 ≡ 0
unfolding days_before
january y = refl

pub ordinal-next_day : (d : Day) → IsDate d → ordinal (next_day d) ≡ ordinal d + 1
unfolding ordinal next_day
ordinal-next_day d v = ground (
  arith,
  days_before_suc d.year d.month,
  days_before_year_suc d.year,
  december d.year,
  january (d.year + 1),
)

-- The days of a date's year before it, and of its month, stay below the next year.
days_before_bound :
    (y m : ℕ) → 1 ≤ m → m ≤ 12 → days_before y m + month_length y m ≤ days_before y 12 + 31
unfolding days_before month_length is_leap
days_before_bound y m p q = ground arith

days_before_mono :
    (y m n : ℕ) → 1 ≤ m → m < n → n ≤ 12 → days_before y m + month_length y m ≤ days_before y n
unfolding days_before month_length is_leap
days_before_mono y m n p q r = ground arith

days_before_year_mono :
    (y z : ℕ) → 1 ≤ y → y < z → days_before_year y + days_before y 12 + 31 ≤ days_before_year z
unfolding days_before days_before_year is_leap
days_before_year_mono y z p q = ground arith

pub day_le_iff : (a b : Day) → IsDate a → IsDate b → (day_le a b ≡ true) ↔ (ordinal a ≤ ordinal b)
unfolding day_le ordinal
day_le_iff a b v w = ground (
  arith,
  days_before_year_mono a.year b.year,
  days_before_year_mono b.year a.year,
  days_before_bound a.year a.month,
  days_before_bound b.year b.month,
  days_before_mono a.year a.month b.month,
  days_before_mono b.year b.month a.month,
)

-- The order of the texts of two dates is the order of their ordinals.
day_eq_of_day_le : (a b : Day) → day_le a b ≡ true → day_le b a ≡ true → day_eq a b ≡ true
unfolding day_le day_eq
day_eq_of_day_le a b p q = ground arith

pub day_eq_of_ordinal :
    (a b : Day) → IsDate a → IsDate b → ordinal a ≡ ordinal b → day_eq a b ≡ true
day_eq_of_ordinal a b v w e =
    day_eq_of_day_le a b ((day_le_iff a b v w).1 (omega arith))
      ((day_le_iff b a w v).1 (omega arith))

pub ordinal-day_eq : (a b : Day) → day_eq a b ≡ true → ordinal a ≡ ordinal b
unfolding day_eq
ordinal-day_eq a b h = let same : a ≡ b = ground (arith) in ap ordinal same
