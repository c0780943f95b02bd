-- ===== src/Calendar.antt =====
-- Calendar days: the dates `YYYY-MM-DD` that the services keep as text, with the part of `Date` that
-- they use on them. apps/api/src/services/payroll-calculator.ts (enumerateDates, daysInMonth,
-- activeOn), leave-allocation.ts (dateRange), attendance-rules.ts (weekday).
pub mod Ordinals
pub mod Ranges
use employee_attendance.Prelude.{
  ℕ, zero, suc, ◌+◌, ◌*◌, ◌-◌, ◌/◌, ◌%◌, ◌≤◌, Bool, true, false, not, ◌&&◌, ◌||◌, Option, none,
  some, List, [], ◌∷◌, ◌==◌, ltb, leb, if◌then◌else◌, or_else,
}

-- A date; its text is the three numbers with leading zeros, so texts compare as the triples do.
pub record Day : Type 0 where
  pub year : ℕ
  pub month : ℕ
  pub day : ℕ

unfoldable pub is_leap : ℕ → Bool
is_leap y = y % 4 == 0 && (not (y % 100 == 0) || y % 400 == 0)

-- The days of month m, 1 to 12.
unfoldable pub month_length : ℕ → ℕ → ℕ
unfolding is_leap
month_length y m =
    if m == 2
    then (if is_leap y then 29 else 28)
    else (if m == 4 || (m == 6 || (m == 9 || m == 11)) then 30 else 31)

-- `daysInMonth(date)`
unfoldable pub days_in_month : Day → ℕ
unfolding month_length
days_in_month d = month_length d.year d.month

-- The days of the year before month m.
unfoldable pub days_before : ℕ → ℕ → ℕ
unfolding is_leap
days_before y m = (367 * m - 362) / 12 - (if leb m 2 then 0 else if is_leap y then 1 else 2)

-- The days of the years before year y.
unfoldable pub days_before_year : ℕ → ℕ
days_before_year y = let p = y - 1 in p * 365 + p / 4 - p / 100 + p / 400

-- The days from 0001-01-01 to the date: what `getTime` counts, in days and from another origin.
unfoldable pub ordinal : Day → ℕ
ordinal d = days_before_year d.year + days_before d.year d.month + (d.day - 1)

-- `cursor.setUTCDate(cursor.getUTCDate() + 1)`
unfoldable pub next_day : Day → Day
next_day d =
    if ltb d.day (month_length d.year d.month)
    then record d { day = d.day + 1 }
    else if ltb d.month 12
    then record d { month = d.month + 1; day = 1 }
    else record { year = d.year + 1; month = 1; day = 1 }

-- `a <= b` on the texts.
unfoldable pub day_le : Day → Day → Bool
day_le a b =
    ltb a.year b.year
    || (a.year == b.year && (ltb a.month b.month || (a.month == b.month && leb a.day b.day)))

-- `a === b` on the texts.
unfoldable pub day_eq : Day → Day → Bool
day_eq a b = a.year == b.year && (a.month == b.month && a.day == b.day)

-- `while (cursor <= last) { dates.push(...); cursor.setUTCDate(...) }` with fuel.
unfoldable pub days_from : ℕ → Day → Day → List Day
days_from zero cursor last = []
days_from (suc fuel) cursor last =
    let rest = days_from fuel (next_day cursor) last in
    if day_le cursor last then cursor ∷ rest else []

-- One round for each day up to the last one.
unfoldable pub enumerate_dates : Day → Day → List Day
enumerate_dates start last = days_from (ordinal last + 1 - ordinal start) start last

-- `new Date(date).getUTCDay()`: 0 is Sunday; 0001-01-01 is a Monday.
unfoldable pub weekday : Day → ℕ
weekday d = (ordinal d + 1) % 7

abbrev pub starts_by : Option Day → Day → Bool
starts_by none date = true
starts_by (some start) date = day_le start date

abbrev pub ends_after : Option Day → Day → Bool
ends_after none date = true
ends_after (some last) date = day_le date last

-- `activeOn`; the dates are never empty texts, so `!start` holds of null alone.
unfoldable pub active_on : Day → Option Day → Option Day → Bool
active_on date start last = starts_by start date && ends_after last date
