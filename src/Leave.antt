-- ===== src/Leave.antt =====
-- apps/api/src/services/leave-allocation.ts: the minutes of a leave request, spread over the working
-- days that it covers.
pub mod Allocations
use employee_attendance.Prelude.{
  ℕ, ◌+◌, ◌*◌, ◌-◌, ◌≤◌, ◌==◌, Bool, true, false, not, ◌&&◌, Option, none, some, List, [], ◌∷◌,
  ◌++◌, min, max, any, filter, leb, ltb, if◌then◌else◌,
}
use employee_attendance.Prelude.Result.{Result, ok, err}
use employee_attendance.Calendar.{Day, day_le, day_eq, ends_after, enumerate_dates, weekday}
use employee_attendance.Schedule.{ClockTime, time_minutes}

pub record EffectiveShift : Type 0 where
  pub effective_from : Day
  pub effective_to : Option Day
  pub work_days : List ℕ
  pub start_time : ClockTime
  pub end_time : ClockTime
  pub break_minutes : ℕ
  pub is_active : Bool

pub record LegacySchedule : Type 0 where
  pub work_days : List ℕ
  pub start_time : ClockTime
  pub end_time : ClockTime
  pub is_active : Bool

pub record HolidayDay : Type 0 where
  pub date : Day
  pub is_working_day_override : Bool

pub record LeaveDayAllocation : Type 0 where
  pub work_date : Day
  pub scheduled_minutes : ℕ
  pub minutes : ℕ

pub record LeaveInput : Type 0 where
  pub start_date : Day
  pub end_date : Day
  pub requested_minutes : ℕ
  pub assignments : List EffectiveShift
  pub legacy_schedule : Option LegacySchedule
  pub holidays : List HolidayDay
  pub default_day_minutes : ℕ
  pub default_break_minutes : ℕ

pub data LeaveError : Type 0 where
  insufficient_scheduled_minutes : LeaveError

-- `shiftDuration`; a difference below zero and one of zero give the same maximum.
unfoldable pub shift_duration : ClockTime → ClockTime → ℕ → ℕ
shift_duration start_time end_time break_minutes =
    let start = time_minutes start_time in
    let same_day = time_minutes end_time in
    let last = if leb same_day start then same_day + 24 * 60 else same_day in
    max (last - start - break_minutes) 1

-- A holiday without an override for work.
unfoldable pub is_day_off : List HolidayDay → Day → Bool
is_day_off holidays date =
    let today = filter (λ h. day_eq h.date date) holidays in
    any (λ h. not h.is_working_day_override) today
    && not (any (λ h. h.is_working_day_override) today)

abbrev is_effective : Day → EffectiveShift → Bool
is_effective date s =
    s.is_active && (day_le s.effective_from date && ends_after s.effective_to date)

-- The first of the descending order by the start, which is stable.
abbrev first_newest : EffectiveShift → Option EffectiveShift → Option EffectiveShift
first_newest s none = some s
first_newest s (some t) = if day_le t.effective_from s.effective_from then some s else some t

unfoldable pub newest_shift : List EffectiveShift → Option EffectiveShift
newest_shift [] = none
newest_shift (s ∷ rest) = first_newest s (newest_shift rest)

abbrev pub works_on : List ℕ → ℕ → Bool
works_on work_days today = any (λ d. d == today) work_days

abbrev by_default : ℕ → ℕ → Option ℕ
by_default today minutes = if leb 1 today && leb today 5 then some minutes else none

abbrev by_legacy : Option LegacySchedule → ℕ → ℕ → ℕ → Option ℕ
by_legacy none today break_minutes minutes = by_default today minutes
by_legacy (some s) today break_minutes minutes =
    if s.is_active
    then (if works_on s.work_days today
        then some (shift_duration s.start_time s.end_time break_minutes)
        else none)
    else by_default today minutes

abbrev by_shift : Option EffectiveShift → LeaveInput → ℕ → Option ℕ
by_shift none i today =
    by_legacy i.legacy_schedule today i.default_break_minutes i.default_day_minutes
by_shift (some s) i today =
    if works_on s.work_days today
    then some (shift_duration s.start_time s.end_time s.break_minutes)
    else none

-- The minutes that are scheduled on a date, none if it is not a working day.
unfoldable pub scheduled_minutes_on : LeaveInput → Day → Option ℕ
scheduled_minutes_on i date =
    if is_day_off i.holidays date
    then none
    else by_shift (newest_shift (filter (is_effective date) i.assignments)) i (weekday date)

pub record Capacity : Type 0 where
  pub work_date : Day
  pub scheduled_minutes : ℕ

abbrev pub capacity_at : Day → Option ℕ → List Capacity
capacity_at date none = []
capacity_at date (some m) = record { work_date = date; scheduled_minutes = m } ∷ []

-- `capacities`, the `flatMap` over the dates.
unfoldable pub capacities_on : LeaveInput → List Day → List Capacity
capacities_on i [] = []
capacities_on i (d ∷ ds) = capacity_at d (scheduled_minutes_on i d) ++ capacities_on i ds

unfoldable pub capacities : LeaveInput → List Capacity
capacities i = capacities_on i (enumerate_dates i.start_date i.end_date)

-- The loop over the capacities: the allocations and what remains.
unfoldable pub allocate : ℕ → List Capacity → List LeaveDayAllocation × ℕ
allocate remaining [] = ([], remaining)
allocate remaining (c ∷ cs) =
    let minutes = min c.scheduled_minutes remaining in
    let rest = allocate (remaining - minutes) cs in
    if leb remaining 0 then ([], remaining) else (
      record { work_date = c.work_date; scheduled_minutes = c.scheduled_minutes; minutes = minutes }
          ∷ rest.0,
      rest.1,
    )

-- `planLeaveAllocations`
unfoldable pub plan_leave_allocations : LeaveInput → Result LeaveError (List LeaveDayAllocation)
plan_leave_allocations i =
    let allocated = allocate i.requested_minutes (capacities i) in
    if ltb 0 allocated.1 then err insufficient_scheduled_minutes else ok allocated.0
