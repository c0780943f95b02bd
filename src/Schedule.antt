-- ===== src/Schedule.antt =====
-- apps/api/src/services/schedule-metrics.ts: lateness and early departure against a shift, and the
-- exceptions that they add to a timesheet.
pub mod Exceptions
use employee_attendance.Prelude.{
  ℕ, ◌+◌, ◌*◌, ◌-◌, ◌≤◌, ◌≡◌, Bool, true, false, not, Option, none, some, List, ltb, if◌then◌else◌,
}
use employee_attendance.CodeSet.{add_code, sorted_codes, is_empty}
use employee_attendance.Calendar.{Day, ordinal, next_day}
use employee_attendance.Timesheet.{TimesheetState, open_day, exception, flag_if}
use employee_attendance.Timesheet.Codes.{
  ExceptionCode, late_arrival, early_departure, exception_code,
}

-- A time of day, the text "HH:MM".
pub record ClockTime : Type 0 where
  pub hour : ℕ
  pub minute : ℕ

pub record Shift : Type 0 where
  pub start_time : ClockTime
  pub end_time : ClockTime
  pub grace_period_minutes : ℕ
  pub is_overnight : Bool

pub record ScheduleMetrics : Type 0 where
  pub late_minutes : ℕ
  pub early_departure_minutes : ℕ

-- `timeMinutes`
unfoldable pub time_minutes : ClockTime → ℕ
time_minutes t = t.hour * 60 + t.minute

-- `dateNumber(date)`, in minutes, from the origin of the ordinals.
unfoldable pub date_number : Day → ℕ
date_number d = ordinal d * 1440

-- `localParts`: the date and the minute of an instant in the time zone of the attendance, which the
-- runtime's `Intl` computes.
abbrev pub LocalParts : Type 0
LocalParts = ℕ → Day × ℕ

module _ (local_parts : LocalParts) where
  -- The minute of an instant on the same scale.
  unfoldable pub actual_minute : ℕ → ℕ
  actual_minute instant = let (date, minute) = local_parts instant in date_number date + minute

  unfoldable pub shift_start : Day → Shift → ℕ
  shift_start work_date shift = date_number work_date + time_minutes shift.start_time

  unfoldable pub shift_end : Day → Shift → ℕ
  shift_end work_date shift =
      date_number (if shift.is_overnight then next_day work_date else work_date)
      + time_minutes shift.end_time

  abbrev late_by : Option ℕ → ℕ → ℕ → ℕ
  late_by none start grace = 0
  late_by (some instant) start grace = actual_minute instant - start - grace

  abbrev early_by : Option ℕ → ℕ → ℕ
  early_by none last = 0
  early_by (some instant) last = last - actual_minute instant

  abbrev metrics_of : Day → Option ℕ → Option ℕ → Option Shift → ScheduleMetrics
  metrics_of work_date first last none = record { late_minutes = 0; early_departure_minutes = 0 }
  metrics_of work_date first last (some shift) = record {
    late_minutes = late_by first (shift_start work_date shift) shift.grace_period_minutes;
    early_departure_minutes = early_by last (shift_end work_date shift);
  }

  -- `calculateScheduleMetrics`
  unfoldable pub calculate_schedule_metrics :
      Day → Option ℕ → Option ℕ → Option Shift → ScheduleMetrics
  calculate_schedule_metrics work_date first last shift = metrics_of work_date first last shift

pub record Flagged : Type 0 where
  pub state : TimesheetState
  pub exception_codes : List ExceptionCode

abbrev is_open_state : TimesheetState → Bool
is_open_state open_day = true
is_open_state _ = false

-- `applyScheduleExceptions`
unfoldable pub apply_schedule_exceptions :
    TimesheetState → List ExceptionCode → ScheduleMetrics → Flagged
apply_schedule_exceptions state codes metrics =
    let flagged =
      flag_if (ltb 0 metrics.early_departure_minutes) early_departure
        (flag_if (ltb 0 metrics.late_minutes) late_arrival codes) in
    record {
      state =
          if is_open_state state
          then open_day
          else if not (is_empty flagged)
          then exception
          else state;
      exception_codes = sorted_codes flagged;
    }
