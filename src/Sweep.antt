-- ===== src/Sweep.antt =====
-- apps/api/src/services/attendance-exceptions.ts: the scheduled sweep that marks absences of the day
-- before and clock-outs that are missing. The rows of an employee's queries are given; the timesheets
-- are those of requests-v2.controller.ts, and the date and the instant are arguments.
pub mod Holidays
pub mod Absences
pub mod ClockOuts
use employee_attendance.Prelude.{
  ℕ, zero, suc, ◌+◌, ◌*◌, ◌-◌, ◌==◌, leb, String, same_text, Bool, true, false, not, ◌&&◌, ◌||◌,
  Option, none, some, List, [], ◌∷◌, ◌++◌, any, filter, or_else, is_some, if◌then◌else◌, find_row,
}
use employee_attendance.CodeSet.{set_of}
use employee_attendance.Calendar.{Day, day_le, day_eq, ends_after, weekday}
use employee_attendance.Timesheet.{TimesheetState, open_day, exception}
use employee_attendance.Timesheet.Codes.{exception_code, ExceptionCode, absent, missed_clock_out}
use employee_attendance.Leave.{EffectiveShift, newest_shift, works_on}
use employee_attendance.PayrollRun.{OrganizationHoliday, MalaysiaHoliday, for_state}
use employee_attendance.Requests.{TimesheetDay, DayKey, same_day}
use employee_attendance.Requests.Reviews.{first_some}

-- An active employee, with the shifts that are assigned and the states of the latest worksite and of the
-- client.
pub record SweptEmployee : Type 0 where
  pub id : String
  pub client_id : Option String
  pub worksite_state_code : Option String
  pub client_state_code : Option String
  pub assignments : List EffectiveShift

-- The holidays of a client, and those of the country.
pub record HolidayRows : Type 0 where
  pub of_client : String → List OrganizationHoliday
  pub malaysia_holidays : List MalaysiaHoliday

abbrev in_effect : Day → EffectiveShift → Bool
in_effect date s = day_le s.effective_from date && ends_after s.effective_to date

-- `employee.scheduleAssignments[0]`, the newest one in effect.
unfoldable pub swept_shift : Day → SweptEmployee → Option EffectiveShift
swept_shift date e = newest_shift (filter (in_effect date) e.assignments)

abbrev pub is_scheduled : Day → Option EffectiveShift → Bool
is_scheduled date none = false
is_scheduled date (some s) = s.is_active && works_on s.work_days (weekday date)

unfoldable pub swept_state : SweptEmployee → String
swept_state e = first_some e.worksite_state_code e.client_state_code "14"

abbrev pub of_day : Day → String → OrganizationHoliday → Bool
of_day date state h = day_eq h.date date && for_state h.state_code state

-- The test that skips a public holiday.
unfoldable pub is_skipped : Day → String → List OrganizationHoliday → List MalaysiaHoliday → Bool
is_skipped date state organization malaysia =
    let holidays = filter (of_day date state) organization in
    let working_day_override = any (λ h. h.is_working_day_override) holidays in
    not working_day_override
    && (any (λ h. same_text h.state_code state && day_eq h.date date) malaysia
        || any (λ h. not h.is_working_day_override) holidays)

abbrev pub is_off : Day → SweptEmployee → HolidayRows → Option String → Bool
is_off date e h none = true
is_off date e h (some client) =
    is_skipped date (swept_state e) (h.of_client client) h.malaysia_holidays

-- The employee was to work on the date.
unfoldable pub is_expected : Day → HolidayRows → SweptEmployee → Bool
is_expected date h e = is_scheduled date (swept_shift date e) && not (is_off date e h e.client_id)

unfoldable pub absent_day : String → SweptEmployee → Day → TimesheetDay
absent_day id e date = record {
  id = id;
  client_id = e.client_id;
  key = record { employee_id = e.id; work_date = date };
  state = exception;
  first_clock_in_at = none;
  last_clock_out_at = none;
  regular_minutes = 0;
  overtime_minutes = 0;
  break_minutes = 0;
  leave_minutes = 0;
  paid_leave_minutes = 0;
  unpaid_leave_minutes = 0;
  is_absent = true;
  exception_codes = absent ∷ [];
  version = 1;
  pay_period_id = none;
}

abbrev pub day_of : SweptEmployee → Day → DayKey
day_of e date = record { employee_id = e.id; work_date = date }

-- One round of the loop over the employees; `day_id` has the ids of new rows.
unfoldable pub mark_absence :
    Day → HolidayRows → (String → String) → SweptEmployee → List TimesheetDay → List TimesheetDay
mark_absence date h day_id e days =
    if is_expected date h e && not (is_some (find_row (λ t. t.key) same_day (day_of e date) days))
    then absent_day (day_id e.id) e date ∷ days
    else days

unfoldable pub mark_absences :
    Day
    → HolidayRows
    → (String → String)
    → List SweptEmployee
    → List TimesheetDay
    → List TimesheetDay
mark_absences date h day_id [] days = days
mark_absences date h day_id (e ∷ es) days =
    mark_absences date h day_id es (mark_absence date h day_id e days)

abbrev pub is_open_state : TimesheetState → Bool
is_open_state open_day = true
is_open_state _ = false

-- The `where` of the open timesheets.
abbrev pub is_running : TimesheetDay → Bool
is_running t = is_open_state t.state && is_some t.first_clock_in_at

-- `Date.now() - firstClockInAt >= threshold * 60_000`
abbrev pub is_overdue : ℕ → ℕ → Option ℕ → Bool
is_overdue now threshold none = false
is_overdue now threshold (some at) = leb (at + threshold * 60_000) now

unfoldable pub close_day : TimesheetDay → TimesheetDay
close_day t = record t {
  state = exception;
  exception_codes = set_of [] (t.exception_codes ++ missed_clock_out ∷ []);
}

-- The rows that are read, `take` of them at most, and the updates of those that are overdue; the
-- threshold is that of the client of a timesheet.
unfoldable pub close_days :
    (TimesheetDay → Option ℕ) → ℕ → ℕ → List TimesheetDay → List TimesheetDay
close_days policy now zero days = days
close_days policy now (suc left) [] = []
close_days policy now (suc left) (t ∷ days) =
    let later = close_days policy now left days in
    let all = close_days policy now (suc left) days in
    if is_running t
    then (if is_overdue now (or_else (policy t) 960) t.first_clock_in_at then close_day t else t)
      ∷ later
    else t ∷ all

-- `detectAttendanceExceptions`, without the messages.
unfoldable pub detect_attendance_exceptions :
    Day
    → HolidayRows
    → (String → String)
    → (TimesheetDay → Option ℕ)
    → ℕ
    → List SweptEmployee
    → List TimesheetDay
    → List TimesheetDay
detect_attendance_exceptions date h day_id policy now es days =
    close_days policy now 500 (mark_absences date h day_id es days)
