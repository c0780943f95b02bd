-- ===== src/Tests/Sweeps.antt =====
-- An employee who did not come on a Monday, and a clock-out that is missing since the day before.
use employee_attendance.Prelude.{
  ◌≡◌, ◌↔◌, refl, none, some, [], ◌∷◌, true, false, arith, any, update_where,
}
use employee_attendance.Calendar.{Day, day_le}
use employee_attendance.Timesheet.{open_day}
use employee_attendance.Leave.{is_day_off}
use employee_attendance.PayrollRun.{is_public_holiday_for_state}
use employee_attendance.Requests.{TimesheetDay, LeaveRequest, DayKey}
use employee_attendance.Requests.Leaves.{new_leave_request}
use employee_attendance.Requests.Reviews.{WorkRules, leave_holidays, state_code}
use employee_attendance.Sweep.{
  SweptEmployee, HolidayRows, is_skipped, mark_absences, close_day, close_days,
}
use employee_attendance.Sweep.Holidays.{holidays_agree}
use employee_attendance.Sweep.Absences.{find_swept, found_or, absence_of, find_swept-mark_absences}
use employee_attendance.Sweep.ClockOuts.{IsMissed, is_missed, close_days_lem}

abbrev monday : Day
monday = record { year = 2026; month = 11; day = 2 }

abbrev daily : SweptEmployee
daily = record {
  id = "aminah";
  client_id = some "client";
  worksite_state_code = none;
  client_state_code = some "10";
  assignments =
      record {
        effective_from = record { year = 2026; month = 1; day = 1 };
        effective_to = none;
        work_days = 1 ∷ 2 ∷ 3 ∷ 4 ∷ 5 ∷ [];
        start_time = record { hour = 9; minute = 0 };
        end_time = record { hour = 18; minute = 0 };
        break_minutes = 60;
        is_active = true;
      }
      ∷ [];
}

abbrev no_holidays : HolidayRows
no_holidays = record { of_client = λ _. []; malaysia_holidays = [] }

abbrev aminah_on_monday : DayKey
aminah_on_monday = record { employee_id = "aminah"; work_date = monday }

find_swept-mark_absences_example :
    find_swept aminah_on_monday (mark_absences monday no_holidays (λ id. id) (daily ∷ []) [])
    ≡ found_or
        (find_swept aminah_on_monday [])
        (absence_of monday no_holidays (λ id. id) (daily ∷ []) aminah_on_monday)
find_swept-mark_absences_example =
    (find_swept-mark_absences monday no_holidays (λ id. id) (daily ∷ []) [] aminah_on_monday).0

abbrev running_day : TimesheetDay
running_day = record {
  id = "t1";
  client_id = some "client";
  key = aminah_on_monday;
  state = open_day;
  first_clock_in_at = some 32_400_000;
  last_clock_out_at = none;
  regular_minutes = 0;
  overtime_minutes = 0;
  break_minutes = 0;
  leave_minutes = 0;
  paid_leave_minutes = 0;
  unpaid_leave_minutes = 0;
  is_absent = false;
  exception_codes = [];
  version = 1;
  pay_period_id = none;
}

close_days_lem_example :
    (close_days (λ _. none) 100_000_000 500 (running_day ∷ [])
      ≡ update_where (is_missed (λ _. none) 100_000_000) close_day (running_day ∷ []))
    × (any
          (is_missed (λ _. none) 100_000_000)
          (close_days (λ _. none) 100_000_000 500 (running_day ∷ []))
        ≡ false)
    × ((t : TimesheetDay)
        → (is_missed (λ _. none) 100_000_000 t ≡ true) ↔ IsMissed (λ _. none) 100_000_000 t)
close_days_lem_example = close_days_lem (λ _. none) 100_000_000 (running_day ∷ []) (omega arith)

abbrev in_selangor : WorkRules
in_selangor = record {
  assignments = [];
  legacy_schedule = none;
  organization_holidays =
      record { date = monday; state_code = some "10"; is_working_day_override = false } ∷ [];
  malaysia_holidays = record { date = monday; state_code = "14" } ∷ [];
  worksite_state_code = none;
  client_state_code = some "10";
  overtime_threshold = none;
  default_break_minutes = none;
}

abbrev on_leave : LeaveRequest
on_leave =
    new_leave_request (record { employee_id = "aminah"; client_id = "client" })
      (record {
        leave_type_id = "annual";
        start_date = monday;
        end_date = monday;
        requested_minutes = 480;
        reason = none;
      })
      "r1"

holidays_agree_example :
    (is_day_off (leave_holidays in_selangor on_leave) monday
      ≡ is_public_holiday_for_state monday
          (state_code in_selangor)
          in_selangor.organization_holidays
          in_selangor.malaysia_holidays)
    × (is_skipped monday
          (state_code in_selangor)
          in_selangor.organization_holidays
          in_selangor.malaysia_holidays
        ≡ is_public_holiday_for_state monday
            (state_code in_selangor)
            in_selangor.organization_holidays
            in_selangor.malaysia_holidays)
unfolding new_leave_request day_le
holidays_agree_example = holidays_agree in_selangor on_leave monday refl
