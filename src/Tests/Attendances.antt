-- ===== src/Tests/Attendances.antt =====
-- A day of clocking in and out, and the timesheets that it makes.
use employee_attendance.Prelude.{
  ℕ, ◌+◌, ◌*◌, ◌-◌, ◌/◌, ◌≤◌, ◌<◌, ◌≡◌, ◌↔◌, refl, none, some, [], ◌∷◌, true, false, arith,
}
use employee_attendance.Prelude.Result.{ok}
use employee_attendance.CodeSet.{}
use employee_attendance.Calendar.{
  Day, day_eq, days_from, enumerate_dates, is_leap, month_length, ordinal,
}
use employee_attendance.Calendar.Ordinals.{IsDate}
use employee_attendance.Calendar.Ranges.{enumerate_dates-ends}
use employee_attendance.Timesheet.{
  TimesheetEvent, TimesheetPolicy, open_day, locked, clock_in, clock_out, calculate_timesheet,
}
use employee_attendance.Timesheet.Codes.{exception_code}
use employee_attendance.Timesheet.Minutes.{minutes_fit}
use employee_attendance.Schedule.{
  LocalParts, Shift, calculate_schedule_metrics, actual_minute, time_minutes,
}
use employee_attendance.Schedule.Exceptions.{metrics_lem}
use employee_attendance.Attendance.{transition_allowed}
use employee_attendance.Attendance.Accepted.{accepted_timesheet}
use employee_attendance.Attendance.Store.{
  AttendanceEvent, Store, TimesheetRow, find_duplicate, latest_event, find_timesheet,
}
use employee_attendance.Attendance.Action.{
  Action, ActionResult, perform_action, new_action, work_date_of, is_locked, replay, write_action,
}
use employee_attendance.Attendance.History.{
  IsChain, perform_action-IsChain, perform_action_locked, perform_action_once,
}
use employee_attendance.Attendance.Rejection.{
  record_gps_rejection, record_gps_rejection_on_d1, rejections_agree_iff, created_row,
}
use employee_attendance.Prelude.{leb, Option}
use employee_attendance.Attendance.Admission.{Globe, Worksite, Applicant}
use employee_attendance.Attendance.Preflight.{apply_attendance_action_on_d1, load_action_state}
use employee_attendance.Attendance.Preflight.Agreement.{apply_attendance_action_on_d1_agrees}

abbrev monday : Day
monday = record { year = 2026; month = 11; day = 2 }

abbrev tuesday : Day
tuesday = record { year = 2026; month = 11; day = 3 }

monday-IsDate : IsDate monday
unfolding month_length is_leap
monday-IsDate = record {
  year_pos = omega arith;
  month_pos = omega arith;
  month_le = omega arith;
  day_pos = omega arith;
  day_le_length = omega arith;
}

tuesday-IsDate : IsDate tuesday
unfolding month_length is_leap
tuesday-IsDate = record {
  year_pos = omega arith;
  month_pos = omega arith;
  month_le = omega arith;
  day_pos = omega arith;
  day_le_length = omega arith;
}

abbrev in_utc : LocalParts
in_utc instant = (monday, instant / 60_000)

abbrev at_nine : TimesheetEvent
at_nine = record { kind = clock_in; occurred_at = 32_400_000 }

abbrev at_six : TimesheetEvent
at_six = record { kind = clock_out; occurred_at = 64_800_000 }

abbrev usual : TimesheetPolicy
usual = record {
  regular_day_minutes = none;
  rounding_increment = some 15;
  maximum_shift_minutes = none;
}

abbrev office : Shift
office = record {
  start_time = record { hour = 9; minute = 0 };
  end_time = record { hour = 18; minute = 0 };
  grace_period_minutes = 10;
  is_overnight = false;
}

minutes_fit_example :
    ((calculate_timesheet (at_six ∷ at_nine ∷ []) usual).regular_minutes
        + (calculate_timesheet (at_six ∷ at_nine ∷ []) usual).overtime_minutes
        + (calculate_timesheet (at_six ∷ at_nine ∷ []) usual).break_minutes)
      * 60_000
    ≤ 64_800_000 - 32_400_000 + 60_000 * 15
minutes_fit_example =
    minutes_fit 32_400_000 64_800_000 (at_six ∷ at_nine ∷ []) usual (omega arith)
      ((omega arith, omega arith), ((omega arith, omega arith), tt)) (omega arith)

accepted_timesheet_example : (calculate_timesheet (at_nine ∷ []) usual).state ≡ open_day
unfolding transition_allowed
accepted_timesheet_example =
    ((accepted_timesheet 0 (at_nine ∷ []) usual (omega arith, tt) (refl, tt) refl).0 refl).0

metrics_lem_example :
    (0
      < (calculate_schedule_metrics in_utc monday
          (some 32_400_000)
          (some 64_800_000)
          (some office)).late_minutes)
    ↔ (ordinal monday * 1440 + time_minutes office.start_time + 10
        < actual_minute in_utc 32_400_000)
metrics_lem_example = (metrics_lem in_utc monday 32_400_000 64_800_000 office monday-IsDate).0

enumerate_dates-ends_example :
    days_from (ordinal tuesday + 1 - ordinal monday + 100) monday tuesday
    ≡ enumerate_dates monday tuesday
enumerate_dates-ends_example = enumerate_dates-ends monday tuesday 100 monday-IsDate tuesday-IsDate

abbrev locked_row : TimesheetRow
locked_row = record (created_row "t0" monday) { state = locked }

abbrev before : Store ℕ
before = record {
  events = [];
  timesheets = locked_row ∷ [];
  attendance = [];
  audit = [];
  deliveries = [];
  assignments = [];
}

abbrev arrive : Action ℕ
arrive = record {
  requested = clock_in;
  position = 7;
  worksite_id = "hq";
  idempotency_key = "key";
  actor_user_id = "aminah";
  now = 32_400_000;
  today = tuesday;
  event_id = "e1";
  attendance_id = "a1";
  timesheet_id = "t1";
  delivery_id = "d1";
}

abbrev leave_with_same_key : Action ℕ
leave_with_same_key = record arrive { requested = clock_out; now = 64_800_000 }

abbrev answer : Store ℕ × ActionResult ℕ
answer = write_action in_utc true before none arrive tuesday

arrival_succeeds : perform_action in_utc true before none arrive ≡ ok answer
unfolding perform_action find_duplicate new_action latest_event transition_allowed work_date_of
    find_timesheet day_eq created_row
arrival_succeeds = refl

perform_action-IsChain_example : IsChain none answer.0.events
perform_action-IsChain_example =
    perform_action-IsChain in_utc true before answer.0 none arrive answer.1 tt tt arrival_succeeds

perform_action_locked_example :
    find_timesheet answer.0.timesheets monday ≡ find_timesheet before.timesheets monday
unfolding find_timesheet day_eq created_row
perform_action_locked_example =
    perform_action_locked in_utc true before answer.0 none arrive answer.1 monday arrival_succeeds
      refl

perform_action_once_example :
    (e : AttendanceEvent ℕ) × (e.idempotency_key ≡ "key")
    × (perform_action in_utc true answer.0 none leave_with_same_key
        ≡ ok (answer.0, replay in_utc true answer.0 e))
perform_action_once_example =
    perform_action_once in_utc true before answer.0 none none arrive leave_with_same_key answer.1
      refl arrival_succeeds

apply_attendance_action_on_d1_agrees_example :
    apply_attendance_action_on_d1 in_utc true before (load_action_state before arrive) none arrive
    ≡ perform_action in_utc true before none arrive
apply_attendance_action_on_d1_agrees_example =
    apply_attendance_action_on_d1_agrees in_utc true before none arrive tt

rejections_agree_iff_example :
    (record_gps_rejection_on_d1 (locked_row ∷ []) monday "t1"
      ≡ record_gps_rejection (locked_row ∷ []) monday "t1")
    ↔ (is_locked (find_timesheet (locked_row ∷ []) monday) ≡ false)
rejections_agree_iff_example = rejections_agree_iff (locked_row ∷ []) monday "t1"

abbrev on_a_line : Globe
on_a_line = record { Meters = ℕ; Position = ℕ; at_most = leb; distance = λ p q. (p - q) + (q - p) }

abbrev headquarters : Worksite on_a_line
headquarters = record { id = "hq"; position = 100; radius = 50 }

abbrev on_the_books : Option Applicant
on_the_books = some (record { has_client = true; is_active = true })
