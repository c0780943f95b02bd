-- ===== src/PayrollRun.antt =====
-- apps/api/src/services/payroll-calculation-run.ts, `calculatePayrollRun`: the run of a pay period,
-- with a result for each eligible employee; and `isPublicHolidayForState` of malaysia-holidays.ts.
-- The lists are the rows that the queries of the transaction return, filtered and in their order.
pub mod Totals
use employee_attendance.Prelude.{
  ℕ, ◌+◌, ◌==◌, String, Bool, true, false, not, ◌&&◌, ◌||◌, Option, none, some, List, [], ◌∷◌, ◌++◌,
  map, length, any, filter, find, is_some, same_text, ltb, if◌then◌else◌, sum_by, or_else,
}
use employee_attendance.Prelude.Result.{Result, ok, err, ◌>>=◌, ◌>>◌, throw_if}
use employee_attendance.CodeSet.{set_of, sorted_codes}
use employee_attendance.Calendar.{Day, day_eq, day_le, ends_after, weekday}
use employee_attendance.Timesheet.{TimesheetState}
use employee_attendance.PayPeriod.{PayPeriodStatus}
use employee_attendance.Payroll.{
  PayrollJurisdiction, PayrollDayInput, PayProfileInput, PayComponentInput, StatutoryProfileInput,
}
use employee_attendance.Payroll.Doubles.{Doubles}
use employee_attendance.Payroll.Warnings.{
  Warning, BlockingWarning, blocking_code, warning_code, multiple_pay_profiles,
  multiple_statutory_profiles,
}
use employee_attendance.Payroll.Calculator.{
  PayrollCalculationInput, PayrollEmployeeCalculation, calculate_employee_payroll,
}

pub record OrganizationHoliday : Type 0 where
  pub date : Day
  pub state_code : Option String
  pub is_working_day_override : Bool

pub record MalaysiaHoliday : Type 0 where
  pub date : Day
  pub state_code : String

abbrev pub for_state : Option String → String → Bool
for_state none state = true
for_state (some s) state = same_text s state

-- `isPublicHolidayForState`; the code of a state is never the empty text.
unfoldable pub is_public_holiday_for_state :
    Day → String → List OrganizationHoliday → List MalaysiaHoliday → Bool
is_public_holiday_for_state date state organization malaysia =
    let matches = filter (λ h. day_eq h.date date && for_state h.state_code state) organization in
    if any (λ h. h.is_working_day_override) matches
    then false
    else (any (λ h. not h.is_working_day_override) matches
        || any (λ h. day_eq h.date date && same_text h.state_code state) malaysia)

pub record WorkShift : Type 0 where
  pub effective_from : Day
  pub effective_to : Option Day
  pub work_days : List ℕ
  pub is_active : Bool

pub record WeeklySchedule : Type 0 where
  pub work_days : List ℕ
  pub is_active : Bool

pub record WorkedDay : Type 0 where
  pub work_date : Day
  pub state : TimesheetState
  pub regular_minutes : ℕ
  pub overtime_minutes : ℕ
  pub paid_leave_minutes : ℕ
  pub unpaid_leave_minutes : ℕ
  pub is_absent : Bool

-- An event's work date and the state of its worksite.
pub record EventPlace : Type 0 where
  pub work_date : Day
  pub state_code : Option String

pub record PayrollEmployee : Type 0 where
  pub id : String
  pub join_date : Option Day
  pub termination_date : Option Day
  pub pay_profiles : List PayProfileInput
  pub statutory_profiles : List StatutoryProfileInput
  pub pay_components : List PayComponentInput
  pub timesheet_days : List WorkedDay
  pub schedule_assignments : List WorkShift
  pub schedule : Option WeeklySchedule
  pub attendance_events : List EventPlace

pub record PayrollSettings : Type 0 where
  pub jurisdiction : PayrollJurisdiction
  pub salary_divisor : ℕ
  pub statutory_contributions_enabled : Bool
  pub statutory_rule_version : String

pub record PayrollSource : Type 0 where
  pub status : PayPeriodStatus
  pub start_date : Day
  pub end_date : Day
  pub settings : PayrollSettings
  pub employees : List PayrollEmployee
  pub organization_holidays : List OrganizationHoliday
  pub malaysia_holidays : List MalaysiaHoliday
  pub client_state_code : Option String
  pub latest_version : Option ℕ

abbrev first_of {ℓ} : {A : Type ℓ} → List A → Option A
first_of [] = none
first_of (x ∷ xs) = some x

abbrev is_in_effect : Day → WorkShift → Bool
is_in_effect date s =
    day_le s.effective_from date && (ends_after s.effective_to date && s.is_active)

abbrev is_active_schedule : Option WeeklySchedule → Bool
is_active_schedule none = false
is_active_schedule (some s) = s.is_active

abbrev schedule_days : Option WeeklySchedule → Option (List ℕ)
schedule_days none = none
schedule_days (some s) = if s.is_active then some s.work_days else none

abbrev work_days_of : Option WorkShift → Option WeeklySchedule → Option (List ℕ)
work_days_of none schedule = schedule_days schedule
work_days_of (some s) schedule = some s.work_days

abbrev is_off : Option (List ℕ) → ℕ → Bool
is_off none today = false
is_off (some days) today = not (any (λ d. d == today) days)

abbrev place_of : Option EventPlace → Option String
place_of none = none
place_of (some e) = e.state_code

-- The state whose holidays a day has.
unfoldable pub state_code_on : PayrollSource → PayrollEmployee → Day → String
state_code_on s e date =
    or_else (place_of (find (λ p. day_eq p.work_date date) e.attendance_events))
      (or_else s.client_state_code "14")

unfoldable pub payroll_day : PayrollSource → PayrollEmployee → WorkedDay → PayrollDayInput
payroll_day s e t = record {
  work_date = t.work_date;
  state = t.state;
  regular_minutes = t.regular_minutes;
  overtime_minutes = t.overtime_minutes;
  paid_leave_minutes = t.paid_leave_minutes;
  unpaid_leave_minutes = t.unpaid_leave_minutes;
  is_absent = t.is_absent;
  is_rest_day =
      is_off (work_days_of (find (is_in_effect t.work_date) e.schedule_assignments) e.schedule)
        (weekday t.work_date);
  is_public_holiday =
      is_public_holiday_for_state t.work_date (state_code_on s e t.work_date)
        s.organization_holidays s.malaysia_holidays;
}

unfoldable pub calculation_input : PayrollSource → PayrollEmployee → PayrollCalculationInput
calculation_input s e = record {
  period_start = s.start_date;
  period_end = s.end_date;
  employment_start = e.join_date;
  employment_end = e.termination_date;
  jurisdiction = s.settings.jurisdiction;
  salary_divisor = s.settings.salary_divisor;
  profile = first_of e.pay_profiles;
  days = map (payroll_day s e) e.timesheet_days;
  components = e.pay_components;
  has_schedule = any (λ a. a.is_active) e.schedule_assignments || is_active_schedule e.schedule;
  statutory_contributions_enabled = s.settings.statutory_contributions_enabled;
  statutory_rule_version = some s.settings.statutory_rule_version;
  statutory_profile = first_of e.statutory_profiles;
}

abbrev push_if : Bool → BlockingWarning → List BlockingWarning → List BlockingWarning
push_if test warning warnings = if test then warnings ++ warning ∷ [] else warnings

-- The warnings that a run adds to those of a calculation.
unfoldable pub run_blocking :
    PayrollSource → PayrollEmployee → List BlockingWarning → List BlockingWarning
run_blocking s e warnings =
    let enabled = s.settings.statutory_contributions_enabled in
    push_if (enabled && ltb 1 (length e.statutory_profiles)) multiple_statutory_profiles
      (push_if (ltb 1 (length e.pay_profiles)) multiple_pay_profiles warnings)

-- A result with the employee that it is of.
pub record EmployeeResult : Type 0 where
  pub employee_id : String
  pub result : PayrollEmployeeCalculation

-- The row of a result, with its warnings as sorted sets.
unfoldable pub stored_result : EmployeeResult → EmployeeResult
stored_result r = record r {
  result = record (r.result) {
    warnings = sorted_codes (set_of [] r.result.warnings);
    blocking_warnings = sorted_codes (set_of [] r.result.blocking_warnings);
  };
}

pub record PayrollRun : Type 0 where
  pub version : ℕ
  pub total_gross_sen : ℕ
  pub total_deductions_sen : ℕ
  pub total_calculated_pay_sen : ℕ
  pub expected_employee_count : ℕ
  pub warning_count : ℕ
  pub blocking_warning_count : ℕ
  pub results : List EmployeeResult

pub data RunError : Type 0 where
  pay_period_not_draft no_payroll_employees : RunError

abbrev pub is_draft : PayPeriodStatus → Bool
is_draft PayPeriodStatus.draft = true
is_draft _ = false

abbrev pub is_none_left : List PayrollEmployee → Bool
is_none_left [] = true
is_none_left (e ∷ es) = false

module _ (doubles : Doubles) where
  -- An item of `calculated`.
  unfoldable pub employee_result : PayrollSource → PayrollEmployee → EmployeeResult
  employee_result s e =
      let r = calculate_employee_payroll doubles (calculation_input s e) in
      record {
        employee_id = e.id;
        result = record r { blocking_warnings = run_blocking s e r.blocking_warnings };
      }

  abbrev pub run_of : PayrollSource → List EmployeeResult → PayrollRun
  run_of s rs = record {
    version = or_else s.latest_version 0 + 1;
    total_gross_sen = sum_by (λ r. r.result.amounts.gross_pay_sen) rs;
    total_deductions_sen = sum_by (λ r. r.result.amounts.total_deductions_sen) rs;
    total_calculated_pay_sen = sum_by (λ r. r.result.amounts.calculated_pay_sen) rs;
    expected_employee_count = length s.employees;
    warning_count = sum_by (λ r. length r.result.warnings) rs;
    blocking_warning_count = sum_by (λ r. length r.result.blocking_warnings) rs;
    results = map stored_result rs;
  }

  -- `calculatePayrollRun`, for a period that is there.
  unfoldable pub calculate_payroll_run : PayrollSource → Result RunError PayrollRun
  calculate_payroll_run s = do
    throw_if (not (is_draft s.status)) pay_period_not_draft
    throw_if (is_none_left s.employees) no_payroll_employees
    ok (run_of s (map (employee_result s) s.employees))
