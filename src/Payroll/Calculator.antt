-- ===== src/Payroll/Calculator.antt =====
-- payroll-calculator.ts, `calculateEmployeePayroll`, in the order of the code.
pub mod Reconcile
pub mod Blocking
pub mod Numbering
use employee_attendance.Prelude.{
  ℕ, ◌+◌, ◌*◌, ◌-◌, String, Bool, true, false, not, ◌&&◌, ◌||◌, Option, none, some, List, [], ◌∷◌,
  filter, length, any, ltb, if◌then◌else◌, or_else, is_some,
}
use employee_attendance.CodeSet.{add_code, sorted_codes, has_code}
use employee_attendance.Calendar.{Day, enumerate_dates, active_on}
use employee_attendance.Timesheet.{TimesheetState, open_day, exception}
use employee_attendance.Statutory.{StatutoryContributionResult}
use employee_attendance.Payroll.{
  PayrollJurisdiction, peninsular_labuan, PayProfileInput, PayrollDayInput, PayComponentInput,
  StatutoryProfileInput,
}
use employee_attendance.Payroll.Doubles.{Doubles}
use employee_attendance.Payroll.Lines.{PayrollLineOutput}
use employee_attendance.Payroll.Warnings.{
  Warning, warning_code, missing_schedule, overtime_not_eligible, deductions_exceed_half_gross,
  BlockingWarning, blocking_code, deductions_exceed_gross, missing_pay_profile,
  missing_statutory_profile, statutory_deductions_exceed_gross, unresolved_timesheet,
  unsupported_jurisdiction, unsupported_statutory_rule_version,
}
use employee_attendance.Payroll.Earnings.{
  Earnings, base_earnings, base_lines, day_lines, unpaid_minutes, earnings_of,
}
use employee_attendance.Payroll.Components.{
  ComponentTally, start_components, Basis, components_tally,
}
use employee_attendance.Payroll.Contributions.{
  ContributionWages, is_rule_version, statutory_for, contribution_lines, contribution_warnings,
  warn_if,
}

pub record PayrollCalculationInput : Type 0 where
  pub period_start : Day
  pub period_end : Day
  pub employment_start : Option Day
  pub employment_end : Option Day
  pub jurisdiction : PayrollJurisdiction
  pub salary_divisor : ℕ
  pub profile : Option PayProfileInput
  pub days : List PayrollDayInput
  pub components : List PayComponentInput
  pub has_schedule : Bool
  pub statutory_contributions_enabled : Bool
  pub statutory_rule_version : Option String
  pub statutory_profile : Option StatutoryProfileInput

-- The amounts of a calculation, all zero in `empty`.
pub record Amounts : Type 0 where
  pub earnings : Option Earnings
  pub additional_earnings_sen : ℕ
  pub other_deductions_sen : ℕ
  pub advance_deduction_sen : ℕ
  pub wages : ContributionWages
  pub statutory : Option StatutoryContributionResult
  pub employer_contributions_sen : ℕ
  pub gross_pay_sen : ℕ
  pub total_deductions_sen : ℕ
  pub calculated_pay_sen : ℕ

pub record InputSummary : Type 0 where
  pub period_days : ℕ
  pub active_days : ℕ
  pub timesheet_days : ℕ

-- `PayrollEmployeeCalculation`. The amounts of the days are those of `amounts.earnings`, and the
-- contributions those of `amounts.statutory`, zero where that is null; of the summary it has the
-- counts.
pub record PayrollEmployeeCalculation : Type 0 where
  pub amounts : Amounts
  pub warnings : List Warning
  pub blocking_warnings : List BlockingWarning
  pub pay_profile_snapshot : Option PayProfileInput
  pub input_summary : InputSummary
  pub lines : List PayrollLineOutput

abbrev pub empty_amounts : Amounts
empty_amounts = record {
  earnings = none;
  additional_earnings_sen = 0;
  other_deductions_sen = 0;
  advance_deduction_sen = 0;
  wages = record { epf = 0; socso = 0; eis = 0 };
  statutory = none;
  employer_contributions_sen = 0;
  gross_pay_sen = 0;
  total_deductions_sen = 0;
  calculated_pay_sen = 0;
}

abbrev pub block_if : Bool → BlockingWarning → List BlockingWarning → List BlockingWarning
block_if test warning warnings = if test then add_code warning warnings else warnings

unfoldable pub is_supported : PayrollJurisdiction → Bool
is_supported peninsular_labuan = true
is_supported _ = false

abbrev is_unresolved : TimesheetState → Bool
is_unresolved open_day = true
is_unresolved exception = true
is_unresolved _ = false

unfoldable pub initial_blocking : PayrollCalculationInput → List BlockingWarning
initial_blocking input =
    let enabled = input.statutory_contributions_enabled in
    let version = enabled && not (is_rule_version input.statutory_rule_version) in
    let missing = enabled && not (is_some input.statutory_profile) in
    block_if version unsupported_statutory_rule_version (
      block_if missing missing_statutory_profile (
        block_if (any (λ day. is_unresolved day.state) input.days) unresolved_timesheet (
          block_if (not (is_some input.profile)) missing_pay_profile
            (block_if (not (is_supported input.jurisdiction)) unsupported_jurisdiction []))))

unfoldable pub initial_warnings : PayrollCalculationInput → List Warning
initial_warnings input = warn_if (not input.has_schedule) missing_schedule []

-- `periodDates` and `activeDates`
abbrev pub period_dates : PayrollCalculationInput → List Day
period_dates input = enumerate_dates input.period_start input.period_end

abbrev pub active_dates : PayrollCalculationInput → List Day
active_dates input =
    filter (λ date. active_on date input.employment_start input.employment_end) (period_dates input)

abbrev summary_of : PayrollCalculationInput → InputSummary
summary_of input = record {
  period_days = length (period_dates input);
  active_days = length (active_dates input);
  timesheet_days = length input.days;
}

-- The early return.
unfoldable pub blocked_calculation : PayrollCalculationInput → PayrollEmployeeCalculation
blocked_calculation input = record {
  amounts = empty_amounts;
  warnings = initial_warnings input;
  blocking_warnings = initial_blocking input;
  pay_profile_snapshot = input.profile;
  input_summary = summary_of input;
  lines = [];
}

abbrev pub employee_total : Option (StatutoryProfileInput × StatutoryContributionResult) → ℕ
employee_total none = 0
employee_total (some (p, r)) = r.employee_total_sen

abbrev pub employer_total : Option (StatutoryProfileInput × StatutoryContributionResult) → ℕ
employer_total none = 0
employer_total (some (p, r)) = r.employer_total_sen

abbrev result_of :
    Option (StatutoryProfileInput × StatutoryContributionResult)
    → Option StatutoryContributionResult
result_of none = none
result_of (some (p, r)) = some r

abbrev wages_if :
    Option (StatutoryProfileInput × StatutoryContributionResult)
    → ContributionWages
    → ContributionWages
wages_if none w = record { epf = 0; socso = 0; eis = 0 }
wages_if (some pr) w = w

abbrev pub statutory_lines :
    List PayrollLineOutput
    → ContributionWages
    → Option (StatutoryProfileInput × StatutoryContributionResult)
    → List PayrollLineOutput
statutory_lines lines w none = lines
statutory_lines lines w (some pr) = contribution_lines lines w pr

module _ (doubles : Doubles) where
  abbrev statutory_warnings :
      List Warning
      → ContributionWages
      → Option (StatutoryProfileInput × StatutoryContributionResult)
      → ℕ
      → List Warning
  statutory_warnings warnings w none gross = warnings
  statutory_warnings warnings w (some (p, r)) gross =
      contribution_warnings doubles warnings w p gross

  -- `grossPaySen`
  unfoldable pub gross_pay : Earnings → ComponentTally → ℕ
  gross_pay e c =
      base_earnings e
      + e.overtime_pay_sen
      + e.tally.rest_day_pay_sen
      + e.tally.public_holiday_pay_sen
      + c.additional_earnings_sen

  -- `epfWagesSen`, `socsoWagesSen`, `eisWagesSen`
  unfoldable pub contribution_wages : Earnings → ComponentTally → ContributionWages
  contribution_wages e c =
      let worked = e.tally.rest_day_pay_sen + e.tally.public_holiday_pay_sen in
      record {
        epf = base_earnings e + worked + c.epf_eligible_sen;
        socso = base_earnings e + e.overtime_pay_sen + worked + c.socso_eligible_sen;
        eis = base_earnings e + e.overtime_pay_sen + worked + c.eis_eligible_sen;
      }

  -- What follows the loop over the components.
  unfoldable pub conclude :
      PayrollCalculationInput
      → PayProfileInput
      → Earnings
      → ComponentTally
      → PayrollEmployeeCalculation
  conclude input profile e c =
      let gross = gross_pay e c in
      let w = contribution_wages e c in
      let statutory =
        statutory_for input.statutory_contributions_enabled input.statutory_rule_version
          input.statutory_profile w in
      let deductions =
        e.tally.unpaid_leave_deduction_sen
        + c.other_deductions_sen
        + c.advance_deduction_sen
        + employee_total statutory in
      let overtime_lost = not profile.overtime_eligible && ltb 0 e.tally.overtime_minutes in
      let warnings = warn_if overtime_lost overtime_not_eligible (initial_warnings input) in
      record {
        amounts = record {
          earnings = some e;
          additional_earnings_sen = c.additional_earnings_sen;
          other_deductions_sen = c.other_deductions_sen;
          advance_deduction_sen = c.advance_deduction_sen;
          wages = wages_if statutory w;
          statutory = result_of statutory;
          employer_contributions_sen = employer_total statutory;
          gross_pay_sen = gross;
          total_deductions_sen = deductions;
          calculated_pay_sen = gross - deductions;
        };
        warnings = sorted_codes (
            warn_if (ltb gross (2 * deductions)) deductions_exceed_half_gross
              (statutory_warnings warnings w statutory gross));
        blocking_warnings = sorted_codes (
            block_if (ltb gross (employee_total statutory)) statutory_deductions_exceed_gross
              (block_if (ltb gross deductions) deductions_exceed_gross (initial_blocking input)));
        pay_profile_snapshot = some profile;
        input_summary = summary_of input;
        lines = statutory_lines c.lines w statutory;
      }

  unfoldable pub basis_of : PayrollCalculationInput → PayProfileInput → Earnings → Basis
  basis_of input profile e = record {
    active_dates = active_dates input;
    period_days = length (period_dates input);
    payable_minutes = e.tally.regular_minutes + e.tally.paid_leave_minutes;
    normal_minutes = profile.normal_daily_minutes;
    base_earnings_sen = base_earnings e;
  }

  unfoldable pub earned_lines :
      PayrollCalculationInput → PayProfileInput → Earnings → List PayrollLineOutput
  earned_lines input profile e =
      day_lines
        (base_lines profile e.base_pay_sen (length (active_dates input))
          (length (period_dates input)))
        e (unpaid_minutes input.days)

  unfoldable pub calculate_with_profile :
      PayrollCalculationInput → PayProfileInput → PayrollEmployeeCalculation
  calculate_with_profile input profile =
      let e = earnings_of doubles profile input.salary_divisor (active_dates input) input.days in
      let c =
        components_tally doubles (basis_of input profile e)
          (start_components (earned_lines input profile e)) input.components in
      conclude input profile e c

  abbrev calculate_if :
      Bool → PayrollCalculationInput → Option PayProfileInput → PayrollEmployeeCalculation
  calculate_if unsupported input none = blocked_calculation input
  calculate_if true input (some profile) = blocked_calculation input
  calculate_if false input (some profile) = calculate_with_profile input profile

  -- `calculateEmployeePayroll`
  unfoldable pub calculate_employee_payroll : PayrollCalculationInput → PayrollEmployeeCalculation
  calculate_employee_payroll input =
      calculate_if (has_code unsupported_jurisdiction (initial_blocking input)) input input.profile
