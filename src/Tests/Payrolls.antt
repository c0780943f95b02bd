-- ===== src/Tests/Payrolls.antt =====
-- The payroll of one employee on a monthly salary, with an allowance and an advance, and the
-- statutory contributions.
use employee_attendance.Prelude.{◌≢◌}
use employee_attendance.Statutory.{EpfContributionCategory}
use employee_attendance.Prelude.{
  ℕ, ◌≤◌, ◌<◌, ◌≡◌, ◌↔◌, refl, Option, none, some, [], ◌∷◌, true, false,
}
use employee_attendance.Prelude.Int.{pos}
use employee_attendance.CodeSet.{}
use employee_attendance.Calendar.{Day}
use employee_attendance.Timesheet.{TimesheetState}
use employee_attendance.Statutory.{
  SocsoContributionCategory, calculate_epf_contribution, standard_under_60,
}
use employee_attendance.Statutory.Bounds.{due_iff}
use employee_attendance.Statutory.Bands.{}
use employee_attendance.Payroll.{
  monthly, peninsular_labuan, sabah, PayrollComponentType, PayrollCalculationBasis, PayrollDayInput,
  PayProfileInput, PayComponentInput, PayrollLineDirection,
}
use employee_attendance.Payroll.Doubles.{fractions}
use employee_attendance.Payroll.Warnings.{blocking_code}
use employee_attendance.Payroll.Lines.{total_in}
use employee_attendance.Payroll.Days.{empty_tally}
use employee_attendance.Payroll.Earnings.{Earnings}
use employee_attendance.Payroll.Components.{Basis, start_components, components_tally}
use employee_attendance.Payroll.Calculator.{PayrollCalculationInput, calculate_employee_payroll}
use employee_attendance.Payroll.Calculator.Reconcile.{lines_reconcile}
use employee_attendance.Payroll.Calculator.Blocking.{}
use employee_attendance.Payroll.Calculator.Numbering.{}
use employee_attendance.Prelude.Result.{ok}
use employee_attendance.PayPeriod.{PayPeriodStatus}
use employee_attendance.PayrollRun.{
  PayrollEmployee, PayrollSource, PayrollRun, employee_result, run_of, calculate_payroll_run,
}
use employee_attendance.PayrollRun.Totals.{run_reconciles, total_of_lines}
use employee_attendance.PayItems.{
  PayItem, AssignmentForm, AssignedItem, is_valid_assignment, create_employee_pay_component,
  item_input,
}
use employee_attendance.PayItems.Advances.{advances-le-totals}

abbrev payday : Day
payday = record { year = 2026; month = 11; day = 2 }

abbrev salaried : PayProfileInput
salaried = record {
  id = "profile";
  pay_type = monthly;
  base_rate_sen = 300_000;
  normal_daily_minutes = 480;
  normal_weekly_minutes = 2700;
  overtime_eligible = true;
  effective_from = payday;
  effective_to = none;
}

abbrev worked : PayrollDayInput
worked = record {
  work_date = payday;
  state = TimesheetState.complete;
  regular_minutes = 480;
  overtime_minutes = 60;
  paid_leave_minutes = 0;
  unpaid_leave_minutes = 0;
  is_absent = false;
  is_rest_day = false;
  is_public_holiday = false;
}

abbrev component : PayrollComponentType → Option ℕ → PayComponentInput
component kind outstanding = record {
  id = "component";
  amount_sen = 5_000;
  percentage_basis_points = none;
  outstanding_amount_sen = outstanding;
  effective_from = payday;
  effective_to = none;
  payroll_component = record {
    code = "C";
    name = "Component";
    kind = kind;
    calculation_basis = PayrollCalculationBasis.fixed_amount;
    epf_eligible = none;
    socso_eligible = none;
    eis_eligible = none;
  };
}

abbrev allowance : PayComponentInput
allowance = component PayrollComponentType.earning none

abbrev advance : PayComponentInput
advance = component PayrollComponentType.advance_repayment (some 3_000)

abbrev month : PayrollCalculationInput
month = record {
  period_start = payday;
  period_end = payday;
  employment_start = none;
  employment_end = none;
  jurisdiction = peninsular_labuan;
  salary_divisor = 26;
  profile = some salaried;
  days = worked ∷ [];
  components = allowance ∷ advance ∷ [];
  has_schedule = true;
  statutory_contributions_enabled = false;
  statutory_rule_version = none;
  statutory_profile = none;
}

abbrev in_sabah : PayrollCalculationInput
in_sabah = record month { jurisdiction = sabah }

abbrev few_days : Basis
few_days = record {
  active_dates = payday ∷ [];
  period_days = 1;
  payable_minutes = 480;
  normal_minutes = 480;
  base_earnings_sen = 10_000;
}

abbrev earned : Earnings
earned = record {
  base_pay_sen = 10_000;
  regular_pay_sen = 0;
  paid_leave_pay_sen = 0;
  overtime_pay_sen = 500;
  tally = empty_tally;
}

lines_reconcile_example :
    (total_in PayrollLineDirection.earning (calculate_employee_payroll fractions month).lines
      ≡ (calculate_employee_payroll fractions month).amounts.gross_pay_sen)
    × (total_in PayrollLineDirection.deduction (calculate_employee_payroll fractions month).lines
        ≡ (calculate_employee_payroll fractions month).amounts.total_deductions_sen)
    × (total_in PayrollLineDirection.employer_contribution
          (calculate_employee_payroll fractions month).lines
        ≡ (calculate_employee_payroll fractions month).amounts.employer_contributions_sen)
lines_reconcile_example = lines_reconcile fractions month

abbrev advance_form : AssignmentForm
advance_form = record {
  amount_sen = 1_000;
  percentage_basis_points = none;
  total_amount_sen = some 3_000;
  effective_from = record { year = 2026; month = 1; day = 1 };
  effective_to = none;
  consent_reference = some "letter";
}

abbrev advance_item : PayItem
advance_item = record {
  component = advance.payroll_component;
  default_amount_sen = 1_000;
  default_percentage_bps = none;
  is_active = true;
}

abbrev lent : AssignedItem
lent = record {
  id = "advance";
  component = advance.payroll_component;
  form = advance_form;
  outstanding_amount_sen = some 3_000;
}

lending_succeeds :
    create_employee_pay_component true (some advance_item) advance_form "advance" ≡ ok lent
unfolding create_employee_pay_component is_valid_assignment
lending_succeeds = refl

advances-le-totals_example :
    (components_tally fractions few_days
      (start_components [])
      (item_input lent ∷ [])).advance_deduction_sen
    ≤ 3_000
advances-le-totals_example =
    advances-le-totals fractions few_days [] (lent ∷ [])
      ((true, some advance_item, "advance", lending_succeeds), tt)

due_iff_example :
    (0 < (calculate_epf_contribution (pos 300_000) standard_under_60).employer_sen)
    ↔ ((standard_under_60 ≢ EpfContributionCategory.exempt) × (1_000 < 300_000))
due_iff_example = (due_iff (pos 300_000) standard_under_60 SocsoContributionCategory.first true).0

abbrev clerk : PayrollEmployee
clerk = record {
  id = "aminah";
  join_date = none;
  termination_date = none;
  pay_profiles = salaried ∷ [];
  statutory_profiles = [];
  pay_components = allowance ∷ advance ∷ [];
  timesheet_days = [];
  schedule_assignments = [];
  schedule = none;
  attendance_events = [];
}

abbrev source : PayrollSource
source = record {
  status = PayPeriodStatus.draft;
  start_date = payday;
  end_date = payday;
  settings = record {
    jurisdiction = peninsular_labuan;
    salary_divisor = 26;
    statutory_contributions_enabled = false;
    statutory_rule_version = "none";
  };
  employees = clerk ∷ [];
  organization_holidays = [];
  malaysia_holidays = [];
  client_state_code = none;
  latest_version = none;
}

abbrev first_run : PayrollRun
first_run = run_of fractions source (employee_result fractions source clerk ∷ [])

run_succeeds : calculate_payroll_run fractions source ≡ ok first_run
unfolding calculate_payroll_run
run_succeeds = refl

run_reconciles_example :
    first_run.total_gross_sen
    ≡ total_of_lines fractions PayrollLineDirection.earning first_run.results
run_reconciles_example = (run_reconciles fractions source first_run run_succeeds).0
