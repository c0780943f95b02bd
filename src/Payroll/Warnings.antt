-- ===== src/Payroll/Warnings.antt =====
-- The warning codes of payroll-calculator.ts, in alphabetical order.
use employee_attendance.Prelude.{ℕ}
use employee_attendance.CodeSet.{Code}

pub data Warning : Type 0 where
  contribution_wages_differ_significantly_from_gross deductions_exceed_half_gross eis_exempt
        eis_wage_ceiling_reached epf_exempt missing_schedule overtime_not_eligible socso_exempt
        socso_wage_ceiling_reached :
      Warning

unfoldable pub warning_rank : Warning → ℕ
warning_rank contribution_wages_differ_significantly_from_gross = 0
warning_rank deductions_exceed_half_gross = 1
warning_rank eis_exempt = 2
warning_rank eis_wage_ceiling_reached = 3
warning_rank epf_exempt = 4
warning_rank missing_schedule = 5
warning_rank overtime_not_eligible = 6
warning_rank socso_exempt = 7
warning_rank socso_wage_ceiling_reached = 8

instance abbrev pub warning_code : Code Warning
warning_code = record { rank = warning_rank }

pub data BlockingWarning : Type 0 where
  deductions_exceed_gross missing_pay_profile missing_statutory_profile multiple_pay_profiles
        multiple_statutory_profiles statutory_deductions_exceed_gross unresolved_timesheet
        unsupported_jurisdiction unsupported_statutory_rule_version :
      BlockingWarning

unfoldable pub blocking_rank : BlockingWarning → ℕ
blocking_rank deductions_exceed_gross = 0
blocking_rank missing_pay_profile = 1
blocking_rank missing_statutory_profile = 2
blocking_rank multiple_pay_profiles = 3
blocking_rank multiple_statutory_profiles = 4
blocking_rank statutory_deductions_exceed_gross = 5
blocking_rank unresolved_timesheet = 6
blocking_rank unsupported_jurisdiction = 7
blocking_rank unsupported_statutory_rule_version = 8

instance abbrev pub blocking_code : Code BlockingWarning
blocking_code = record { rank = blocking_rank }
