-- ===== src/Payroll/Calculator/Numbering.antt =====
-- The lines of a calculation are numbered from 1 in order, and each has a positive amount.
use employee_attendance.Prelude.{ℕ, Bool, true, false, Option, none, some, List, arith}
use employee_attendance.Statutory.{StatutoryContributionResult}
use employee_attendance.Payroll.{PayProfileInput, StatutoryProfileInput}
use employee_attendance.Payroll.Doubles.{Doubles}
use employee_attendance.Payroll.Lines.{
  PayrollLineOutput, push_line, push_line-IsNumbered, IsNumberedFrom,
}
use employee_attendance.Payroll.Warnings.{blocking_code}
use employee_attendance.Payroll.Earnings.{Earnings, base_lines, day_lines}
use employee_attendance.Payroll.Contributions.{ContributionWages, contribution_lines}
use employee_attendance.Payroll.Calculator.{
  PayrollCalculationInput, statutory_lines, conclude, earned_lines, calculate_with_profile,
  blocked_calculation, calculate_if, calculate_employee_payroll,
}
use employee_attendance.Payroll.Calculator.Reconcile.{components_numbered}

abbrev AreNumbered : List PayrollLineOutput → Type 0
AreNumbered lines = IsNumberedFrom 0 lines

base_lines-AreNumbered :
    (profile : PayProfileInput) (amount a p : ℕ) → AreNumbered (base_lines profile amount a p)
unfolding base_lines push_line
base_lines-AreNumbered profile amount a p = ground arith

day_lines-AreNumbered :
    (lines : List PayrollLineOutput) (e : Earnings) (unpaid : ℕ)
    → AreNumbered lines
    → AreNumbered (day_lines lines e unpaid)
unfolding day_lines
day_lines-AreNumbered lines e unpaid h = push_line-IsNumbered _ _ (
    push_line-IsNumbered _ _ (
      push_line-IsNumbered _ _
        (push_line-IsNumbered _ _ (push_line-IsNumbered _ _ (push_line-IsNumbered _ _ h)))))

statutory_lines-AreNumbered :
    (lines : List PayrollLineOutput) (w : ContributionWages)
    (s : Option (StatutoryProfileInput × StatutoryContributionResult))
    → AreNumbered lines
    → AreNumbered (statutory_lines lines w s)
unfolding contribution_lines
statutory_lines-AreNumbered lines w none h = h
statutory_lines-AreNumbered lines w (some (p, r)) h = push_line-IsNumbered _ _ (
    push_line-IsNumbered _ _ (
      push_line-IsNumbered _ _
        (push_line-IsNumbered _ _ (push_line-IsNumbered _ _ (push_line-IsNumbered _ _ h)))))

module _ (doubles : Doubles) (input : PayrollCalculationInput) where
  profile-AreNumbered :
      (profile : PayProfileInput) → AreNumbered (calculate_with_profile doubles input profile).lines
  unfolding calculate_with_profile conclude earned_lines
  profile-AreNumbered profile = statutory_lines-AreNumbered _ _ _ (
      components_numbered doubles _ _ input.components
        (day_lines-AreNumbered _ _ _ (base_lines-AreNumbered profile _ _ _)))

  calculate_if-AreNumbered :
      (unsupported : Bool) (profile : Option PayProfileInput)
      → AreNumbered (calculate_if doubles unsupported input profile).lines
  unfolding blocked_calculation
  calculate_if-AreNumbered unsupported none = tt
  calculate_if-AreNumbered true (some profile) = tt
  calculate_if-AreNumbered false (some profile) = profile-AreNumbered profile

  -- The lines of every calculation are numbered 1, 2, 3 and so on, and none is of zero sen.
  pub lines_numbered : IsNumberedFrom 0 (calculate_employee_payroll doubles input).lines
  unfolding calculate_employee_payroll
  lines_numbered = calculate_if-AreNumbered _ input.profile
