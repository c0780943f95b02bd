-- ===== src/PayPeriod/Review.antt =====
-- payroll-calculation-run.ts: `unacknowledgedWarningCount` and `assertReviewablePayrollCalculation`,
-- and what the latter establishes.
use employee_attendance.Prelude.{
  ℕ, ◌≡◌, ◌↔◌, refl, sym, true, not, ◌||◌, Option, none, some, List, map, ◌==◌, ltb, leb,
  first_best, Bool, filter, length, sum_by, arith,
}
use mathlib.Core.Path.{subst}
use employee_attendance.Prelude.Result.{Result, ok, err, ◌>>◌, throw_if}
use employee_attendance.PayPeriod.{
  Organization, CalculationRun, CalculationResult, PayrollError, payroll_calculation_required,
  calculation_incomplete, calculation_blocked, warnings_unacknowledged,
}
use employee_attendance.PayPeriod.Coverage.{
  has_id, Coverage, compare_payroll_employee_coverage, eligible_employees,
}

-- The warnings of a result that nobody has acknowledged.
abbrev pub unacknowledged_of : CalculationResult → ℕ
unacknowledged_of r = length (filter (λ warning. not (has_id r.acknowledged warning)) r.warnings)

-- `unacknowledgedWarningCount`
unfoldable pub unacknowledged_warning_count : List CalculationResult → ℕ
unacknowledged_warning_count results = sum_by unacknowledged_of results

abbrev pub is_newer : CalculationRun → CalculationRun → Bool
is_newer run other = leb other.version run.version

-- `findFirst({ orderBy: { version: "desc" } })`; no two runs of a period have one version.
unfoldable pub latest_run : List CalculationRun → Option CalculationRun
latest_run runs = first_best is_newer runs

abbrev pub coverage_of : Organization → CalculationRun → Coverage
coverage_of o run =
    compare_payroll_employee_coverage
      (eligible_employees o.period.start_date o.period.end_date o.employees)
      (map (λ r. r.employee_id) run.results)

-- The checks on the latest run.
unfoldable pub check_run : Organization → CalculationRun → Result PayrollError CalculationRun
check_run o run = do
  let coverage = coverage_of o run
  let count = coverage.expected_employee_count
  throw_if (not coverage.complete || not (run.expected_employee_count == count)) (
      calculation_incomplete count coverage.result_employee_count coverage.missing_count
        coverage.unexpected_count)
  throw_if (ltb 0 run.blocking_warning_count) (calculation_blocked run.blocking_warning_count)
  let unacknowledged = unacknowledged_warning_count run.results
  throw_if (ltb 0 unacknowledged) (warnings_unacknowledged unacknowledged)
  ok run

abbrev check_latest : Organization → Option CalculationRun → Result PayrollError CalculationRun
check_latest o none = err payroll_calculation_required
check_latest o (some run) = check_run o run

-- `assertReviewablePayrollCalculation`, for a period that is there.
unfoldable pub assert_reviewable : Organization → Result PayrollError CalculationRun
assert_reviewable o = check_latest o (latest_run o.runs)

-- A run that can be reviewed: it is the latest, covers the employees, has no blocking warning, and
-- every warning is acknowledged.
pub record IsReviewable (o : Organization) (run : CalculationRun) : Type 0 where
  pub latest : latest_run o.runs ≡ some run
  pub covered : (coverage_of o run).complete ≡ true
  pub counted : run.expected_employee_count ≡ (coverage_of o run).expected_employee_count
  pub unblocked : run.blocking_warning_count ≡ 0
  pub acknowledged : unacknowledged_warning_count run.results ≡ 0

check_run-IsReviewable :
    (o : Organization) (run run' : CalculationRun)
    → latest_run o.runs ≡ some run
    → check_run o run ≡ ok run'
    → (run' ≡ run) × IsReviewable o run
unfolding check_run
check_run-IsReviewable o run run' l h = ground arith

check_run_of_IsReviewable :
    (o : Organization) (run : CalculationRun) → IsReviewable o run → check_run o run ≡ ok run
unfolding check_run
check_run_of_IsReviewable o run r = ground arith

check_latest_iff :
    (o : Organization) (run : CalculationRun) (latest : Option CalculationRun)
    → latest_run o.runs ≡ latest
    → (check_latest o latest ≡ ok run) ↔ IsReviewable o run
check_latest_iff o run none l = (λ h. cc, λ r. cc (r.latest))
check_latest_iff o run (some best) l = (
  λ h. let (same, r) = check_run-IsReviewable o best run l h in subst (IsReviewable o) (sym same) r,
  λ r. ground (arith, check_run_of_IsReviewable o run r),
)

-- A run is returned exactly if it passes the checks.
pub assert_reviewable-IsReviewable :
    (o : Organization) (run : CalculationRun) → (assert_reviewable o ≡ ok run) ↔ IsReviewable o run
unfolding assert_reviewable
assert_reviewable-IsReviewable o run = check_latest_iff o run (latest_run o.runs) refl
