-- ===== src/PayrollRun/Totals.antt =====
-- payroll-calculation-run.ts: what a calculated run adds up to, and whom it covers.
use employee_attendance.Prelude.{
  ℕ, ◌≡◌, refl, sym, ap, ◌∙◌, true, false, not, List, [], ◌∷◌, map, sum_by, arith,
}
use mathlib.Core.Path.{subst}
use employee_attendance.Prelude.Result.{ok, throw_if-eq-ok, ok-injective}
use employee_attendance.PayPeriod.{draft}
use employee_attendance.PayPeriod.Coverage.{
  AreDistinct, compare_payroll_employee_coverage, complete_iff,
}
use employee_attendance.Payroll.{PayrollLineDirection}
use employee_attendance.Payroll.Doubles.{Doubles}
use employee_attendance.Payroll.Lines.{total_in}
use employee_attendance.Payroll.Calculator.Reconcile.{lines_reconcile}
use employee_attendance.PayrollRun.{
  PayrollSource, PayrollEmployee, PayrollRun, EmployeeResult, pay_period_not_draft,
  no_payroll_employees, calculation_input, employee_result, stored_result, run_of, is_draft,
  is_none_left, calculate_payroll_run,
}

module _ (doubles : Doubles) where
  run_parts :
      (s : PayrollSource) (run : PayrollRun)
      → calculate_payroll_run doubles s ≡ ok run
      → (is_draft s.status ≡ true)
        × (is_none_left s.employees ≡ false)
        × (run_of doubles s (map (employee_result doubles s) s.employees) ≡ run)
  unfolding calculate_payroll_run
  run_parts s run h =
      let (drafted, rest) = throw_if-eq-ok (not (is_draft s.status)) pay_period_not_draft _ h in
      let (some_left, done) =
        throw_if-eq-ok (is_none_left s.employees) no_payroll_employees _ rest in
      (ground arith, some_left, ok-injective _ _ done)

  abbrev pub total_of_lines : PayrollLineDirection → List EmployeeResult → ℕ
  total_of_lines direction rs = sum_by (λ r. total_in direction r.result.lines) rs

  stored_total :
      (direction : PayrollLineDirection) (rs : List EmployeeResult)
      → total_of_lines direction (map stored_result rs) ≡ total_of_lines direction rs
  unfolding stored_result
  stored_total direction [] = refl
  stored_total direction (r ∷ rs) = omega (arith, stored_total direction rs)

  stored_ids :
      (rs : List EmployeeResult)
      → map (λ r. r.employee_id) (map stored_result rs) ≡ map (λ r. r.employee_id) rs
  unfolding stored_result
  stored_ids [] = refl
  stored_ids (r ∷ rs) = ap (λ ids. r.employee_id ∷ ids) (stored_ids rs)

  results_reconcile :
      (s : PayrollSource) (es : List PayrollEmployee)
      → let rs = map (employee_result doubles s) es in
        (total_of_lines PayrollLineDirection.earning rs
          ≡ sum_by (λ r. r.result.amounts.gross_pay_sen) rs)
        × (total_of_lines PayrollLineDirection.deduction rs
            ≡ sum_by (λ r. r.result.amounts.total_deductions_sen) rs)
  unfolding employee_result
  results_reconcile s [] = (refl, refl)
  results_reconcile s (e ∷ es) =
      let (gross, deductions, _) = lines_reconcile doubles (calculation_input s e) in
      let (rest_gross, rest_deductions) = results_reconcile s es in
      (omega (arith, gross, rest_gross), omega (arith, deductions, rest_deductions))

  results_ids :
      (s : PayrollSource) (es : List PayrollEmployee)
      → map (λ r. r.employee_id) (map (employee_result doubles s) es) ≡ map (λ e. e.id) es
  unfolding employee_result
  results_ids s [] = refl
  results_ids s (e ∷ es) = ap (λ ids. e.id ∷ ids) (results_ids s es)

  -- The total gross pay of a run that is calculated is the sum of all lines of earnings of its
  -- results, and its total deductions are the sum of all lines of deductions.
  pub run_reconciles :
      (s : PayrollSource) (run : PayrollRun)
      → calculate_payroll_run doubles s ≡ ok run
      → (run.total_gross_sen ≡ total_of_lines PayrollLineDirection.earning run.results)
        × (run.total_deductions_sen ≡ total_of_lines PayrollLineDirection.deduction run.results)
  run_reconciles s run h =
      let (_, _, same) = run_parts s run h in
      let (gross, deductions) = results_reconcile s s.employees in
      let rs = map (employee_result doubles s) s.employees in
      subst
        (λ r.
          (r.total_gross_sen ≡ total_of_lines PayrollLineDirection.earning r.results)
          × (r.total_deductions_sen ≡ total_of_lines PayrollLineDirection.deduction r.results))
        same
        (
          sym (stored_total PayrollLineDirection.earning rs ∙ gross),
          sym (stored_total PayrollLineDirection.deduction rs ∙ deductions),
        )

  -- A run is calculated only for a draft, and if no two employees have one id, it covers them: its
  -- results are complete for the employees that it was calculated for.
  pub run_covers :
      (s : PayrollSource) (run : PayrollRun)
      → AreDistinct (map (λ e. e.id) s.employees)
      → calculate_payroll_run doubles s ≡ ok run
      → (s.status ≡ draft)
        × ((compare_payroll_employee_coverage
              (map (λ e. e.id) s.employees)
              (map (λ r. r.employee_id) run.results)).complete
            ≡ true)
  run_covers s run distinct h =
      let (drafted, _, same) = run_parts s run h in
      let ids = map (λ e. e.id) s.employees in
      let covered = (complete_iff ids ids).1 (distinct, (λ id k. k), (λ id k. k)) in
      (
        ground arith,
        subst
            (λ r.
              (compare_payroll_employee_coverage ids (map (λ x. x.employee_id) r.results)).complete
              ≡ true)
            same
            (ap (λ xs. (compare_payroll_employee_coverage ids xs).complete)
                (stored_ids (map (employee_result doubles s) s.employees)
                  ∙ results_ids s s.employees)
              ∙ covered),
      )
