-- ===== src/Payroll/Calculator/Reconcile.antt =====
-- The lines of a calculation and its totals agree.
use employee_attendance.Prelude.{
  ℕ, ◌+◌, ◌≡◌, refl, String, Bool, true, false, Option, none, some, List, [], ◌∷◌, arith, length,
  if◌then◌else◌,
}
use employee_attendance.CodeSet.{has_code}
use employee_attendance.Prelude.Int.{pos}
use employee_attendance.Payroll.Warnings.{unsupported_jurisdiction, blocking_code}
use employee_attendance.Calendar.{Day}
use employee_attendance.Statutory.{
  StatutoryContributionResult, calculate_malaysia_statutory_contributions,
}
use employee_attendance.Payroll.{
  PayProfileInput, PayComponentInput, StatutoryProfileInput, PayrollLineDirection,
}
use employee_attendance.Payroll.Doubles.{Doubles}
use employee_attendance.Payroll.Lines.{
  PayrollLineOutput, push_line, total_in, total_in-push_line, IsNumberedFrom, push_line-IsNumbered,
}
use employee_attendance.Payroll.Days.{is_monthly, base_pay_sen}
use employee_attendance.Payroll.Earnings.{
  Earnings, base_earnings, base_lines, day_lines, unpaid_minutes, earnings_of,
}
use employee_attendance.Payroll.Components.{
  ComponentTally, start_components, Basis, component_dates, component_amount, component_line,
  add_amount, add_component, step_component, components_tally,
}
use employee_attendance.Payroll.Contributions.{ContributionWages, contribution_lines, statutory_for}
use employee_attendance.Payroll.Calculator.{
  PayrollCalculationInput, active_dates, period_dates, statutory_lines, employee_total,
  employer_total, gross_pay, contribution_wages, conclude, basis_of, earned_lines,
  calculate_with_profile, calculate_employee_payroll, blocked_calculation, calculate_if,
  initial_blocking,
}

-- The part of an amount that is in a direction.
abbrev share : PayrollLineDirection → ℕ → ℕ → ℕ → ℕ
share PayrollLineDirection.earning a b c = a
share PayrollLineDirection.deduction a b c = b
share PayrollLineDirection.employer_contribution a b c = c

total_in-base_lines :
    (d : PayrollLineDirection) (profile : PayProfileInput) (amount a p : ℕ)
    → total_in d (base_lines profile amount a p)
      ≡ share d (if is_monthly profile.pay_type then amount else 0) 0 0
unfolding base_lines total_in push_line
total_in-base_lines d profile amount a p = ground arith

total_in-day_lines :
    (d : PayrollLineDirection) (lines : List PayrollLineOutput) (e : Earnings) (unpaid : ℕ)
    → total_in d (day_lines lines e unpaid)
      ≡ total_in d lines
        + share d
            (e.regular_pay_sen + e.paid_leave_pay_sen + e.overtime_pay_sen
              + e.tally.rest_day_pay_sen + e.tally.public_holiday_pay_sen)
            e.tally.unpaid_leave_deduction_sen
            0
unfolding day_lines
total_in-day_lines PayrollLineDirection.earning lines e unpaid =
    simp total_in-push_line (omega arith)
total_in-day_lines PayrollLineDirection.deduction lines e unpaid =
    simp total_in-push_line (omega arith)
total_in-day_lines PayrollLineDirection.employer_contribution lines e unpaid =
    simp total_in-push_line (omega arith)

total_in-contribution_lines :
    (d : PayrollLineDirection) (lines : List PayrollLineOutput) (w : ContributionWages)
    (p : StatutoryProfileInput) (r : StatutoryContributionResult)
    → total_in d (contribution_lines lines w (p, r))
      ≡ total_in d lines
        + share d 0
            (r.epf.employee_sen + r.socso.employee_sen + r.eis.employee_sen)
            (r.epf.employer_sen + r.socso.employer_sen + r.eis.employer_sen)
unfolding contribution_lines
total_in-contribution_lines PayrollLineDirection.earning lines w p r =
    simp total_in-push_line (omega arith)
total_in-contribution_lines PayrollLineDirection.deduction lines w p r =
    simp total_in-push_line (omega arith)
total_in-contribution_lines PayrollLineDirection.employer_contribution lines w p r =
    simp total_in-push_line (omega arith)

-- What the lines of a tally would have to add up to: `start` and the sums of the components.
abbrev component_total : PayrollLineDirection → ComponentTally → ℕ
component_total d t =
    share d t.additional_earnings_sen (t.other_deductions_sen + t.advance_deduction_sen) 0

add_component_total :
    (d : PayrollLineDirection) (t : ComponentTally) (a : PayComponentInput) (days amount : ℕ)
    → total_in d (add_component t a days amount).lines + component_total d t
      ≡ total_in d t.lines + component_total d (add_component t a days amount)
unfolding add_component add_amount component_line
add_component_total PayrollLineDirection.earning t a days amount =
    ground (
      arith,
      total_in-push_line PayrollLineDirection.earning t.lines (component_line a days amount),
    )
add_component_total PayrollLineDirection.deduction t a days amount = ground (
  arith,
  total_in-push_line PayrollLineDirection.deduction t.lines (component_line a days amount),
)
add_component_total PayrollLineDirection.employer_contribution t a days amount = ground (
  arith,
  total_in-push_line PayrollLineDirection.employer_contribution t.lines
      (component_line a days amount),
)

module _ (doubles : Doubles) where
  components_total :
      (d : PayrollLineDirection) (b : Basis) (t : ComponentTally) (cs : List PayComponentInput)
      → total_in d (components_tally doubles b t cs).lines + component_total d t
        ≡ total_in d t.lines + component_total d (components_tally doubles b t cs)
  unfolding components_tally step_component
  components_total d b t [] = refl
  components_total d b t (a ∷ cs) = ground (
    arith,
    components_total d b (step_component doubles b t a) cs,
    add_component_total d t a (length (component_dates b a)) (component_amount doubles b a),
  )

  pub components_numbered :
      (b : Basis) (t : ComponentTally) (cs : List PayComponentInput)
      → IsNumberedFrom 0 t.lines
      → IsNumberedFrom 0 (components_tally doubles b t cs).lines
  unfolding components_tally step_component add_component
  components_numbered b t [] h = h
  components_numbered b t (a ∷ cs) h = ground (
    arith,
    components_numbered b (step_component doubles b t a) cs,
    push_line-IsNumbered t.lines
        (component_line a (length (component_dates b a)) (component_amount doubles b a)) h,
  )

-- The totals of a contribution are the sums of its three parts.
statutory_lines_total :
    (d : PayrollLineDirection) (lines : List PayrollLineOutput) (w : ContributionWages)
    (enabled : Bool) (version : Option String) (p : Option StatutoryProfileInput)
    → let s = statutory_for enabled version p w in
      total_in d (statutory_lines lines w s)
      ≡ total_in d lines + share d 0 (employee_total s) (employer_total s)
unfolding statutory_for calculate_malaysia_statutory_contributions
statutory_lines_total PayrollLineDirection.earning lines w enabled version none = omega arith
statutory_lines_total PayrollLineDirection.deduction lines w enabled version none = omega arith
statutory_lines_total PayrollLineDirection.employer_contribution lines w enabled version none =
    omega arith
statutory_lines_total d lines w enabled version (some p) = ground (
  arith,
  total_in-contribution_lines d lines w p (
      calculate_malaysia_statutory_contributions (pos w.epf) (pos w.socso) (pos w.eis)
        p.epf_category p.socso_category p.eis_eligible),
)

module _ (doubles : Doubles) where
  base_pay_monthly :
      (profile : PayProfileInput) (dates : List Day)
      → (if is_monthly profile.pay_type then base_pay_sen doubles profile dates else 0)
        ≡ base_pay_sen doubles profile dates
  unfolding base_pay_sen
  base_pay_monthly profile dates = ground arith

  -- What the lines of each direction add up to before the contributions.
  earned_total :
      (d : PayrollLineDirection) (input : PayrollCalculationInput) (profile : PayProfileInput)
      → let e = earnings_of doubles profile input.salary_divisor (active_dates input) input.days in
        total_in d (earned_lines doubles input profile e)
        ≡ share d
            (base_earnings e
              + e.overtime_pay_sen
              + e.tally.rest_day_pay_sen
              + e.tally.public_holiday_pay_sen)
            e.tally.unpaid_leave_deduction_sen
            0
  unfolding earned_lines earnings_of
  earned_total d input profile =
      let e = earnings_of doubles profile input.salary_divisor (active_dates input) input.days in
      let active = length (active_dates input) in
      let period = length (period_dates input) in
      ground (
        arith,
        total_in-day_lines d (base_lines profile e.base_pay_sen active period) e
            (unpaid_minutes input.days),
        total_in-base_lines d profile e.base_pay_sen active period,
        base_pay_monthly profile (active_dates input),
      )

  conclude_total :
      (d : PayrollLineDirection) (input : PayrollCalculationInput) (profile : PayProfileInput)
      (e : Earnings) (c : ComponentTally)
      → total_in d c.lines
        ≡ share d
            (gross_pay doubles e c)
            (e.tally.unpaid_leave_deduction_sen + c.other_deductions_sen + c.advance_deduction_sen)
            0
      → let r = conclude doubles input profile e c in
        total_in d r.lines
        ≡ share d r.amounts.gross_pay_sen r.amounts.total_deductions_sen
            r.amounts.employer_contributions_sen
  unfolding conclude
  conclude_total d input profile e c h = ground (
    arith,
    statutory_lines_total d c.lines (contribution_wages doubles e c)
        input.statutory_contributions_enabled input.statutory_rule_version input.statutory_profile,
  )

  profile_total :
      (d : PayrollLineDirection) (input : PayrollCalculationInput) (profile : PayProfileInput)
      → let r = calculate_with_profile doubles input profile in
        total_in d r.lines
        ≡ share d r.amounts.gross_pay_sen r.amounts.total_deductions_sen
            r.amounts.employer_contributions_sen
  unfolding calculate_with_profile
  profile_total d input profile =
      let e = earnings_of doubles profile input.salary_divisor (active_dates input) input.days in
      let b = basis_of doubles input profile e in
      let t = start_components (earned_lines doubles input profile e) in
      let c = components_tally doubles b t input.components in
      let before = earned_total d input profile in
      let added = components_total doubles d b t input.components in
      conclude_total d input profile e c (unfold gross_pay in ground (arith, before, added))

  calculation_total :
      (d : PayrollLineDirection) (input : PayrollCalculationInput)
      → let r = calculate_employee_payroll doubles input in
        total_in d r.lines
        ≡ share d r.amounts.gross_pay_sen r.amounts.total_deductions_sen
            r.amounts.employer_contributions_sen
  unfolding calculate_employee_payroll blocked_calculation total_in
  calculation_total d input =
      calculated input.profile (has_code unsupported_jurisdiction (initial_blocking input))
    where
      calculated :
          (p : Option PayProfileInput)
          → (u : Bool)
          → let r = calculate_if doubles u input p in
            total_in d r.lines
            ≡ share d r.amounts.gross_pay_sen r.amounts.total_deductions_sen
                r.amounts.employer_contributions_sen
      calculated none u = ground arith
      calculated (some q) true = ground arith
      calculated (some q) false = profile_total d input q

  -- In every calculation the lines of earnings add up to the gross pay, those of deductions to the
  -- total deductions, and those of the employer to the employer's contributions.
  pub lines_reconcile :
      (input : PayrollCalculationInput)
      → let r = calculate_employee_payroll doubles input in
        (total_in PayrollLineDirection.earning r.lines ≡ r.amounts.gross_pay_sen)
        × (total_in PayrollLineDirection.deduction r.lines ≡ r.amounts.total_deductions_sen)
        × (total_in PayrollLineDirection.employer_contribution r.lines
            ≡ r.amounts.employer_contributions_sen)
  lines_reconcile input = (
    calculation_total PayrollLineDirection.earning input,
    calculation_total PayrollLineDirection.deduction input,
    calculation_total PayrollLineDirection.employer_contribution input,
  )
