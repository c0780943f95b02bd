-- ===== src/Payroll/Calculator/Blocking.antt =====
-- What the blocking warnings of a calculation say of its amounts, the numbering of its lines, and
-- the wages that contributions are taken of.
use employee_attendance.Prelude.{
  ℕ, ◌+◌, ◌-◌, ◌≤◌, ◌<◌, ◌≡◌, ◌↔◌, refl, Bool, true, false, some, List, [], ◌∷◌, ◌++◌, arith, ltb,
  is_some, ◌⊎◌, ◌&&◌, not,
}
use employee_attendance.CodeSet.{
  has_code, has_code-sorted_codes, is_empty, add_code, sorted_codes, has_code-append,
  has_code-add_code,
}
use employee_attendance.Payroll.{PayProfileInput}
use employee_attendance.Payroll.Doubles.{Doubles}
use employee_attendance.Payroll.Warnings.{
  BlockingWarning, blocking_code, blocking_rank, deductions_exceed_gross,
  statutory_deductions_exceed_gross, unsupported_jurisdiction,
}
use employee_attendance.Payroll.Earnings.{Earnings, earnings_of}
use employee_attendance.Payroll.Components.{ComponentTally, start_components, components_tally}
use employee_attendance.Payroll.Calculator.{
  PayrollCalculationInput, empty_amounts, block_if, is_supported, initial_blocking, conclude,
  earned_lines, basis_of, calculate_with_profile, blocked_calculation, calculate_employee_payroll,
  active_dates,
}

-- Whether the code is in the set after `block_if`.
has_code-block_if :
    (c d : BlockingWarning) (test : Bool) (cs : List BlockingWarning)
    → has_code c (block_if test d cs) ≡ true
    → (has_code c cs ≡ true) ⊎ ((test ≡ true) × (blocking_rank d ≡ blocking_rank c))
unfolding add_code
has_code-block_if c d test cs h = ground (arith, has_code-append c d cs)

has_code-block_if_new :
    (d : BlockingWarning) (cs : List BlockingWarning) → has_code d (block_if true d cs) ≡ true
has_code-block_if_new d cs = has_code-add_code d cs

has_code-block_if_old :
    (c d : BlockingWarning) (test : Bool) (cs : List BlockingWarning)
    → has_code c cs ≡ true
    → has_code c (block_if test d cs) ≡ true
unfolding add_code
has_code-block_if_old c d test cs h = ground (arith, has_code-append c d cs)

-- The jurisdiction's warning is there exactly if the jurisdiction is not supported.
initial_blocking_jurisdiction :
    (input : PayrollCalculationInput)
    → has_code unsupported_jurisdiction (initial_blocking input)
      ≡ not (is_supported input.jurisdiction)
unfolding initial_blocking add_code blocking_rank
initial_blocking_jurisdiction input = ground arith

initial_blocking_deductions :
    (input : PayrollCalculationInput)
    → has_code deductions_exceed_gross (initial_blocking input) ≡ false
unfolding initial_blocking add_code blocking_rank
initial_blocking_deductions input = ground arith

-- The deductions are flagged exactly when they exceed the gross pay.
exceed_blocking :
    (gross deductions employee : ℕ) (cs : List BlockingWarning)
    → has_code deductions_exceed_gross cs ≡ false
    → has_code deductions_exceed_gross (
        sorted_codes (
          block_if
            (ltb gross employee)
            statutory_deductions_exceed_gross
            (block_if (ltb gross deductions) deductions_exceed_gross cs)))
      ≡ ltb gross deductions
unfolding add_code blocking_rank
exceed_blocking gross deductions employee cs h = rw (has_code-sorted_codes) (
    ground (
      arith,
      has_code-append deductions_exceed_gross deductions_exceed_gross cs,
      has_code-append deductions_exceed_gross statutory_deductions_exceed_gross cs,
      has_code-append deductions_exceed_gross statutory_deductions_exceed_gross
          (cs ++ deductions_exceed_gross ∷ []),
    ))

module _ (doubles : Doubles) where
  -- With no pay profile or outside the supported jurisdiction nothing is calculated: the amounts
  -- are zero, there are no lines, and a blocking warning says why.
  pub not_calculated :
      (input : PayrollCalculationInput)
      → (is_some input.profile && is_supported input.jurisdiction) ≡ false
      → let r = calculate_employee_payroll doubles input in
        (r.amounts ≡ empty_amounts) × (r.lines ≡ []) × (is_empty r.blocking_warnings ≡ false)
  unfolding calculate_employee_payroll blocked_calculation initial_blocking add_code blocking_rank
  not_calculated input h = ground arith

  conclude_net :
      (input : PayrollCalculationInput) (profile : PayProfileInput) (e : Earnings)
      (c : ComponentTally)
      → let r = conclude doubles input profile e c in
        (r.amounts.calculated_pay_sen ≡ r.amounts.gross_pay_sen - r.amounts.total_deductions_sen)
        × (has_code deductions_exceed_gross r.blocking_warnings
            ≡ ltb r.amounts.gross_pay_sen r.amounts.total_deductions_sen)
  unfolding conclude
  conclude_net input profile e c =
      (refl, exceed_blocking _ _ _ (initial_blocking input) (initial_blocking_deductions input))

  -- `calculateEmployeePayroll` at an input with a profile, in the supported jurisdiction.
  calculate_supported :
      (input : PayrollCalculationInput) (profile : PayProfileInput)
      → input.profile ≡ some profile
      → is_supported input.jurisdiction ≡ true
      → calculate_employee_payroll doubles input ≡ calculate_with_profile doubles input profile
  unfolding calculate_employee_payroll
  calculate_supported input profile p j = ground (arith, initial_blocking_jurisdiction input)

  -- The earnings and the components of the calculation.
  abbrev earned : PayrollCalculationInput → PayProfileInput → Earnings
  earned input profile =
      earnings_of doubles profile input.salary_divisor (active_dates input) input.days

  abbrev component_sums : PayrollCalculationInput → PayProfileInput → ComponentTally
  component_sums input profile =
      components_tally doubles (basis_of doubles input profile (earned input profile))
        (start_components (earned_lines doubles input profile (earned input profile)))
        input.components

  -- With a pay profile in the supported jurisdiction the deductions are flagged as exceeding the
  -- gross pay exactly when they do; when they do not, the pay and the deductions add up to the
  -- gross pay, and when they do, the pay is zero.
  pub net_pay :
      (input : PayrollCalculationInput) (profile : PayProfileInput)
      → input.profile ≡ some profile
      → is_supported input.jurisdiction ≡ true
      → let r = calculate_employee_payroll doubles input in
        ((has_code deductions_exceed_gross r.blocking_warnings ≡ true)
          ↔ (r.amounts.gross_pay_sen < r.amounts.total_deductions_sen))
        × (r.amounts.total_deductions_sen ≤ r.amounts.gross_pay_sen
            → r.amounts.calculated_pay_sen + r.amounts.total_deductions_sen
              ≡ r.amounts.gross_pay_sen)
        × (r.amounts.gross_pay_sen < r.amounts.total_deductions_sen
            → r.amounts.calculated_pay_sen ≡ 0)
  unfolding calculate_with_profile
  net_pay input profile p j = rw (calculate_supported input profile p j) (
      ground
        (arith, conclude_net input profile (earned input profile) (component_sums input profile)))
