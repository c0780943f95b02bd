-- ===== src/Payroll/Components.antt =====
-- payroll-calculator.ts: the pay components of an employee, allowances, deductions and advances.
use employee_attendance.Prelude.{
  ℕ, ◌+◌, ◌*◌, ◌==◌, min, String, Bool, true, Option, some, List, [], ◌∷◌, filter, length,
  if◌then◌else◌, or_else,
}
use employee_attendance.Calendar.{Day, active_on}
use employee_attendance.Payroll.{
  PayrollCalculationBasis, fixed_amount, per_day, per_hour, percentage, PayrollComponentType,
  PayComponentInput, PayrollLineDirection, PayrollLineCategory,
}
use employee_attendance.Payroll.Doubles.{Doubles}
use employee_attendance.Payroll.Lines.{PayrollLineOutput, LineInput, MetaValue, push_line}

-- The variables that the loop over the components adds to.
pub record ComponentTally : Type 0 where
  pub lines : List PayrollLineOutput
  pub additional_earnings_sen : ℕ
  pub other_deductions_sen : ℕ
  pub advance_deduction_sen : ℕ
  pub epf_eligible_sen : ℕ
  pub socso_eligible_sen : ℕ
  pub eis_eligible_sen : ℕ

abbrev pub start_components : List PayrollLineOutput → ComponentTally
start_components lines = record {
  lines = lines;
  additional_earnings_sen = 0;
  other_deductions_sen = 0;
  advance_deduction_sen = 0;
  epf_eligible_sen = 0;
  socso_eligible_sen = 0;
  eis_eligible_sen = 0;
}

-- What the days have come to: the arguments that the amounts of the components depend on.
pub record Basis : Type 0 where
  pub active_dates : List Day
  pub period_days : ℕ
  pub payable_minutes : ℕ
  pub normal_minutes : ℕ
  pub base_earnings_sen : ℕ

abbrev pub component_dates : Basis → PayComponentInput → List Day
component_dates b a =
    filter (λ date. active_on date (some a.effective_from) a.effective_to) b.active_dates

abbrev basis_text : PayrollCalculationBasis → String
basis_text fixed_amount = "fixed_amount"
basis_text per_day = "per_day"
basis_text per_hour = "per_hour"
basis_text percentage = "percentage"

abbrev line_direction : PayrollComponentType → PayrollLineDirection
line_direction PayrollComponentType.earning = PayrollLineDirection.earning
line_direction _ = PayrollLineDirection.deduction

abbrev line_category : PayrollComponentType → PayrollLineCategory
line_category PayrollComponentType.earning = PayrollLineCategory.allowance
line_category PayrollComponentType.advance_repayment = PayrollLineCategory.advance_repayment
line_category PayrollComponentType.deduction = PayrollLineCategory.deduction

-- An advance is not repaid beyond what is outstanding.
unfoldable pub limited_amount : PayrollComponentType → Option ℕ → ℕ → ℕ
limited_amount PayrollComponentType.advance_repayment outstanding amount =
    min amount (or_else outstanding amount)
limited_amount _ outstanding amount = amount

abbrev amount_if : Option Bool → ℕ → ℕ
amount_if eligible amount = if or_else eligible true then amount else 0

-- The sums, by the component's type.
unfoldable pub add_amount :
    ComponentTally → PayComponentInput → PayrollComponentType → ℕ → ComponentTally
add_amount t a PayrollComponentType.advance_repayment amount = record t {
  advance_deduction_sen = t.advance_deduction_sen + amount;
}
add_amount t a PayrollComponentType.deduction amount = record t {
  other_deductions_sen = t.other_deductions_sen + amount;
}
add_amount t a PayrollComponentType.earning amount = record t {
  additional_earnings_sen = t.additional_earnings_sen + amount;
  epf_eligible_sen = t.epf_eligible_sen + amount_if a.payroll_component.epf_eligible amount;
  socso_eligible_sen = t.socso_eligible_sen + amount_if a.payroll_component.socso_eligible amount;
  eis_eligible_sen = t.eis_eligible_sen + amount_if a.payroll_component.eis_eligible amount;
}

unfoldable pub component_line : PayComponentInput → ℕ → ℕ → LineInput
component_line a days amount = record {
  direction = line_direction a.payroll_component.kind;
  category = line_category a.payroll_component.kind;
  code = a.payroll_component.code;
  name = a.payroll_component.name;
  amount_sen = amount;
  basis = basis_text a.payroll_component.calculation_basis;
  source_component_assignment_id = some a.id;
  metadata = ("activeDays", MetaValue.number days) ∷ [];
}

unfoldable pub add_component : ComponentTally → PayComponentInput → ℕ → ℕ → ComponentTally
unfolding add_amount component_line
add_component t a days amount =
    let t' = add_amount t a a.payroll_component.kind amount in
    record t' { lines = push_line t.lines (component_line a days amount) }

module _ (doubles : Doubles) where
  open doubles use {of_whole, times, over, rounded}

  -- The `switch` over the calculation basis.
  unfoldable pub basis_amount : Basis → PayComponentInput → ℕ → PayrollCalculationBasis → ℕ
  basis_amount b a days fixed_amount =
      rounded (over (of_whole (a.amount_sen * days)) (of_whole b.period_days))
  basis_amount b a days per_day = rounded (
      times (of_whole a.amount_sen) (over (of_whole b.payable_minutes) (of_whole b.normal_minutes)))
  basis_amount b a days per_hour =
      rounded (over (of_whole (a.amount_sen * b.payable_minutes)) (of_whole 60))
  basis_amount b a days percentage = rounded (
      over (of_whole (b.base_earnings_sen * or_else a.percentage_basis_points 0)) (of_whole 10_000))

  unfoldable pub component_amount : Basis → PayComponentInput → ℕ
  component_amount b a =
      limited_amount a.payroll_component.kind a.outstanding_amount_sen
        (basis_amount b a (length (component_dates b a)) a.payroll_component.calculation_basis)

  -- One round of the loop.
  unfoldable pub step_component : Basis → ComponentTally → PayComponentInput → ComponentTally
  step_component b t a =
      let days = length (component_dates b a) in
      if days == 0 then t else add_component t a days (component_amount b a)

  unfoldable pub components_tally : Basis → ComponentTally → List PayComponentInput → ComponentTally
  components_tally b t [] = t
  components_tally b t (a ∷ rest) = components_tally b (step_component b t a) rest
