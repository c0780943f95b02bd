-- ===== src/PayItems.antt =====
-- apps/api/src/controllers/payroll-foundation.controller.ts: the pay items of an organization
-- (`createPayrollComponentV2`) and their assignment to employees (`createEmployeePayComponentV2`), as the
-- checks and the row that each creates. The formats and lengths of texts are left out.
pub mod Advances
use employee_attendance.Prelude.{
  ℕ, leb, ltb, String, same_text, Bool, true, false, not, ◌&&◌, ◌||◌, Option, none, some, List, [],
  ◌∷◌, any, is_some, or_else, if◌then◌else◌,
}
use employee_attendance.Prelude.Result.{Result, ok, err, ◌>>=◌, ◌>>◌, throw_if}
use employee_attendance.Calendar.{Day, day_le}
use employee_attendance.Payroll.{
  PayrollComponentType, PayrollCalculationBasis, fixed_amount, percentage, PayrollComponent,
  PayComponentInput,
}

pub data PayItemError : Type 0 where
  invalid_payroll_component invalid_advance_component invalid_component_value
        payroll_component_exists invalid_pay_component_assignment employee_not_found
        payroll_component_not_found invalid_assignment_value consent_reference_required
        invalid_advance_balance :
      PayItemError

-- A pay item: what the calculation reads of it, and its defaults.
pub record PayItem : Type 0 where
  pub component : PayrollComponent
  pub default_amount_sen : ℕ
  pub default_percentage_bps : Option ℕ
  pub is_active : Bool

abbrev is_advance : PayrollComponentType → Bool
is_advance PayrollComponentType.advance_repayment = true
is_advance _ = false

abbrev is_earning : PayrollComponentType → Bool
is_earning PayrollComponentType.earning = true
is_earning _ = false

abbrev is_fixed : PayrollCalculationBasis → Bool
is_fixed fixed_amount = true
is_fixed _ = false

abbrev pub is_percentage : PayrollCalculationBasis → Bool
is_percentage percentage = true
is_percentage _ = false

-- `z.number().int().min(1).max(10_000).nullable().optional()`
abbrev is_bps : Option ℕ → Bool
is_bps none = true
is_bps (some n) = leb 1 n && leb n 10_000

abbrev has_number : Option ℕ → Bool
has_number none = false
has_number (some n) = ltb 0 n

-- `createPayrollComponentV2`: the codes of the organization are given.
unfoldable pub create_payroll_component :
    List String → PayrollComponent → ℕ → Option ℕ → Result PayItemError PayItem
create_payroll_component codes c amount bps = do
  throw_if (not (leb amount 2_000_000_000 && is_bps bps)) invalid_payroll_component
  throw_if (is_advance c.kind && not (is_fixed c.calculation_basis)) invalid_advance_component
  throw_if (if is_percentage c.calculation_basis then not (has_number bps) else ltb amount 1)
      invalid_component_value
  throw_if (any (λ code. same_text code c.code) codes) payroll_component_exists
  ok (record {
    component = c;
    default_amount_sen = amount;
    default_percentage_bps = bps;
    is_active = true;
  })

-- The body of an assignment.
pub record AssignmentForm : Type 0 where
  pub amount_sen : ℕ
  pub percentage_basis_points : Option ℕ
  pub total_amount_sen : Option ℕ
  pub effective_from : Day
  pub effective_to : Option Day
  pub consent_reference : Option String

-- A pay item of an employee.
pub record AssignedItem : Type 0 where
  pub id : String
  pub component : PayrollComponent
  pub form : AssignmentForm
  pub outstanding_amount_sen : Option ℕ

abbrev is_money : Option ℕ → Bool
is_money none = true
is_money (some n) = leb 1 n && leb n 2_000_000_000

abbrev ends_early : Day → Option Day → Bool
ends_early from none = false
ends_early from (some last) = not (day_le from last)

-- `assignmentSchema`, and the dates in order.
unfoldable pub is_valid_assignment : AssignmentForm → Bool
is_valid_assignment f =
    (leb f.amount_sen 2_000_000_000 && is_bps f.percentage_basis_points)
    && (is_money f.total_amount_sen && not (ends_early f.effective_from f.effective_to))

abbrev exceeds_total : ℕ → Option ℕ → Bool
exceeds_total amount none = true
exceeds_total amount (some total) = not (ltb 0 total) || ltb total amount

abbrev find_active : Option PayItem → Result PayItemError PayItem
find_active none = err payroll_component_not_found
find_active (some i) = if i.is_active then ok i else err payroll_component_not_found

-- `createEmployeePayComponentV2`, for the pay item that is named, if there is one.
unfoldable pub create_employee_pay_component :
    Bool → Option PayItem → AssignmentForm → String → Result PayItemError AssignedItem
create_employee_pay_component has_employee named f id = do
  throw_if (not (is_valid_assignment f)) invalid_pay_component_assignment
  throw_if (not has_employee) employee_not_found
  i ← find_active named
  throw_if
      (if is_percentage i.component.calculation_basis
        then not (has_number f.percentage_basis_points)
        else ltb f.amount_sen 1)
      invalid_assignment_value
  throw_if (not (is_earning i.component.kind) && not (is_some f.consent_reference))
      consent_reference_required
  throw_if (is_advance i.component.kind && exceeds_total f.amount_sen f.total_amount_sen)
      invalid_advance_balance
  ok (record {
    id = id;
    component = i.component;
    form = f;
    outstanding_amount_sen = if is_advance i.component.kind then f.total_amount_sen else none;
  })

-- What the calculation of the payroll is given of an assignment.
abbrev pub item_input : AssignedItem → PayComponentInput
item_input a = record {
  id = a.id;
  amount_sen = a.form.amount_sen;
  percentage_basis_points = a.form.percentage_basis_points;
  outstanding_amount_sen = a.outstanding_amount_sen;
  effective_from = a.form.effective_from;
  effective_to = a.form.effective_to;
  payroll_component = a.component;
}
