-- ===== src/PayItems/Advances.antt =====
-- payroll-foundation.controller.ts and payroll-calculator.ts: what is taken back of salary advances stays
-- within what was advanced, from the assignment to the calculation.
use employee_attendance.Prelude.{
  ℕ, ◌≤◌, ◌≡◌, refl, String, Bool, true, false, not, ◌&&◌, Option, none, List, [], ◌∷◌, map, All,
  sum_by, arith, is_some, or_else, ltb, if◌then◌else◌,
}
use mathlib.Core.Path.{subst}
use employee_attendance.Prelude.Result.{ok, >>=-eq-ok, throw_if-eq-ok, ok-injective}
use employee_attendance.Payroll.{PayrollComponent, PayrollComponentType}
use employee_attendance.Payroll.Doubles.{Doubles}
use employee_attendance.Payroll.Components.{Basis, start_components, components_tally}
use employee_attendance.Payroll.Lines.{PayrollLineOutput}
use employee_attendance.Payroll.Limits.{IsKnown, advances-le-outstanding}
use employee_attendance.PayItems.{
  PayItem, AssignmentForm, AssignedItem, is_advance, is_earning, is_percentage, has_number,
  is_valid_assignment, exceeds_total, find_active, create_employee_pay_component, item_input,
  invalid_pay_component_assignment, employee_not_found, invalid_assignment_value,
  consent_reference_required, invalid_advance_balance,
}

-- The total amount of an advance; another item advances nothing.
abbrev pub advanced : AssignedItem → ℕ
advanced a = if is_advance a.component.kind then or_else a.form.total_amount_sen 0 else 0

-- What the checks of an assignment have made sure of.
pub record IsSettled (a : AssignedItem) : Type 0 where
  pub known : IsKnown (item_input a)
  pub outstanding_le_total : or_else a.outstanding_amount_sen 0 ≤ advanced a
  pub amount_le_outstanding :
      a.component.kind ≡ PayrollComponentType.advance_repayment
      → a.form.amount_sen ≤ or_else a.outstanding_amount_sen 0
  pub consent : is_earning a.component.kind ≡ false → is_some a.form.consent_reference ≡ true

IsSettled-row :
    (kind : PayrollComponentType) (f : AssignmentForm) (component : PayrollComponent) (id : String)
    → component.kind ≡ kind
    → (not (is_earning kind) && not (is_some f.consent_reference)) ≡ false
    → (is_advance kind && exceeds_total f.amount_sen f.total_amount_sen) ≡ false
    → IsSettled (record {
      id = id;
      component = component;
      form = f;
      outstanding_amount_sen = if is_advance component.kind then f.total_amount_sen else none;
    })
IsSettled-row kind f component id same agreed covered = record {
  known = λ advance. ground (arith);
  outstanding_le_total = ground (arith);
  amount_le_outstanding = λ advance. ground (arith);
  consent = λ other. ground (arith);
}

create_employee_pay_component-IsSettled :
    (has_employee : Bool) (named : Option PayItem) (f : AssignmentForm) (id : String)
    (a : AssignedItem)
    → create_employee_pay_component has_employee named f id ≡ ok a
    → IsSettled a
unfolding create_employee_pay_component
create_employee_pay_component-IsSettled has_employee named f id a done =
    let (_, b) =
      throw_if-eq-ok (not (is_valid_assignment f)) invalid_pay_component_assignment _ done in
    let (_, c) = throw_if-eq-ok (not has_employee) employee_not_found _ b in
    let (i, _, d) = >>=-eq-ok (find_active named) _ c in
    let (_, e) =
      throw_if-eq-ok
        (if is_percentage i.component.calculation_basis
          then not (has_number f.percentage_basis_points)
          else ltb f.amount_sen 1)
        invalid_assignment_value _ d in
    let (agreed, g) =
      throw_if-eq-ok (not (is_earning i.component.kind) && not (is_some f.consent_reference))
        consent_reference_required _ e in
    let (covered, written) =
      throw_if-eq-ok (is_advance i.component.kind && exceeds_total f.amount_sen f.total_amount_sen)
        invalid_advance_balance _ g in
    subst IsSettled (ok-injective _ _ written)
      (IsSettled-row i.component.kind f i.component id refl agreed covered)

-- An assignment that `createEmployeePayComponentV2` has made.
abbrev pub IsCreated : AssignedItem → Type 0
IsCreated a =
    (has_employee : Bool) × (named : Option PayItem) × (id : String)
    × (create_employee_pay_component has_employee named a.form id ≡ ok a)

totals_bound :
    (items : List AssignedItem)
    → All IsCreated items
    → All IsKnown (map item_input items)
      × (sum_by (λ c. or_else c.outstanding_amount_sen 0) (map item_input items)
          ≤ sum_by advanced items)
totals_bound [] h = (tt, omega arith)
totals_bound (a ∷ rest) ((e, n, id, made), h) =
    let (known, sums) = totals_bound rest h in
    let s = create_employee_pay_component-IsSettled e n a.form id a made in
    let le = s.outstanding_le_total in ((s.known, known), omega arith)

-- For assignments as they were created, whatever the earnings and whatever rounding the doubles make,
-- the calculation of a payroll takes back of the advances at most the total amounts that were entered
-- for the advances among them.
pub advances-le-totals :
    (doubles : Doubles) (b : Basis) (lines : List PayrollLineOutput) (items : List AssignedItem)
    → All IsCreated items
    → (components_tally doubles b
        (start_components lines)
        (map item_input items)).advance_deduction_sen
      ≤ sum_by advanced items
advances-le-totals doubles b lines items h =
    let (known, sums) = totals_bound items h in
    let most =
      advances-le-outstanding doubles b (start_components lines) (map item_input items) known in
    omega arith
