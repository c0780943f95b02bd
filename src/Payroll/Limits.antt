-- ===== src/Payroll/Limits.antt =====
-- payroll-calculator.ts: bounds on what components add, and on the wages of contributions.
use employee_attendance.Prelude.{
  ℕ, ◌+◌, ◌≤◌, ◌≡◌, List, [], ◌∷◌, arith, or_else, sum_by, is_some, true, All,
}
use employee_attendance.Payroll.{PayComponentInput, PayrollComponentType}
use employee_attendance.Payroll.Doubles.{Doubles}
use employee_attendance.Payroll.Earnings.{Earnings}
use employee_attendance.Payroll.Lines.{PayrollLineOutput}
use employee_attendance.Payroll.Components.{
  ComponentTally, Basis, start_components, limited_amount, component_amount, add_amount,
  add_component, step_component, components_tally,
}
use employee_attendance.Payroll.Calculator.{gross_pay, contribution_wages}

-- What of the earnings a contribution counts is at most the earnings.
pub record AreWithin (t : ComponentTally) : Type 0 where
  pub epf_le : t.epf_eligible_sen ≤ t.additional_earnings_sen
  pub socso_le : t.socso_eligible_sen ≤ t.additional_earnings_sen
  pub eis_le : t.eis_eligible_sen ≤ t.additional_earnings_sen

add_amount-AreWithin :
    (t : ComponentTally) (a : PayComponentInput) (kind : PayrollComponentType) (amount : ℕ)
    → AreWithin t
    → AreWithin (add_amount t a kind amount)
unfolding add_amount
add_amount-AreWithin t a kind amount w = ground arith

-- The advances among the components say what is outstanding.
abbrev pub IsKnown : PayComponentInput → Type 0
IsKnown a =
    a.payroll_component.kind ≡ PayrollComponentType.advance_repayment
    → is_some a.outstanding_amount_sen ≡ true

module _ (doubles : Doubles) where
  pub components_tally-AreWithin :
      (b : Basis) (t : ComponentTally) (cs : List PayComponentInput)
      → AreWithin t
      → AreWithin (components_tally doubles b t cs)
  unfolding components_tally step_component add_component
  components_tally-AreWithin b t [] w = w
  components_tally-AreWithin b t (a ∷ cs) w = ground (
    arith,
    components_tally-AreWithin b (step_component doubles b t a) cs,
    add_amount-AreWithin t a a.payroll_component.kind (component_amount doubles b a) w,
  )

  -- No contribution is taken of more than the gross pay, whatever the components, and EPF is not
  -- taken of overtime.
  pub contribution_wages-le-gross_pay :
      (b : Basis) (lines : List PayrollLineOutput) (cs : List PayComponentInput) (e : Earnings)
      → let c = components_tally doubles b (start_components lines) cs in
        let w = contribution_wages doubles e c in
        (w.epf + e.overtime_pay_sen ≤ gross_pay doubles e c)
        × (w.socso ≤ gross_pay doubles e c)
        × (w.eis ≤ gross_pay doubles e c)
  unfolding contribution_wages gross_pay
  contribution_wages-le-gross_pay b lines cs e =
      let w = components_tally-AreWithin b (start_components lines) cs (omega arith) in omega arith

  step_component_advance :
      (b : Basis) (t : ComponentTally) (a : PayComponentInput)
      → IsKnown a
      → (step_component doubles b t a).advance_deduction_sen
        ≤ t.advance_deduction_sen + or_else a.outstanding_amount_sen 0
  unfolding step_component add_component add_amount component_amount limited_amount
  step_component_advance b t a k = ground arith

  -- If each advance says what is outstanding, the advances that are taken back are at most what is
  -- outstanding of all of them.
  pub advances-le-outstanding :
      (b : Basis) (t : ComponentTally) (cs : List PayComponentInput)
      → All IsKnown cs
      → (components_tally doubles b t cs).advance_deduction_sen
        ≤ t.advance_deduction_sen + sum_by (λ a. or_else a.outstanding_amount_sen 0) cs
  unfolding components_tally
  advances-le-outstanding b t [] k = omega arith
  advances-le-outstanding b t (a ∷ cs) (k, ks) = omega (
    arith,
    advances-le-outstanding b (step_component doubles b t a) cs ks,
    step_component_advance b t a k,
  )
