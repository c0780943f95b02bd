-- ===== src/PayPeriod/Locking.antt =====
-- payroll-calculation-run.ts: `lockPayrollCalculation`, which takes the repayments off the advances.
use employee_attendance.Prelude.{
  ℕ, ◌+◌, ◌-◌, ◌≡◌, String, Bool, true, false, Option, none, some, List, [], ◌∷◌, map, ltb, leb,
  find, if◌then◌else◌, sum_by, or_else, arith, Option-cases, inl, inr, same_text,
}
use employee_attendance.Prelude.Result.{Result, ok, err, ◌>>=◌, ◌>>◌, throw_if, >>=-eq-ok}
use employee_attendance.PayPeriod.{
  Organization, CalculationRun, CalculationResult, CalculationStatus, PayComponent, Repayment,
  PayrollError, payroll_calculation_required, calculation_blocked, warnings_unacknowledged,
  advance_balance_changed,
}
use employee_attendance.PayPeriod.Review.{unacknowledged_warning_count}

-- `map.set(id, (map.get(id) ?? 0) + amount)`
unfoldable pub add_repayment : List (String × ℕ) → String → ℕ → List (String × ℕ)
add_repayment [] id amount = (id, amount) ∷ []
add_repayment ((k, v) ∷ m) id amount =
    let rest = add_repayment m id amount in
    if same_text k id then (k, v + amount) ∷ m else (k, v) ∷ rest

unfoldable pub add_lines : List (String × ℕ) → List Repayment → List (String × ℕ)
add_lines m [] = m
add_lines m (line ∷ lines) =
    add_lines (add_repayment m line.source_component_assignment_id line.amount_sen) lines

-- The map of the repayments of all the results.
unfoldable pub repayments_from : List (String × ℕ) → List CalculationResult → List (String × ℕ)
repayments_from m [] = m
repayments_from m (r ∷ rs) = repayments_from (add_lines m r.repayments) rs

abbrev covers : Option ℕ → ℕ → Bool
covers none amount = false
covers (some outstanding) amount = leb amount outstanding

-- `updateMany` where the id is this one and enough is outstanding; ids are unique, so `none` is a
-- count that is not 1.
unfoldable pub repay : List PayComponent → String → ℕ → Option (List PayComponent)
repay [] id amount = none
repay (c ∷ cs) id amount =
    let paid = record c {
      outstanding_amount_sen = some (or_else c.outstanding_amount_sen 0 - amount);
    } in
    if same_text c.id id
    then (if covers c.outstanding_amount_sen amount then some (paid ∷ cs) else none)
    else elim (repay cs id amount) [ none ↦ none | some rest ↦ some (c ∷ rest) ]

unfoldable pub repay_all :
    List PayComponent → List (String × ℕ) → Result PayrollError (List PayComponent)
repay_all cs [] = ok cs
repay_all cs ((id, amount) ∷ m) = elim (repay cs id amount) [
  | none ↦ err advance_balance_changed
  | some cs' ↦ repay_all cs' m
]

abbrev pub is_locked_run : CalculationStatus → Bool
is_locked_run CalculationStatus.locked = true
is_locked_run CalculationStatus.draft = false

unfoldable pub find_run : List CalculationRun → String → Option CalculationRun
find_run runs id = find (λ run. same_text run.id id) runs

abbrev mark_locked : String → ℕ → CalculationRun → CalculationRun
mark_locked id now run =
    if same_text run.id id
    then record run { status = CalculationStatus.locked; locked_at = some now }
    else run

unfoldable pub lock_found : Organization → CalculationRun → ℕ → Result PayrollError Organization
lock_found o run now = do
  throw_if (ltb 0 run.blocking_warning_count) (calculation_blocked run.blocking_warning_count)
  let unacknowledged = unacknowledged_warning_count run.results
  throw_if (ltb 0 unacknowledged) (warnings_unacknowledged unacknowledged)
  let locking = do
    components ← repay_all o.components (repayments_from [] run.results)
    ok (record o { components = components; runs = map (mark_locked run.id now) o.runs })
  if is_locked_run run.status then ok o else locking

abbrev pub lock_if : Organization → Option CalculationRun → ℕ → Result PayrollError Organization
lock_if o none now = err payroll_calculation_required
lock_if o (some run) now = lock_found o run now

-- `lockPayrollCalculation`
unfoldable pub lock_payroll_calculation :
    Organization → String → ℕ → Result PayrollError Organization
lock_payroll_calculation o run_id now = lock_if o (find_run o.runs run_id) now

-- What is outstanding of all advances.
abbrev pub total_outstanding : List PayComponent → ℕ
total_outstanding cs = sum_by (λ c. or_else c.outstanding_amount_sen 0) cs

-- What the lines of a run repay.
abbrev pub total_repaid : List CalculationResult → ℕ
total_repaid rs = sum_by (λ r. sum_by (λ line. line.amount_sen) r.repayments) rs

abbrev total_of : List (String × ℕ) → ℕ
total_of m = sum_by (λ entry. entry.1) m

add_repayment_total :
    (m : List (String × ℕ)) (id : String) (amount : ℕ)
    → total_of (add_repayment m id amount) ≡ total_of m + amount
unfolding add_repayment
add_repayment_total [] id amount = omega arith
add_repayment_total ((k, v) ∷ m) id amount = ground (arith, add_repayment_total m id amount)

add_lines_total :
    (m : List (String × ℕ)) (lines : List Repayment)
    → total_of (add_lines m lines) ≡ total_of m + sum_by (λ line. line.amount_sen) lines
unfolding add_lines
add_lines_total m [] = omega arith
add_lines_total m (line ∷ lines) = omega (
  arith,
  add_lines_total (add_repayment m line.source_component_assignment_id line.amount_sen) lines,
  add_repayment_total m line.source_component_assignment_id line.amount_sen,
)

repayments_from_total :
    (m : List (String × ℕ)) (rs : List CalculationResult)
    → total_of (repayments_from m rs) ≡ total_of m + total_repaid rs
unfolding repayments_from
repayments_from_total m [] = omega arith
repayments_from_total m (r ∷ rs) =
    omega
      (arith, repayments_from_total (add_lines m r.repayments) rs, add_lines_total m r.repayments)

repay_total :
    (cs : List PayComponent) (id : String) (amount : ℕ) (cs' : List PayComponent)
    → repay cs id amount ≡ some cs'
    → (total_outstanding cs ≡ total_outstanding cs' + amount)
      × (map (λ c. c.id) cs' ≡ map (λ c. c.id) cs)
unfolding repay
repay_total [] id amount cs' h = cc
repay_total (c ∷ cs) id amount cs' h = elim (Option-cases (repay cs id amount)) [
  | inl refused ↦ ground arith
  | inr (rest, paid) ↦ ground (arith, repay_total cs id amount rest paid)
]

repay_all_total :
    (cs : List PayComponent) (m : List (String × ℕ)) (cs' : List PayComponent)
    → repay_all cs m ≡ ok cs'
    → (total_outstanding cs ≡ total_outstanding cs' + total_of m)
      × (map (λ c. c.id) cs' ≡ map (λ c. c.id) cs)
unfolding repay_all
repay_all_total cs [] cs' h = ground arith
repay_all_total cs ((id, amount) ∷ m) cs' h = elim (Option-cases (repay cs id amount)) [
  | inl refused ↦ ground arith
  | inr (rest, paid) ↦
      ground (arith, repay_total cs id amount rest paid, repay_all_total rest m cs')
]

draft_effect :
    (o : Organization) (run : CalculationRun) (now : ℕ) (o' : Organization)
    → (repay_all o.components (repayments_from [] run.results) >>= λ components.
        ok (record o { components = components; runs = map (mark_locked run.id now) o.runs }))
      ≡ ok o'
    → (total_outstanding o.components ≡ total_outstanding o'.components + total_repaid run.results)
      × (map (λ c. c.id) o'.components ≡ map (λ c. c.id) o.components)
      × (o'.runs ≡ map (mark_locked run.id now) o.runs)
      × (o'.period ≡ o.period)
      × (o'.timesheets ≡ o.timesheets)
draft_effect o run now o' h =
    let m = repayments_from [] run.results in
    let (cs, repaid, same) = >>=-eq-ok (repay_all o.components m) _ h in
    ground (arith, repay_all_total o.components m cs repaid, repayments_from_total [] run.results)

-- A run that is locked now has no blocking warning and no warning that is not acknowledged. If it was
-- a draft before, what is outstanding of the advances falls by just what the lines of the run repay,
-- and the components stay the same ones; if it was locked, nothing changes.
pub lock_found_lem :
    (o : Organization) (run : CalculationRun) (now : ℕ) (o' : Organization)
    → lock_found o run now ≡ ok o'
    → (run.blocking_warning_count ≡ 0)
      × (unacknowledged_warning_count run.results ≡ 0)
      × (run.status ≡ CalculationStatus.locked → o' ≡ o)
      × (run.status ≡ CalculationStatus.draft
          → (total_outstanding o.components
              ≡ total_outstanding o'.components + total_repaid run.results)
            × (map (λ c. c.id) o'.components ≡ map (λ c. c.id) o.components)
            × (o'.runs ≡ map (mark_locked run.id now) o.runs))
unfolding lock_found
lock_found_lem o run now o' h = ground (arith, draft_effect o run now o')

-- Locking a calculation leaves the period and its timesheets as they are.
pub lock_found-period :
    (o : Organization) (run : CalculationRun) (now : ℕ) (o' : Organization)
    → lock_found o run now ≡ ok o'
    → (o'.period ≡ o.period) × (o'.timesheets ≡ o.timesheets)
unfolding lock_found
lock_found-period o run now o' h = ground (arith, draft_effect o run now o')
