-- ===== src/PayPeriod/Transition/Checks.antt =====
-- What a transition of a pay period that succeeds has checked, and what it has done.
use employee_attendance.Prelude.{
  ℕ, ◌≡◌, ◌⊎◌, refl, sym, ap, ◌∙◌, String, true, not, Option, none, some, List, [], ◌∷◌, arith,
  eq_iff, All, Option-cases, inl, inr,
}
use mathlib.Core.Path.{subst}
use employee_attendance.Prelude.Result.{ok-injective, ok, ◌>>◌, >>=-eq-ok, throw_if-eq-ok, >>-eq-ok}
use employee_attendance.Timesheet.{TimesheetState}
use employee_attendance.PayPeriod.{
  Organization, PayPeriod, PayPeriodStatus, locked, TransitionAction, review, approve, lock,
  TimesheetDay, CalculationRun, invalid_pay_period_transition, payroll_calculation_changed,
}
use employee_attendance.PayPeriod.Review.{
  assert_reviewable, assert_reviewable-IsReviewable, IsReviewable,
}
use employee_attendance.PayPeriod.Locking.{lock_payroll_calculation, find_run, lock_found-period}
use employee_attendance.PayPeriod.Transition.{
  valid_transition, in_period, unresolved_timesheets, pending_corrections, pending_leave,
  check_resolved, update_timesheets, locked_day, is_run, approve_period, lock_organization,
  lock_period, perform, transition_pay_period,
}

-- The parts of a transition that succeeds.
pub transition_parts :
    (o o' : Organization) (action : TransitionAction) (now : ℕ) (actor : String)
    → transition_pay_period o action now actor ≡ ok o'
    → (valid_transition o.period.status action ≡ true)
      × (check_resolved o action ≡ ok tt)
      × (perform o action now actor ≡ ok o')
unfolding transition_pay_period
transition_parts o o' action now actor h =
    let invalid = not (valid_transition o.period.status action) in
    let rest = check_resolved o action >> perform o action now actor in
    let (valid, later) = throw_if-eq-ok invalid invalid_pay_period_transition rest h in
    let (resolved, done) = >>-eq-ok (check_resolved o action) (perform o action now actor) later in
    (ground arith, resolved, done)

-- Nothing is unresolved when a review or a lock goes through.
pub record IsResolved (o : Organization) : Type 0 where
  pub timesheets : unresolved_timesheets o ≡ 0
  pub corrections : pending_corrections o ≡ 0
  pub leave : pending_leave o ≡ 0

check_resolved-IsResolved :
    (o : Organization) (action : TransitionAction)
    → (action ≡ review) ⊎ (action ≡ lock)
    → check_resolved o action ≡ ok tt
    → IsResolved o
unfolding check_resolved
check_resolved-IsResolved o action which h = ground arith

lock_payroll_calculation-period :
    (o : Organization) (id : String) (now : ℕ) (o' : Organization)
    → lock_payroll_calculation o id now ≡ ok o'
    → (o'.period ≡ o.period) × (o'.timesheets ≡ o.timesheets)
unfolding lock_payroll_calculation
lock_payroll_calculation-period o id now o' h = elim (Option-cases (find_run o.runs id)) [
  | inl missing ↦ ground arith
  | inr (run, found) ↦ lock_found-period o run now o' (rw (← h) (ground arith))
]

-- Each timesheet in the period is locked and belongs to the period.
abbrev pub AreLocked : PayPeriod → List TimesheetDay → Type 0
AreLocked p days =
    All
      (λ t.
        in_period p t.work_date ≡ true
        → (t.state ≡ TimesheetState.locked) × (t.pay_period_id ≡ some p.id))
      days

update_timesheets-AreLocked :
    (p : PayPeriod) (now : ℕ) (days : List TimesheetDay)
    → AreLocked p (update_timesheets p (λ s. true) (locked_day now p.id) days)
update_timesheets-AreLocked p now [] = tt
update_timesheets-AreLocked p now (t ∷ days) =
    (ground arith, update_timesheets-AreLocked p now days)

pub is_run-eq : (o : Option String) (id : String) → is_run o id ≡ true → o ≡ some id
is_run-eq none id h = cc
is_run-eq (some other) id h = ap some ((eq_iff other id).0 h)

-- An approval goes through only for a calculation that can be reviewed still and is the one that was
-- reviewed; then the period is approved, with it as the approved and the reviewed calculation.
pub approve_checked :
    (o o' : Organization) (now : ℕ) (actor : String)
    → transition_pay_period o approve now actor ≡ ok o'
    → (run : CalculationRun) × IsReviewable o run
      × (o.period.reviewed_calculation_run_id ≡ some run.id)
      × (o'.period.approved_calculation_run_id ≡ some run.id)
      × (o'.period.reviewed_calculation_run_id ≡ some run.id)
      × (o'.period.status ≡ PayPeriodStatus.approved)
unfolding perform approve_period
approve_checked o o' now actor h =
    let (_, _, done) = transition_parts o o' approve now actor h in
    let (run, reviewable, approved) = >>=-eq-ok (assert_reviewable o) _ done in
    let reviewed = is_run-eq o.period.reviewed_calculation_run_id run.id (ground arith) in
    (
      run,
      (assert_reviewable-IsReviewable o run).0 reviewable,
      reviewed,
      ground arith,
      ground arith,
      ground arith,
    )

lock_organization-AreLocked :
    (o repaid : Organization) (now : ℕ) (actor : String)
    → repaid.period ≡ o.period
    → AreLocked o.period (lock_organization repaid now actor).timesheets
lock_organization-AreLocked o repaid now actor period =
    rw (← period) (update_timesheets-AreLocked repaid.period now repaid.timesheets)

-- A period as a lock leaves it.
abbrev pub locked_fields : PayPeriod → ℕ → String → PayPeriod
locked_fields p now actor = record p {
  status = locked;
  locked_at = some now;
  locked_by_user_id = some actor;
}

lock_organization-period :
    (o repaid : Organization) (now : ℕ) (actor : String)
    → repaid.period ≡ o.period
    → (lock_organization repaid now actor).period ≡ locked_fields o.period now actor
lock_organization-period o repaid now actor e = ap (λ p. locked_fields p now actor) e

-- What a lock has checked and done, once the calculation is known to be reviewable.
pub lock_result :
    (o o' : Organization) (run : CalculationRun) (now : ℕ) (actor : String)
    → lock_period o run now actor ≡ ok o'
    → (o.period.approved_calculation_run_id ≡ some run.id)
      × (o'.period ≡ locked_fields o.period now actor)
      × AreLocked o.period o'.timesheets
unfolding lock_period
lock_result o o' run now actor h =
    let (known, rest) =
      throw_if-eq-ok (not (is_run o.period.approved_calculation_run_id run.id))
        payroll_calculation_changed _ h in
    let (repaid, paid, same) = >>=-eq-ok (lock_payroll_calculation o run.id now) _ rest in
    let (period, _) = lock_payroll_calculation-period o run.id now repaid paid in
    let left : lock_organization repaid now actor ≡ o' = ok-injective _ _ same in
    (
      is_run-eq o.period.approved_calculation_run_id run.id (ground arith),
      sym (ap (λ x. x.period) left) ∙ lock_organization-period o repaid now actor period,
      subst (λ x. AreLocked o.period x.timesheets) left
          (lock_organization-AreLocked o repaid now actor period),
    )

pub valid_lock :
    (status : PayPeriodStatus)
    → valid_transition status lock ≡ true
    → status ≡ PayPeriodStatus.approved
unfolding valid_transition
valid_lock status h = ground arith

-- A lock goes through only from the approved state, with nothing unresolved in the period, for a
-- calculation that can be reviewed still and is the one that was approved; then the period is locked
-- and so is every timesheet in it.
pub lock_checked :
    (o o' : Organization) (now : ℕ) (actor : String)
    → transition_pay_period o lock now actor ≡ ok o'
    → (o.period.status ≡ PayPeriodStatus.approved)
      × IsResolved o
      × ((run : CalculationRun) × IsReviewable o run
          × (o.period.approved_calculation_run_id ≡ some run.id)
          × (o'.period.approved_calculation_run_id ≡ some run.id))
      × (o'.period.status ≡ locked)
      × AreLocked o.period o'.timesheets
unfolding perform valid_transition
lock_checked o o' now actor h =
    let (valid, resolved, done) = transition_parts o o' lock now actor h in
    let (run, reviewable, locking) = >>=-eq-ok (assert_reviewable o) _ done in
    let (approved, period, days) = lock_result o o' run now actor locking in
    (
      valid_lock o.period.status valid,
      check_resolved-IsResolved o lock (inr refl) resolved,
      (
        run,
        (assert_reviewable-IsReviewable o run).0 reviewable,
        approved,
        ap (λ p. p.approved_calculation_run_id) period ∙ approved,
      ),
      ap (λ p. p.status) period,
      days,
    )
