-- ===== src/PayPeriod/Transition.antt =====
-- payroll-v2.controller.ts: `validTransition` and the transaction of `transitionPayPeriodV2`, for a
-- period of the caller's organization.
pub mod Checks
pub mod Machine
use employee_attendance.Prelude.{
  ℕ, ◌+◌, String, Bool, true, false, not, ◌&&◌, ◌||◌, Option, none, some, List, [], ◌∷◌, map, ◌==◌,
  ltb, filter, length, if◌then◌else◌, same_text,
}
use employee_attendance.Prelude.Result.{Result, ok, err, ◌>>=◌, ◌>>◌, throw_if}
use employee_attendance.Calendar.{Day, day_le}
use employee_attendance.Timesheet.{TimesheetState, open_day, exception, complete}
use employee_attendance.PayPeriod.{
  Organization, PayPeriod, PayPeriodStatus, draft, reviewed, locked, exported, RequestStatus,
  pending, TransitionAction, review, approve, lock, reopen, TimesheetDay, AttendanceCorrection,
  LeaveRequest, CalculationRun, PayrollError, invalid_pay_period_transition,
  payroll_calculation_changed, unresolved,
}
use employee_attendance.PayPeriod.Review.{assert_reviewable}
use employee_attendance.PayPeriod.Locking.{lock_payroll_calculation}

-- `validTransition`
unfoldable pub valid_transition : PayPeriodStatus → TransitionAction → Bool
valid_transition draft review = true
valid_transition reviewed approve = true
valid_transition PayPeriodStatus.approved lock = true
valid_transition reviewed reopen = true
valid_transition PayPeriodStatus.approved reopen = true
valid_transition _ _ = false

-- `workDate: { gte: startDate, lte: endDate }`
abbrev pub in_period : PayPeriod → Day → Bool
in_period p date = day_le p.start_date date && day_le date p.end_date

abbrev pub is_unresolved : TimesheetState → Bool
is_unresolved open_day = true
is_unresolved exception = true
is_unresolved _ = false

abbrev pub is_pending : RequestStatus → Bool
is_pending pending = true
is_pending _ = false

unfoldable pub unresolved_timesheets : Organization → ℕ
unresolved_timesheets o =
    length (filter (λ t. in_period o.period t.work_date && is_unresolved t.state) o.timesheets)

unfoldable pub pending_corrections : Organization → ℕ
pending_corrections o =
    length (filter (λ c. is_pending c.status && in_period o.period c.work_date) o.corrections)

unfoldable pub pending_leave : Organization → ℕ
pending_leave o = length (
    filter
      (λ l.
        is_pending l.status
        && (day_le l.start_date o.period.end_date && day_le o.period.start_date l.end_date))
      o.leave_requests)

abbrev is_checked : TransitionAction → Bool
is_checked review = true
is_checked lock = true
is_checked _ = false

-- The check of a review and of a lock.
unfoldable pub check_resolved : Organization → TransitionAction → Result PayrollError (Unit {0})
check_resolved o action = do
  let timesheets = unresolved_timesheets o
  let corrections = pending_corrections o
  let leave = pending_leave o
  let found = ltb 0 timesheets || (ltb 0 corrections || ltb 0 leave)
  throw_if (is_checked action && found) (unresolved timesheets corrections leave)

-- `updateMany` on the timesheets of the period that are in a state.
abbrev pub update_timesheets :
    PayPeriod
    → (TimesheetState → Bool)
    → (TimesheetDay → TimesheetDay)
    → List TimesheetDay
    → List TimesheetDay
update_timesheets p test change days =
    map (λ t. if in_period p t.work_date && test t.state then change t else t) days

abbrev is_approved : TimesheetState → Bool
is_approved TimesheetState.approved = true
is_approved _ = false

abbrev is_complete : TimesheetState → Bool
is_complete complete = true
is_complete _ = false

abbrev reopened_day : TimesheetDay → TimesheetDay
reopened_day t = record t { state = complete; approved_at = none }

abbrev approved_day : ℕ → TimesheetDay → TimesheetDay
approved_day now t = record t { state = TimesheetState.approved; approved_at = some now }

abbrev locked_day : ℕ → String → TimesheetDay → TimesheetDay
locked_day now id t = record t {
  state = TimesheetState.locked;
  locked_at = some now;
  pay_period_id = some id;
}

unfoldable pub reopen_period : Organization → Organization
reopen_period o = record o {
  timesheets = update_timesheets o.period is_approved reopened_day o.timesheets;
  period = record (o.period) {
    status = draft;
    reviewed_at = none;
    reviewed_by_user_id = none;
    reviewed_calculation_run_id = none;
    approved_at = none;
    approved_by_user_id = none;
    approved_calculation_run_id = none;
  };
}

unfoldable pub review_period : Organization → CalculationRun → ℕ → String → Organization
review_period o run now actor = record o {
  period = record (o.period) {
    status = reviewed;
    reviewed_at = some now;
    reviewed_by_user_id = some actor;
    reviewed_calculation_run_id = some run.id;
    approved_at = none;
    approved_by_user_id = none;
    approved_calculation_run_id = none;
  };
}

abbrev pub is_run : Option String → String → Bool
is_run none id = false
is_run (some other) id = same_text other id

unfoldable pub approve_period :
    Organization → CalculationRun → ℕ → String → Result PayrollError Organization
approve_period o run now actor = do
  throw_if (not (is_run o.period.reviewed_calculation_run_id run.id)) payroll_calculation_changed
  ok (record o {
    timesheets = update_timesheets o.period is_complete (approved_day now) o.timesheets;
    period = record (o.period) {
      status = PayPeriodStatus.approved;
      approved_at = some now;
      approved_by_user_id = some actor;
      approved_calculation_run_id = some run.id;
    };
  })

abbrev lock_organization : Organization → ℕ → String → Organization
lock_organization o now actor = record o {
  timesheets = update_timesheets o.period (λ s. true) (locked_day now o.period.id) o.timesheets;
  period = record (o.period) {
    status = locked;
    locked_at = some now;
    locked_by_user_id = some actor;
  };
}

unfoldable pub lock_period :
    Organization → CalculationRun → ℕ → String → Result PayrollError Organization
lock_period o run now actor = do
  throw_if (not (is_run o.period.approved_calculation_run_id run.id)) payroll_calculation_changed
  repaid ← lock_payroll_calculation o run.id now
  ok (lock_organization repaid now actor)

-- The rest of the transaction, once the checks have passed.
unfoldable pub perform :
    Organization → TransitionAction → ℕ → String → Result PayrollError Organization
perform o reopen now actor = ok (reopen_period o)
perform o review now actor = do run ← assert_reviewable o; ok (review_period o run now actor)
perform o approve now actor = do run ← assert_reviewable o; approve_period o run now actor
perform o lock now actor = do run ← assert_reviewable o; lock_period o run now actor

-- The transaction of `transitionPayPeriodV2`.
unfoldable pub transition_pay_period :
    Organization → TransitionAction → ℕ → String → Result PayrollError Organization
transition_pay_period o action now actor = do
  throw_if (not (valid_transition o.period.status action)) invalid_pay_period_transition
  check_resolved o action
  perform o action now actor
