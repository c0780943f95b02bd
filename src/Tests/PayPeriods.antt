-- ===== src/Tests/PayPeriods.antt =====
-- The life of a pay period with one employee, whose advance is repaid by the payroll of the period.
use employee_attendance.Prelude.{◌≡◌, ◌↔◌, refl, true, none, some, [], ◌∷◌}
use employee_attendance.Prelude.Result.{Result, ok, err}
use employee_attendance.Calendar.{Day, day_le}
use employee_attendance.Timesheet.{complete}
use employee_attendance.PayPeriod.{
  Organization, PayPeriod, PayPeriodStatus, review, approve, lock, CalculationRun,
  CalculationResult, CalculationStatus, PayrollError,
}
use employee_attendance.PayPeriod.Coverage.{
  compare_payroll_employee_coverage, eligible_employees, unique_ids, without,
}
use employee_attendance.PayPeriod.Review.{
  assert_reviewable, IsReviewable, latest_run, check_run, unacknowledged_warning_count,
}
use employee_attendance.PayPeriod.Readiness.{assert_reviewable_iff, IsReady}
use employee_attendance.PayPeriod.Locking.{
  lock_found, lock_payroll_calculation, repay, repay_all, repayments_from, add_lines, add_repayment,
  find_run,
}
use employee_attendance.PayPeriod.Transition.{
  transition_pay_period, valid_transition, check_resolved, unresolved_timesheets,
  pending_corrections, pending_leave, reopen_period, review_period, approve_period, lock_period,
  perform,
}
use employee_attendance.PayPeriod.Transition.Checks.{approve_checked, lock_checked, IsResolved}
use employee_attendance.PayPeriod.Transition.Machine.{
  Reach-IsSound, IsSound, Reach, here, next, queued_export, transition,
}
use employee_attendance.PayPeriod.Exports.{request_export, mark_exported}
use employee_attendance.PayPeriod.Creation.{
  create_pay_period, create_pay_period_iff, new_period, IsFree,
}
use employee_attendance.PayPeriod.Acknowledgement.{
  acknowledge_payroll_warning, acknowledge_payroll_warning_lem, is_draft,
}

abbrev first_day : Day
first_day = record { year = 2026; month = 11; day = 1 }

abbrev last_day : Day
last_day = record { year = 2026; month = 11; day = 30 }

abbrev november : PayPeriod
november = record {
  id = "november";
  start_date = first_day;
  end_date = last_day;
  status = PayPeriodStatus.draft;
  reviewed_at = none;
  reviewed_by_user_id = none;
  reviewed_calculation_run_id = none;
  approved_at = none;
  approved_by_user_id = none;
  approved_calculation_run_id = none;
  locked_at = none;
  locked_by_user_id = none;
}

abbrev repaying : CalculationResult
repaying = record {
  id = "november-aminah";
  employee_id = "aminah";
  warnings = "LATE" ∷ [];
  blocking_warnings = [];
  acknowledged = "LATE" ∷ [];
  repayments = record { source_component_assignment_id = "advance"; amount_sen = 300 } ∷ [];
}

abbrev november_run : CalculationRun
november_run = record {
  id = "run";
  version = 1;
  status = CalculationStatus.draft;
  locked_at = none;
  expected_employee_count = 1;
  blocking_warning_count = 0;
  results = repaying ∷ [];
}

abbrev drafted : Organization
drafted = record {
  period = november;
  timesheets =
      record {
        employee_id = "aminah";
        work_date = first_day;
        state = complete;
        approved_at = none;
        locked_at = none;
        pay_period_id = none;
      }
      ∷ [];
  corrections = [];
  leave_requests = [];
  employees = record { id = "aminah"; join_date = none; termination_date = none } ∷ [];
  runs = november_run ∷ [];
  components = record { id = "advance"; outstanding_amount_sen = some 1000 } ∷ [];
}

abbrev after : Result PayrollError Organization → Organization
after (ok o) = o
after (err e) = drafted

abbrev reviewed_org : Organization
reviewed_org = after (transition_pay_period drafted review 1 "boss")

abbrev approved_org : Organization
approved_org = after (transition_pay_period reviewed_org approve 2 "boss")

abbrev locked_org : Organization
locked_org = after (transition_pay_period approved_org lock 3 "boss")

review_succeeds : transition_pay_period drafted review 1 "boss" ≡ ok reviewed_org
unfolding transition_pay_period valid_transition check_resolved unresolved_timesheets day_le
    pending_corrections pending_leave perform assert_reviewable latest_run check_run
    compare_payroll_employee_coverage eligible_employees unacknowledged_warning_count review_period
    approve_period lock_period lock_payroll_calculation unique_ids without add_lines add_repayment
    find_run lock_found repay repay_all repayments_from reopen_period
review_succeeds = refl

approve_succeeds : transition_pay_period reviewed_org approve 2 "boss" ≡ ok approved_org
unfolding transition_pay_period valid_transition check_resolved unresolved_timesheets day_le
    pending_corrections pending_leave perform assert_reviewable latest_run check_run
    compare_payroll_employee_coverage eligible_employees unacknowledged_warning_count review_period
    approve_period lock_period lock_payroll_calculation unique_ids without add_lines add_repayment
    find_run lock_found repay repay_all repayments_from reopen_period
approve_succeeds = refl

lock_succeeds : transition_pay_period approved_org lock 3 "boss" ≡ ok locked_org
unfolding transition_pay_period valid_transition check_resolved unresolved_timesheets day_le
    pending_corrections pending_leave perform assert_reviewable latest_run check_run
    compare_payroll_employee_coverage eligible_employees unacknowledged_warning_count review_period
    approve_period lock_period lock_payroll_calculation unique_ids without add_lines add_repayment
    find_run lock_found repay repay_all repayments_from reopen_period
lock_succeeds = refl

history : Reach drafted locked_org
history =
    next
      (next (next here (transition review 1 "boss" review_succeeds))
        (transition approve 2 "boss" approve_succeeds))
      (transition lock 3 "boss" lock_succeeds)

exporting_admitted : request_export locked_org ≡ ok locked_org.period
unfolding transition_pay_period valid_transition check_resolved unresolved_timesheets day_le
    pending_corrections pending_leave perform assert_reviewable latest_run check_run
    compare_payroll_employee_coverage eligible_employees unacknowledged_warning_count review_period
    approve_period lock_period lock_payroll_calculation unique_ids without add_lines add_repayment
    find_run lock_found repay repay_all repayments_from reopen_period request_export
exporting_admitted = refl

exporting : Reach drafted (mark_exported locked_org)
exporting = queued_export locked_org.period history exporting_admitted here

lock_checked_example : IsResolved approved_org
unfolding transition_pay_period valid_transition check_resolved unresolved_timesheets day_le
    pending_corrections pending_leave perform assert_reviewable latest_run check_run
    compare_payroll_employee_coverage eligible_employees unacknowledged_warning_count review_period
    approve_period lock_period lock_payroll_calculation unique_ids without add_lines add_repayment
    find_run lock_found repay repay_all repayments_from reopen_period
lock_checked_example = (lock_checked approved_org locked_org 3 "boss" lock_succeeds).1

approve_checked_example :
    (run : CalculationRun) × IsReviewable reviewed_org run
    × (reviewed_org.period.reviewed_calculation_run_id ≡ some run.id)
    × (approved_org.period.approved_calculation_run_id ≡ some run.id)
    × (approved_org.period.reviewed_calculation_run_id ≡ some run.id)
    × (approved_org.period.status ≡ PayPeriodStatus.approved)
unfolding transition_pay_period valid_transition check_resolved unresolved_timesheets day_le
    pending_corrections pending_leave perform assert_reviewable latest_run check_run
    compare_payroll_employee_coverage eligible_employees unacknowledged_warning_count review_period
    approve_period lock_period lock_payroll_calculation unique_ids without add_lines add_repayment
    find_run lock_found repay repay_all repayments_from reopen_period
approve_checked_example = approve_checked reviewed_org approved_org 2 "boss" approve_succeeds

Reach-IsSound_example : IsSound (mark_exported locked_org).period
unfolding transition_pay_period valid_transition check_resolved unresolved_timesheets day_le
    pending_corrections pending_leave perform assert_reviewable latest_run check_run
    compare_payroll_employee_coverage eligible_employees unacknowledged_warning_count review_period
    approve_period lock_period lock_payroll_calculation unique_ids without add_lines add_repayment
    find_run lock_found repay repay_all repayments_from reopen_period
Reach-IsSound_example = Reach-IsSound refl exporting

assert_reviewable_iff_example :
    (assert_reviewable drafted ≡ ok november_run) ↔ IsReady drafted november_run
assert_reviewable_iff_example = assert_reviewable_iff drafted november_run

abbrev december : Day
december = record { year = 2026; month = 12; day = 1 }

abbrev year_end : Day
year_end = record { year = 2026; month = 12; day = 31 }

create_pay_period_iff_example :
    (create_pay_period "december" december year_end (november ∷ [])
      ≡ ok (new_period "december" december year_end ∷ november ∷ []))
    ↔ ((day_le december year_end ≡ true) × IsFree december year_end (november ∷ []))
unfolding day_le
create_pay_period_iff_example =
    create_pay_period_iff "december" december year_end (november ∷ []) (refl, tt)

abbrev late_org : Organization
late_org = record drafted {
  runs = record november_run { results = record repaying { acknowledged = [] } ∷ [] } ∷ [];
}

acknowledge_succeeds : acknowledge_payroll_warning "november-aminah" "LATE" late_org ≡ ok drafted
unfolding acknowledge_payroll_warning latest_run
acknowledge_succeeds = refl

acknowledge_payroll_warning_lem_example : is_draft november.status ≡ true
acknowledge_payroll_warning_lem_example =
    (acknowledge_payroll_warning_lem "november-aminah" "LATE" late_org drafted
      acknowledge_succeeds).0
