-- ===== src/Requests/Reviews.antt =====
-- requests-v2.controller.ts: `reviewLeaveRequestV2`, its transaction and its batch on D1. The rows that
-- the planning of the leave reads are given.
use employee_attendance.Prelude.{
  ℕ, ◌+◌, ltb, String, same_text, Bool, true, false, not, ◌&&◌, Option, none, some, List, [], ◌∷◌,
  ◌++◌, any, find, filter, map, or_else, if◌then◌else◌, update_where, find_row, update_row,
  upsert_row, change_found,
}
use employee_attendance.Prelude.Int.{}
use employee_attendance.Prelude.Result.{Result, ok, err, ◌>>=◌, ◌>>◌, throw_if}
use employee_attendance.CodeSet.{is_empty}
use employee_attendance.Calendar.{Day, day_le, ends_after}
use employee_attendance.Timesheet.{TimesheetState, open_day, complete, exception}
use employee_attendance.Timesheet.Codes.{
  exception_code, ExceptionCode, absent, partial_day_unaccounted,
}
use employee_attendance.PayPeriod.{
  PayPeriodStatus, locked, exported, RequestStatus, approved, rejected,
}
use employee_attendance.Leave.{
  LeaveError, EffectiveShift, LegacySchedule, HolidayDay, LeaveInput, LeaveDayAllocation,
  plan_leave_allocations,
}
use employee_attendance.PayrollRun.{OrganizationHoliday, MalaysiaHoliday, for_state}
use employee_attendance.Requests.{
  Decision, approve_request, reject_request, LeaveType, LeaveBalance, LeaveRequest, LeaveStore,
  TimesheetDay, LeaveAllocation, DayKey, PeriodDates, same_key, same_day, is_pending,
}
use employee_attendance.Requests.Leaves.{request_key, release_pending}

pub data LeaveReviewError : Type 0 where
  leave_already_reviewed pay_period_locked insufficient_scheduled_minutes leave_request_not_found :
      LeaveReviewError

-- Who reviews, what is decided, the ids of new timesheets by their date, and the employees who are
-- in the scope of the administrator.
pub record LeaveReview : Type 0 where
  pub decision : Decision
  pub note : Option String
  pub actor_user_id : String
  pub now : ℕ
  pub day_id : Day → String
  pub in_scope : String → Bool

-- The rows read for planning: those of the employee, of the client and of the country.
pub record WorkRules : Type 0 where
  pub assignments : List EffectiveShift
  pub legacy_schedule : Option LegacySchedule
  pub organization_holidays : List OrganizationHoliday
  pub malaysia_holidays : List MalaysiaHoliday
  pub worksite_state_code : Option String
  pub client_state_code : Option String
  pub overtime_threshold : Option ℕ
  pub default_break_minutes : Option ℕ

unfoldable pub decided_status : Decision → RequestStatus
decided_status approve_request = approved
decided_status reject_request = rejected

unfoldable pub decide_request : LeaveReview → LeaveRequest → LeaveRequest
decide_request v r = record r {
  status = decided_status v.decision;
  review_note = v.note;
  reviewed_at = some v.now;
  reviewed_by_user_id = some v.actor_user_id;
}

-- `where: { id, status: PENDING }`
abbrev pub is_claimed : String → LeaveRequest → Bool
is_claimed id r = same_text r.id id && is_pending r.status

unfoldable pub claim_request : LeaveReview → String → List LeaveRequest → List LeaveRequest
claim_request v id rs = update_where (is_claimed id) (decide_request v) rs

abbrev pub is_locked_status : PayPeriodStatus → Bool
is_locked_status locked = true
is_locked_status exported = true
is_locked_status _ = false

-- The `where` of the locked period.
unfoldable pub is_locked_for : LeaveRequest → PeriodDates → Bool
is_locked_for r p =
    (same_text p.client_id r.client_id && is_locked_status p.status)
    && (day_le p.start_date r.end_date && day_le r.start_date p.end_date)

abbrev pub first_some : Option String → Option String → String → String
first_some (some a) other last = a
first_some none (some b) last = b
first_some none none last = last

unfoldable pub state_code : WorkRules → String
state_code w = first_some w.worksite_state_code w.client_state_code "14"

abbrev pub is_between : LeaveRequest → Day → Bool
is_between r date = day_le r.start_date date && day_le date r.end_date

abbrev pub organization_day : OrganizationHoliday → HolidayDay
organization_day h = record { date = h.date; is_working_day_override = h.is_working_day_override }

abbrev pub malaysia_day : MalaysiaHoliday → HolidayDay
malaysia_day h = record { date = h.date; is_working_day_override = false }

-- `holidays`, from the rows in the dates of the request.
unfoldable pub leave_holidays : WorkRules → LeaveRequest → List HolidayDay
leave_holidays w r =
    map organization_day (
      filter (λ h. is_between r h.date && for_state h.state_code (state_code w))
        w.organization_holidays)
    ++ map malaysia_day (
        filter (λ h. is_between r h.date && same_text h.state_code (state_code w))
          w.malaysia_holidays)

abbrev is_in_range : LeaveRequest → EffectiveShift → Bool
is_in_range r s = day_le s.effective_from r.end_date && ends_after s.effective_to r.start_date

unfoldable pub leave_input : WorkRules → LeaveRequest → LeaveInput
leave_input w r = record {
  start_date = r.start_date;
  end_date = r.end_date;
  requested_minutes = r.requested_minutes;
  assignments = filter (is_in_range r) w.assignments;
  legacy_schedule = w.legacy_schedule;
  holidays = leave_holidays w r;
  default_day_minutes = or_else w.overtime_threshold 480;
  default_break_minutes = or_else w.default_break_minutes 60;
}

-- The timesheet of a date without one: what `?? 0` and the defaults of the schema make of it.
unfoldable pub new_day : String → LeaveRequest → Day → TimesheetDay
new_day id r date = record {
  id = id;
  client_id = some r.client_id;
  key = record { employee_id = r.employee_id; work_date = date };
  state = complete;
  first_clock_in_at = none;
  last_clock_out_at = none;
  regular_minutes = 0;
  overtime_minutes = 0;
  break_minutes = 0;
  leave_minutes = 0;
  paid_leave_minutes = 0;
  unpaid_leave_minutes = 0;
  is_absent = false;
  exception_codes = [];
  version = 0;
  pay_period_id = none;
}

abbrev is_kept : ExceptionCode → Bool
is_kept absent = false
is_kept partial_day_unaccounted = false
is_kept _ = true

-- `exceptionCodes`
unfoldable pub leave_codes : TimesheetDay → LeaveDayAllocation → List ExceptionCode
leave_codes t a =
    let kept = filter is_kept t.exception_codes in
    if ltb (t.regular_minutes + t.overtime_minutes + (t.leave_minutes + a.minutes))
      a.scheduled_minutes
    then kept ++ partial_day_unaccounted ∷ []
    else kept

-- `state`
unfoldable pub leave_state : TimesheetState → List ExceptionCode → TimesheetState
leave_state open_day codes = open_day
leave_state _ codes = if not (is_empty codes) then exception else complete

-- The part of an allocation in paid leave, and the part in unpaid leave.
abbrev pub paid_part : Bool → ℕ → ℕ
paid_part is_paid minutes = if is_paid then minutes else 0

abbrev pub unpaid_part : Bool → ℕ → ℕ
unpaid_part is_paid minutes = if is_paid then 0 else minutes

-- The row that an allocation makes of a timesheet that it found.
unfoldable pub credit_day : Bool → LeaveDayAllocation → TimesheetDay → TimesheetDay
credit_day is_paid a t = record t {
  state = leave_state t.state (leave_codes t a);
  leave_minutes = t.leave_minutes + a.minutes;
  paid_leave_minutes = t.paid_leave_minutes + paid_part is_paid a.minutes;
  unpaid_leave_minutes = t.unpaid_leave_minutes + unpaid_part is_paid a.minutes;
  is_absent = false;
  exception_codes = leave_codes t a;
  version = t.version + 1;
}

abbrev pub day_key : LeaveRequest → LeaveDayAllocation → DayKey
day_key r a = record { employee_id = r.employee_id; work_date = a.work_date }

abbrev pub leave_allocation : Bool → LeaveRequest → String → LeaveDayAllocation → LeaveAllocation
leave_allocation is_paid r id a = record {
  leave_request_id = r.id;
  timesheet_day_id = id;
  work_date = a.work_date;
  scheduled_minutes = a.scheduled_minutes;
  minutes = a.minutes;
  paid_minutes = paid_part is_paid a.minutes;
  unpaid_minutes = unpaid_part is_paid a.minutes;
}

-- The update of the upsert, with the values of the credited row.
abbrev pub merge_day : TimesheetDay → TimesheetDay → TimesheetDay
merge_day credited t = record t {
  state = credited.state;
  leave_minutes = credited.leave_minutes;
  paid_leave_minutes = credited.paid_leave_minutes;
  unpaid_leave_minutes = credited.unpaid_leave_minutes;
  is_absent = false;
  exception_codes = credited.exception_codes;
  version = t.version + 1;
}

-- The upsert for an allocation: `existing` is the timesheet among those read before the loop, and the
-- values that are written are the ones calculated from it.
unfoldable pub write_day :
    Bool
    → LeaveRequest
    → (Day → String)
    → Option TimesheetDay
    → LeaveDayAllocation
    → List TimesheetDay
    → List TimesheetDay
write_day is_paid r day_id existing a days =
    let credited =
      credit_day is_paid a (or_else existing (new_day (day_id a.work_date) r a.work_date)) in
    upsert_row (λ t. t.key) same_day (day_key r a) credited (merge_day credited) days

-- The loop over the allocations, with the timesheets that were read before it.
unfoldable pub credit_days :
    Bool
    → LeaveRequest
    → (Day → String)
    → List TimesheetDay
    → List LeaveDayAllocation
    → List TimesheetDay × List LeaveAllocation
    → List TimesheetDay × List LeaveAllocation
credit_days is_paid r day_id read [] rows = rows
credit_days is_paid r day_id read (a ∷ xs) rows =
    let existing = find_row (λ t. t.key) same_day (day_key r a) read in
    let id = or_else (change_found (λ t. t.id) existing) (day_id a.work_date) in
    credit_days is_paid r day_id read xs
      (write_day is_paid r day_id existing a rows.0, leave_allocation is_paid r id a ∷ rows.1)

abbrev pub planned :
    Result LeaveError (List LeaveDayAllocation) → Result LeaveReviewError (List LeaveDayAllocation)
planned (ok xs) = ok xs
planned (err e) = err insufficient_scheduled_minutes

abbrev pub with_days : LeaveStore → List TimesheetDay × List LeaveAllocation → LeaveStore
with_days s rows = record s { timesheets = rows.0; allocations = rows.1 }

-- What an approval does to the timesheets.
unfoldable pub approve_days :
    WorkRules
    → Bool
    → LeaveRequest
    → (Day → String)
    → LeaveStore
    → Result LeaveReviewError LeaveStore
approve_days w is_paid r day_id s = do
  throw_if (any (is_locked_for r) s.pay_periods) pay_period_locked
  xs ← planned (plan_leave_allocations (leave_input w r))
  ok (with_days s (credit_days is_paid r day_id s.timesheets xs (s.timesheets, s.allocations)))

unfoldable pub decide_days :
    Decision
    → WorkRules
    → Bool
    → LeaveRequest
    → (Day → String)
    → LeaveStore
    → Result LeaveReviewError LeaveStore
decide_days approve_request w is_paid r day_id s = approve_days w is_paid r day_id s
decide_days reject_request w is_paid r day_id s = ok s

-- The update of the balance.
unfoldable pub settle_balance : Decision → ℕ → LeaveBalance → LeaveBalance
settle_balance approve_request m b = record (release_pending m b) {
  used_minutes = b.used_minutes + m;
}
settle_balance reject_request m b = release_pending m b

unfoldable pub settle : LeaveReview → LeaveRequest → LeaveStore → LeaveStore
settle v r s = record s {
  balances =
      update_row (λ b. b.key) same_key (request_key r)
        (settle_balance v.decision r.requested_minutes) s.balances;
}

abbrev pub claimed : LeaveReview → LeaveRequest → LeaveStore → LeaveStore
claimed v r s = record s { leave_requests = claim_request v r.id s.leave_requests }

-- The transaction of `reviewLeaveRequestV2` for the request that was read, with its leave type.
unfoldable pub write_review :
    LeaveReview → WorkRules → Bool → LeaveRequest → LeaveStore → Result LeaveReviewError LeaveStore
write_review v w is_paid r s = do
  throw_if (not (any (is_claimed r.id) s.leave_requests)) leave_already_reviewed
  days ← decide_days v.decision w is_paid r v.day_id (claimed v r s)
  ok (settle v r days)

-- `reviewLeaveRequestOnD1`: the reads come first, and the batch does not ask whether it claimed.
unfoldable pub write_review_on_d1 :
    LeaveReview → WorkRules → Bool → LeaveRequest → LeaveStore → Result LeaveReviewError LeaveStore
write_review_on_d1 v w is_paid r s = do
  days ← decide_days v.decision w is_paid r v.day_id s
  ok (settle v r (claimed v r days))

-- The first read of `reviewLeaveRequestV2`.
unfoldable pub find_pending : LeaveReview → String → List LeaveRequest → Option LeaveRequest
find_pending v id rs = find (λ r. is_claimed id r && v.in_scope r.employee_id) rs

-- `leave.leaveType.isPaid`; a request's leave type is always there.
unfoldable pub is_paid_leave : List LeaveType → LeaveRequest → Bool
is_paid_leave ts r = any (λ t. same_text t.id r.leave_type_id && t.is_paid) ts

abbrev pub review_found :
    LeaveReview → WorkRules → Option LeaveRequest → LeaveStore → Result LeaveReviewError LeaveStore
review_found v w none s = err leave_request_not_found
review_found v w (some r) s = write_review v w (is_paid_leave s.leave_types r) r s

-- `reviewLeaveRequestV2` with nothing between its read and its transaction.
unfoldable pub review_leave_request :
    LeaveReview → WorkRules → String → LeaveStore → Result LeaveReviewError LeaveStore
review_leave_request v w id s = review_found v w (find_pending v id s.leave_requests) s
