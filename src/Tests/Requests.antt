-- ===== src/Tests/Requests.antt =====
-- Leave that is asked for, approved and cancelled, and corrections of a locked and of a missing
-- timesheet.
use employee_attendance.Prelude.{◌≡◌, ◌↔◌, ◌⊎◌, refl, none, some, [], ◌∷◌, true, false, arith, any}
use employee_attendance.Prelude.Int.{◌+ℤ◌, ◌-ℤ◌}
use employee_attendance.Prelude.Result.{Result, ok, err}
use employee_attendance.Calendar.Ordinals.{IsDate}
use employee_attendance.Calendar.{
  day_le, enumerate_dates, days_from, ordinal, next_day, month_length, is_leap, days_before,
  days_before_year, weekday,
}
use employee_attendance.Leave.{
  plan_leave_allocations, allocate, capacities, capacities_on, scheduled_minutes_on, is_day_off,
  newest_shift,
}
use employee_attendance.Timesheet.{}
use employee_attendance.Requests.{approve_request, LeaveType, LeaveStore, LeaveRequest}
use employee_attendance.Requests.Leaves.{
  check_leave, available_minutes, balance_of, new_balance, ensure_balance, add_pending, Requester,
  LeaveForm, LeaveRequestError, create_leave_request, create_leave_request_on_d1, is_valid_leave,
  is_overlapped, find_leave_type, write_cancellation, new_leave_request,
}
use employee_attendance.Requests.Reviews.{
  find_pending, is_paid_leave, decide_days, approve_days, leave_input, leave_holidays, state_code,
  LeaveReview, WorkRules, review_leave_request, write_review, is_locked_for,
}
use employee_attendance.Requests.Balances.{IsLedger, find_request}
use employee_attendance.Requests.Ledger.{IsSound}
use employee_attendance.Requests.Entitlements.{
  create_leave_request-IsSound, create_leave_request_iff, create_leave_request_on_d1_agrees,
  HasRoom, SameCounters,
}
use employee_attendance.Requests.Machine.{
  creating, reviewing, finished, after, IsConsistent, LeaveSteps-IsConsistent,
}
use employee_attendance.Requests.Races.{write_cancellation-approved}
use employee_attendance.Requests.Credits.{write_review-credits}

abbrev annual : LeaveType
annual = record {
  id = "annual";
  client_id = "client";
  is_paid = true;
  default_entitlement_minutes = 4_800;
  is_active = true;
}

abbrev at_first : LeaveStore
at_first = record {
  leave_types = annual ∷ [];
  leave_requests = [];
  balances = [];
  pay_periods = [];
  timesheets = [];
  allocations = [];
}

abbrev aminah : Requester
aminah = record { employee_id = "aminah"; client_id = "client" }

abbrev two_days : LeaveForm
two_days = record {
  leave_type_id = "annual";
  start_date = record { year = 2026; month = 11; day = 2 };
  end_date = record { year = 2026; month = 11; day = 3 };
  requested_minutes = 600;
  reason = none;
}

abbrev value_or {ℓ κ} : {E : Type ℓ} {A : Type κ} → A → Result E A → A
value_or a (ok b) = b
value_or a (err e) = a

abbrev asked : LeaveStore
asked = value_or at_first (create_leave_request aminah two_days "r1" at_first)

abbrev monday_to_friday : WorkRules
monday_to_friday = record {
  assignments = [];
  legacy_schedule = none;
  organization_holidays = [];
  malaysia_holidays = [];
  worksite_state_code = none;
  client_state_code = none;
  overtime_threshold = none;
  default_break_minutes = none;
}

abbrev boss : LeaveReview
boss = record {
  decision = approve_request;
  note = none;
  actor_user_id = "boss";
  now = 9;
  day_id = λ _. "day";
  in_scope = λ _. true;
}

abbrev granted : LeaveStore
granted = value_or asked (review_leave_request boss monday_to_friday "r1" asked)

asking_succeeds : create_leave_request aminah two_days "r1" at_first ≡ ok asked
unfolding create_leave_request check_leave is_valid_leave day_le find_leave_type available_minutes
    ◌-ℤ◌ balance_of new_balance
asking_succeeds = refl

granting_succeeds : review_leave_request boss monday_to_friday "r1" asked ≡ ok granted
unfolding create_leave_request check_leave is_valid_leave day_le find_leave_type available_minutes
    ◌-ℤ◌ balance_of new_balance ◌+ℤ◌ ensure_balance add_pending new_leave_request
    review_leave_request find_pending is_paid_leave write_review decide_days approve_days
    plan_leave_allocations allocate capacities capacities_on scheduled_minutes_on enumerate_dates
    days_from ordinal next_day month_length is_leap days_before days_before_year weekday is_day_off
    newest_shift leave_input leave_holidays state_code
granting_succeeds = refl

at_first-IsConsistent : IsConsistent at_first
at_first-IsConsistent = ((tt, λ k. (refl, refl)), tt)

LeaveSteps-IsConsistent_example : IsConsistent granted
LeaveSteps-IsConsistent_example =
    LeaveSteps-IsConsistent
      (after (creating aminah two_days "r1" refl asking_succeeds)
        (after (reviewing boss monday_to_friday "r1" granting_succeeds) finished))
      at_first-IsConsistent

create_leave_request_iff_example :
    ((s' : LeaveStore) × (create_leave_request aminah two_days "r1" at_first ≡ ok s')) ↔ (
      (is_valid_leave two_days ≡ true)
      × (any (is_overlapped "aminah" two_days.start_date two_days.end_date) [] ≡ false)
      × ((t : LeaveType) × (find_leave_type aminah "annual" (annual ∷ []) ≡ some t)
          × HasRoom aminah two_days at_first t))
create_leave_request_iff_example =
    create_leave_request_iff aminah two_days "r1" at_first (λ k. (refl, refl))

create_leave_request_on_d1_agrees_example :
    ((s' : LeaveStore) × (create_leave_request aminah two_days "r1" at_first ≡ ok s')
      × (create_leave_request_on_d1 aminah two_days "r1" at_first ≡ (s', none)))
    ⊎ ((e : LeaveRequestError) × (create_leave_request aminah two_days "r1" at_first ≡ err e)
        × ((create_leave_request_on_d1 aminah two_days "r1" at_first).1 ≡ some e)
        × ((create_leave_request_on_d1 aminah two_days "r1" at_first).0.leave_requests ≡ [])
        × SameCounters (create_leave_request_on_d1 aminah two_days "r1" at_first).0.balances [])
create_leave_request_on_d1_agrees_example =
    create_leave_request_on_d1_agrees aminah two_days "r1" at_first

abbrev first_request : LeaveRequest
first_request = new_leave_request aminah two_days "r1"

asked-IsSound : IsSound asked
asked-IsSound =
    create_leave_request-IsSound aminah two_days "r1" at_first asked asking_succeeds refl
      at_first-IsConsistent.0

writing_succeeds : write_review boss monday_to_friday true first_request asked ≡ ok granted
unfolding create_leave_request check_leave is_valid_leave day_le find_leave_type available_minutes
    ◌-ℤ◌ balance_of new_balance ◌+ℤ◌ ensure_balance add_pending new_leave_request
    review_leave_request find_pending is_paid_leave write_review decide_days approve_days
    plan_leave_allocations allocate capacities capacities_on scheduled_minutes_on enumerate_dates
    days_from ordinal next_day month_length is_leap days_before days_before_year weekday is_day_off
    newest_shift leave_input leave_holidays state_code
writing_succeeds = refl

first_request_found : find_request first_request.id asked.leave_requests ≡ some first_request
unfolding create_leave_request check_leave is_valid_leave day_le find_leave_type available_minutes
    ◌-ℤ◌ balance_of new_balance ◌+ℤ◌ ensure_balance add_pending new_leave_request
    review_leave_request find_pending is_paid_leave write_review decide_days approve_days
    plan_leave_allocations allocate capacities capacities_on scheduled_minutes_on enumerate_dates
    days_from ordinal next_day month_length is_leap days_before days_before_year weekday is_day_off
    newest_shift leave_input leave_holidays state_code
first_request_found = refl

write_cancellation-approved_example :
    ¬ IsLedger
      (write_cancellation first_request 10 granted).balances
      (write_cancellation first_request 10 granted).leave_requests
unfolding new_leave_request
write_cancellation-approved_example =
    write_cancellation-approved boss monday_to_friday true first_request 10 asked granted
      asked-IsSound first_request_found refl (omega arith) refl writing_succeeds

two_days-AreDates : IsDate two_days.start_date × IsDate two_days.end_date
unfolding month_length is_leap
two_days-AreDates = (
  record {
    year_pos = omega arith;
    month_pos = omega arith;
    month_le = omega arith;
    day_pos = omega arith;
    day_le_length = omega arith;
  },
  record {
    year_pos = omega arith;
    month_pos = omega arith;
    month_le = omega arith;
    day_pos = omega arith;
    day_le_length = omega arith;
  },
)

write_review-credits_example : any (is_locked_for first_request) asked.pay_periods ≡ false
unfolding new_leave_request
write_review-credits_example =
    (write_review-credits boss monday_to_friday true first_request asked granted refl
      two_days-AreDates.0 two_days-AreDates.1 writing_succeeds).0
