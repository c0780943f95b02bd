-- ===== src/Requests/ClockExceptions.antt =====
-- requests-v2.controller.ts: `createClockExceptionV2`, the request of an employee whom the GPS check kept
-- from clocking in or out.
use employee_attendance.Prelude.{
  ℕ, ◌+◌, String, Bool, true, false, not, ◌&&◌, ◌||◌, Option, none, some, List, [], ◌∷◌, ◌++◌,
  is_some, if◌then◌else◌, upsert_row,
}
use employee_attendance.Prelude.Int.{}
use employee_attendance.Prelude.Result.{Result, ok, ◌>>◌, throw_if}
use employee_attendance.CodeSet.{set_of, sorted_codes}
use employee_attendance.Calendar.{Day}
use employee_attendance.Timesheet.{exception}
use employee_attendance.Timesheet.Codes.{exception_code, gps_clock_request_pending}
use employee_attendance.PayPeriod.{pending}
use employee_attendance.Requests.{TimesheetDay, DayKey, same_day}
use employee_attendance.Requests.Reviews.{}
use employee_attendance.Requests.Corrections.{
  ClockAction, asks_clock_in, asks_clock_out, CorrectionValues, OriginalValues, CorrectionRequest,
  CorrectionStore, CorrectionError, correction_pending, employee_required, timesheet_locked,
  clock_in_already_recorded, invalid_clock_exception, Claimant, has_pending, find_timesheet,
  original_values, own_day, is_locked_state,
}

-- What `createClockExceptionV2` is asked: the day is today's, and `now` the instant of the server.
pub record ClockException : Type 0 where
  pub action : ClockAction
  pub reason_code : String
  pub note : Option String
  pub work_date : Day
  pub now : ℕ
  pub reason : String

abbrev pub clock_in_of : Option TimesheetDay → Option ℕ
clock_in_of none = none
clock_in_of (some t) = t.first_clock_in_at

abbrev pub clock_out_of : Option TimesheetDay → Option ℕ
clock_out_of none = none
clock_out_of (some t) = t.last_clock_out_at

abbrev pub is_locked_day : Option TimesheetDay → Bool
is_locked_day none = false
is_locked_day (some t) = is_locked_state t.state

abbrev pub clocks_in : ClockAction → Bool
clocks_in asks_clock_in = true
clocks_in asks_clock_out = false

unfoldable pub requested_values : ClockException → Option TimesheetDay → CorrectionValues
requested_values x o = record {
  first_clock_in_at = if clocks_in x.action then some x.now else clock_in_of o;
  last_clock_out_at = if clocks_in x.action then clock_out_of o else some x.now;
  is_gps_exception = true;
  action = some x.action;
  reason_code = some x.reason_code;
  server_received_at = some x.now;
}

-- The timesheet that is created when there is none.
unfoldable pub excepted_day : String → Claimant → DayKey → TimesheetDay
excepted_day id c k = record {
  id = id;
  client_id = c.client_id;
  key = k;
  state = exception;
  first_clock_in_at = none;
  last_clock_out_at = none;
  regular_minutes = 0;
  overtime_minutes = 0;
  break_minutes = 0;
  leave_minutes = 0;
  paid_leave_minutes = 0;
  unpaid_leave_minutes = 0;
  is_absent = false;
  exception_codes = gps_clock_request_pending ∷ [];
  version = 1;
  pay_period_id = none;
}

unfoldable pub await_review : TimesheetDay → TimesheetDay
await_review t = record t {
  state = exception;
  exception_codes = sorted_codes (set_of [] (t.exception_codes ++ gps_clock_request_pending ∷ []));
  version = t.version + 1;
}

abbrev no_values : OriginalValues
no_values = record {
  first_clock_in_at = none;
  last_clock_out_at = none;
  regular_minutes = 0;
  overtime_minutes = 0;
  timesheet_version = some 0;
}

abbrev values_of : Option TimesheetDay → OriginalValues
values_of none = no_values
values_of (some t) = record (original_values t) { timesheet_version = some t.version }

unfoldable pub new_exception :
    Claimant → ClockException → String → DayKey → Option TimesheetDay → CorrectionRequest
new_exception c x id k o = record {
  id = id;
  client_id = c.client_id;
  day = k;
  reason = x.reason;
  note = x.note;
  original = values_of o;
  requested = requested_values x o;
  status = pending;
  reviewed_by_user_id = none;
  review_note = none;
  reviewed_at = none;
}

abbrev pub write_awaiting : String → Claimant → DayKey → List TimesheetDay → List TimesheetDay
write_awaiting id c k ts = upsert_row (λ t. t.key) same_day k (excepted_day id c k) await_review ts

-- `createClockExceptionV2`
unfoldable pub create_clock_exception :
    Claimant
    → ClockException
    → (id day_id : String) → CorrectionStore
    → Result CorrectionError CorrectionStore
create_clock_exception c x id day_id s = do
  let k = own_day c x.work_date
  let o = find_timesheet k s.timesheets
  throw_if (not (is_some c.client_id && c.is_active)) employee_required
  throw_if (is_locked_day o) timesheet_locked
  throw_if (has_pending k s.corrections) correction_pending
  throw_if (clocks_in x.action && is_some (clock_in_of o)) clock_in_already_recorded
  throw_if (not (clocks_in x.action) && (not (is_some (clock_in_of o)) || is_some (clock_out_of o)))
      invalid_clock_exception
  ok (record s {
    timesheets = write_awaiting day_id c k s.timesheets;
    corrections = new_exception c x id k o ∷ s.corrections;
  })
