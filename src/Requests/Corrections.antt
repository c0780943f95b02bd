-- ===== src/Requests/Corrections.antt =====
-- requests-v2.controller.ts: requests to correct a timesheet (`createCorrectionV2`,
-- `createClockExceptionV2`) and their review on both databases (`reviewCorrectionV2`). Instants are
-- milliseconds, the limits on the lengths of texts are left out, and new ids are given.
use employee_attendance.Prelude.{
  ℕ, ◌+◌, ◌-◌, ◌/◌, String, Bool, true, false, not, ◌&&◌, Option, none, some, List, [], ◌∷◌, ◌++◌,
  any, filter, min, is_some, if◌then◌else◌, find_row,
}
use employee_attendance.Prelude.Int.{ℤ}
use employee_attendance.Prelude.Result.{Result, ok, err, ◌>>=◌, ◌>>◌, throw_if}
use employee_attendance.CodeSet.{is_empty, set_of, sorted_codes}
use employee_attendance.Calendar.{Day}
use employee_attendance.Timesheet.{TimesheetState, open_day, complete, exception, locked}
use employee_attendance.Timesheet.Codes.{
  exception_code, ExceptionCode, gps_clock_request_pending, gps_accuracy_rejected,
  correction_incomplete,
}
use employee_attendance.PayPeriod.{RequestStatus, pending}
use employee_attendance.Requests.{TimesheetDay, DayKey, same_day, is_pending}
use employee_attendance.Requests.Reviews.{}

pub data ClockAction : Type 0 where
  asks_clock_in asks_clock_out : ClockAction

-- `CorrectionValues`: a GPS clock exception has its action and the instant of the server.
pub record CorrectionValues : Type 0 where
  pub first_clock_in_at : Option ℕ
  pub last_clock_out_at : Option ℕ
  pub is_gps_exception : Bool
  pub action : Option ClockAction
  pub reason_code : Option String
  pub server_received_at : Option ℕ

-- `originalValues`
pub record OriginalValues : Type 0 where
  pub first_clock_in_at : Option ℕ
  pub last_clock_out_at : Option ℕ
  pub regular_minutes : ℕ
  pub overtime_minutes : ℕ
  pub timesheet_version : Option ℕ

-- A correction, with the key of its timesheet in place of the id.
pub record CorrectionRequest : Type 0 where
  pub id : String
  pub client_id : Option String
  pub day : DayKey
  pub reason : String
  pub note : Option String
  pub original : OriginalValues
  pub requested : CorrectionValues
  pub status : RequestStatus
  pub reviewed_by_user_id : Option String
  pub review_note : Option String
  pub reviewed_at : Option ℕ

-- `data` of `correctedTimesheet`.
pub record CorrectedDay : Type 0 where
  pub first_clock_in_at : Option ℕ
  pub last_clock_out_at : Option ℕ
  pub regular_minutes : ℕ
  pub overtime_minutes : ℕ
  pub state : TimesheetState
  pub exception_codes : List ExceptionCode

pub record PayrollAdjustment : Type 0 where
  pub pay_period_id : String
  pub day : DayKey
  pub correction_id : String
  pub minutes : ℤ
  pub reason : String
  pub before_values : OriginalValues
  pub after_values : CorrectedDay
  pub created_by_user_id : String

-- An event that a review adds; its idempotency key is made of the correction's id.
pub record AdjustmentEvent : Type 0 where
  pub day : DayKey
  pub client_id : Option String
  pub action : ClockAction
  pub occurred_at : ℕ
  pub correction_id : String
  pub created_by_user_id : String

pub data AttendanceStatus : Type 0 where
  clocked_in clocked_out : AttendanceStatus

pub record DayRecord : Type 0 where
  pub key : DayKey
  pub clock_in_at : ℕ
  pub clock_out_at : Option ℕ
  pub status : AttendanceStatus

pub record CorrectionStore : Type 0 where
  pub corrections : List CorrectionRequest
  pub timesheets : List TimesheetDay
  pub adjustments : List PayrollAdjustment
  pub events : List AdjustmentEvent
  pub records : List DayRecord

pub data CorrectionError : Type 0 where
  timesheet_not_found correction_pending employee_required timesheet_locked
        clock_in_already_recorded invalid_clock_exception correction_not_found correction_stale
        locked_period_required :
      CorrectionError

abbrev pub gross_between : Option ℕ → Option ℕ → ℕ → ℕ
gross_between (some first) (some last) break_minutes = (last - first) / 60_000 - break_minutes
gross_between _ _ break_minutes = 0

-- `gross`; an instant before the other one and less than the breaks give zero.
unfoldable pub gross_minutes : CorrectionValues → TimesheetDay → ℕ
gross_minutes q t = gross_between q.first_clock_in_at q.last_clock_out_at t.break_minutes

abbrev pub outlasts_correction : ExceptionCode → Bool
outlasts_correction gps_clock_request_pending = false
outlasts_correction gps_accuracy_rejected = false
outlasts_correction correction_incomplete = false
outlasts_correction _ = true

abbrev pub has_both : CorrectionValues → Bool
has_both q = is_some q.first_clock_in_at && is_some q.last_clock_out_at

-- `remainingCodes`
unfoldable pub remaining_codes : CorrectionValues → TimesheetDay → List ExceptionCode
remaining_codes q t =
    let kept = filter outlasts_correction t.exception_codes in
    if not (has_both q) && not q.is_gps_exception then kept ++ correction_incomplete ∷ [] else kept

abbrev pub asks_in : Option ClockAction → Bool
asks_in (some asks_clock_in) = true
asks_in _ = false

-- A GPS request to clock in with no clock-out.
abbrev pub opens_day : CorrectionValues → Bool
opens_day q =
    (q.is_gps_exception && asks_in q.action)
    && (is_some q.first_clock_in_at && not (is_some q.last_clock_out_at))

-- `correctedTimesheet`
unfoldable pub corrected_timesheet : CorrectionValues → TimesheetDay → ℕ → CorrectedDay
corrected_timesheet q t threshold =
    let gross = gross_minutes q t in
    let codes = remaining_codes q t in
    record {
      first_clock_in_at = q.first_clock_in_at;
      last_clock_out_at = q.last_clock_out_at;
      regular_minutes = min gross threshold;
      overtime_minutes = gross - threshold;
      state =
          if opens_day q
          then open_day
          else if has_both q && is_empty codes
          then complete
          else exception;
      exception_codes = sorted_codes (set_of [] codes);
    }

unfoldable pub correct_day : CorrectedDay → TimesheetDay → TimesheetDay
correct_day d t = record t {
  first_clock_in_at = d.first_clock_in_at;
  last_clock_out_at = d.last_clock_out_at;
  regular_minutes = d.regular_minutes;
  overtime_minutes = d.overtime_minutes;
  state = d.state;
  exception_codes = d.exception_codes;
  version = t.version + 1;
}

-- Who asks: the employee, with the client of the account.
pub record Claimant : Type 0 where
  pub employee_id : String
  pub client_id : Option String
  pub is_active : Bool

abbrev pub own_day : Claimant → Day → DayKey
own_day c date = record { employee_id = c.employee_id; work_date = date }

abbrev pub is_locked_state : TimesheetState → Bool
is_locked_state locked = true
is_locked_state _ = false

abbrev pub has_pending : DayKey → List CorrectionRequest → Bool
has_pending k cs = any (λ c. same_day c.day k && is_pending c.status) cs

abbrev pub find_timesheet : DayKey → List TimesheetDay → Option TimesheetDay
find_timesheet k ts = find_row (λ t. t.key) same_day k ts

abbrev pub original_values : TimesheetDay → OriginalValues
original_values t = record {
  first_clock_in_at = t.first_clock_in_at;
  last_clock_out_at = t.last_clock_out_at;
  regular_minutes = t.regular_minutes;
  overtime_minutes = t.overtime_minutes;
  timesheet_version = none;
}

-- The body of a request for a correction, for the timesheet of a date.
pub record CorrectionForm : Type 0 where
  pub work_date : Day
  pub reason : String
  pub note : Option String
  pub clock_in_at : Option ℕ
  pub clock_out_at : Option ℕ

unfoldable pub new_correction :
    Claimant → CorrectionForm → String → TimesheetDay → CorrectionRequest
new_correction c f id t = record {
  id = id;
  client_id = c.client_id;
  day = own_day c f.work_date;
  reason = f.reason;
  note = f.note;
  original = original_values t;
  requested = record {
    first_clock_in_at = f.clock_in_at;
    last_clock_out_at = f.clock_out_at;
    is_gps_exception = false;
    action = none;
    reason_code = none;
    server_received_at = none;
  };
  status = pending;
  reviewed_by_user_id = none;
  review_note = none;
  reviewed_at = none;
}

abbrev pub found_timesheet :
    Option TimesheetDay → CorrectionError → Result CorrectionError TimesheetDay
found_timesheet none e = err e
found_timesheet (some t) e = ok t

-- `createCorrectionV2`
unfoldable pub create_correction :
    Claimant → CorrectionForm → String → CorrectionStore → Result CorrectionError CorrectionStore
create_correction c f id s = do
  let k = own_day c f.work_date
  t ← found_timesheet (find_timesheet k s.timesheets) timesheet_not_found
  throw_if (has_pending k s.corrections) correction_pending
  ok (record s { corrections = new_correction c f id t ∷ s.corrections })
