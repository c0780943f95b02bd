-- ===== src/Requests/Reviewing.antt =====
-- requests-v2.controller.ts: the review of a correction, `reviewCorrectionV2`, with its transaction and
-- with its batch on D1.
use employee_attendance.Prelude.{
  ℕ, String, same_text, Bool, true, false, ◌&&◌, Option, none, some, List, ◌∷◌, find, or_else,
  is_some, if◌then◌else◌, update_where, update_row, upsert_row,
}
use employee_attendance.Prelude.Int.{ℤ, pos, ◌-ℤ◌}
use employee_attendance.Prelude.Result.{Result, ok, err, ◌>>=◌, ◌>>◌, throw_if}
use employee_attendance.CodeSet.{}
use employee_attendance.Calendar.{}
use employee_attendance.Timesheet.{}
use employee_attendance.Timesheet.Codes.{exception_code}
use employee_attendance.PayPeriod.{}
use employee_attendance.Requests.{
  Decision, approve_request, reject_request, TimesheetDay, DayKey, same_day, is_pending,
}
use employee_attendance.Requests.Reviews.{decided_status}
use employee_attendance.Requests.Corrections.{
  ClockAction, asks_clock_in, asks_clock_out, CorrectionValues, CorrectionRequest,
  PayrollAdjustment, clocked_in, clocked_out, DayRecord, CorrectionStore, CorrectionError,
  correction_not_found, correction_stale, locked_period_required, gross_minutes,
  corrected_timesheet, correct_day, find_timesheet, is_locked_state,
}

pub record CorrectionReview : Type 0 where
  pub decision : Decision
  pub note : Option String
  pub actor_user_id : String
  pub now : ℕ
  pub in_scope : String → Bool
  pub overtime_threshold : Option ℕ

unfoldable pub decide_correction : CorrectionReview → CorrectionRequest → CorrectionRequest
decide_correction v c = record c {
  status = decided_status v.decision;
  review_note = v.note;
  reviewed_at = some v.now;
  reviewed_by_user_id = some v.actor_user_id;
}

abbrev is_recorded : Option ClockAction → TimesheetDay → Bool
is_recorded none t = false
is_recorded (some asks_clock_in) t = is_some t.first_clock_in_at
is_recorded (some asks_clock_out) t = is_some t.last_clock_out_at

abbrev pub approves : Decision → Bool
approves approve_request = true
approves reject_request = false

-- The test for CORRECTION_STALE.
unfoldable pub is_stale : Decision → CorrectionValues → TimesheetDay → Bool
is_stale d q t = (approves d && q.is_gps_exception) && is_recorded q.action t

-- The create and the update of the record of the day, for a clock-in and for a clock-out.
abbrev pub write_record : ClockAction → ℕ → Option ℕ → DayKey → List DayRecord → List DayRecord
write_record asks_clock_in at first k rs =
    upsert_row (λ r. r.key) same_day k
      (record { key = k; clock_in_at = at; clock_out_at = none; status = clocked_in })
      (λ r. record r { clock_in_at = at; status = clocked_in }) rs
write_record asks_clock_out at first k rs =
    upsert_row (λ r. r.key) same_day k
      (record {
        key = k;
        clock_in_at = or_else first at;
        clock_out_at = some at;
        status = clocked_out;
      })
      (λ r. record r { clock_out_at = some at; status = clocked_out }) rs

abbrev pub adjust_gps :
    CorrectionReview
    → CorrectionRequest
    → Bool
    → Option ClockAction
    → Option ℕ
    → CorrectionStore
    → CorrectionStore
adjust_gps v c true (some action) (some at) s = record s {
  events =
      record {
        day = c.day;
        client_id = c.client_id;
        action = action;
        occurred_at = at;
        correction_id = c.id;
        created_by_user_id = v.actor_user_id;
      }
      ∷ s.events;
  records = write_record action at c.requested.first_clock_in_at c.day s.records;
}
adjust_gps v c _ _ _ s = s

-- `gpsAdjustmentOperations`
unfoldable pub gps_adjustment :
    CorrectionReview → CorrectionRequest → CorrectionStore → CorrectionStore
gps_adjustment v c s =
    adjust_gps v c c.requested.is_gps_exception c.requested.action c.requested.server_received_at s

-- `corrected.gross - regularMinutes - overtimeMinutes`
unfoldable pub adjustment_minutes : CorrectionValues → TimesheetDay → ℤ
adjustment_minutes q t = pos (gross_minutes q t) -ℤ pos t.regular_minutes -ℤ pos t.overtime_minutes

abbrev pub adjustment :
    CorrectionReview → CorrectionRequest → TimesheetDay → ℕ → String → PayrollAdjustment
adjustment v c t threshold period = record {
  pay_period_id = period;
  day = c.day;
  correction_id = c.id;
  minutes = adjustment_minutes c.requested t;
  reason = c.reason;
  before_values = c.original;
  after_values = corrected_timesheet c.requested t threshold;
  created_by_user_id = v.actor_user_id;
}

abbrev pub adjust_locked :
    CorrectionReview
    → CorrectionRequest
    → TimesheetDay
    → ℕ
    → Option String
    → CorrectionStore
    → Result CorrectionError CorrectionStore
adjust_locked v c t threshold none s = err locked_period_required
adjust_locked v c t threshold (some period) s =
    ok (record s { adjustments = adjustment v c t threshold period ∷ s.adjustments })

abbrev pub correct_open :
    CorrectionReview → CorrectionRequest → TimesheetDay → ℕ → CorrectionStore → CorrectionStore
correct_open v c t threshold s =
    let s' = gps_adjustment v c s in
    record s' {
      timesheets =
          update_row (λ d. d.key) same_day c.day
            (correct_day (corrected_timesheet c.requested t threshold)) s'.timesheets;
    }

-- What an approval does with the timesheet of the correction.
unfoldable pub apply_correction :
    CorrectionReview
    → CorrectionRequest
    → TimesheetDay
    → CorrectionStore
    → Result CorrectionError CorrectionStore
apply_correction v c t s =
    let threshold = or_else v.overtime_threshold 480 in
    if is_locked_state t.state
    then adjust_locked v c t threshold t.pay_period_id s
    else ok (correct_open v c t threshold s)

abbrev pub decided :
    CorrectionReview
    → CorrectionRequest
    → TimesheetDay
    → CorrectionStore
    → Result CorrectionError CorrectionStore
decided v c t s = if approves v.decision then apply_correction v c t s else ok s

abbrev pub close_correction :
    CorrectionReview → CorrectionRequest → CorrectionStore → CorrectionStore
close_correction v c s = record s {
  corrections = update_where (λ d. same_text d.id c.id) (decide_correction v) s.corrections;
}

-- The transaction of `reviewCorrectionV2`.
unfoldable pub write_correction_review :
    CorrectionReview
    → CorrectionRequest
    → TimesheetDay
    → CorrectionStore
    → Result CorrectionError CorrectionStore
write_correction_review v c t s = do applied ← decided v c t s; ok (close_correction v c applied)

abbrev pub claim_correction :
    CorrectionReview → CorrectionRequest → CorrectionStore → CorrectionStore
claim_correction v c s = record s {
  corrections =
      update_where (λ d. same_text d.id c.id && is_pending d.status) (decide_correction v)
        s.corrections;
}

-- `reviewCorrectionOnD1`
unfoldable pub write_correction_review_on_d1 :
    CorrectionReview
    → CorrectionRequest
    → TimesheetDay
    → CorrectionStore
    → Result CorrectionError CorrectionStore
write_correction_review_on_d1 v c t s = decided v c t (claim_correction v c s)

abbrev pub check_review :
    CorrectionReview
    → CorrectionRequest
    → Option TimesheetDay
    → CorrectionStore
    → Result CorrectionError CorrectionStore
check_review v c none s = err correction_not_found
check_review v c (some t) s = do
  throw_if (is_stale v.decision c.requested t) correction_stale
  write_correction_review v c t s

abbrev pub review_found_correction :
    CorrectionReview
    → Option CorrectionRequest
    → CorrectionStore
    → Result CorrectionError CorrectionStore
review_found_correction v none s = err correction_not_found
review_found_correction v (some c) s = check_review v c (find_timesheet c.day s.timesheets) s

unfoldable pub find_pending_correction :
    CorrectionReview → String → List CorrectionRequest → Option CorrectionRequest
find_pending_correction v id cs =
    find (λ c. (same_text c.id id && is_pending c.status) && v.in_scope c.day.employee_id) cs

-- `reviewCorrectionV2`; a correction's timesheet is read with it and is always there.
unfoldable pub review_correction :
    CorrectionReview → String → CorrectionStore → Result CorrectionError CorrectionStore
review_correction v id s = review_found_correction v (find_pending_correction v id s.corrections) s
