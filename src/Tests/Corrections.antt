-- ===== src/Tests/Corrections.antt =====
-- A correction of a locked timesheet, and a clock-in that the GPS check stopped.
use employee_attendance.Prelude.{◌+◌, ◌≡◌, refl, none, some, [], ◌∷◌, true, false}
use employee_attendance.Prelude.Int.{}
use employee_attendance.Prelude.Result.{Result, ok, err}
use employee_attendance.CodeSet.{}
use employee_attendance.Calendar.{Day, day_eq}
use employee_attendance.Timesheet.{locked}
use employee_attendance.Requests.{approve_request, TimesheetDay, same_day}
use employee_attendance.Requests.Corrections.{
  CorrectionRequest, CorrectionForm, CorrectionStore, CorrectionValues, Claimant, asks_clock_in,
  create_correction, new_correction, find_timesheet, own_day, corrected_timesheet, is_locked_state,
}
use employee_attendance.Requests.ClockExceptions.{ClockException, create_clock_exception}
use employee_attendance.Requests.Reviewing.{
  CorrectionReview, review_correction, find_pending_correction, is_stale, write_correction_review,
  apply_correction, adjustment_minutes,
}
use employee_attendance.Requests.LockedDays.{KeepsLocked}
use employee_attendance.Requests.Awaiting.{
  settled, next, asking, correcting, HasOnePending, CorrectionSteps-holds,
}
use employee_attendance.Requests.Adjustments.{review_correction_locked, IsAdjusted}
use employee_attendance.Requests.Approved.{create_clock_exception-approved, IsRecorded}
use employee_attendance.Requests.Recalculation.{corrected_timesheet_lem}

abbrev monday : Day
monday = record { year = 2026; month = 11; day = 2 }

abbrev aminah : Claimant
aminah = record { employee_id = "aminah"; client_id = some "client"; is_active = true }

abbrev locked_day : TimesheetDay
locked_day = record {
  id = "t1";
  client_id = some "client";
  key = record { employee_id = "aminah"; work_date = monday };
  state = locked;
  first_clock_in_at = some 32_400_000;
  last_clock_out_at = some 57_600_000;
  regular_minutes = 420;
  overtime_minutes = 0;
  break_minutes = 0;
  leave_minutes = 0;
  paid_leave_minutes = 0;
  unpaid_leave_minutes = 0;
  is_absent = false;
  exception_codes = [];
  version = 1;
  pay_period_id = some "november";
}

abbrev at_first : CorrectionStore
at_first = record {
  corrections = [];
  timesheets = locked_day ∷ [];
  adjustments = [];
  events = [];
  records = [];
}

abbrev until_six : CorrectionForm
until_six = record {
  work_date = monday;
  reason = "left at six";
  note = none;
  clock_in_at = some 32_400_000;
  clock_out_at = some 64_800_000;
}

abbrev value_or {ℓ κ} : {E : Type ℓ} {A : Type κ} → A → Result E A → A
value_or a (ok b) = b
value_or a (err e) = a

abbrev asked : CorrectionStore
asked = value_or at_first (create_correction aminah until_six "c1" at_first)

abbrev boss : CorrectionReview
boss = record {
  decision = approve_request;
  note = none;
  actor_user_id = "boss";
  now = 9;
  in_scope = λ _. true;
  overtime_threshold = some 480;
}

abbrev corrected : CorrectionStore
corrected = value_or asked (review_correction boss "c1" asked)

asking_succeeds : create_correction aminah until_six "c1" at_first ≡ ok asked
unfolding create_correction same_day day_eq
asking_succeeds = refl

correcting_succeeds : review_correction boss "c1" asked ≡ ok corrected
unfolding create_correction same_day day_eq new_correction review_correction find_pending_correction
    is_stale write_correction_review apply_correction adjustment_minutes
correcting_succeeds = refl

CorrectionSteps-holds_example :
    KeepsLocked at_first corrected × (HasOnePending [] → HasOnePending corrected.corrections)
CorrectionSteps-holds_example = CorrectionSteps-holds (
    next (asking aminah until_six "c1" asking_succeeds)
      (next (correcting boss "c1" correcting_succeeds) settled))

review_correction_locked_example :
    (c : CorrectionRequest) × (t : TimesheetDay) × (find_pending_correction boss "c1"
        asked.corrections
      ≡ some c)
    × (find_timesheet c.day asked.timesheets ≡ some t)
    × (is_locked_state t.state ≡ true
        → IsAdjusted c t asked corrected
          × (corrected.timesheets ≡ asked.timesheets)
          × (corrected.events ≡ asked.events)
          × (corrected.records ≡ asked.records))
review_correction_locked_example =
    review_correction_locked boss "c1" asked corrected refl correcting_succeeds

abbrev stopped : ClockException
stopped = record {
  action = asks_clock_in;
  reason_code = "OUTSIDE_WORKSITE";
  note = none;
  work_date = record { year = 2026; month = 11; day = 3 };
  now = 118_800_000;
  reason = "Clock-in blocked: OUTSIDE_WORKSITE";
}

abbrev awaited : CorrectionStore
awaited = value_or at_first (create_clock_exception aminah stopped "c2" "t2" at_first)

stopping_succeeds : create_clock_exception aminah stopped "c2" "t2" at_first ≡ ok awaited
unfolding create_clock_exception same_day day_eq
stopping_succeeds = refl

create_clock_exception-approved_example :
    (s : CorrectionStore) × (review_correction boss "c2" awaited ≡ ok s)
    × IsRecorded stopped (own_day aminah stopped.work_date) s
create_clock_exception-approved_example =
    create_clock_exception-approved aminah stopped "c2" "t2" boss at_first awaited stopping_succeeds
      refl refl

abbrev nine_to_six : CorrectionValues
nine_to_six = record {
  first_clock_in_at = some 32_400_000;
  last_clock_out_at = some 64_800_000;
  is_gps_exception = false;
  action = none;
  reason_code = none;
  server_received_at = none;
}

corrected_timesheet_lem_example :
    (corrected_timesheet nine_to_six locked_day 480).regular_minutes
      + (corrected_timesheet nine_to_six locked_day 480).overtime_minutes
    ≡ 540
corrected_timesheet_lem_example =
    (corrected_timesheet_lem nine_to_six locked_day 480).0.0 32_400_000 64_800_000 refl refl
