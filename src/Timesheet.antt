-- ===== src/Timesheet.antt =====
-- apps/api/src/services/timesheet-calculator.ts: the minutes of a day from its attendance events.
-- Instants are milliseconds from an origin that lies before them, so `Math.max(a - b, 0)` is the
-- subtraction of natural numbers. The increment is positive, as a work policy's is.
pub mod Codes
pub mod Order
pub mod Invariant
pub mod Minutes
use employee_attendance.Prelude.{
  ℕ, ◌+◌, ◌*◌, ◌-◌, ◌/◌, Bool, true, false, not, ◌&&◌, ◌||◌, Option, none, some, List, [], ◌∷◌, leb,
  ltb, ◌==◌, if◌then◌else◌, or_else, is_some, min,
}
use employee_attendance.Timesheet.Codes.{
  ExceptionCode, duplicate_clock_in, unpaired_break_start, unpaired_break_end, break_not_ended,
  unpaired_clock_out, missing_clock_out, excessive_hours, exception_code,
}
use employee_attendance.CodeSet.{add_code, sorted_codes, is_empty}

pub data AttendanceEventType : Type 0 where
  clock_in clock_out break_start break_end : AttendanceEventType

pub data TimesheetState : Type 0 where
  open_day complete exception approved locked : TimesheetState

pub record TimesheetEvent : Type 0 where
  pub kind : AttendanceEventType
  pub occurred_at : ℕ

pub record TimesheetCalculation : Type 0 where
  pub state : TimesheetState
  pub first_clock_in_at : Option ℕ
  pub last_clock_out_at : Option ℕ
  pub regular_minutes : ℕ
  pub overtime_minutes : ℕ
  pub break_minutes : ℕ
  pub exception_codes : List ExceptionCode

pub record TimesheetPolicy : Type 0 where
  pub regular_day_minutes : Option ℕ
  pub rounding_increment : Option ℕ
  pub maximum_shift_minutes : Option ℕ

-- `typeof policy === "number" ? { regularDayMinutes: policy } : policy`
abbrev pub policy_of_minutes : ℕ → TimesheetPolicy
policy_of_minutes minutes = record {
  regular_day_minutes = some minutes;
  rounding_increment = none;
  maximum_shift_minutes = none;
}

-- `Math.round(milliseconds / 60_000 / increment) * increment`
unfoldable pub rounded_minutes : ℕ → ℕ → ℕ
rounded_minutes milliseconds increment =
    (milliseconds * 2 + 60_000 * increment) / (2 * (60_000 * increment)) * increment

-- `sort` by instant, which is stable.
unfoldable pub insert_event : TimesheetEvent → List TimesheetEvent → List TimesheetEvent
insert_event e [] = e ∷ []
insert_event e (f ∷ fs) =
    let rest = insert_event e fs in if leb e.occurred_at f.occurred_at then e ∷ f ∷ fs else f ∷ rest

unfoldable pub sort_events : List TimesheetEvent → List TimesheetEvent
unfolding insert_event
sort_events [] = []
sort_events (e ∷ es) = insert_event e (sort_events es)

-- The variables of the loop.
pub record Tally : Type 0 where
  pub exceptions : List ExceptionCode
  pub work_started_at : Option ℕ
  pub break_started_at : Option ℕ
  pub first_clock_in_at : Option ℕ
  pub last_clock_out_at : Option ℕ
  pub worked_milliseconds : ℕ
  pub break_milliseconds : ℕ

abbrev pub start_tally : Tally
start_tally = record {
  exceptions = [];
  work_started_at = none;
  break_started_at = none;
  first_clock_in_at = none;
  last_clock_out_at = none;
  worked_milliseconds = 0;
  break_milliseconds = 0;
}

abbrev pub flag : ExceptionCode → Tally → Tally
flag code t = record t { exceptions = add_code code t.exceptions }

unfoldable pub on_clock_in : Tally → ℕ → Tally
on_clock_in t now =
    if is_some t.work_started_at || is_some t.break_started_at
    then flag duplicate_clock_in t
    else record t {
      work_started_at = some now;
      first_clock_in_at = some (or_else t.first_clock_in_at now);
    }

abbrev pub stop_work : Tally → Option ℕ → Option ℕ → ℕ → Tally
stop_work t none rest now = flag unpaired_break_start t
stop_work t (some started) (some b) now = flag unpaired_break_start t
stop_work t (some started) none now = record t {
  worked_milliseconds = t.worked_milliseconds + (now - started);
  work_started_at = none;
  break_started_at = some now;
}

unfoldable pub on_break_start : Tally → ℕ → Tally
on_break_start t now = stop_work t t.work_started_at t.break_started_at now

abbrev pub stop_break : Tally → Option ℕ → Option ℕ → ℕ → Tally
stop_break t none work now = flag unpaired_break_end t
stop_break t (some started) (some w) now = flag unpaired_break_end t
stop_break t (some started) none now = record t {
  break_milliseconds = t.break_milliseconds + (now - started);
  break_started_at = none;
  work_started_at = some now;
}

unfoldable pub on_break_end : Tally → ℕ → Tally
on_break_end t now = stop_break t t.break_started_at t.work_started_at now

abbrev pub stop_day : Tally → Option ℕ → Option ℕ → ℕ → Tally
stop_day t (some started) work now = flag break_not_ended (record t {
  break_milliseconds = t.break_milliseconds + (now - started);
  break_started_at = none;
})
stop_day t none (some started) now = record t {
  worked_milliseconds = t.worked_milliseconds + (now - started);
  work_started_at = none;
}
stop_day t none none now = flag unpaired_clock_out t

unfoldable pub on_clock_out : Tally → ℕ → Tally
on_clock_out t now =
    let t' = stop_day t t.break_started_at t.work_started_at now in
    record t' { last_clock_out_at = some now }

unfoldable pub dispatch_event : Tally → AttendanceEventType → ℕ → Tally
dispatch_event t clock_in now = on_clock_in t now
dispatch_event t break_start now = on_break_start t now
dispatch_event t break_end now = on_break_end t now
dispatch_event t clock_out now = on_clock_out t now

-- One round of the loop: the `switch`.
unfoldable pub step_event : Tally → TimesheetEvent → Tally
unfolding dispatch_event on_clock_in on_break_start on_break_end on_clock_out
step_event t e = dispatch_event t e.kind e.occurred_at

unfoldable pub tally_from : Tally → List TimesheetEvent → Tally
tally_from t [] = t
tally_from t (e ∷ es) = tally_from (step_event t e) es

unfoldable pub is_open : Tally → Bool
is_open t = is_some t.work_started_at || is_some t.break_started_at

abbrev pub exceeds : ℕ → Option ℕ → Bool
exceeds worked none = false
exceeds worked (some most) = not (most == 0) && ltb most worked

abbrev pub flag_if : Bool → ExceptionCode → List ExceptionCode → List ExceptionCode
flag_if test code codes = if test then add_code code codes else codes

-- What follows the loop.
unfoldable pub finish : TimesheetPolicy → Tally → TimesheetCalculation
unfolding is_open
finish options t =
    let regular_day = or_else options.regular_day_minutes (8 * 60) in
    let increment = or_else options.rounding_increment 1 in
    let worked = rounded_minutes t.worked_milliseconds increment in
    let flagged = flag_if (is_open t) missing_clock_out t.exceptions in
    let codes = flag_if (exceeds worked options.maximum_shift_minutes) excessive_hours flagged in
    record {
      state = if is_open t then open_day else if not (is_empty codes) then exception else complete;
      first_clock_in_at = t.first_clock_in_at;
      last_clock_out_at = t.last_clock_out_at;
      regular_minutes = min worked regular_day;
      overtime_minutes = worked - regular_day;
      break_minutes = rounded_minutes t.break_milliseconds increment;
      exception_codes = sorted_codes codes;
    }

-- `calculateTimesheet`
unfoldable pub calculate_timesheet : List TimesheetEvent → TimesheetPolicy → TimesheetCalculation
calculate_timesheet events options = finish options (tally_from start_tally (sort_events events))
