-- ===== src/Timesheet/Minutes.antt =====
-- The minutes that `calculateTimesheet` reports.
use native.Mathlib.Nat.{mul-mod_left}
use employee_attendance.Prelude.{
  ℕ, ◌+◌, ◌-◌, ◌*◌, ◌%◌, ◌≤◌, ◌<◌, ◌≡◌, ◌↔◌, Bool, true, false, List, arith, All, or_else,
}
use employee_attendance.Timesheet.{
  TimesheetEvent, TimesheetPolicy, open_day, complete, Tally, start_tally, rounded_minutes,
  tally_from, sort_events, is_open, exceeds, flag_if, finish, calculate_timesheet,
}
use employee_attendance.Timesheet.Codes.{
  ExceptionCode, missing_clock_out, excessive_hours, exception_code,
}
use employee_attendance.CodeSet.{
  IsCodeSet, IsSorted, add_code, is_empty, has_code, add_code-IsCodeSet, sorted_codes-IsSorted,
  has_code-sorted_codes, has_code-add_code, has_code-add_code_old, is_empty-sorted_codes,
}
use employee_attendance.Timesheet.Invariant.{IsConsistent, tally_fits, tally_from-IsCodeSet}

-- For an increment of a minute or more, the rounded minutes are a whole number of increments, half an
-- increment off the time at most.
pub rounded_minutes_bounds :
    (ms inc : ℕ)
    → 1 ≤ inc
    → (rounded_minutes ms inc * 60_000 ≤ ms + 30_000 * inc)
      × (ms < rounded_minutes ms inc * 60_000 + 30_000 * inc + 1)
      × (rounded_minutes ms inc % inc ≡ 0)
unfolding rounded_minutes
rounded_minutes_bounds ms inc h = (grind arith, grind arith, mul-mod_left _ inc)

abbrev tally_of : List TimesheetEvent → Tally
tally_of es = tally_from start_tally (sort_events es)

IsConsistent-le :
    (from last : ℕ) (t : Tally)
    → IsConsistent from last t
    → t.worked_milliseconds + t.break_milliseconds ≤ last - from
IsConsistent-le from last t c = ground arith

-- For events between two instants, in whatever order they are given, and an increment of a minute or
-- more, the reported minutes of work and breaks are at most the time between the instants and one
-- increment.
pub minutes_fit :
    (from last : ℕ) (es : List TimesheetEvent) (options : TimesheetPolicy)
    → from ≤ last
    → All (λ e. (from ≤ e.occurred_at) × (e.occurred_at ≤ last)) es
    → 1 ≤ or_else options.rounding_increment 1
    → let c = calculate_timesheet es options in
      (c.regular_minutes + c.overtime_minutes + c.break_minutes) * 60_000
      ≤ last - from + 60_000 * or_else options.rounding_increment 1
unfolding calculate_timesheet finish
minutes_fit from last es options l h p =
    let t = tally_of es in
    let inc = or_else options.rounding_increment 1 in
    let (work, _, _) = rounded_minutes_bounds t.worked_milliseconds inc p in
    let (rest, _, _) = rounded_minutes_bounds t.break_milliseconds inc p in
    let total : t.worked_milliseconds + t.break_milliseconds ≤ last - from =
      IsConsistent-le from last t (tally_fits from last es l h) in
    omega arith

-- The regular minutes are at most the regular day and overtime is counted only past a full one;
-- together they are the rounded time worked.
pub regular_overtime :
    (es : List TimesheetEvent) (options : TimesheetPolicy)
    → let c = calculate_timesheet es options in
      let day = or_else options.regular_day_minutes 480 in
      (c.regular_minutes ≤ day)
      × (0 < c.overtime_minutes → c.regular_minutes ≡ day)
      × (c.regular_minutes + c.overtime_minutes
          ≡ rounded_minutes
              (tally_of es).worked_milliseconds
              (or_else options.rounding_increment 1))
unfolding calculate_timesheet finish
regular_overtime es options = ground arith

-- The set that is sorted at the end.
abbrev final_codes : TimesheetPolicy → Tally → List ExceptionCode
final_codes options t =
    let worked = rounded_minutes t.worked_milliseconds (or_else options.rounding_increment 1) in
    flag_if (exceeds worked options.maximum_shift_minutes) excessive_hours
      (flag_if (is_open t) missing_clock_out t.exceptions)

flag_if-IsCodeSet :
    (test : Bool) (c : ExceptionCode) (cs : List ExceptionCode)
    → IsCodeSet cs
    → IsCodeSet (flag_if test c cs)
flag_if-IsCodeSet test c cs s = ground (arith, add_code-IsCodeSet c cs s)

final_codes_open :
    (options : TimesheetPolicy) (t : Tally)
    → is_open t ≡ true
    → has_code missing_clock_out (final_codes options t) ≡ true
final_codes_open options t h = ground (
  arith,
  has_code-add_code missing_clock_out t.exceptions,
  has_code-add_code_old missing_clock_out excessive_hours (add_code missing_clock_out t.exceptions),
)

finish_state :
    (options : TimesheetPolicy) (t : Tally)
    → let c = finish options t in
      ((c.state ≡ open_day) ↔ (is_open t ≡ true))
      × (c.state ≡ open_day → has_code missing_clock_out c.exception_codes ≡ true)
      × ((c.state ≡ complete) ↔ ((is_open t ≡ false) × (is_empty c.exception_codes ≡ true)))
unfolding finish is_open
finish_state options t = ground (
  arith,
  final_codes_open options t,
  is_empty-sorted_codes (final_codes options t),
  has_code-sorted_codes missing_clock_out (final_codes options t),
)

-- The codes stand in strict alphabetical order. The day is open exactly if work or a break still
-- runs, and then a missing clock-out is among the codes; otherwise it is complete exactly if there
-- is no code.
pub state_codes :
    (es : List TimesheetEvent) (options : TimesheetPolicy)
    → let c = calculate_timesheet es options in
      IsSorted c.exception_codes
      × (((c.state ≡ open_day) ↔ (is_open (tally_of es) ≡ true))
          × (c.state ≡ open_day → has_code missing_clock_out c.exception_codes ≡ true)
          × ((c.state ≡ complete)
              ↔ ((is_open (tally_of es) ≡ false) × (is_empty c.exception_codes ≡ true))))
unfolding calculate_timesheet finish
state_codes es options =
    let t = tally_of es in
    let codes = tally_from-IsCodeSet start_tally (sort_events es) tt in
    let opened = flag_if-IsCodeSet (is_open t) missing_clock_out t.exceptions codes in
    (
      sorted_codes-IsSorted (final_codes options t) (flag_if-IsCodeSet _ excessive_hours _ opened),
      finish_state options t,
    )
