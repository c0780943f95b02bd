-- ===== src/Attendance/Accepted.antt =====
-- The events that the transition rules accept and the timesheet that is calculated of them.
use employee_attendance.Prelude.{
  ℕ, ◌≡◌, Bool, true, false, Option, none, some, List, [], ◌∷◌, ◌||◌, arith, is_some,
}
use employee_attendance.Timesheet.{
  AttendanceEventType, clock_in, break_start, break_end, TimesheetEvent, Tally, start_tally,
  dispatch_event, on_clock_in, on_clock_out, on_break_start, on_break_end, step_event, tally_from,
  is_open, finish, calculate_timesheet, open_day, complete, TimesheetPolicy,
}
use employee_attendance.Timesheet.Codes.{missing_clock_out, exception_code}
use employee_attendance.CodeSet.{add_code, sorted_codes, insert_code}
use employee_attendance.Timesheet.Order.{IsOrderedFrom, sort_events_of_IsOrderedFrom}
use employee_attendance.Attendance.{transition_allowed}

-- Each event is allowed after the one before it.
abbrev pub IsAccepted : Option AttendanceEventType → List TimesheetEvent → Type 0
IsAccepted last [] = Unit
IsAccepted last (e ∷ es) = (transition_allowed last e.kind ≡ true) × IsAccepted (some e.kind) es

-- The type of the last event.
abbrev pub last_kind : Option AttendanceEventType → List TimesheetEvent → Option AttendanceEventType
last_kind last [] = last
last_kind last (e ∷ es) = last_kind (some e.kind) es

-- Whether work, and whether a break, runs after an event of the type.
abbrev works : Option AttendanceEventType → Bool
works (some clock_in) = true
works (some break_end) = true
works _ = false

abbrev rests : Option AttendanceEventType → Bool
rests (some break_start) = true
rests _ = false

abbrev pub runs : Option AttendanceEventType → Bool
runs last = works last || rests last

-- After accepted events.
record IsClean (last : Option AttendanceEventType) (t : Tally) : Type 0 where
  working : is_some t.work_started_at ≡ works last
  resting : is_some t.break_started_at ≡ rests last
  no_exceptions : t.exceptions ≡ []

dispatch-IsClean :
    (last : Option AttendanceEventType) (t : Tally) (kind : AttendanceEventType) (now : ℕ)
    → transition_allowed last kind ≡ true
    → IsClean last t
    → IsClean (some kind) (dispatch_event t kind now)
unfolding transition_allowed dispatch_event on_clock_in on_clock_out on_break_start on_break_end
dispatch-IsClean last t clock_in now a c = ground arith
dispatch-IsClean last t _ now a c = ground arith

tally_from-IsClean :
    (last : Option AttendanceEventType) (t : Tally) (es : List TimesheetEvent)
    → IsAccepted last es
    → IsClean last t
    → IsClean (last_kind last es) (tally_from t es)
unfolding tally_from step_event
tally_from-IsClean last t [] a c = c
tally_from-IsClean last t (e ∷ es) (a, as') c =
    tally_from-IsClean (some e.kind) (step_event t e) es as'
      (dispatch-IsClean last t e.kind e.occurred_at a c)

finish_clean :
    (last : Option AttendanceEventType) (t : Tally) (options : TimesheetPolicy)
    → IsClean last t
    → options.maximum_shift_minutes ≡ none
    → let c = finish options t in
      (runs last ≡ true → (c.state ≡ open_day) × (c.exception_codes ≡ missing_clock_out ∷ []))
      × (runs last ≡ false → (c.state ≡ complete) × (c.exception_codes ≡ []))
unfolding finish is_open add_code sorted_codes insert_code
finish_clean last t options c m = ground arith

-- Events in order that the transition rules accept one after the other, of a policy with no maximum
-- shift, make a day that is open, with the missing clock-out as its one code, while work or a break
-- runs after the last event, and a complete day with no code otherwise.
pub accepted_timesheet :
    (from : ℕ) (es : List TimesheetEvent) (options : TimesheetPolicy)
    → IsOrderedFrom from es
    → IsAccepted none es
    → options.maximum_shift_minutes ≡ none
    → let c = calculate_timesheet es options in
      (runs (last_kind none es) ≡ true
        → (c.state ≡ open_day) × (c.exception_codes ≡ missing_clock_out ∷ []))
      × (runs (last_kind none es) ≡ false → (c.state ≡ complete) × (c.exception_codes ≡ []))
unfolding calculate_timesheet
accepted_timesheet from es options o a m =
    let clean = tally_from-IsClean none start_tally es a (ground arith) in
    rw (sort_events_of_IsOrderedFrom from es o)
      (finish_clean (last_kind none es) (tally_from start_tally es) options clean m)
