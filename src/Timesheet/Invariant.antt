-- ===== src/Timesheet/Invariant.antt =====
-- The invariant of the loop of `calculateTimesheet` over events in order: work and break do not run
-- at once, and what is counted fits between the first clock-in and the last event.
use employee_attendance.Prelude.{
  ℕ, ◌+◌, ◌≤◌, Option, none, some, List, [], ◌∷◌, arith, All, All-imp,
}
use employee_attendance.Timesheet.{
  AttendanceEventType, clock_in, TimesheetEvent, Tally, start_tally, dispatch_event, on_clock_in,
  on_clock_out, on_break_start, on_break_end, step_event, tally_from, sort_events,
}
use employee_attendance.Timesheet.Codes.{
  exception_code, duplicate_clock_in, unpaired_break_start, unpaired_break_end, break_not_ended,
  unpaired_clock_out,
}
use employee_attendance.CodeSet.{IsCodeSet, add_code-IsCodeSet}
use employee_attendance.Timesheet.Order.{IsOrderedFrom, sort_events-IsOrderedFrom, sort_events-All}

-- At an instant, for a day whose events start no earlier than `from`. What runs has started by now,
-- and what was counted ended before it did.
abbrev pub IsCounted : ℕ → ℕ → Option ℕ → Option ℕ → ℕ → Type 0
IsCounted from now none none counted = from + counted ≤ now
IsCounted from now (some s) none counted = (from + counted ≤ s) × (s ≤ now)
IsCounted from now none (some b) counted = (from + counted ≤ b) × (b ≤ now)
IsCounted from now (some s) (some b) counted = ⊥

abbrev pub IsConsistent : ℕ → ℕ → Tally → Type 0
IsConsistent from now t =
    IsCounted from now t.work_started_at t.break_started_at
      (t.worked_milliseconds + t.break_milliseconds)

dispatch_event-IsConsistent :
    (from now later : ℕ) (t : Tally) (kind : AttendanceEventType)
    → now ≤ later
    → IsConsistent from now t
    → IsConsistent from later (dispatch_event t kind later)
unfolding dispatch_event on_clock_in on_clock_out on_break_start on_break_end
dispatch_event-IsConsistent from now later t clock_in h c = ground arith
dispatch_event-IsConsistent from now later t _ h c = ground arith

IsConsistent-later :
    (from now later : ℕ) (t : Tally)
    → now ≤ later
    → IsConsistent from now t
    → IsConsistent from later t
IsConsistent-later from now later t h c = ground arith

pub tally_from-IsConsistent :
    (from now last : ℕ) (t : Tally) (es : List TimesheetEvent)
    → IsOrderedFrom now es
    → All (λ e. e.occurred_at ≤ last) es
    → now ≤ last
    → IsConsistent from now t
    → IsConsistent from last (tally_from t es)
unfolding tally_from step_event
tally_from-IsConsistent from now last t [] o h l c = IsConsistent-later from now last t l c
tally_from-IsConsistent from now last t (e ∷ es) (p, o) (q, h) l c =
    tally_from-IsConsistent from e.occurred_at last (step_event t e) es o h q
      (dispatch_event-IsConsistent from now e.occurred_at t e.kind p c)

dispatch_event-IsCodeSet :
    (t : Tally) (kind : AttendanceEventType) (now : ℕ)
    → IsCodeSet t.exceptions
    → IsCodeSet (dispatch_event t kind now).exceptions
unfolding dispatch_event on_clock_in on_clock_out on_break_start on_break_end
dispatch_event-IsCodeSet t kind now s = ground (
  arith,
  add_code-IsCodeSet duplicate_clock_in t.exceptions s,
  add_code-IsCodeSet unpaired_break_start t.exceptions s,
  add_code-IsCodeSet unpaired_break_end t.exceptions s,
  add_code-IsCodeSet break_not_ended t.exceptions s,
  add_code-IsCodeSet unpaired_clock_out t.exceptions s,
)

pub tally_from-IsCodeSet :
    (t : Tally) (es : List TimesheetEvent)
    → IsCodeSet t.exceptions
    → IsCodeSet (tally_from t es).exceptions
unfolding tally_from step_event
tally_from-IsCodeSet t [] s = s
tally_from-IsCodeSet t (e ∷ es) s =
    tally_from-IsCodeSet (step_event t e) es (dispatch_event-IsCodeSet t e.kind e.occurred_at s)

-- For events between two instants, in whatever order they are given, work and break do not both run
-- after the loop, and the time worked and the time of the breaks together fit between the instants.
pub tally_fits :
    (from last : ℕ) (es : List TimesheetEvent)
    → from ≤ last
    → All (λ e. (from ≤ e.occurred_at) × (e.occurred_at ≤ last)) es
    → IsConsistent from last (tally_from start_tally (sort_events es))
tally_fits from last es l h =
    let ordered = sort_events-IsOrderedFrom from es (All-imp es (λ e p. p.0) h) in
    let bounded = sort_events-All (λ e. e.occurred_at ≤ last) es (All-imp es (λ e p. p.1) h) in
    tally_from-IsConsistent from from last start_tally (sort_events es) ordered bounded l
      (omega arith)
