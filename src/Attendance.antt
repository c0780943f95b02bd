-- ===== src/Attendance.antt =====
-- apps/api/src/controllers/attendance-v2.controller.ts: clocking in and out and taking breaks. The
-- children have the transaction of an action on the database and what it keeps.
pub mod Accepted
pub mod Store
pub mod Action
pub mod History
pub mod Rejection
pub mod Preflight
pub mod Admission
use employee_attendance.Prelude.{Bool, true, false, Option, none, some}
use employee_attendance.Timesheet.{AttendanceEventType, clock_in, clock_out, break_start, break_end}

-- `transitionAllowed`: the last event's type, none if there is no event, and the requested type.
unfoldable pub transition_allowed : Option AttendanceEventType → AttendanceEventType → Bool
transition_allowed none clock_in = true
transition_allowed (some clock_out) clock_in = true
transition_allowed (some clock_in) clock_out = true
transition_allowed (some break_end) clock_out = true
transition_allowed (some clock_in) break_start = true
transition_allowed (some break_end) break_start = true
transition_allowed (some break_start) break_end = true
transition_allowed _ _ = false
