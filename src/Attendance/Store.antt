-- ===== src/Attendance/Store.antt =====
-- The rows that an attendance action reads and writes, of one employee, and the queries on them.
-- A position is a parameter: it is stored and compared with nothing here.
use employee_attendance.Prelude.{
  ℕ, String, Bool, ◌&&◌, ◌||◌, Option, none, some, List, [], ◌∷◌, ◌==◌, ltb, leb, if◌then◌else◌,
  find, filter, same_text,
}
use employee_attendance.Calendar.{Day, day_eq, day_le, ends_after}
use employee_attendance.Timesheet.{AttendanceEventType, TimesheetEvent, TimesheetState}
use employee_attendance.Timesheet.Codes.{ExceptionCode}
use employee_attendance.Schedule.{Shift}

pub record AttendanceEvent (G : Type 0) : Type 0 where
  pub id : String
  pub work_date : Day
  pub kind : AttendanceEventType
  pub occurred_at : ℕ
  pub created_at : ℕ
  pub worksite_id : String
  pub position : G
  pub idempotency_key : String

pub data AttendanceStatus : Type 0 where
  clocked_in clocked_out : AttendanceStatus

pub record AttendanceRecord (G : Type 0) : Type 0 where
  pub id : String
  pub work_date : Day
  pub clock_in_at : ℕ
  pub clock_out_at : Option ℕ
  pub clock_in_position : G
  pub clock_out_position : Option G
  pub status : AttendanceStatus

pub record TimesheetRow : Type 0 where
  pub id : String
  pub work_date : Day
  pub state : TimesheetState
  pub first_clock_in_at : Option ℕ
  pub last_clock_out_at : Option ℕ
  pub regular_minutes : ℕ
  pub overtime_minutes : ℕ
  pub break_minutes : ℕ
  pub late_minutes : ℕ
  pub early_departure_minutes : ℕ
  pub exception_codes : List ExceptionCode
  pub version : ℕ

pub record AuditLog : Type 0 where
  pub actor_user_id : String
  pub action : AttendanceEventType
  pub entity_id : String
  pub work_date : Day
  pub worksite_id : String
  pub idempotency_key : String

-- A delivery that is pending, of an event.
pub record WebhookDelivery : Type 0 where
  pub id : String
  pub attendance_event_id : String
  pub event_type : AttendanceEventType

pub record ScheduleAssignment : Type 0 where
  pub effective_from : Day
  pub effective_to : Option Day
  pub shift_template : Shift

-- The rows of the employee; a work date has one timesheet and one attendance record at most.
pub record Store (G : Type 0) : Type 0 where
  pub events : List (AttendanceEvent G)
  pub timesheets : List TimesheetRow
  pub attendance : List (AttendanceRecord G)
  pub audit : List AuditLog
  pub deliveries : List WebhookDelivery
  pub assignments : List ScheduleAssignment

module _ {G : Type 0} where
  -- `findUnique` by the idempotency key.
  unfoldable pub find_duplicate : List (AttendanceEvent G) → String → Option (AttendanceEvent G)
  find_duplicate events key = find (λ e. same_text e.idempotency_key key) events

  -- Whether `e` comes before `f` in `[{ occurredAt: "asc" }, { createdAt: "asc" }]`, or with it.
  unfoldable pub event_le : AttendanceEvent G → AttendanceEvent G → Bool
  event_le e f =
      ltb e.occurred_at f.occurred_at
      || (e.occurred_at == f.occurred_at && leb e.created_at f.created_at)

  abbrev later : AttendanceEvent G → Option (AttendanceEvent G) → Option (AttendanceEvent G)
  later e none = some e
  later e (some f) = if event_le e f then some f else some e

  -- `findFirst` in the descending order.
  unfoldable pub latest_event : List (AttendanceEvent G) → Option (AttendanceEvent G)
  latest_event [] = none
  latest_event (e ∷ es) = later e (latest_event es)

  unfoldable pub insert_row :
      AttendanceEvent G → List (AttendanceEvent G) → List (AttendanceEvent G)
  insert_row e [] = e ∷ []
  insert_row e (f ∷ fs) =
      let rest = insert_row e fs in if event_le e f then e ∷ f ∷ fs else f ∷ rest

  -- `orderBy: [{ occurredAt: "asc" }, { createdAt: "asc" }]`
  unfoldable pub order_rows : List (AttendanceEvent G) → List (AttendanceEvent G)
  order_rows [] = []
  order_rows (e ∷ es) = insert_row e (order_rows es)

  unfoldable pub events_on : List (AttendanceEvent G) → Day → List (AttendanceEvent G)
  events_on events date = order_rows (filter (λ e. day_eq e.work_date date) events)

  abbrev pub timesheet_event : AttendanceEvent G → TimesheetEvent
  timesheet_event e = record { kind = e.kind; occurred_at = e.occurred_at }

  unfoldable pub find_attendance : List (AttendanceRecord G) → Day → Option (AttendanceRecord G)
  find_attendance rows date = find (λ a. day_eq a.work_date date) rows

unfoldable pub find_timesheet : List TimesheetRow → Day → Option TimesheetRow
find_timesheet rows date = find (λ t. day_eq t.work_date date) rows

-- `upsert` by the work date: the row that is there is changed, and otherwise one is added.
unfoldable pub upsert_timesheet :
    List TimesheetRow → Day → (TimesheetRow → TimesheetRow) → TimesheetRow → List TimesheetRow
upsert_timesheet [] date change new = new ∷ []
upsert_timesheet (t ∷ ts) date change new =
    let rest = upsert_timesheet ts date change new in
    if day_eq t.work_date date then change t ∷ ts else t ∷ rest

abbrev covers_date : Day → ScheduleAssignment → Bool
covers_date date a = day_le a.effective_from date && ends_after a.effective_to date

abbrev newer : ScheduleAssignment → Option ScheduleAssignment → Option ScheduleAssignment
newer a none = some a
newer a (some b) = if day_le b.effective_from a.effective_from then some a else some b

unfoldable pub newest : List ScheduleAssignment → Option ScheduleAssignment
newest [] = none
newest (a ∷ rest) = newer a (newest rest)

abbrev shift_of : Option ScheduleAssignment → Option Shift
shift_of none = none
shift_of (some a) = some a.shift_template

-- The shift of the assignment that is in effect, the newest one.
unfoldable pub effective_shift : List ScheduleAssignment → Day → Option Shift
effective_shift assignments date = shift_of (newest (filter (covers_date date) assignments))
