-- ===== src/Attendance/Action.antt =====
-- attendance-v2.controller.ts: the transaction of an attendance action (`performAction`), which runs
-- under a lock of the employee.
use employee_attendance.Prelude.{
  ℕ, ◌+◌, String, Bool, true, false, not, Option, none, some, List, [], ◌∷◌, ◌++◌, map, is_some,
  if◌then◌else◌,
}
use employee_attendance.Prelude.Result.{Result, ok, ◌>>◌, throw_if}
use employee_attendance.Calendar.{Day, day_eq}
use employee_attendance.Timesheet.{
  AttendanceEventType, clock_in, clock_out, TimesheetEvent, TimesheetPolicy, TimesheetState, locked,
  calculate_timesheet,
}
use employee_attendance.Schedule.{
  LocalParts, Shift, calculate_schedule_metrics, apply_schedule_exceptions,
}
use employee_attendance.Attendance.{transition_allowed}
use employee_attendance.Attendance.Store.{
  AttendanceEvent, AttendanceRecord, clocked_in, clocked_out, TimesheetRow, AuditLog,
  WebhookDelivery, Store, find_duplicate, latest_event, events_on, timesheet_event, find_attendance,
  find_timesheet, upsert_timesheet, effective_shift,
}

pub record WorkPolicy : Type 0 where
  pub overtime_threshold : ℕ
  pub rounding_increment : ℕ
  pub maximum_shift_minutes : ℕ

-- What a request brings: its type, position and key, the accepted worksite, the actor, the instant
-- and the date of it in the time zone of the attendance, and the ids that the database will give.
pub record Action (G : Type 0) : Type 0 where
  pub requested : AttendanceEventType
  pub position : G
  pub worksite_id : String
  pub idempotency_key : String
  pub actor_user_id : String
  pub now : ℕ
  pub today : Day
  pub event_id : String
  pub attendance_id : String
  pub timesheet_id : String
  pub delivery_id : String

-- `AttendanceActionError`
pub data ActionError : Type 0 where
  invalid_attendance_transition : AttendanceEventType → ActionError
  timesheet_locked : ActionError

pub record ActionResult (G : Type 0) : Type 0 where
  pub event : AttendanceEvent G
  pub timesheet : Option TimesheetRow
  pub attendance : Option (AttendanceRecord G)
  pub replayed : Bool
  pub webhook_delivery_id : Option String

-- The policy's options, or the defaults.
unfoldable pub policy_options : Option WorkPolicy → TimesheetPolicy
policy_options none = record {
  regular_day_minutes = some 480;
  rounding_increment = some 1;
  maximum_shift_minutes = none;
}
policy_options (some p) = record {
  regular_day_minutes = some p.overtime_threshold;
  rounding_increment = some p.rounding_increment;
  maximum_shift_minutes = some p.maximum_shift_minutes;
}

abbrev is_locked_state : TimesheetState → Bool
is_locked_state locked = true
is_locked_state _ = false

abbrev pub is_locked : Option TimesheetRow → Bool
is_locked none = false
is_locked (some t) = is_locked_state t.state

-- The three parts that are spread into the timesheet.
unfoldable pub calculated_row :
    LocalParts
    → Option WorkPolicy
    → Option Shift
    → List TimesheetEvent
    → Day
    → String
    → ℕ
    → TimesheetRow
calculated_row local_parts policy shift events date id version =
    let c = calculate_timesheet events (policy_options policy) in
    let m =
      calculate_schedule_metrics local_parts date c.first_clock_in_at c.last_clock_out_at shift in
    let f = apply_schedule_exceptions c.state c.exception_codes m in
    record {
      id = id;
      work_date = date;
      state = f.state;
      first_clock_in_at = c.first_clock_in_at;
      last_clock_out_at = c.last_clock_out_at;
      regular_minutes = c.regular_minutes;
      overtime_minutes = c.overtime_minutes;
      break_minutes = c.break_minutes;
      late_minutes = m.late_minutes;
      early_departure_minutes = m.early_departure_minutes;
      exception_codes = f.exception_codes;
      version = version;
    }

module _ {G : Type 0} where
  abbrev pub kind_of : Option (AttendanceEvent G) → Option AttendanceEventType
  kind_of none = none
  kind_of (some e) = some e.kind

  abbrev date_of : Option (AttendanceEvent G) → Day → Day
  date_of none today = today
  date_of (some e) today = e.work_date

  -- A clock-in is of today, any other action of the work date of the latest event.
  unfoldable pub work_date_of : AttendanceEventType → Day → Option (AttendanceEvent G) → Day
  work_date_of clock_in today latest = today
  work_date_of _ today latest = date_of latest today

  abbrev pub new_event : Action G → Day → AttendanceEvent G
  new_event a date = record {
    id = a.event_id;
    work_date = date;
    kind = a.requested;
    occurred_at = a.now;
    created_at = a.now;
    worksite_id = a.worksite_id;
    position = a.position;
    idempotency_key = a.idempotency_key;
  }

  -- The attendance record after the action: of a clock-in and of a clock-out.
  abbrev pub reopened : AttendanceRecord G → AttendanceRecord G
  reopened r = record r { clock_out_at = none; clock_out_position = none; status = clocked_in }

  abbrev pub closed : Action G → AttendanceRecord G → AttendanceRecord G
  closed a r = record r {
    clock_out_at = some a.now;
    clock_out_position = some a.position;
    status = clocked_out;
  }

  abbrev pub started : Action G → Day → AttendanceRecord G
  started a date = record {
    id = a.attendance_id;
    work_date = date;
    clock_in_at = a.now;
    clock_out_at = none;
    clock_in_position = a.position;
    clock_out_position = none;
    status = clocked_in;
  }

  unfoldable pub update_attendance :
      List (AttendanceRecord G)
      → Day
      → (AttendanceRecord G → AttendanceRecord G)
      → List (AttendanceRecord G)
  update_attendance [] date change = []
  update_attendance (r ∷ rs) date change =
      let rest = update_attendance rs date change in
      if day_eq r.work_date date then change r ∷ rs else r ∷ rest

  unfoldable pub write_attendance :
      AttendanceEventType → Action G → Day → List (AttendanceRecord G) → List (AttendanceRecord G)
  write_attendance clock_in a date rows =
      if is_some (find_attendance rows date)
      then update_attendance rows date reopened
      else rows ++ started a date ∷ []
  write_attendance clock_out a date rows = update_attendance rows date (closed a)
  write_attendance _ a date rows = rows

  abbrev pub audit_entry : Action G → Day → AuditLog
  audit_entry a date = record {
    actor_user_id = a.actor_user_id;
    action = a.requested;
    entity_id = a.event_id;
    work_date = date;
    worksite_id = a.worksite_id;
    idempotency_key = a.idempotency_key;
  }

  abbrev pub delivery_entry : Action G → WebhookDelivery
  delivery_entry a = record {
    id = a.delivery_id;
    attendance_event_id = a.event_id;
    event_type = a.requested;
  }

module _ {G : Type 0} (local_parts : LocalParts) (webhooks : Bool) where
  -- All that the transaction writes once its checks have passed.
  unfoldable pub write_action :
      Store G → Option WorkPolicy → Action G → Day → Store G × ActionResult G
  write_action s policy a date =
      let event = new_event a date in
      let events = s.events ++ event ∷ [] in
      let attendance = write_attendance a.requested a date s.attendance in
      let row =
        calculated_row local_parts policy (effective_shift s.assignments date)
          (map timesheet_event (events_on events date)) date in
      let timesheets =
        upsert_timesheet s.timesheets date (λ t. row t.id (t.version + 1)) (row a.timesheet_id 1) in
      let deliveries = if webhooks then s.deliveries ++ delivery_entry a ∷ [] else s.deliveries in
      (
        record s {
          events = events;
          attendance = attendance;
          timesheets = timesheets;
          audit = s.audit ++ audit_entry a date ∷ [];
          deliveries = deliveries;
        },
        record {
          event = event;
          timesheet = find_timesheet timesheets date;
          attendance = find_attendance attendance date;
          replayed = false;
          webhook_delivery_id = if webhooks then some a.delivery_id else none;
        },
      )

  -- A request that repeats a key.
  unfoldable pub replay : Store G → AttendanceEvent G → ActionResult G
  replay s e = record {
    event = e;
    timesheet = find_timesheet s.timesheets e.work_date;
    attendance = find_attendance s.attendance e.work_date;
    replayed = true;
    webhook_delivery_id = none;
  }

  unfoldable pub new_action :
      Store G → Option WorkPolicy → Action G → Result ActionError (Store G × ActionResult G)
  new_action s policy a = do
    let latest = latest_event s.events
    throw_if (not (transition_allowed (kind_of latest) a.requested))
        (invalid_attendance_transition a.requested)
    let date = work_date_of a.requested a.today latest
    throw_if (is_locked (find_timesheet s.timesheets date)) timesheet_locked
    ok (write_action s policy a date)

  abbrev pub act_on :
      Option (AttendanceEvent G)
      → Store G
      → Option WorkPolicy
      → Action G
      → Result ActionError (Store G × ActionResult G)
  act_on (some duplicate) s policy a = ok (s, replay s duplicate)
  act_on none s policy a = new_action s policy a

  -- The transaction.
  unfoldable pub perform_action :
      Store G → Option WorkPolicy → Action G → Result ActionError (Store G × ActionResult G)
  perform_action s policy a = act_on (find_duplicate s.events a.idempotency_key) s policy a
