-- ===== src/Attendance/Preflight.antt =====
-- attendance-v2.controller.ts on D1: the state that one query loads before an action
-- (`loadD1AttendancePreflight`), and the batch of writes that is built from it
-- (`applyAttendanceActionOnD1`).
pub mod Agreement
use employee_attendance.Prelude.{
  ℕ, ◌+◌, String, Bool, true, false, not, Option, none, some, List, [], ◌∷◌, ◌++◌, map, is_some,
  if◌then◌else◌,
}
use employee_attendance.Prelude.Result.{Result, ok, err, ◌>>=◌, ◌>>◌, throw_if}
use employee_attendance.Calendar.{Day}
use employee_attendance.Timesheet.{
  AttendanceEventType, clock_in, clock_out, break_start, break_end, TimesheetEvent,
}
use employee_attendance.Schedule.{LocalParts, Shift}
use employee_attendance.Attendance.{transition_allowed}
use employee_attendance.Attendance.Store.{
  AttendanceEvent, AttendanceRecord, TimesheetRow, Store, find_duplicate, latest_event, events_on,
  timesheet_event, find_attendance, find_timesheet, upsert_timesheet, effective_shift,
}
use employee_attendance.Attendance.Action.{
  WorkPolicy, Action, ActionResult, ActionError, timesheet_locked, invalid_attendance_transition,
  is_locked, kind_of, new_event, reopened, closed, started, update_attendance, calculated_row,
  audit_entry, delivery_entry,
}

-- `D1ActionState`
pub record ActionState (G : Type 0) : Type 0 where
  pub duplicate : Option (AttendanceEvent G)
  pub latest : Option (AttendanceEvent G)
  pub work_date : Option Day
  pub existing_timesheet : Option TimesheetRow
  pub attendance : Option (AttendanceRecord G)
  pub events : List TimesheetEvent
  pub shift_template : Option Shift

abbrev on_date {ℓ} : {A : Type ℓ} → Option Day → A → (Day → A) → A
on_date none absent find_on = absent
on_date (some date) absent find_on = find_on date

module _ {G : Type 0} where
  abbrev date_of_latest : Option (AttendanceEvent G) → Option Day
  date_of_latest none = none
  date_of_latest (some e) = some e.work_date

  -- The row `target` of the query.
  unfoldable pub target_date :
      Option (AttendanceEvent G)
      → AttendanceEventType
      → Day
      → Option (AttendanceEvent G)
      → Option Day
  target_date (some d) requested today latest = some d.work_date
  target_date none clock_in today latest = some today
  target_date none _ today latest = date_of_latest latest

  -- The columns of the query; some depend on the target date.
  abbrev pub state_at :
      Store G → Option (AttendanceEvent G) → Option (AttendanceEvent G) → Option Day → ActionState G
  state_at s duplicate latest date = record {
    duplicate = duplicate;
    latest = latest;
    work_date = date;
    existing_timesheet = on_date date none (find_timesheet s.timesheets);
    attendance = on_date date none (find_attendance s.attendance);
    events = on_date date [] (λ d. map timesheet_event (events_on s.events d));
    shift_template = on_date date none (effective_shift s.assignments);
  }

  unfoldable pub load_action_state : Store G → Action G → ActionState G
  load_action_state s a =
      let duplicate = find_duplicate s.events a.idempotency_key in
      let latest = latest_event s.events in
      state_at s duplicate latest (target_date duplicate a.requested a.today latest)

  -- The operations on the attendance records.
  unfoldable pub batch_attendance :
      AttendanceEventType
      → Option (AttendanceRecord G)
      → Action G
      → Day
      → List (AttendanceRecord G)
      → List (AttendanceRecord G)
  batch_attendance clock_in (some r) a date rows = update_attendance rows date reopened
  batch_attendance clock_in none a date rows = rows ++ started a date ∷ []
  batch_attendance clock_out (some r) a date rows = update_attendance rows date (closed a)
  batch_attendance _ _ a date rows = rows

  -- `storedAttendance`
  unfoldable pub stored_attendance :
      AttendanceEventType
      → Option (AttendanceRecord G)
      → Action G
      → Day
      → Option (AttendanceRecord G)
  stored_attendance clock_in (some r) a date = some (reopened r)
  stored_attendance clock_in none a date = some (started a date)
  stored_attendance clock_out (some r) a date = some (closed a r)
  stored_attendance _ attendance a date = attendance

-- The `timesheet` of the answer.
abbrev pub stored_timesheet :
    (String → ℕ → TimesheetRow) → String → Option TimesheetRow → TimesheetRow
stored_timesheet row id none = row id 1
stored_timesheet row id (some t) = row t.id (t.version + 1)

module _ {G : Type 0} (local_parts : LocalParts) (webhooks : Bool) where
  unfoldable pub batch :
      Store G → ActionState G → Option WorkPolicy → Action G → Day → Store G × ActionResult G
  batch s st policy a date =
      let event = new_event a date in
      let row =
        calculated_row local_parts policy st.shift_template
          (st.events ++ record { kind = a.requested; occurred_at = a.now } ∷ []) date in
      let deliveries = if webhooks then s.deliveries ++ delivery_entry a ∷ [] else s.deliveries in
      (
        record s {
          events = s.events ++ event ∷ [];
          attendance = batch_attendance a.requested st.attendance a date s.attendance;
          timesheets =
              upsert_timesheet s.timesheets date (λ t. row t.id (t.version + 1))
                (row a.timesheet_id 1);
          audit = s.audit ++ audit_entry a date ∷ [];
          deliveries = deliveries;
        },
        record {
          event = event;
          timesheet = some (stored_timesheet row a.timesheet_id st.existing_timesheet);
          attendance = stored_attendance a.requested st.attendance a date;
          replayed = false;
          webhook_delivery_id = if webhooks then some a.delivery_id else none;
        },
      )

  abbrev pub batch_at :
      Option Day
      → Store G
      → ActionState G
      → Option WorkPolicy
      → Action G
      → Result ActionError (Store G × ActionResult G)
  batch_at none s st policy a = err (invalid_attendance_transition a.requested)
  batch_at (some date) s st policy a =
      throw_if (is_locked st.existing_timesheet) timesheet_locked >> ok (batch s st policy a date)

  abbrev pub apply_new :
      Option (AttendanceEvent G)
      → Store G
      → ActionState G
      → Option WorkPolicy
      → Action G
      → Result ActionError (Store G × ActionResult G)
  apply_new (some duplicate) s st policy a = ok (
    s,
    record {
      event = duplicate;
      timesheet = st.existing_timesheet;
      attendance = st.attendance;
      replayed = true;
      webhook_delivery_id = none;
    },
  )
  apply_new none s st policy a =
      throw_if (not (transition_allowed (kind_of st.latest) a.requested))
        (invalid_attendance_transition a.requested)
      >> batch_at st.work_date s st policy a

  -- `applyAttendanceActionOnD1`, of a loaded state.
  unfoldable pub apply_attendance_action_on_d1 :
      Store G
      → ActionState G
      → Option WorkPolicy
      → Action G
      → Result ActionError (Store G × ActionResult G)
  apply_attendance_action_on_d1 s st policy a = apply_new st.duplicate s st policy a
