-- ===== src/Attendance/Preflight/Agreement.antt =====
-- attendance-v2.controller.ts: an action on D1 gives what the interactive transaction gives.
use employee_attendance.Prelude.{
  ℕ, ◌+◌, ◌≡◌, refl, sym, ap, ◌∙◌, String, Bool, true, false, not, Option, none, some, List, [],
  ◌∷◌, ◌++◌, map, if◌then◌else◌, filter, arith, All, Option-cases, Bool-cases, inl, inr,
}
use employee_attendance.Prelude.Result.{ok, ◌>>◌, throw_if}
use employee_attendance.Calendar.{Day, day_eq}
use employee_attendance.Timesheet.{
  AttendanceEventType, clock_in, clock_out, break_start, break_end, TimesheetEvent,
}
use employee_attendance.Schedule.{LocalParts}
use employee_attendance.Attendance.{transition_allowed}
use employee_attendance.Attendance.Store.{
  AttendanceEvent, AttendanceRecord, TimesheetRow, Store, find_duplicate, event_le, latest_event,
  insert_row, order_rows, events_on, timesheet_event, find_attendance, find_timesheet,
  upsert_timesheet, effective_shift,
}
use employee_attendance.Attendance.Action.{
  WorkPolicy, Action, ActionResult, timesheet_locked, invalid_attendance_transition, is_locked,
  kind_of, work_date_of, new_event, reopened, closed, started, update_attendance, write_attendance,
  audit_entry, delivery_entry, calculated_row, write_action, replay, new_action, act_on,
  perform_action,
}
use employee_attendance.Attendance.History.{ArePast}
use employee_attendance.Attendance.Preflight.{
  ActionState, target_date, state_at, load_action_state, batch_attendance, stored_attendance,
  stored_timesheet, batch, apply_new, apply_attendance_action_on_d1,
}

day_eq_refl : (d : Day) → day_eq d d ≡ true
unfolding day_eq
day_eq_refl d = ground arith

module _ {G : Type 0} where
  insert_row-append :
      (f : AttendanceEvent G) (xs : List (AttendanceEvent G)) (e : AttendanceEvent G)
      → event_le f e ≡ true
      → insert_row f (xs ++ e ∷ []) ≡ insert_row f xs ++ e ∷ []
  unfolding insert_row
  insert_row-append f [] e h = ground arith
  insert_row-append f (x ∷ xs) e h = let ih = insert_row-append f xs e h in ground arith

  order_rows-append :
      (xs : List (AttendanceEvent G)) (e : AttendanceEvent G)
      → All (λ f. event_le f e ≡ true) xs
      → order_rows (xs ++ e ∷ []) ≡ order_rows xs ++ e ∷ []
  unfolding order_rows insert_row
  order_rows-append [] e h = refl
  order_rows-append (x ∷ xs) e (h, hs) =
      ap (insert_row x) (order_rows-append xs e hs) ∙ insert_row-append x (order_rows xs) e h

  filter-append_one :
      (p : AttendanceEvent G → Bool) (xs : List (AttendanceEvent G)) (e : AttendanceEvent G)
      → p e ≡ true
      → filter p (xs ++ e ∷ []) ≡ filter p xs ++ e ∷ []
  filter-append_one p [] e h = ground arith
  filter-append_one p (x ∷ xs) e h = let ih = filter-append_one p xs e h in ground arith

  filter-ArePast :
      (p : AttendanceEvent G → Bool) (xs : List (AttendanceEvent G)) (a : Action G) (date : Day)
      → ArePast a.now xs
      → All (λ f. event_le f (new_event a date) ≡ true) (filter p xs)
  unfolding event_le
  filter-ArePast p [] a date h = tt
  filter-ArePast p (x ∷ xs) a date (h, hs) = let ih = filter-ArePast p xs a date hs in ground arith

  events_on-append :
      (xs : List (AttendanceEvent G)) (a : Action G) (date : Day)
      → ArePast a.now xs
      → events_on (xs ++ new_event a date ∷ []) date ≡ events_on xs date ++ new_event a date ∷ []
  unfolding events_on
  events_on-append xs a date past =
      ap order_rows
        (filter-append_one (λ e. day_eq e.work_date date) xs (new_event a date) (day_eq_refl date))
      ∙ order_rows-append (filter (λ e. day_eq e.work_date date) xs) (new_event a date)
          (filter-ArePast (λ e. day_eq e.work_date date) xs a date past)

  map-append_one :
      (xs : List (AttendanceEvent G)) (e : AttendanceEvent G)
      → map timesheet_event (xs ++ e ∷ []) ≡ map timesheet_event xs ++ timesheet_event e ∷ []
  map-append_one [] e = refl
  map-append_one (x ∷ xs) e = ap (λ r. timesheet_event x ∷ r) (map-append_one xs e)

  find_attendance-update :
      (rows : List (AttendanceRecord G)) (date : Day)
      (change : AttendanceRecord G → AttendanceRecord G) (r : AttendanceRecord G)
      → ((x : AttendanceRecord G) → (change x).work_date ≡ x.work_date)
      → find_attendance rows date ≡ some r
      → find_attendance (update_attendance rows date change) date ≡ some (change r)
  unfolding find_attendance update_attendance day_eq
  find_attendance-update [] date change r c h = ground arith
  find_attendance-update (x ∷ rows) date change r c h =
      let ih = find_attendance-update rows date change r c in let dated = c x in ground arith

  find_attendance-absent :
      (rows : List (AttendanceRecord G)) (date : Day)
      (change : AttendanceRecord G → AttendanceRecord G)
      → find_attendance rows date ≡ none
      → update_attendance rows date change ≡ rows
  unfolding find_attendance update_attendance
  find_attendance-absent [] date change h = refl
  find_attendance-absent (x ∷ rows) date change h =
      let ih = find_attendance-absent rows date change in ground arith

  find_attendance-append :
      (rows : List (AttendanceRecord G)) (date : Day) (r : AttendanceRecord G)
      → r.work_date ≡ date
      → find_attendance rows date ≡ none
      → find_attendance (rows ++ r ∷ []) date ≡ some r
  unfolding find_attendance day_eq
  find_attendance-append [] date r d h = ground arith
  find_attendance-append (x ∷ rows) date r d h =
      let ih = find_attendance-append rows date r d in ground arith

find_timesheet-upserted :
    (rows : List TimesheetRow) (date : Day) (row : String → ℕ → TimesheetRow) (id : String)
    → ((i : String) (v : ℕ) → (row i v).work_date ≡ date)
    → find_timesheet (upsert_timesheet rows date (λ t. row t.id (t.version + 1)) (row id 1)) date
      ≡ some (stored_timesheet row id (find_timesheet rows date))
unfolding find_timesheet upsert_timesheet day_eq
find_timesheet-upserted [] date row id d = let dated = d id 1 in ground arith
find_timesheet-upserted (t ∷ rows) date row id d =
    let ih = find_timesheet-upserted rows date row id d in
    let dated = d t.id (t.version + 1) in ground arith

module _ {G : Type 0} where
  written_attendance :
      (requested : AttendanceEventType) (a : Action G) (date : Day)
      (rows : List (AttendanceRecord G))
      → (batch_attendance requested (find_attendance rows date) a date rows
          ≡ write_attendance requested a date rows)
        × (stored_attendance requested (find_attendance rows date) a date
            ≡ find_attendance (write_attendance requested a date rows) date)
  unfolding batch_attendance stored_attendance write_attendance
  written_attendance clock_in a date rows = elim (Option-cases (find_attendance rows date)) [
    | inl absent ↦
        let added = find_attendance-append rows date (started a date) refl absent in ground arith
    | inr (r, found) ↦
        let changed = find_attendance-update rows date reopened r (λ x. refl) found in ground arith
  ]
  written_attendance clock_out a date rows = elim (Option-cases (find_attendance rows date)) [
    | inl absent ↦ let kept = find_attendance-absent rows date (closed a) absent in ground arith
    | inr (r, found) ↦
        let changed = find_attendance-update rows date (closed a) r (λ x. refl) found in
        ground arith
  ]
  written_attendance break_start a date rows = (refl, refl)
  written_attendance break_end a date rows = (refl, refl)

  target_date_lem :
      (requested : AttendanceEventType) (today : Day) (latest : Option (AttendanceEvent G))
      → transition_allowed (kind_of latest) requested ≡ true
      → target_date none requested today latest ≡ some (work_date_of requested today latest)
  unfolding target_date work_date_of transition_allowed
  target_date_lem clock_in today latest h = refl
  target_date_lem clock_out today none h = ground arith
  target_date_lem clock_out today (some e) h = refl
  target_date_lem break_start today none h = ground arith
  target_date_lem break_start today (some e) h = refl
  target_date_lem break_end today none h = ground arith
  target_date_lem break_end today (some e) h = refl

module _ {G : Type 0} (local_parts : LocalParts) (webhooks : Bool) where
  -- Both ways of writing, of the parts in which they differ.
  abbrev written :
      Store G
      → Option WorkPolicy
      → Action G
      → Day
      → List TimesheetEvent
      → List (AttendanceRecord G)
      → Option (AttendanceRecord G)
      → ((String → ℕ → TimesheetRow) → Option TimesheetRow)
      → Store G × ActionResult G
  written s policy a date events rows attendance timesheet =
      let row =
        calculated_row local_parts policy (effective_shift s.assignments date) events date in
      let deliveries = if webhooks then s.deliveries ++ delivery_entry a ∷ [] else s.deliveries in
      (
        record s {
          events = s.events ++ new_event a date ∷ [];
          attendance = rows;
          timesheets =
              upsert_timesheet s.timesheets date (λ t. row t.id (t.version + 1))
                (row a.timesheet_id 1);
          audit = s.audit ++ audit_entry a date ∷ [];
          deliveries = deliveries;
        },
        record {
          event = new_event a date;
          timesheet = timesheet row;
          attendance = attendance;
          replayed = false;
          webhook_delivery_id = if webhooks then some a.delivery_id else none;
        },
      )

  batch-write_action :
      (s : Store G) (policy : Option WorkPolicy) (a : Action G) (date : Day)
      (duplicate latest : Option (AttendanceEvent G))
      → ArePast a.now s.events
      → batch local_parts webhooks s (state_at s duplicate latest (some date)) policy a date
        ≡ write_action local_parts webhooks s policy a date
  unfolding batch write_action calculated_row
  batch-write_action s policy a date duplicate latest past =
      let before = map timesheet_event (events_on s.events date) in
      let event = new_event a date in
      let later = before ++ timesheet_event event ∷ [] in
      let old = find_timesheet s.timesheets date in
      let (rows, stored) = written_attendance a.requested a date s.attendance in
      let loaded : later ≡ map timesheet_event (events_on (s.events ++ event ∷ []) date) = sym (
        ap (map timesheet_event) (events_on-append s.events a date past)
        ∙ map-append_one (events_on s.events date) event) in
      let row = calculated_row local_parts policy (effective_shift s.assignments date) later date in
      ap
        (λ x.
          written s policy a date later x
            (stored_attendance a.requested (find_attendance s.attendance date) a date)
            (λ r. some (stored_timesheet r a.timesheet_id old)))
        rows
      ∙ (ap
            (λ x.
              written s policy a date later (write_attendance a.requested a date s.attendance) x
                (λ r. some (stored_timesheet r a.timesheet_id old)))
            stored
          ∙ (ap
                (λ x.
                  written s policy a date later (write_attendance a.requested a date s.attendance)
                    (find_attendance (write_attendance a.requested a date s.attendance) date)
                    (λ _. x))
                (sym (find_timesheet-upserted s.timesheets date row a.timesheet_id (λ i v. refl)))
              ∙ ap
                  (λ x.
                    written s policy a date x (write_attendance a.requested a date s.attendance)
                      (find_attendance (write_attendance a.requested a date s.attendance) date)
                      (λ r.
                        find_timesheet
                          (upsert_timesheet s.timesheets date (λ t. r t.id (t.version + 1))
                            (r a.timesheet_id 1))
                          date))
                  loaded))

  -- The action without a duplicate, on both sides.
  new_agrees :
      (s : Store G) (policy : Option WorkPolicy) (a : Action G)
      → ArePast a.now s.events
      → let latest = latest_event s.events in
        let target = target_date none a.requested a.today latest in
        apply_new local_parts webhooks none s (state_at s none latest target) policy a
        ≡ new_action local_parts webhooks s policy a
  unfolding new_action
  new_agrees s policy a past =
      let latest = latest_event s.events in
      let refusal = invalid_attendance_transition a.requested in
      let date = work_date_of a.requested a.today latest in
      let closed = throw_if (is_locked (find_timesheet s.timesheets date)) timesheet_locked in
      elim (Bool-cases (transition_allowed (kind_of latest) a.requested)) [
        | inl allowed ↦
            ap (λ t. apply_new local_parts webhooks none s (state_at s none latest t) policy a)
              (target_date_lem a.requested a.today latest allowed)
            ∙ ap
                (λ w.
                  throw_if (not (transition_allowed (kind_of latest) a.requested)) refusal
                  >> (closed >> ok w))
                (batch-write_action s policy a date none latest past)
        | inr refused ↦ ground arith
      ]

  -- On D1 an action whose instant is not before the stored events, applied to the state that was
  -- loaded for it, gives the same rows, the same answer and the same errors as the transaction.
  pub apply_attendance_action_on_d1_agrees :
      (s : Store G) (policy : Option WorkPolicy) (a : Action G)
      → ArePast a.now s.events
      → apply_attendance_action_on_d1 local_parts webhooks s (load_action_state s a) policy a
        ≡ perform_action local_parts webhooks s policy a
  unfolding apply_attendance_action_on_d1 load_action_state perform_action target_date replay
  apply_attendance_action_on_d1_agrees s policy a past =
      let latest = latest_event s.events in
      let loaded_of : Option (AttendanceEvent G) → ActionState G =
        λ o. state_at s o latest (target_date o a.requested a.today latest) in
      elim (Option-cases (find_duplicate s.events a.idempotency_key)) [
        | inl unused ↦
            ap (λ o. apply_new local_parts webhooks o s (loaded_of o) policy a) unused
            ∙ (new_agrees s policy a past
                ∙ sym (ap (λ o. act_on local_parts webhooks o s policy a) unused))
        | inr (e, found) ↦
            ap (λ o. apply_new local_parts webhooks o s (loaded_of o) policy a) found
            ∙ sym (ap (λ o. act_on local_parts webhooks o s policy a) found)
      ]
