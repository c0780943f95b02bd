-- ===== src/Attendance/Rejection.antt =====
-- attendance-v2.controller.ts: what a clock attempt with too low a GPS accuracy does to the timesheet
-- of the day (`recordGpsRejection`, and the batch that stands for it on D1).
use employee_attendance.Prelude.{
  ◌+◌, ◌≡◌, ◌↔◌, sym, ap, ◌∙◌, String, false, Option, none, some, List, [], ◌∷◌, ◌++◌,
  if◌then◌else◌, Option-cases, Bool-cases, inl, inr, arith,
}
use employee_attendance.Calendar.{Day, day_eq}
use employee_attendance.CodeSet.{set_of, sorted_codes}
use employee_attendance.Timesheet.{TimesheetState, open_day, exception}
use employee_attendance.Timesheet.Codes.{ExceptionCode, gps_accuracy_rejected, exception_code}
use employee_attendance.Attendance.Store.{TimesheetRow, find_timesheet}
use employee_attendance.Attendance.Action.{is_locked}

unfoldable pub rejected_codes : List ExceptionCode → List ExceptionCode
rejected_codes codes = sorted_codes (set_of [] (codes ++ gps_accuracy_rejected ∷ []))

-- `existing.state === OPEN ? OPEN : EXCEPTION`
unfoldable pub rejected_state : TimesheetState → TimesheetState
rejected_state open_day = open_day
rejected_state _ = exception

unfoldable pub rejected_row : TimesheetRow → TimesheetRow
rejected_row t = record t {
  state = rejected_state t.state;
  exception_codes = rejected_codes t.exception_codes;
  version = t.version + 1;
}

-- The row that is created, with the defaults of the schema.
unfoldable pub created_row : String → Day → TimesheetRow
created_row id date = record {
  id = id;
  work_date = date;
  state = exception;
  first_clock_in_at = none;
  last_clock_out_at = none;
  regular_minutes = 0;
  overtime_minutes = 0;
  break_minutes = 0;
  late_minutes = 0;
  early_departure_minutes = 0;
  exception_codes = gps_accuracy_rejected ∷ [];
  version = 1;
}

unfoldable pub update_timesheet :
    List TimesheetRow → Day → (TimesheetRow → TimesheetRow) → List TimesheetRow
update_timesheet [] date change = []
update_timesheet (t ∷ ts) date change =
    let rest = update_timesheet ts date change in
    if day_eq t.work_date date then change t ∷ ts else t ∷ rest

abbrev rejection_of : Option TimesheetRow → List TimesheetRow → Day → String → List TimesheetRow
rejection_of (some t) rows date id =
    if is_locked (some t) then rows else update_timesheet rows date rejected_row
rejection_of none rows date id = rows ++ created_row id date ∷ []

-- `recordGpsRejection`
unfoldable pub record_gps_rejection : List TimesheetRow → Day → String → List TimesheetRow
record_gps_rejection rows date id = rejection_of (find_timesheet rows date) rows date id

abbrev rejection_on_d1_of :
    Option TimesheetRow → List TimesheetRow → Day → String → List TimesheetRow
rejection_on_d1_of (some t) rows date id = update_timesheet rows date rejected_row
rejection_on_d1_of none rows date id = rows ++ created_row id date ∷ []

-- The batch on D1.
unfoldable pub record_gps_rejection_on_d1 : List TimesheetRow → Day → String → List TimesheetRow
record_gps_rejection_on_d1 rows date id = rejection_on_d1_of (find_timesheet rows date) rows date id

update_timesheet-find :
    (rows : List TimesheetRow) (date : Day) (t : TimesheetRow)
    → find_timesheet rows date ≡ some t
    → find_timesheet (update_timesheet rows date rejected_row) date ≡ some (rejected_row t)
unfolding find_timesheet update_timesheet rejected_row
update_timesheet-find [] date t h = ground arith
update_timesheet-find (r ∷ rows) date t h =
    let ih = update_timesheet-find rows date t in ground arith

not_locked_after : (t : TimesheetRow) → is_locked (some (rejected_row t)) ≡ false
unfolding rejected_row rejected_state
not_locked_after t = ground arith

update_timesheet-unlocks :
    (rows : List TimesheetRow) (date : Day) (t : TimesheetRow)
    → find_timesheet rows date ≡ some t
    → update_timesheet rows date rejected_row ≡ rows
    → is_locked (some t) ≡ false
update_timesheet-unlocks rows date t h same =
    ap is_locked
      (sym h ∙ ap (λ r. find_timesheet r date) (sym same) ∙ update_timesheet-find rows date t h)
    ∙ not_locked_after t

-- The two databases are left with the same timesheets by a rejected attempt exactly if the timesheet
-- of the day is not locked.
pub rejections_agree_iff :
    (rows : List TimesheetRow) (date : Day) (id : String)
    → (record_gps_rejection_on_d1 rows date id ≡ record_gps_rejection rows date id)
      ↔ (is_locked (find_timesheet rows date) ≡ false)
unfolding record_gps_rejection record_gps_rejection_on_d1
rejections_agree_iff rows date id = elim (Option-cases (find_timesheet rows date)) [
  | inl absent ↦ (
    λ _. ap is_locked absent,
    λ _.
        ap (λ o. rejection_on_d1_of o rows date id) absent
        ∙ sym (ap (λ o. rejection_of o rows date id) absent),
  )
  | inr (t, found) ↦
      let d1 = ap (λ o. rejection_on_d1_of o rows date id) found in
      let postgres = ap (λ o. rejection_of o rows date id) found in
      elim (Bool-cases (is_locked (some t))) [
        | inl closed ↦ (
          λ e.
              ap is_locked found
              ∙ update_timesheet-unlocks rows date t found (
                  sym d1
                  ∙ e
                  ∙ postgres
                  ∙ ap (λ b. if b then rows else update_timesheet rows date rejected_row) closed),
          λ unlocked. let impossible = sym closed ∙ ap is_locked (sym found) ∙ unlocked in cc,
        )
        | inr free ↦ (
          λ _. ap is_locked found ∙ free,
          λ _.
              d1
              ∙ sym (
                  postgres
                  ∙ ap (λ b. if b then rows else update_timesheet rows date rejected_row) free),
        )
      ]
]
