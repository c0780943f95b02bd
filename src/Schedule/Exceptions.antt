-- ===== src/Schedule/Exceptions.antt =====
-- What schedule-metrics.ts makes of a timesheet.
use employee_attendance.Prelude.{
  ℕ, ◌+◌, ◌*◌, ◌<◌, ◌≡◌, ◌↔◌, refl, Bool, true, false, ◌||◌, ◌&&◌, ◌∙◌, ◌≢◌, [], ◌∷◌, some, List,
  arith, ltb, if◌then◌else◌, ◌==◌,
}
use employee_attendance.CodeSet.{
  add_code, is_empty, has_code, IsCodeSet, IsSorted, has_code-append, has_code-sorted_codes,
  sorted_codes-IsSorted, add_code-IsCodeSet, is_empty-sorted_codes,
}
use employee_attendance.Calendar.{Day, ordinal}
use employee_attendance.Calendar.Ordinals.{IsDate, ordinal-next_day}
use employee_attendance.Timesheet.{TimesheetState, open_day, exception, flag_if}
use employee_attendance.Timesheet.Codes.{
  ExceptionCode, late_arrival, early_departure, exception_code, code_rank,
}
use employee_attendance.Schedule.{
  LocalParts, Shift, ScheduleMetrics, date_number, time_minutes, actual_minute, shift_start,
  shift_end, calculate_schedule_metrics, apply_schedule_exceptions,
}

has_code_same :
    (c d : ExceptionCode) (cs : List ExceptionCode)
    → (code_rank d == code_rank c) ≡ true
    → has_code c cs ≡ has_code d cs
has_code_same c d [] e = refl
has_code_same c d (f ∷ cs) e = ground (arith, has_code_same c d cs e)

has_code-flag_if :
    (c d : ExceptionCode) (test : Bool) (cs : List ExceptionCode)
    → has_code c (flag_if test d cs)
      ≡ (has_code c cs || (if test then code_rank d == code_rank c else false))
unfolding add_code
has_code-flag_if c d test cs = ground (arith, has_code-append c d cs, has_code_same c d cs)

flag_if-IsCodeSet :
    (d : ExceptionCode) (test : Bool) (cs : List ExceptionCode)
    → IsCodeSet cs
    → IsCodeSet (flag_if test d cs)
flag_if-IsCodeSet d test cs s = ground (arith, add_code-IsCodeSet d cs s)

abbrev flagged : List ExceptionCode → ScheduleMetrics → List ExceptionCode
flagged codes m =
    flag_if (ltb 0 m.early_departure_minutes) early_departure
      (flag_if (ltb 0 m.late_minutes) late_arrival codes)

-- The codes of the timesheet stay, in strict alphabetical order, and a late arrival or an early
-- departure is added exactly when there are such minutes. An open day stays open; any other day is
-- an exception if there is a code, and keeps its state if there is none.
pub apply_schedule_exceptions_lem :
    (state : TimesheetState) (codes : List ExceptionCode) (m : ScheduleMetrics)
    → IsCodeSet codes
    → let r = apply_schedule_exceptions state codes m in
      IsSorted r.exception_codes
      × ((c : ExceptionCode)
          → has_code c r.exception_codes ≡ (
              has_code c codes
              || ((ltb 0 m.late_minutes && code_rank late_arrival == code_rank c)
                  || (ltb 0 m.early_departure_minutes
                      && code_rank early_departure == code_rank c))))
      × (state ≡ open_day → r.state ≡ open_day)
      × (state ≢ open_day → is_empty r.exception_codes ≡ false → r.state ≡ exception)
      × (state ≢ open_day → is_empty r.exception_codes ≡ true → r.state ≡ state)
unfolding apply_schedule_exceptions
apply_schedule_exceptions_lem state codes m s =
    let late = ltb 0 m.late_minutes in
    let early = ltb 0 m.early_departure_minutes in
    let with_late = flag_if late late_arrival codes in
    let empty = is_empty-sorted_codes (flagged codes m) in
    (
      sorted_codes-IsSorted (flagged codes m) (
          flag_if-IsCodeSet early_departure early with_late
            (flag_if-IsCodeSet late_arrival late codes s)),
      λ c.
          has_code-sorted_codes c (flagged codes m)
          ∙ ground (
            arith,
            has_code-flag_if c early_departure early with_late,
            has_code-flag_if c late_arrival late codes,
          ),
      ground arith,
      ground arith,
      ground arith,
    )

module _ (local_parts : LocalParts) where
  -- On a valid work date with both instants and a shift, there are late minutes exactly if the first
  -- clock-in comes after the start of the shift and the grace period, and minutes of early departure
  -- exactly if the last clock-out comes before the end of the shift, which for an overnight shift is
  -- on the day after; these are then the minutes from the clock-out to that end.
  pub metrics_lem :
      (date : Day) (first last : ℕ) (shift : Shift)
      → IsDate date
      → let m = calculate_schedule_metrics local_parts date (some first) (some last) (some shift) in
        let start = ordinal date * 1440 + time_minutes shift.start_time in
        let night : ℕ = if shift.is_overnight then 1440 else 0 in
        let finish = ordinal date * 1440 + night + time_minutes shift.end_time in
        ((0 < m.late_minutes)
          ↔ (start + shift.grace_period_minutes < actual_minute local_parts first))
        × ((0 < m.early_departure_minutes) ↔ (actual_minute local_parts last < finish))
        × (0 < m.early_departure_minutes
            → actual_minute local_parts last + m.early_departure_minutes ≡ finish)
  unfolding calculate_schedule_metrics shift_start shift_end date_number
  metrics_lem date first last shift v = ground (arith, ordinal-next_day date v)
