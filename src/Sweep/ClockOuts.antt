-- ===== src/Sweep/ClockOuts.antt =====
-- attendance-exceptions.ts: which open timesheets the sweep for clock-outs closes.
use employee_attendance.Prelude.{
  ℕ, zero, suc, ◌+◌, ◌*◌, ◌≤◌, ◌≡◌, ◌↔◌, refl, some, Option-cases, ap, ◌∙◌, Bool, true, false, ◌&&◌,
  ◌||◌, Option, List, [], ◌∷◌, ◌++◌, any, filter, length, arith, or_else, if◌then◌else◌,
  update_where, Bool-cases, inl, inr,
}
use employee_attendance.CodeSet.{
  has_code, set_of, add_code, has_code-add_code, has_code-add_code_old,
}
use employee_attendance.Timesheet.Codes.{exception_code, ExceptionCode, missed_clock_out}
use employee_attendance.Requests.{TimesheetDay}
use employee_attendance.Timesheet.{TimesheetState, open_day}
use employee_attendance.Sweep.{is_open_state, is_running, is_overdue, close_day, close_days}

-- The clock-out of the timesheet has been missing for the threshold of its client.
abbrev pub is_missed : (TimesheetDay → Option ℕ) → ℕ → TimesheetDay → Bool
is_missed policy now t = is_running t && is_overdue now (or_else (policy t) 960) t.first_clock_in_at

-- It is open, and at least the threshold, in minutes, has passed since its clock-in.
abbrev pub IsMissed : (TimesheetDay → Option ℕ) → ℕ → TimesheetDay → Type 0
IsMissed policy now t =
    (at : ℕ) × (t.state ≡ open_day)
    × (t.first_clock_in_at ≡ some at)
    × (at + or_else (policy t) 960 * 60_000 ≤ now)

is_missed_iff :
    (policy : TimesheetDay → Option ℕ) (now : ℕ) (t : TimesheetDay)
    → (is_missed policy now t ≡ true) ↔ IsMissed policy now t
is_missed_iff policy now t =
    let opened = is_open_state_iff t.state in
    elim (Option-cases t.first_clock_in_at) [
      | inl never ↦ (λ h. absurd (ground (arith)), λ (at, o, f, late). absurd (ground (arith)))
      | inr (start, found) ↦ (
        λ h. (start, ground (arith), found, ground (arith)),
        λ (at, o, f, late). let same : start ≡ at = ground (arith) in ground (arith),
      )
    ]
  where
    is_open_state_iff : (s : TimesheetState) → (is_open_state s ≡ true) ↔ (s ≡ open_day)
    is_open_state_iff s = ground (arith)

has_code-set_of_old :
    (c : ExceptionCode) (set codes : List ExceptionCode)
    → has_code c set ≡ true
    → has_code c (set_of set codes) ≡ true
has_code-set_of_old c set [] h = h
has_code-set_of_old c set (d ∷ codes) h =
    has_code-set_of_old c (add_code d set) codes (has_code-add_code_old c d set h)

has_code-set_of_last :
    (c : ExceptionCode) (set codes : List ExceptionCode)
    → has_code c (set_of set (codes ++ c ∷ [])) ≡ true
has_code-set_of_last c set [] = has_code-add_code c set
has_code-set_of_last c set (d ∷ codes) = has_code-set_of_last c (add_code d set) codes

-- A timesheet that is closed has the code for it and runs no longer.
close_day_lem :
    (t : TimesheetDay)
    → (has_code missed_clock_out (close_day t).exception_codes ≡ true)
      × (is_running (close_day t) ≡ false)
unfolding close_day
close_day_lem t = (has_code-set_of_last missed_clock_out [] t.exception_codes, refl)

close_days_zero :
    (policy : TimesheetDay → Option ℕ) (now : ℕ) (days : List TimesheetDay)
    → close_days policy now 0 days ≡ days
unfolding close_days
close_days_zero policy now days = refl

close_days-all :
    (policy : TimesheetDay → Option ℕ) (now left : ℕ) (days : List TimesheetDay)
    → length (filter is_running days) ≤ left
    → close_days policy now left days ≡ update_where (is_missed policy now) close_day days
unfolding close_days
close_days-all policy now zero [] h = refl
close_days-all policy now zero (t ∷ days) h =
    let ih = close_days-all policy now zero days in
    elim (Bool-cases (is_running t)) [
      | inl running ↦ absurd (ground (arith))
      | inr other ↦
          let rest = ih (ground (arith)) in
          let all = close_days_zero policy now days in ground (arith)
    ]
close_days-all policy now (suc left) [] h = refl
close_days-all policy now (suc left) (t ∷ days) h = elim (Bool-cases (is_running t)) [
  | inl running ↦ let rest = close_days-all policy now left days (ground (arith)) in ground (arith)
  | inr other ↦
      let rest = close_days-all policy now (suc left) days (ground (arith)) in ground (arith)
]

none_missed :
    (policy : TimesheetDay → Option ℕ) (now : ℕ) (days : List TimesheetDay)
    → any (is_missed policy now) (update_where (is_missed policy now) close_day days) ≡ false
none_missed policy now [] = refl
none_missed policy now (t ∷ days) =
    let (_, closed) = close_day_lem t in
    elim (Bool-cases (is_missed policy now t)) [
      | inl missed ↦
          ap
            (λ x.
              is_missed policy now x
              || any (is_missed policy now) (update_where (is_missed policy now) close_day days))
            (ap (λ b. if b then close_day t else t) missed)
          ∙ ap
              (λ b.
                (b
                  && is_overdue now (or_else (policy (close_day t)) 960)
                      (close_day t).first_clock_in_at)
                || any (is_missed policy now) (update_where (is_missed policy now) close_day days))
              closed
          ∙ none_missed policy now days
      | inr kept ↦
          ap
            (λ x.
              is_missed policy now x
              || any (is_missed policy now) (update_where (is_missed policy now) close_day days))
            (ap (λ b. if b then close_day t else t) kept)
          ∙ ap
              (λ b.
                b
                || any (is_missed policy now) (update_where (is_missed policy now) close_day days))
              kept
          ∙ none_missed policy now days
    ]

-- With 500 open timesheets or fewer the sweep closes exactly those whose clock-out has been missing for
-- the threshold, leaves every other timesheet as it was, and after it no such timesheet is left: a clock-out
-- is missing of an open timesheet when the threshold of its client, in minutes and 960 by default, has passed
-- since the clock-in.
pub close_days_lem :
    (policy : TimesheetDay → Option ℕ) (now : ℕ) (days : List TimesheetDay)
    → length (filter is_running days) ≤ 500
    → (close_days policy now 500 days ≡ update_where (is_missed policy now) close_day days)
      × (any (is_missed policy now) (close_days policy now 500 days) ≡ false)
      × ((t : TimesheetDay) → (is_missed policy now t ≡ true) ↔ IsMissed policy now t)
close_days_lem policy now days few =
    let same = close_days-all policy now 500 days few in
    (
      same,
      ap (any (is_missed policy now)) same ∙ none_missed policy now days,
      is_missed_iff policy now,
    )
