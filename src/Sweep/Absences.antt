-- ===== src/Sweep/Absences.antt =====
-- attendance-exceptions.ts: which timesheets the sweep for absences adds.
use employee_attendance.Prelude.{
  ◌≡◌, ◌↔◌, refl, sym, true, false, not, ap, ◌∙◌, String, ◌&&◌, Option, none, some, List, [], ◌∷◌,
  find_row, arith, if◌then◌else◌, Bool-cases, Option-cases, inl, inr,
}
use employee_attendance.Calendar.{Day, weekday}
use employee_attendance.Requests.{TimesheetDay, DayKey, same_day, same_day_iff}
use employee_attendance.Leave.{EffectiveShift, works_on}
use employee_attendance.Sweep.{
  swept_shift, swept_state, is_scheduled, is_skipped, is_off, SweptEmployee, HolidayRows,
  is_expected, absent_day, day_of, mark_absence, mark_absences,
}

abbrev pub find_swept : DayKey → List TimesheetDay → Option TimesheetDay
find_swept k days = find_row (λ t. t.key) same_day k days

-- The first one, if there is one.
abbrev pub found_or {ℓ} : {A : Type ℓ} → Option A → Option A → Option A
found_or (some a) other = some a
found_or none other = other

-- The timesheet of an absence that an employee has.
abbrev absence_by :
    Day → HolidayRows → (String → String) → SweptEmployee → DayKey → Option TimesheetDay
absence_by date h day_id e k =
    if is_expected date h e && same_day (day_of e date) k
    then some (absent_day (day_id e.id) e date)
    else none

-- The timesheet of the first employee with the key who was to work.
abbrev pub absence_of :
    Day → HolidayRows → (String → String) → List SweptEmployee → DayKey → Option TimesheetDay
absence_of date h day_id [] k = none
absence_of date h day_id (e ∷ es) k =
    found_or (absence_by date h day_id e k) (absence_of date h day_id es k)

find_swept-mark_absence :
    (date : Day) (h : HolidayRows) (day_id : String → String) (e : SweptEmployee)
    (days : List TimesheetDay) (k : DayKey)
    → find_swept k (mark_absence date h day_id e days)
      ≡ found_or (find_swept k days) (absence_by date h day_id e k)
unfolding mark_absence absent_day
find_swept-mark_absence date h day_id e days k = elim (Bool-cases (same_day (day_of e date) k)) [
  | inl same ↦
      let at = ap (λ x. find_swept x days) ((same_day_iff (day_of e date) k).0 same) in
      elim (Option-cases (find_swept k days)) [
        | inl missing ↦ ground (arith)
        | inr (t, there) ↦ ground (arith)
      ]
  | inr other ↦ elim (Option-cases (find_swept k days)) [
    | inl missing ↦ ground (arith)
    | inr (t, there) ↦ ground (arith)
  ]
]

found_or_assoc :
    (a b c : Option TimesheetDay) → found_or (found_or a b) c ≡ found_or a (found_or b c)
found_or_assoc none b c = refl
found_or_assoc (some t) b c = refl

find_swept_after :
    (date : Day) (h : HolidayRows) (day_id : String → String) (es : List SweptEmployee)
    (days : List TimesheetDay) (k : DayKey)
    → find_swept k (mark_absences date h day_id es days)
      ≡ found_or (find_swept k days) (absence_of date h day_id es k)
unfolding mark_absences
find_swept_after date h day_id [] days k = elim (Option-cases (find_swept k days)) [
  | inl missing ↦ ground (arith)
  | inr (t, there) ↦ ground (arith)
]
find_swept_after date h day_id (e ∷ es) days k =
    find_swept_after date h day_id es (mark_absence date h day_id e days) k
    ∙ ap (λ o. found_or o (absence_of date h day_id es k))
        (find_swept-mark_absence date h day_id e days k)
    ∙ found_or_assoc (find_swept k days) (absence_by date h day_id e k)
        (absence_of date h day_id es k)

found_or-twice : (a b : Option TimesheetDay) → found_or (found_or a b) b ≡ found_or a b
found_or-twice (some t) b = refl
found_or-twice none none = refl
found_or-twice none (some t) = refl

-- A second sweep for the same date and employees finds every timesheet as the first one left it.
pub mark_absences-twice :
    (date : Day) (h : HolidayRows) (day_id : String → String) (es : List SweptEmployee)
    (days : List TimesheetDay) (k : DayKey)
    → find_swept k (mark_absences date h day_id es (mark_absences date h day_id es days))
      ≡ find_swept k (mark_absences date h day_id es days)
mark_absences-twice date h day_id es days k =
    find_swept_after date h day_id es (mark_absences date h day_id es days) k
    ∙ ap (λ o. found_or o (absence_of date h day_id es k))
        (find_swept_after date h day_id es days k)
    ∙ found_or-twice (find_swept k days) (absence_of date h day_id es k)
    ∙ sym (find_swept_after date h day_id es days k)

-- The employee was to work on the date: the newest shift in effect is active and has its weekday, and the
-- employee is of a client whose holidays do not leave out the date.
abbrev pub IsExpected : Day → HolidayRows → SweptEmployee → Type 0
IsExpected date h e =
    (s : EffectiveShift) × (client : String) × (swept_shift date e ≡ some s)
    × (s.is_active ≡ true)
    × (works_on s.work_days (weekday date) ≡ true)
    × (e.client_id ≡ some client)
    × (is_skipped date (swept_state e) (h.of_client client) h.malaysia_holidays ≡ false)

is_expected_iff :
    (date : Day) (h : HolidayRows) (e : SweptEmployee)
    → (is_expected date h e ≡ true) ↔ IsExpected date h e
unfolding is_expected
is_expected_iff date h e = go (swept_shift date e) e.client_id refl refl
  where
    go :
        (o : Option EffectiveShift) (c : Option String)
        → swept_shift date e ≡ o
        → e.client_id ≡ c
        → ((is_scheduled date o && not (is_off date e h c)) ≡ true) ↔ IsExpected date h e
    go none c f g = (λ w. cc, λ (t, named, at, a, d, of_client, free). absurd (ground (arith)))
    go (some s) none f g = (
      λ w. absurd (ground (arith)),
      λ (t, named, at, a, d, of_client, free). absurd (ground (arith)),
    )
    go (some s) (some client) f g = (
      λ w. (s, client, f, ground (arith), ground (arith), g, ground (arith)),
      λ (t, named, at, a, d, of_client, free).
          let same : t ≡ s = ground (arith) in
          let same_client : named ≡ client = ground (arith) in
          let active = sym (ap (λ x. x.is_active) same) ∙ a in
          let scheduled = sym (ap (λ x. works_on x.work_days (weekday date)) same) ∙ d in
          let working =
            sym (
              ap (λ x. is_skipped date (swept_state e) (h.of_client x) h.malaysia_holidays)
                same_client)
            ∙ free in
          ground (arith),
    )

-- After the sweep for absences of a date, a timesheet that was there is as it was, and where there was
-- none there is one exactly for an employee who was to work on the date and for that date: the absence
-- of the first such employee. One was to work exactly if the newest shift in effect is active and has the
-- weekday, and the employee is of a client and the date is no holiday that is skipped.
pub find_swept-mark_absences :
    (date : Day) (h : HolidayRows) (day_id : String → String) (es : List SweptEmployee)
    (days : List TimesheetDay) (k : DayKey)
    → (find_swept k (mark_absences date h day_id es days)
        ≡ found_or (find_swept k days) (absence_of date h day_id es k))
      × ((e : SweptEmployee) → (is_expected date h e ≡ true) ↔ IsExpected date h e)
find_swept-mark_absences date h day_id es days k =
    (find_swept_after date h day_id es days k, is_expected_iff date h)
