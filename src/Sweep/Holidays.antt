-- ===== src/Sweep/Holidays.antt =====
-- The sweep for absences, the payroll and the planning of leave decide on public holidays in their own
-- ways: attendance-exceptions.ts, malaysia-holidays.ts and leave-allocation.ts with
-- requests-v2.controller.ts.
use employee_attendance.Prelude.{
  ◌≡◌, refl, ap, ◌∙◌, String, same_text, Bool, true, false, not, ◌&&◌, ◌||◌, List, [], ◌∷◌, ◌++◌,
  any, filter, map, arith, Bool-cases, inl, inr,
}
use employee_attendance.Calendar.{Day, day_eq}
use employee_attendance.Leave.{HolidayDay, is_day_off}
use employee_attendance.PayrollRun.{
  OrganizationHoliday, MalaysiaHoliday, for_state, is_public_holiday_for_state,
}
use employee_attendance.Requests.{LeaveRequest}
use employee_attendance.Requests.Reviews.{
  WorkRules, state_code, is_between, organization_day, malaysia_day, leave_holidays,
}
use employee_attendance.Sweep.{of_day, is_skipped}

any-malaysia :
    (date : Day) (state : String) (hs : List MalaysiaHoliday)
    → any (λ h. same_text h.state_code state && day_eq h.date date) hs
      ≡ any (λ h. day_eq h.date date && same_text h.state_code state) hs
any-malaysia date state [] = refl
any-malaysia date state (h ∷ hs) = ground (arith, any-malaysia date state hs)

is_skipped-agrees :
    (date : Day) (state : String) (os : List OrganizationHoliday) (ms : List MalaysiaHoliday)
    → is_skipped date state os ms ≡ is_public_holiday_for_state date state os ms
unfolding is_skipped is_public_holiday_for_state
is_skipped-agrees date state os ms = let same = any-malaysia date state ms in ground (arith)

day_eq-same : (a b : Day) → day_eq a b ≡ true → a ≡ b
unfolding day_eq
day_eq-same a b h = ground (arith)

-- A holiday of a date of the request is among those that are read for the request.
is_between-same :
    (r : LeaveRequest) (a date : Day)
    → is_between r date ≡ true
    → day_eq a date ≡ true
    → is_between r a ≡ true
is_between-same r a date h same = ap (is_between r) (day_eq-same a date same) ∙ h

any-append :
    (p : HolidayDay → Bool) (xs ys : List HolidayDay) → any p (xs ++ ys) ≡ (any p xs || any p ys)
any-append p [] ys = refl
any-append p (x ∷ xs) ys = ground (arith, any-append p xs ys)

filter-append :
    (p : HolidayDay → Bool) (xs ys : List HolidayDay)
    → filter p (xs ++ ys) ≡ filter p xs ++ filter p ys
filter-append p [] ys = refl
filter-append p (x ∷ xs) ys = ground (arith, filter-append p xs ys)

module _ (r : LeaveRequest) (date : Day) (between : is_between r date ≡ true) (state : String) where
  organization_days :
      (p : Bool → Bool) (hs : List OrganizationHoliday)
      → any
          (λ h. p h.is_working_day_override)
          (filter
            (λ h. day_eq h.date date)
            (map organization_day
              (filter (λ h. is_between r h.date && for_state h.state_code state) hs)))
        ≡ any (λ h. p h.is_working_day_override) (filter (of_day date state) hs)
  organization_days p [] = refl
  organization_days p (h ∷ hs) =
      let ih = organization_days p hs in
      elim (Bool-cases (day_eq h.date date)) [
        | inl same ↦ let inside = is_between-same r h.date date between same in ground (arith)
        | inr other ↦ ground (arith)
      ]

  malaysia_days :
      (p : Bool → Bool) (hs : List MalaysiaHoliday)
      → any
          (λ h. p h.is_working_day_override)
          (filter
            (λ h. day_eq h.date date)
            (map malaysia_day
              (filter (λ h. is_between r h.date && same_text h.state_code state) hs)))
        ≡ (any (λ h. day_eq h.date date && same_text h.state_code state) hs && p false)
  malaysia_days p [] = refl
  malaysia_days p (h ∷ hs) =
      let ih = malaysia_days p hs in
      elim (Bool-cases (day_eq h.date date)) [
        | inl same ↦ let inside = is_between-same r h.date date between same in ground (arith)
        | inr other ↦ ground (arith)
      ]

-- On a date of a request, and for the state and the holidays of it, the planning of leave has a day off
-- exactly where the payroll has a public holiday, and where the sweep for absences skips the employee.
pub holidays_agree :
    (w : WorkRules) (r : LeaveRequest) (date : Day)
    → is_between r date ≡ true
    → (is_day_off (leave_holidays w r) date
        ≡ is_public_holiday_for_state date
            (state_code w)
            w.organization_holidays
            w.malaysia_holidays)
      × (is_skipped date (state_code w) w.organization_holidays w.malaysia_holidays
          ≡ is_public_holiday_for_state date
              (state_code w)
              w.organization_holidays
              w.malaysia_holidays)
unfolding is_day_off leave_holidays is_public_holiday_for_state
holidays_agree w r date between =
    let state = state_code w in
    let os =
      map organization_day (
        filter (λ h. is_between r h.date && for_state h.state_code state)
          w.organization_holidays) in
    let ms =
      map malaysia_day
        (filter (λ h. is_between r h.date && same_text h.state_code state) w.malaysia_holidays) in
    let on = filter-append (λ h. day_eq h.date date) os ms in
    let a = filter (λ h. day_eq h.date date) os in
    let b = filter (λ h. day_eq h.date date) ms in
    let plain =
      ap (any (λ h. not h.is_working_day_override)) on
      ∙ any-append (λ h. not h.is_working_day_override) a b in
    let override =
      ap (any (λ h. h.is_working_day_override)) on
      ∙ any-append (λ h. h.is_working_day_override) a b in
    let o_plain = organization_days r date between state (λ x. not x) w.organization_holidays in
    let o_override = organization_days r date between state (λ x. x) w.organization_holidays in
    let m_plain = malaysia_days r date between state (λ x. not x) w.malaysia_holidays in
    let m_override = malaysia_days r date between state (λ x. x) w.malaysia_holidays in
    (ground (arith), is_skipped-agrees date state w.organization_holidays w.malaysia_holidays)
