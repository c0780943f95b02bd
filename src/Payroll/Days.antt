-- ===== src/Payroll/Days.antt =====
-- payroll-calculator.ts: the pay of the days of a period.
use employee_attendance.Prelude.{
  ℕ, ◌+◌, ◌*◌, ◌-◌, Bool, true, false, List, [], ◌∷◌, any, filter, ltb, leb, if◌then◌else◌,
}
use employee_attendance.Calendar.{Day, day_eq, days_in_month}
use employee_attendance.Payroll.{PayType, monthly, daily, hourly, PayProfileInput, PayrollDayInput}
use employee_attendance.Payroll.Doubles.{Doubles}

-- The variables that the loop over the days adds to.
pub record DayTally : Type 0 where
  pub regular_minutes : ℕ
  pub paid_leave_minutes : ℕ
  pub overtime_minutes : ℕ
  pub rest_day_minutes : ℕ
  pub public_holiday_minutes : ℕ
  pub rest_day_pay_sen : ℕ
  pub public_holiday_pay_sen : ℕ
  pub unpaid_leave_deduction_sen : ℕ

abbrev pub empty_tally : DayTally
empty_tally = record {
  regular_minutes = 0;
  paid_leave_minutes = 0;
  overtime_minutes = 0;
  rest_day_minutes = 0;
  public_holiday_minutes = 0;
  rest_day_pay_sen = 0;
  public_holiday_pay_sen = 0;
  unpaid_leave_deduction_sen = 0;
}

abbrev pub is_monthly : PayType → Bool
is_monthly monthly = true
is_monthly daily = false
is_monthly hourly = false

module _ (doubles : Doubles) where
  open doubles use {Number, of_whole, plus, times, over, rounded}

  -- `amountForMinutes`
  unfoldable pub amount_for_minutes : Number → ℕ → ℕ → Number → ℕ
  amount_for_minutes rate minutes daily_minutes multiplier =
      rounded (over (times (times rate (of_whole minutes)) multiplier) (of_whole daily_minutes))

  -- `ordinaryDaySen`
  unfoldable pub ordinary_day_sen : PayType → PayProfileInput → ℕ → Number
  ordinary_day_sen monthly profile divisor =
      over (of_whole profile.base_rate_sen) (of_whole divisor)
  ordinary_day_sen daily profile divisor = of_whole profile.base_rate_sen
  ordinary_day_sen hourly profile divisor =
      over (of_whole (profile.base_rate_sen * profile.normal_daily_minutes)) (of_whole 60)

  -- The sum over the active dates of a month's pay divided by its days.
  unfoldable pub prorated : Number → ℕ → List Day → Number
  prorated total rate [] = total
  prorated total rate (date ∷ dates) =
      prorated (plus total (over (of_whole rate) (of_whole (days_in_month date)))) rate dates

  unfoldable pub base_pay_sen : PayProfileInput → List Day → ℕ
  base_pay_sen profile active_dates =
      if is_monthly profile.pay_type
      then rounded (prorated (of_whole 0) profile.base_rate_sen active_dates)
      else 0

  module _ (profile : PayProfileInput) (ordinary : Number) where
    unfoldable pub public_holiday_pay : ℕ → ℕ
    public_holiday_pay worked =
        let entitlement = if is_monthly profile.pay_type then 2 else 3 in
        rounded (times ordinary (of_whole entitlement))
        + amount_for_minutes ordinary (worked - profile.normal_daily_minutes)
            profile.normal_daily_minutes (of_whole 3)

    unfoldable pub rest_day_pay : ℕ → ℕ
    rest_day_pay worked =
        let half =
          if is_monthly profile.pay_type then over (of_whole 1) (of_whole 2) else of_whole 1 in
        let full = if is_monthly profile.pay_type then of_whole 1 else of_whole 2 in
        let multiplier = if leb (2 * worked) profile.normal_daily_minutes then half else full in
        rounded (times ordinary multiplier)
        + amount_for_minutes ordinary (worked - profile.normal_daily_minutes)
            profile.normal_daily_minutes (of_whole 2)

    unfoldable pub on_public_holiday : DayTally → ℕ → DayTally
    on_public_holiday t worked = record t {
      public_holiday_minutes = t.public_holiday_minutes + worked;
      public_holiday_pay_sen =
          t.public_holiday_pay_sen + (if ltb 0 worked then public_holiday_pay worked else 0);
    }

    unfoldable pub on_rest_day : DayTally → ℕ → DayTally
    on_rest_day t worked = record t {
      rest_day_minutes = t.rest_day_minutes + worked;
      rest_day_pay_sen = t.rest_day_pay_sen + (if ltb 0 worked then rest_day_pay worked else 0);
    }

    unfoldable pub unpaid_leave_deduction : PayrollDayInput → ℕ
    unpaid_leave_deduction day =
        amount_for_minutes
          (over (of_whole profile.base_rate_sen) (of_whole (days_in_month day.work_date)))
          day.unpaid_leave_minutes profile.normal_daily_minutes (of_whole 1)

    unfoldable pub on_ordinary_day : DayTally → PayrollDayInput → DayTally
    on_ordinary_day t day = record t {
      regular_minutes = t.regular_minutes + day.regular_minutes;
      paid_leave_minutes = t.paid_leave_minutes + day.paid_leave_minutes;
      overtime_minutes = t.overtime_minutes + day.overtime_minutes;
      unpaid_leave_deduction_sen =
          t.unpaid_leave_deduction_sen
          + (if is_monthly profile.pay_type
              then (if ltb 0 day.unpaid_leave_minutes then unpaid_leave_deduction day else 0)
              else 0);
    }

    -- One round of the loop.
    unfoldable pub step_day : DayTally → PayrollDayInput → DayTally
    step_day t day =
        let worked = day.regular_minutes + day.overtime_minutes in
        if day.is_public_holiday
        then on_public_holiday t worked
        else if day.is_rest_day
        then on_rest_day t worked
        else on_ordinary_day t day

    unfoldable pub days_tally : DayTally → List PayrollDayInput → DayTally
    days_tally t [] = t
    days_tally t (day ∷ days) = days_tally (step_day t day) days

  -- `input.days.filter((entry) => activeDates.includes(entry.workDate))`
  unfoldable pub active_days : List Day → List PayrollDayInput → List PayrollDayInput
  active_days active_dates days = filter (λ day. any (day_eq day.work_date) active_dates) days

  -- `regularPaySen` and `paidLeavePaySen` of the minutes.
  unfoldable pub pay_for_minutes : PayType → PayProfileInput → ℕ → ℕ
  pay_for_minutes monthly profile minutes = 0
  pay_for_minutes daily profile minutes =
      amount_for_minutes (of_whole profile.base_rate_sen) minutes profile.normal_daily_minutes
        (of_whole 1)
  pay_for_minutes hourly profile minutes =
      rounded (over (of_whole (profile.base_rate_sen * minutes)) (of_whole 60))

  unfoldable pub overtime_pay : PayProfileInput → Number → ℕ → ℕ
  overtime_pay profile ordinary minutes =
      if profile.overtime_eligible
      then amount_for_minutes ordinary minutes profile.normal_daily_minutes
          (over (of_whole 3) (of_whole 2))
      else 0
