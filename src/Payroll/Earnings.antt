-- ===== src/Payroll/Earnings.antt =====
-- payroll-calculator.ts: what an employee has earned for the days of a period, and its lines.
use employee_attendance.Prelude.{ℕ, ◌+◌, String, none, List, [], ◌∷◌, sum_by, if◌then◌else◌}
use employee_attendance.Calendar.{Day}
use employee_attendance.Payroll.{
  PayProfileInput, PayrollDayInput, PayrollLineDirection, PayrollLineCategory,
}
use employee_attendance.Payroll.Doubles.{Doubles}
use employee_attendance.Payroll.Lines.{PayrollLineOutput, LineInput, MetaValue, push_line}
use employee_attendance.Payroll.Days.{
  DayTally, empty_tally, is_monthly, ordinary_day_sen, base_pay_sen, days_tally, active_days,
  pay_for_minutes, overtime_pay,
}

-- The sums of the days, in sen, and the tally that they come from.
pub record Earnings : Type 0 where
  pub tally : DayTally
  pub base_pay_sen : ℕ
  pub regular_pay_sen : ℕ
  pub paid_leave_pay_sen : ℕ
  pub overtime_pay_sen : ℕ

abbrev pub base_earnings : Earnings → ℕ
base_earnings e = e.base_pay_sen + e.regular_pay_sen + e.paid_leave_pay_sen

abbrev minutes_meta : ℕ → List (String × MetaValue)
minutes_meta minutes = ("minutes", MetaValue.number minutes) ∷ []

abbrev earnings_line :
    PayrollLineDirection
    → PayrollLineCategory
    → String
    → String
    → ℕ
    → String
    → List (String × MetaValue)
    → LineInput
earnings_line direction category code name amount basis metadata = record {
  direction = direction;
  category = category;
  code = code;
  name = name;
  amount_sen = amount;
  basis = basis;
  source_component_assignment_id = none;
  metadata = metadata;
}

-- The line of the base pay is pushed for a monthly profile alone, whose other profiles have none.
unfoldable pub base_lines : PayProfileInput → ℕ → ℕ → ℕ → List PayrollLineOutput
base_lines profile amount active_count period_count =
    if is_monthly profile.pay_type
    then push_line [] (
        earnings_line PayrollLineDirection.earning PayrollLineCategory.base_pay "BASE_PAY"
          "Base pay" amount "monthly_calendar_day_proration"
          (("activeDays", MetaValue.number active_count)
            ∷ ("periodDays", MetaValue.number period_count)
            ∷ []))
    else []

-- The six lines after the loop over the days.
unfoldable pub day_lines : List PayrollLineOutput → Earnings → ℕ → List PayrollLineOutput
day_lines lines e unpaid_minutes =
    let t = e.tally in
    let l1 = push_line lines (
      earnings_line PayrollLineDirection.earning PayrollLineCategory.regular_pay "REGULAR_PAY"
        "Regular pay" e.regular_pay_sen "worked_minutes" (minutes_meta t.regular_minutes)) in
    let l2 = push_line l1 (
      earnings_line PayrollLineDirection.earning PayrollLineCategory.paid_leave "PAID_LEAVE"
        "Paid leave" e.paid_leave_pay_sen "paid_leave_minutes"
        (minutes_meta t.paid_leave_minutes)) in
    let l3 = push_line l2 (
      earnings_line PayrollLineDirection.earning PayrollLineCategory.overtime "OVERTIME" "Overtime"
        e.overtime_pay_sen "ordinary_hourly_rate_x_1_5" (minutes_meta t.overtime_minutes)) in
    let l4 = push_line l3 (
      earnings_line PayrollLineDirection.earning PayrollLineCategory.rest_day "REST_DAY"
        "Rest day work" t.rest_day_pay_sen "rest_day_tiered_rate"
        (minutes_meta t.rest_day_minutes)) in
    let l5 = push_line l4 (
      earnings_line PayrollLineDirection.earning PayrollLineCategory.public_holiday "PUBLIC_HOLIDAY"
        "Public holiday work" t.public_holiday_pay_sen "public_holiday_rate"
        (minutes_meta t.public_holiday_minutes)) in
    push_line l5 (
      earnings_line PayrollLineDirection.deduction PayrollLineCategory.unpaid_leave "UNPAID_LEAVE"
        "Unpaid leave" t.unpaid_leave_deduction_sen "calendar_day_proration"
        (minutes_meta unpaid_minutes))

-- `input.days.reduce((total, day) => total + day.unpaidLeaveMinutes, 0)`
abbrev pub unpaid_minutes : List PayrollDayInput → ℕ
unpaid_minutes days = sum_by (λ day. day.unpaid_leave_minutes) days

module _ (doubles : Doubles) where
  unfoldable pub earnings_of : PayProfileInput → ℕ → List Day → List PayrollDayInput → Earnings
  earnings_of profile divisor active_dates days =
      let ordinary = ordinary_day_sen doubles profile.pay_type profile divisor in
      let t =
        days_tally doubles profile ordinary empty_tally (active_days doubles active_dates days) in
      record {
        tally = t;
        base_pay_sen = base_pay_sen doubles profile active_dates;
        regular_pay_sen = pay_for_minutes doubles profile.pay_type profile t.regular_minutes;
        paid_leave_pay_sen = pay_for_minutes doubles profile.pay_type profile t.paid_leave_minutes;
        overtime_pay_sen = overtime_pay doubles profile ordinary t.overtime_minutes;
      }
