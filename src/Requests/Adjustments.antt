-- ===== src/Requests/Adjustments.antt =====
-- requests-v2.controller.ts: the review of a correction of a locked timesheet, the two databases, and a
-- GPS clock exception that is approved.
use employee_attendance.Prelude.{
  ℕ, ◌+◌, ◌≡◌, refl, sym, ap, ◌∙◌, String, true, Option, none, some, ◌∷◌, arith, if◌then◌else◌,
  or_else,
}
use mathlib.Core.Path.{}
use employee_attendance.Prelude.Int.{pos, ◌+ℤ◌, ◌-ℤ◌}
use employee_attendance.Prelude.Result.{ok, ok-injective}
use employee_attendance.Requests.{approve_request, TimesheetDay}
use employee_attendance.Requests.Corrections.{
  CorrectionRequest, PayrollAdjustment, CorrectionStore, find_timesheet, is_locked_state,
  gross_minutes,
}
use employee_attendance.Requests.Reviewing.{
  CorrectionReview, approves, apply_correction, adjust_locked, correct_open, adjustment,
  adjustment_minutes, review_correction, find_pending_correction,
}
use employee_attendance.Requests.Recalculation.{IsWorked, gross_minutes-IsWorked}
use employee_attendance.Requests.LockedDays.{review_correction_parts}

adjustment_total : (g r o : ℕ) → pos g -ℤ pos r -ℤ pos o +ℤ pos (r + o) ≡ pos g
unfolding ◌-ℤ◌ ◌+ℤ◌
adjustment_total g r o = ground (arith)

-- What a review has done that found a locked timesheet and approved.
abbrev pub IsAdjusted :
    CorrectionRequest → TimesheetDay → CorrectionStore → CorrectionStore → Type 0
IsAdjusted c t s s' =
    (a : PayrollAdjustment) × (s'.adjustments ≡ a ∷ s.adjustments)
    × (t.pay_period_id ≡ some a.pay_period_id)
    × (a.correction_id ≡ c.id)
    × (a.minutes +ℤ pos (t.regular_minutes + t.overtime_minutes)
        ≡ pos (gross_minutes c.requested t))
    × IsWorked c.requested t (gross_minutes c.requested t)

apply_locked :
    (v : CorrectionReview) (c : CorrectionRequest) (t : TimesheetDay) (threshold : ℕ)
    (period : Option String) (s s' : CorrectionStore)
    → t.pay_period_id ≡ period
    → adjust_locked v c t threshold period s ≡ ok s'
    → IsAdjusted c t s s'
      × (s'.timesheets ≡ s.timesheets)
      × (s'.events ≡ s.events)
      × (s'.records ≡ s.records)
unfolding adjustment_minutes
apply_locked v c t threshold none s s' of_period done = cc
apply_locked v c t threshold (some p) s s' of_period done =
    let at = ok-injective _ _ done in
    (
      (
        adjustment v c t threshold p,
        ap (λ x. x.adjustments) (sym at),
        of_period,
        refl,
        adjustment_total (gross_minutes c.requested t) t.regular_minutes t.overtime_minutes,
        gross_minutes-IsWorked c.requested t,
      ),
      ap (λ x. x.timesheets) (sym at),
      ap (λ x. x.events) (sym at),
      ap (λ x. x.records) (sym at),
    )

-- A review of a correction that succeeds is of a pending one; if it approves and the timesheet is
-- locked, timesheets, events and records stay as they are, and one adjustment is added to the pay period
-- of the timesheet, whose minutes lead from the regular and overtime minutes that are paid to the time
-- between the requested instants less the breaks.
pub review_correction_locked :
    (v : CorrectionReview) (id : String) (s s' : CorrectionStore)
    → v.decision ≡ approve_request
    → review_correction v id s ≡ ok s'
    → (c : CorrectionRequest) × (t : TimesheetDay) × (find_pending_correction v id s.corrections
        ≡ some c)
      × (find_timesheet c.day s.timesheets ≡ some t)
      × (is_locked_state t.state ≡ true
          → IsAdjusted c t s s'
            × (s'.timesheets ≡ s.timesheets)
            × (s'.events ≡ s.events)
            × (s'.records ≡ s.records))
unfolding apply_correction
review_correction_locked v id s s' accepted done =
    let (c, t, applied_store, read, found, _, applied, at) =
      review_correction_parts v id s s' done in
    let threshold = or_else v.overtime_threshold 480 in
    let approving =
      sym (ap (λ d. if approves d then apply_correction v c t s else ok s) accepted) ∙ applied in
    (
      c,
      t,
      read,
      found,
      λ is_locked.
          let adjusting =
            sym (
              ap
                (λ b.
                  if b
                  then adjust_locked v c t threshold t.pay_period_id s
                  else ok (correct_open v c t threshold s))
                is_locked)
            ∙ approving in
          let ((a, added, period, of_correction, total, worked), days, events, records) =
            apply_locked v c t threshold t.pay_period_id s applied_store refl adjusting in
          (
            (a, ap (λ x. x.adjustments) at ∙ added, period, of_correction, total, worked),
            ap (λ x. x.timesheets) at ∙ days,
            ap (λ x. x.events) at ∙ events,
            ap (λ x. x.records) at ∙ records,
          ),
    )
