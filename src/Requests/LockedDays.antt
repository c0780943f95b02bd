-- ===== src/Requests/LockedDays.antt =====
-- requests-v2.controller.ts: a locked timesheet is never corrected: a correction of it becomes an
-- adjustment of the payroll.
use employee_attendance.Prelude.{
  ℕ, ◌≡◌, refl, sym, ap, ◌∙◌, String, Bool, true, false, not, ◌&&◌, ◌||◌, Option, none, some, List,
  arith, Bool-cases, Option-cases, inl, inr, if◌then◌else◌, or_else, is_some, update_row,
  change_found, find_row-update_row_other, find_row-upsert_row,
}
use mathlib.Core.Path.{}
use mathlib.Core.Bool.{true≢false}
use employee_attendance.Prelude.Int.{}
use employee_attendance.Prelude.Result.{Result, ok, err, >>=-eq-ok, throw_if-eq-ok, ok-injective}
use employee_attendance.Timesheet.{}
use employee_attendance.Requests.{TimesheetDay, DayKey, same_day, same_day_iff}
use employee_attendance.Requests.Corrections.{
  CorrectionRequest, CorrectionForm, CorrectionStore, CorrectionError, Claimant, create_correction,
  correction_stale, find_timesheet, found_timesheet, has_pending, own_day, is_locked_state,
  correct_day, corrected_timesheet, timesheet_not_found, correction_pending, timesheet_locked,
  employee_required, clock_in_already_recorded, invalid_clock_exception,
}
use employee_attendance.Requests.ClockExceptions.{
  ClockException, create_clock_exception, excepted_day, await_review, is_locked_day, clocks_in,
  clock_in_of, clock_out_of,
}
use employee_attendance.Requests.Reviewing.{
  CorrectionReview, write_correction_review, decided, approves, apply_correction, adjust_locked,
  correct_open, gps_adjustment, close_correction, check_review, is_stale, review_found_correction,
  find_pending_correction, review_correction,
}

-- Each locked timesheet stays as it is.
abbrev pub KeepsLocked : CorrectionStore → CorrectionStore → Type 0
KeepsLocked s s' =
    (k : DayKey) (t : TimesheetDay)
    → find_timesheet k s.timesheets ≡ some t
    → is_locked_state t.state ≡ true
    → find_timesheet k s'.timesheets ≡ some t

KeepsLocked-same : (s s' : CorrectionStore) → s'.timesheets ≡ s.timesheets → KeepsLocked s s'
KeepsLocked-same s s' same k t found is_locked = ap (find_timesheet k) same ∙ found

adjust_gps-timesheets :
    (v : CorrectionReview) (c : CorrectionRequest) (s : CorrectionStore)
    → (gps_adjustment v c s).timesheets ≡ s.timesheets
unfolding gps_adjustment
adjust_gps-timesheets v c s = ground (arith)

-- A row with another key stays.
update-other :
    (k other : DayKey) (f : TimesheetDay → TimesheetDay)
    → ((t : TimesheetDay) → (f t).key ≡ t.key)
    → (ts : List TimesheetDay) (t u : TimesheetDay) → find_timesheet k ts ≡ some t
    → is_locked_state t.state ≡ false
    → find_timesheet other ts ≡ some u
    → is_locked_state u.state ≡ true
    → find_timesheet other (update_row (λ d. d.key) same_day k f ts) ≡ some u
update-other k other f keeps ts t u found not_locked there is_locked =
    elim (Bool-cases (same_day k other)) [
      | inl same ↦
          let at = ap (λ x. find_timesheet x ts) ((same_day_iff k other).0 same) in ground (arith)
      | inr apart ↦
          find_row-update_row_other (λ d. d.key) same_day same_day_iff k f keeps other apart ts
          ∙ there
    ]

adjusted :
    (v : CorrectionReview) (c : CorrectionRequest) (t : TimesheetDay) (threshold : ℕ)
    (period : Option String) (s s' : CorrectionStore)
    → adjust_locked v c t threshold period s ≡ ok s'
    → KeepsLocked s s'
adjusted v c t threshold none s s' done = cc
adjusted v c t threshold (some p) s s' done =
    KeepsLocked-same s s' (ap (λ x. x.timesheets) (sym (ok-injective _ _ done)))

apply_correction-KeepsLocked :
    (v : CorrectionReview) (c : CorrectionRequest) (t : TimesheetDay) (s s' : CorrectionStore)
    → find_timesheet c.day s.timesheets ≡ some t
    → apply_correction v c t s ≡ ok s'
    → KeepsLocked s s'
unfolding apply_correction correct_day
apply_correction-KeepsLocked v c t s s' found done =
    let threshold = or_else v.overtime_threshold 480 in
    let branches = λ (b : Bool).
      if b
      then adjust_locked v c t threshold t.pay_period_id s
      else ok (correct_open v c t threshold s) in
    elim (Bool-cases (is_locked_state t.state)) [
      | inl is_locked ↦
          adjusted v c t threshold t.pay_period_id s s' (sym (ap branches is_locked) ∙ done)
      | inr not_locked ↦ λ k u there is_locked.
          let at =
            ok-injective (correct_open v c t threshold s) s'
              (sym (ap branches not_locked) ∙ done) in
          ap (λ x. find_timesheet k x.timesheets) (sym at)
          ∙ ap
              (λ x. find_timesheet k (
                update_row (λ d. d.key) same_day c.day
                  (correct_day (corrected_timesheet c.requested t threshold)) x))
              (adjust_gps-timesheets v c s)
          ∙ update-other c.day k (correct_day (corrected_timesheet c.requested t threshold))
              (λ d. refl) s.timesheets t u found not_locked there is_locked
    ]

err≢ok :
    {e : CorrectionError} {s : CorrectionStore}
    → ◌≡◌ {A = Result CorrectionError CorrectionStore} (err e) (ok s)
    → ⊥
err≢ok h = cc

-- The parts of a review of a correction that succeeds.
pub review_correction_parts :
    (v : CorrectionReview) (id : String) (s s' : CorrectionStore)
    → review_correction v id s ≡ ok s'
    → (c : CorrectionRequest) × (t : TimesheetDay) × (applied_store : CorrectionStore)
      × (find_pending_correction v id s.corrections ≡ some c)
      × (find_timesheet c.day s.timesheets ≡ some t)
      × (is_stale v.decision c.requested t ≡ false)
      × (decided v c t s ≡ ok applied_store)
      × (s' ≡ close_correction v c applied_store)
unfolding review_correction write_correction_review
review_correction_parts v id s s' done =
    elim (Option-cases (find_pending_correction v id s.corrections)) [
      | inl nothing ↦ absurd (err≢ok (sym (ap (λ o. review_found_correction v o s) nothing) ∙ done))
      | inr (c, found) ↦
          let checked = sym (ap (λ o. review_found_correction v o s) found) ∙ done in
          elim (Option-cases (find_timesheet c.day s.timesheets)) [
            | inl missing ↦ absurd (err≢ok (sym (ap (λ o. check_review v c o s) missing) ∙ checked))
            | inr (t, there) ↦
                let written = sym (ap (λ o. check_review v c o s) there) ∙ checked in
                let (fresh, rest) =
                  throw_if-eq-ok (is_stale v.decision c.requested t) correction_stale _ written in
                let (applied_store, applied, closed) = >>=-eq-ok (decided v c t s) _ rest in
                (c, t, applied_store, found, there, fresh, applied, sym (ok-injective _ _ closed))
          ]
    ]

decided-KeepsLocked :
    (v : CorrectionReview) (c : CorrectionRequest) (t : TimesheetDay) (s s' : CorrectionStore)
    → find_timesheet c.day s.timesheets ≡ some t
    → decided v c t s ≡ ok s'
    → KeepsLocked s s'
decided-KeepsLocked v c t s s' there done = elim (Bool-cases (approves v.decision)) [
  | inl accepted ↦
      apply_correction-KeepsLocked v c t s s' there
        (sym (ap (λ b. if b then apply_correction v c t s else ok s) accepted) ∙ done)
  | inr rejected ↦ KeepsLocked-same s s' (
      ap (λ x. x.timesheets)
        (sym (
          ok-injective s s'
            (sym (ap (λ b. if b then apply_correction v c t s else ok s) rejected) ∙ done))))
]

pub review_correction-KeepsLocked :
    (v : CorrectionReview) (id : String) (s s' : CorrectionStore)
    → review_correction v id s ≡ ok s'
    → KeepsLocked s s'
review_correction-KeepsLocked v id s s' done k u there is_locked =
    let (c, t, applied_store, _, found, _, applied, at) = review_correction_parts v id s s' done in
    ap (λ x. find_timesheet k x.timesheets) at
    ∙ decided-KeepsLocked v c t s applied_store found applied k u there is_locked

pub create_correction-KeepsLocked :
    (c : Claimant) (f : CorrectionForm) (id : String) (s s' : CorrectionStore)
    → create_correction c f id s ≡ ok s'
    → KeepsLocked s s'
unfolding create_correction
create_correction-KeepsLocked c f id s s' done =
    let k = own_day c f.work_date in
    let (t, _, rest) =
      >>=-eq-ok (found_timesheet (find_timesheet k s.timesheets) timesheet_not_found) _ done in
    let (_, written) = throw_if-eq-ok (has_pending k s.corrections) correction_pending _ rest in
    KeepsLocked-same s s' (ap (λ x. x.timesheets) (sym (ok-injective _ _ written)))

pub create_clock_exception-KeepsLocked :
    (c : Claimant) (x : ClockException) (id day_id : String) (s s' : CorrectionStore)
    → create_clock_exception c x id day_id s ≡ ok s'
    → KeepsLocked s s'
unfolding create_clock_exception excepted_day await_review
create_clock_exception-KeepsLocked c x id day_id s s' done other u there is_locked =
    let k = own_day c x.work_date in
    let o = find_timesheet k s.timesheets in
    let (_, a) =
      throw_if-eq-ok (not (is_some c.client_id && c.is_active)) employee_required _ done in
    let (unlocked, b) = throw_if-eq-ok (is_locked_day o) timesheet_locked _ a in
    let (_, d) = throw_if-eq-ok (has_pending k s.corrections) correction_pending _ b in
    let (_, e) =
      throw_if-eq-ok (clocks_in x.action && is_some (clock_in_of o)) clock_in_already_recorded _
        d in
    let (_, written) =
      throw_if-eq-ok
        (not (clocks_in x.action) && (not (is_some (clock_in_of o)) || is_some (clock_out_of o)))
        invalid_clock_exception _ e in
    let row =
      find_row-upsert_row (λ t. t.key) same_day same_day_iff k await_review (λ t. refl)
        (excepted_day day_id c k) refl other s.timesheets in
    ap (λ x. find_timesheet other x.timesheets) (sym (ok-injective _ _ written))
    ∙ row
    ∙ elim (Bool-cases (same_day k other)) [
      | inl same ↦
          let at = ap (λ x. find_timesheet x s.timesheets) ((same_day_iff k other).0 same) in
          let here = at ∙ there in
          let wrong : is_locked_day o ≡ true = ap is_locked_day here ∙ is_locked in
          absurd (true≢false (sym wrong ∙ unlocked))
      | inr apart ↦
          ap
            (λ b.
              if b
              then some (or_else (change_found await_review o) (excepted_day day_id c k))
              else find_timesheet other s.timesheets)
            apart
          ∙ there
    ]
