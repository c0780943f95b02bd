-- ===== src/Requests/Approved.antt =====
-- requests-v2.controller.ts: a GPS clock exception from its request to its approval, and the review of a
-- correction on the two databases.
use employee_attendance.Prelude.{
  ℕ, ◌≡◌, refl, ap, ◌∙◌, String, eq_iff, true, false, not, ◌&&◌, ◌||◌, Option, none, some, List,
  ◌∷◌, arith, if◌then◌else◌, or_else, is_some, change_found, find_row-update_row,
  find_row-upsert_row,
}
use mathlib.Core.Path.{subst}
use employee_attendance.Prelude.Result.{ok, ◌>>=◌, ◌>>◌, throw_if, throw_if-eq-ok, ok-injective}
use employee_attendance.Requests.{approve_request, TimesheetDay, DayKey, same_day, same_day_iff}
use employee_attendance.Requests.Corrections.{
  CorrectionRequest, CorrectionStore, AdjustmentEvent, Claimant, find_timesheet, has_pending,
  own_day, is_locked_state, correct_day, corrected_timesheet, timesheet_locked, employee_required,
  correction_pending, clock_in_already_recorded, invalid_clock_exception, correction_stale,
  ClockAction, asks_clock_in, asks_clock_out,
}
use employee_attendance.Requests.ClockExceptions.{
  ClockException, create_clock_exception, excepted_day, await_review, new_exception,
  requested_values, write_awaiting, is_locked_day, clocks_in, clock_in_of, clock_out_of,
}
use employee_attendance.Requests.Reviewing.{
  CorrectionReview, approves, apply_correction, adjust_locked, correct_open, gps_adjustment,
  close_correction, write_correction_review, check_review, is_stale, review_found_correction,
  find_pending_correction, review_correction,
}

-- The timesheet that awaits the review.
abbrev awaiting : String → Claimant → DayKey → Option TimesheetDay → TimesheetDay
awaiting day_id c k o = or_else (change_found await_review o) (excepted_day day_id c k)

awaiting_lem :
    (day_id : String) (c : Claimant) (k : DayKey) (o : Option TimesheetDay)
    → ((awaiting day_id c k o).first_clock_in_at ≡ clock_in_of o)
      × ((awaiting day_id c k o).last_clock_out_at ≡ clock_out_of o)
      × (is_locked_state (awaiting day_id c k o).state ≡ false)
unfolding await_review excepted_day
awaiting_lem day_id c k none = (refl, refl, refl)
awaiting_lem day_id c k (some t) = (refl, refl, refl)

-- A request that was accepted is not stale for the timesheet that awaits it.
not_stale :
    (x : ClockException) (o : Option TimesheetDay) (t : TimesheetDay) (v : CorrectionReview)
    → t.first_clock_in_at ≡ clock_in_of o
    → t.last_clock_out_at ≡ clock_out_of o
    → (clocks_in x.action && is_some (clock_in_of o)) ≡ false
    → (not (clocks_in x.action) && (not (is_some (clock_in_of o)) || is_some (clock_out_of o)))
      ≡ false
    → is_stale v.decision (requested_values x o) t ≡ false
unfolding is_stale requested_values
not_stale x o t v first last free paired =
    let a = ap is_some first in let b = ap is_some last in ground (arith)

abbrev clock_of : ClockAction → TimesheetDay → Option ℕ
clock_of asks_clock_in t = t.first_clock_in_at
clock_of asks_clock_out t = t.last_clock_out_at

-- What the approval has recorded.
abbrev pub IsRecorded : ClockException → DayKey → CorrectionStore → Type 0
IsRecorded x k s =
    ((t : TimesheetDay) × (find_timesheet k s.timesheets ≡ some t)
      × (clock_of x.action t ≡ some x.now))
    × ((e : AdjustmentEvent) × (rest : List AdjustmentEvent) × (s.events ≡ e ∷ rest)
        × (e.day ≡ k)
        × (e.action ≡ x.action)
        × (e.occurred_at ≡ x.now))

corrected-clock :
    (x : ClockException) (o : Option TimesheetDay) (t : TimesheetDay) (threshold : ℕ)
    → clock_of x.action (correct_day (corrected_timesheet (requested_values x o) t threshold) t)
      ≡ some x.now
unfolding correct_day corrected_timesheet requested_values
corrected-clock x o t threshold = ground (arith)

approved-IsRecorded :
    (v : CorrectionReview) (c : Claimant) (x : ClockException) (id : String)
    (o : Option TimesheetDay) (t : TimesheetDay) (s : CorrectionStore)
    → find_timesheet (own_day c x.work_date) s.timesheets ≡ some t
    → IsRecorded x (own_day c x.work_date) (
        close_correction v (new_exception c x id (own_day c x.work_date) o) (
          correct_open v
            (new_exception c x id (own_day c x.work_date) o)
            t
            (or_else v.overtime_threshold 480)
            s))
unfolding gps_adjustment new_exception requested_values correct_day corrected_timesheet
approved-IsRecorded v c x id o t s there =
    let k = own_day c x.work_date in
    let f =
      correct_day
        (corrected_timesheet (requested_values x o) t (or_else v.overtime_threshold 480)) in
    let row = find_row-update_row (λ d. d.key) same_day same_day_iff k f (λ d. refl) s.timesheets in
    (
      (
        f t,
        row ∙ ap (change_found f) there,
        corrected-clock x o t (or_else v.overtime_threshold 480),
      ),
      (_, s.events, refl, refl, refl, refl),
    )

abbrev requested : Claimant → ClockException → String → String → CorrectionStore → CorrectionStore
requested c x id day_id s =
    let k = own_day c x.work_date in
    record s {
      timesheets = write_awaiting day_id c k s.timesheets;
      corrections = new_exception c x id k (find_timesheet k s.timesheets) ∷ s.corrections;
    }

awaiting_row :
    (day_id : String) (c : Claimant) (k : DayKey) (ts : List TimesheetDay)
    → find_timesheet k (write_awaiting day_id c k ts)
      ≡ some (awaiting day_id c k (find_timesheet k ts))
unfolding await_review excepted_day
awaiting_row day_id c k ts =
    find_row-upsert_row (λ t. t.key) same_day same_day_iff k await_review (λ t. refl)
      (excepted_day day_id c k) refl k ts
    ∙ ap (λ b. if b then some (awaiting day_id c k (find_timesheet k ts)) else find_timesheet k ts)
        ((same_day_iff k k).1 refl)

read_first :
    (v : CorrectionReview) (c : Claimant) (x : ClockException) (id : String) (k : DayKey)
    (o : Option TimesheetDay) (cs : List CorrectionRequest)
    → v.in_scope k.employee_id ≡ true
    → find_pending_correction v id (new_exception c x id k o ∷ cs) ≡ some (new_exception c x id k o)
unfolding find_pending_correction new_exception
read_first v c x id k o cs scope = let same = (eq_iff id id).1 refl in ground (arith)

-- A GPS clock exception that was accepted can be approved, by a reviewer in whose scope the employee
-- is, as long as nothing came between: the review succeeds, the timesheet of the day then has the
-- instant of the request as its clock-in or clock-out, and an event of the same action and instant is
-- added.
pub create_clock_exception-approved :
    (c : Claimant) (x : ClockException) (id day_id : String) (v : CorrectionReview)
    (s s' : CorrectionStore)
    → create_clock_exception c x id day_id s ≡ ok s'
    → v.decision ≡ approve_request
    → v.in_scope c.employee_id ≡ true
    → (s'' : CorrectionStore) × (review_correction v id s' ≡ ok s'')
      × IsRecorded x (own_day c x.work_date) s''
unfolding create_clock_exception review_correction find_pending_correction write_correction_review
    apply_correction new_exception
create_clock_exception-approved c x id day_id v s s' done accepted scope =
    let k = own_day c x.work_date in
    let o = find_timesheet k s.timesheets in
    let n = new_exception c x id k o in
    let t = awaiting day_id c k o in
    let (_, a) =
      throw_if-eq-ok (not (is_some c.client_id && c.is_active)) employee_required _ done in
    let (unlocked, b) = throw_if-eq-ok (is_locked_day o) timesheet_locked _ a in
    let (_, d) = throw_if-eq-ok (has_pending k s.corrections) correction_pending _ b in
    let (free, e) =
      throw_if-eq-ok (clocks_in x.action && is_some (clock_in_of o)) clock_in_already_recorded _
        d in
    let (paired, written) =
      throw_if-eq-ok
        (not (clocks_in x.action) && (not (is_some (clock_in_of o)) || is_some (clock_out_of o)))
        invalid_clock_exception _ e in
    let at = ok-injective _ _ written in
    let (first, last, is_open) = awaiting_lem day_id c k o in
    let there = awaiting_row day_id c k s.timesheets in
    let z = correct_open v n t (or_else v.overtime_threshold 480) (requested c x id day_id s) in
    (
      close_correction v n z,
      subst (λ y. review_correction v id y ≡ ok (close_correction v n z)) at
          (ap (λ p. review_found_correction v p (requested c x id day_id s))
              (read_first v c x id k o s.corrections scope)
            ∙ ap (λ p. check_review v n p (requested c x id day_id s)) there
            ∙ ap
                (λ p.
                  throw_if p correction_stale
                  >> write_correction_review v n t (requested c x id day_id s))
                (not_stale x o t v first last free paired)
            ∙ ap
                (λ p.
                  (if approves p
                    then apply_correction v n t (requested c x id day_id s)
                    else ok (requested c x id day_id s))
                  >>= λ y. ok (close_correction v n y))
                accepted
            ∙ ap
                (λ p.
                  (if p
                    then adjust_locked v n t (or_else v.overtime_threshold 480) t.pay_period_id
                        (requested c x id day_id s)
                    else ok z)
                  >>= λ y. ok (close_correction v n y))
                is_open),
      approved-IsRecorded v c x id o t (requested c x id day_id s) there,
    )
