-- ===== src/Requests/Awaiting.antt =====
-- requests-v2.controller.ts: the life of the corrections, as the steps of their handlers, each with
-- nothing between its reads and its writes.
use employee_attendance.Prelude.{
  ◌≡◌, refl, sym, ap, ◌∙◌, String, same_text, Bool, false, not, ◌&&◌, ◌||◌, List, [], ◌∷◌, arith,
  Bool-cases, inl, inr, if◌then◌else◌, update_where, is_some,
}
use mathlib.Core.Path.{subst}
use employee_attendance.Prelude.Result.{ok, >>=-eq-ok, throw_if-eq-ok, ok-injective}
use employee_attendance.Requests.{TimesheetDay, DayKey, is_pending}
use employee_attendance.Requests.Reviews.{decided_status}
use employee_attendance.Requests.Corrections.{
  CorrectionRequest, CorrectionForm, CorrectionStore, Claimant, create_correction, new_correction,
  find_timesheet, found_timesheet, has_pending, own_day, timesheet_not_found, correction_pending,
  timesheet_locked, employee_required, clock_in_already_recorded, invalid_clock_exception,
}
use employee_attendance.Requests.ClockExceptions.{
  ClockException, create_clock_exception, new_exception, is_locked_day, clocks_in, clock_in_of,
  clock_out_of,
}
use employee_attendance.Requests.Reviewing.{
  CorrectionReview, decide_correction, decided, apply_correction, gps_adjustment, review_correction,
}
use employee_attendance.Requests.LockedDays.{
  KeepsLocked, review_correction_parts, review_correction-KeepsLocked,
  create_correction-KeepsLocked, create_clock_exception-KeepsLocked,
}

pub data CorrectionStep : CorrectionStore → CorrectionStore → Type 0 where
  asking :
      {s s' : CorrectionStore} (c : Claimant) (f : CorrectionForm) (id : String)
      → create_correction c f id s ≡ ok s'
      → CorrectionStep s s'
  excepting :
      {s s' : CorrectionStore} (c : Claimant) (x : ClockException) (id day_id : String)
      → create_clock_exception c x id day_id s ≡ ok s'
      → CorrectionStep s s'
  correcting :
      {s s' : CorrectionStore} (v : CorrectionReview) (id : String)
      → review_correction v id s ≡ ok s'
      → CorrectionStep s s'

pub data CorrectionSteps : CorrectionStore → CorrectionStore → Type 0 where
  settled : {s : CorrectionStore} → CorrectionSteps s s
  next :
      {s s' s'' : CorrectionStore}
      → CorrectionStep s s'
      → CorrectionSteps s' s''
      → CorrectionSteps s s''

-- No day has two pending corrections.
abbrev pub HasOnePending : List CorrectionRequest → Type 0
HasOnePending [] = Unit
HasOnePending (c ∷ cs) = ((is_pending c.status && has_pending c.day cs) ≡ false) × HasOnePending cs

decide_correction-status :
    (v : CorrectionReview) (c : CorrectionRequest)
    → is_pending (decide_correction v c).status ≡ false
unfolding decide_correction decided_status
decide_correction-status v c = ground (arith)

has_pending-decided :
    (v : CorrectionReview) (test : CorrectionRequest → Bool) (k : DayKey)
    (cs : List CorrectionRequest)
    → has_pending k cs ≡ false
    → has_pending k (update_where test (decide_correction v) cs) ≡ false
has_pending-decided v test k [] h = refl
has_pending-decided v test k (c ∷ cs) h =
    let closed = decide_correction-status v c in ground (arith, has_pending-decided v test k cs)

still_one :
    (v : CorrectionReview) (test : CorrectionRequest → Bool) (c : CorrectionRequest)
    (cs : List CorrectionRequest)
    → (is_pending c.status && has_pending c.day cs) ≡ false
    → (is_pending c.status && has_pending c.day (update_where test (decide_correction v) cs))
      ≡ false
still_one v test c cs p = ground (arith, has_pending-decided v test c.day cs)

update_where-HasOnePending :
    (v : CorrectionReview) (test : CorrectionRequest → Bool) (cs : List CorrectionRequest)
    → HasOnePending cs
    → HasOnePending (update_where test (decide_correction v) cs)
update_where-HasOnePending v test [] h = tt
update_where-HasOnePending v test (c ∷ cs) (p, ps) =
    let rest = update_where-HasOnePending v test cs ps in
    let closed = decide_correction-status v c in
    elim (Bool-cases (test c)) [
      | inl here ↦
          let head : (if test c then decide_correction v c else c) ≡ decide_correction v c =
            ground (arith) in
          (
            ap
                  (λ d.
                    is_pending d.status
                    && has_pending d.day (update_where test (decide_correction v) cs))
                  head
                ∙ ap
                    (λ b.
                      b
                      && has_pending (decide_correction v c).day
                          (update_where test (decide_correction v) cs))
                    closed,
            rest,
          )
      | inr there ↦
          let head : (if test c then decide_correction v c else c) ≡ c = ground (arith) in
          (
            ap
                  (λ d.
                    is_pending d.status
                    && has_pending d.day (update_where test (decide_correction v) cs))
                  head
                ∙ still_one v test c cs p,
            rest,
          )
    ]

gps_adjustment-corrections :
    (v : CorrectionReview) (c : CorrectionRequest) (s : CorrectionStore)
    → (gps_adjustment v c s).corrections ≡ s.corrections
unfolding gps_adjustment
gps_adjustment-corrections v c s = ground (arith)

decided-corrections :
    (v : CorrectionReview) (c : CorrectionRequest) (t : TimesheetDay) (s s' : CorrectionStore)
    → decided v c t s ≡ ok s'
    → s'.corrections ≡ s.corrections
unfolding apply_correction
decided-corrections v c t s s' done = let kept = gps_adjustment-corrections v c s in ground (arith)

review_correction-HasOnePending :
    (v : CorrectionReview) (id : String) (s s' : CorrectionStore)
    → review_correction v id s ≡ ok s'
    → HasOnePending s.corrections
    → HasOnePending s'.corrections
review_correction-HasOnePending v id s s' done h =
    let (c, t, applied_store, _, _, _, applied, at) = review_correction_parts v id s s' done in
    let same = decided-corrections v c t s applied_store applied in
    subst (λ x. HasOnePending x.corrections) (sym at)
      (subst
        (λ cs. HasOnePending (update_where (λ d. same_text d.id c.id) (decide_correction v) cs))
        (sym same) (update_where-HasOnePending v (λ d. same_text d.id c.id) s.corrections h))

create_correction-HasOnePending :
    (c : Claimant) (f : CorrectionForm) (id : String) (s s' : CorrectionStore)
    → create_correction c f id s ≡ ok s'
    → HasOnePending s.corrections
    → HasOnePending s'.corrections
unfolding create_correction new_correction
create_correction-HasOnePending c f id s s' done h =
    let k = own_day c f.work_date in
    let (t, _, rest) =
      >>=-eq-ok (found_timesheet (find_timesheet k s.timesheets) timesheet_not_found) _ done in
    let (free, written) = throw_if-eq-ok (has_pending k s.corrections) correction_pending _ rest in
    subst (λ x. HasOnePending x.corrections) (ok-injective _ _ written) (free, h)

create_clock_exception-HasOnePending :
    (c : Claimant) (x : ClockException) (id day_id : String) (s s' : CorrectionStore)
    → create_clock_exception c x id day_id s ≡ ok s'
    → HasOnePending s.corrections
    → HasOnePending s'.corrections
unfolding create_clock_exception new_exception
create_clock_exception-HasOnePending c x id day_id s s' done h =
    let k = own_day c x.work_date in
    let o = find_timesheet k s.timesheets in
    let (_, a) =
      throw_if-eq-ok (not (is_some c.client_id && c.is_active)) employee_required _ done in
    let (_, b) = throw_if-eq-ok (is_locked_day o) timesheet_locked _ a in
    let (free, d) = throw_if-eq-ok (has_pending k s.corrections) correction_pending _ b in
    let (_, e) =
      throw_if-eq-ok (clocks_in x.action && is_some (clock_in_of o)) clock_in_already_recorded _
        d in
    let (_, written) =
      throw_if-eq-ok
        (not (clocks_in x.action) && (not (is_some (clock_in_of o)) || is_some (clock_out_of o)))
        invalid_clock_exception _ e in
    subst (λ x. HasOnePending x.corrections) (ok-injective _ _ written) (free, h)

CorrectionStep-holds :
    {s s' : CorrectionStore}
    → CorrectionStep s s'
    → KeepsLocked s s' × (HasOnePending s.corrections → HasOnePending s'.corrections)
CorrectionStep-holds {s} {s'} (asking c f id done) = (
  create_correction-KeepsLocked c f id s s' done,
  create_correction-HasOnePending c f id s s' done,
)
CorrectionStep-holds {s} {s'} (excepting c x id day_id done) = (
  create_clock_exception-KeepsLocked c x id day_id s s' done,
  create_clock_exception-HasOnePending c x id day_id s s' done,
)
CorrectionStep-holds {s} {s'} (correcting v id done) =
    (review_correction-KeepsLocked v id s s' done, review_correction-HasOnePending v id s s' done)

-- Whatever corrections and GPS exceptions are asked for and reviewed, each with nothing between its
-- reads and its writes, every locked timesheet stays as it is, and if no day had two pending
-- corrections, none has.
pub CorrectionSteps-holds :
    {s s' : CorrectionStore}
    → CorrectionSteps s s'
    → KeepsLocked s s' × (HasOnePending s.corrections → HasOnePending s'.corrections)
CorrectionSteps-holds settled = (λ k t found is_locked. found, λ h. h)
CorrectionSteps-holds (next step rest) =
    let (kept, one) = CorrectionStep-holds step in
    let (kept', one') = CorrectionSteps-holds rest in
    (λ k t found is_locked. kept' k t (kept k t found is_locked) is_locked, λ h. one' (one h))
