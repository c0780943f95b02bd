-- ===== src/PayPeriod/Transition/Machine.antt =====
-- The pay period as a state machine: its transitions are steps, exports read and later write it, and
-- between them other requests change all but the period.
use employee_attendance.Prelude.{
  ℕ, ◌≡◌, ◌⊎◌, refl, sym, ap, ◌∙◌, not, String, true, none, arith, is_some,
}
use mathlib.Core.Path.{subst}
use employee_attendance.Prelude.Result.{ok-injective, ok, err, >>=-eq-ok, throw_if-eq-ok}
use employee_attendance.PayPeriod.{
  Organization, PayPeriod, PayPeriodStatus, draft, reviewed, locked, exported, TransitionAction,
  review, approve, lock, reopen, CalculationRun, invalid_pay_period_transition,
}
use employee_attendance.PayPeriod.Exports.{
  is_exportable, request_export, generate_direct_export, mark_exported, pay_period_not_locked,
}
use employee_attendance.PayPeriod.Review.{assert_reviewable}
use employee_attendance.PayPeriod.Transition.{
  valid_transition, reopen_period, review_period, approve_period, perform, transition_pay_period,
}
use employee_attendance.PayPeriod.Transition.Checks.{
  transition_parts, lock_result, valid_lock, locked_fields, is_run-eq,
}

-- What the fields of a period record at each status.
abbrev pub IsRecorded : PayPeriodStatus → PayPeriod → Type 0
IsRecorded draft p = p.approved_calculation_run_id ≡ none
IsRecorded reviewed p =
    (is_some p.reviewed_calculation_run_id ≡ true)
    × (is_some p.reviewed_by_user_id ≡ true)
    × (p.approved_calculation_run_id ≡ none)
IsRecorded PayPeriodStatus.approved p =
    (is_some p.approved_calculation_run_id ≡ true)
    × (p.reviewed_calculation_run_id ≡ p.approved_calculation_run_id)
    × (is_some p.reviewed_by_user_id ≡ true)
    × (is_some p.approved_by_user_id ≡ true)
IsRecorded _ p =
    (is_some p.approved_calculation_run_id ≡ true)
    × (p.reviewed_calculation_run_id ≡ p.approved_calculation_run_id)
    × (is_some p.reviewed_by_user_id ≡ true)
    × (is_some p.approved_by_user_id ≡ true)

abbrev pub IsSound : PayPeriod → Type 0
IsSound p = IsRecorded p.status p

pub data Step : Organization → Organization → Type 0 where
  transition :
      {o o' : Organization} (action : TransitionAction) (now : ℕ) (actor : String)
      → transition_pay_period o action now actor ≡ ok o'
      → Step o o'
  other : {o o' : Organization} → o'.period ≡ o.period → Step o o'

-- An export is admitted by what it reads, and marks the period after whatever was done meanwhile.
pub data Reach : Organization → Organization → Type 0 where
  here : {s : Organization} → Reach s s
  next : {s o o' : Organization} → Reach s o → Step o o' → Reach s o'
  queued_export :
      {s asked o : Organization} (p : PayPeriod)
      → Reach s asked
      → request_export asked ≡ ok p
      → Reach asked o
      → Reach s (mark_exported o)
  direct_export :
      {s asked o : Organization} (run : CalculationRun)
      → Reach s asked
      → generate_direct_export asked ≡ ok run
      → Reach asked o
      → Reach s (mark_exported o)

-- A period that is locked or exported takes no action.
pub locked_is_final :
    (o : Organization) (action : TransitionAction) (now : ℕ) (actor : String)
    → (o.period.status ≡ locked) ⊎ (o.period.status ≡ exported)
    → transition_pay_period o action now actor ≡ err invalid_pay_period_transition
unfolding transition_pay_period valid_transition
locked_is_final o action now actor h = ground arith

reviewed-IsSound :
    (o : Organization) (run : CalculationRun) (now : ℕ) (actor : String)
    → IsSound (review_period o run now actor).period
unfolding review_period
reviewed-IsSound o run now actor = (refl, refl, refl)

approved-IsSound :
    (o o' : Organization) (run : CalculationRun) (now : ℕ) (actor : String)
    → approve_period o run now actor ≡ ok o'
    → o.period.status ≡ reviewed
    → IsSound o.period
    → IsSound o'.period
unfolding approve_period
approved-IsSound o o' run now actor h e s =
    let reviewed_run = is_run-eq o.period.reviewed_calculation_run_id run.id in ground arith

locked_fields-IsSound :
    (p : PayPeriod) (now : ℕ) (actor : String)
    → p.status ≡ PayPeriodStatus.approved
    → IsSound p
    → IsSound (locked_fields p now actor)
locked_fields-IsSound p now actor e s = ground arith

valid_approve :
    (status : PayPeriodStatus) → valid_transition status approve ≡ true → status ≡ reviewed
unfolding valid_transition
valid_approve status h = ground arith

perform-IsSound :
    (o o' : Organization) (action : TransitionAction) (now : ℕ) (actor : String)
    → valid_transition o.period.status action ≡ true
    → perform o action now actor ≡ ok o'
    → IsSound o.period
    → IsSound o'.period
unfolding perform reopen_period
perform-IsSound o o' reopen now actor v h s =
    subst (λ x. IsSound x.period) (ok-injective _ _ h) refl
perform-IsSound o o' review now actor v h s =
    let (run, _, done) = >>=-eq-ok (assert_reviewable o) _ h in
    subst (λ x. IsSound x.period) (ok-injective _ _ done) (reviewed-IsSound o run now actor)
perform-IsSound o o' approve now actor v h s =
    let (run, _, done) = >>=-eq-ok (assert_reviewable o) _ h in
    approved-IsSound o o' run now actor done (valid_approve o.period.status v) s
perform-IsSound o o' lock now actor v h s =
    let (run, _, done) = >>=-eq-ok (assert_reviewable o) _ h in
    let (_, period, _) = lock_result o o' run now actor done in
    subst IsSound (sym period)
      (locked_fields-IsSound o.period now actor (valid_lock o.period.status v) s)

Step-IsSound : {o o' : Organization} → Step o o' → IsSound o.period → IsSound o'.period
Step-IsSound {o} {o'} (transition action now actor h) s =
    let (valid, _, done) = transition_parts o o' action now actor h in
    perform-IsSound o o' action now actor valid done s
Step-IsSound (other e) s = subst IsSound (sym e) s

requested_exportable :
    (o : Organization) (p : PayPeriod)
    → request_export o ≡ ok p
    → is_exportable o.period.status ≡ true
unfolding request_export
requested_exportable o p h = ground arith

generated_exportable :
    (o : Organization) (run : CalculationRun)
    → generate_direct_export o ≡ ok run
    → is_exportable o.period.status ≡ true
unfolding generate_direct_export
generated_exportable o run h =
    let (closed, _) =
      throw_if-eq-ok (not (is_exportable o.period.status)) pay_period_not_locked _ h in
    ground arith

exportable_iff :
    (status : PayPeriodStatus)
    → is_exportable status ≡ true
    → (status ≡ locked) ⊎ (status ≡ exported)
exportable_iff status h = ground arith

Step-exportable :
    {o o' : Organization}
    → Step o o'
    → is_exportable o.period.status ≡ true
    → is_exportable o'.period.status ≡ true
Step-exportable {o} {o'} (transition action now actor h) closed =
    let refused = locked_is_final o action now actor (exportable_iff o.period.status closed) in cc
Step-exportable (other e) closed = ap (λ p. is_exportable p.status) e ∙ closed

Reach-exportable :
    {s o : Organization}
    → Reach s o
    → is_exportable s.period.status ≡ true
    → is_exportable o.period.status ≡ true
unfolding mark_exported
Reach-exportable here closed = closed
Reach-exportable (next r step) closed = Step-exportable step (Reach-exportable r closed)
Reach-exportable (queued_export p r read later) closed = refl
Reach-exportable (direct_export run r read later) closed = refl

mark_exported-IsSound :
    (o : Organization)
    → is_exportable o.period.status ≡ true
    → IsSound o.period
    → IsSound (mark_exported o).period
unfolding mark_exported
mark_exported-IsSound o closed s = ground arith

-- However requests and exports interleave, from a sound period every period that is reached is sound:
-- reviewed or later it names who reviewed it and which calculation, approved or later also who approved
-- it, and then the calculation that was approved is the one that was reviewed.
pub Reach-IsSound : {s o : Organization} → IsSound s.period → Reach s o → IsSound o.period
Reach-IsSound sound here = sound
Reach-IsSound sound (next r step) = Step-IsSound step (Reach-IsSound sound r)
Reach-IsSound sound (queued_export {s} {asked} {o} p r read later) =
    mark_exported-IsSound o (Reach-exportable later (requested_exportable asked p read))
      (Reach-IsSound (Reach-IsSound sound r) later)
Reach-IsSound sound (direct_export {s} {asked} {o} run r read later) =
    mark_exported-IsSound o (Reach-exportable later (generated_exportable asked run read))
      (Reach-IsSound (Reach-IsSound sound r) later)

-- A locked period that is reached from a draft with no approved calculation names who reviewed and
-- who approved it, and the calculation that was approved, which is the one that was reviewed.
pub locked_was_reviewed :
    {s o : Organization}
    → s.period.status ≡ draft
    → s.period.approved_calculation_run_id ≡ none
    → Reach s o
    → o.period.status ≡ locked
    → (is_some o.period.approved_calculation_run_id ≡ true)
      × (o.period.reviewed_calculation_run_id ≡ o.period.approved_calculation_run_id)
      × (is_some o.period.reviewed_by_user_id ≡ true)
      × (is_some o.period.approved_by_user_id ≡ true)
locked_was_reviewed {s} {o} d n r e =
    let sound : IsSound o.period = Reach-IsSound {s = s} (ground arith) r in ground arith
