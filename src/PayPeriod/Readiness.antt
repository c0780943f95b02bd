-- ===== src/PayPeriod/Readiness.antt =====
-- payroll-calculation-run.ts: when a run can be reviewed, in terms of the rows alone.
use employee_attendance.Prelude.{
  ◌≡◌, ◌↔◌, ◌⊎◌, refl, sym, ap, ◌∙◌, String, Bool, true, false, not, ◌&&◌, Option, none, some, List,
  [], ◌∷◌, map, All, filter, length, sum_by, same_text, eq_iff, arith, Bool-cases, inl, inr,
  IsFirstBest, first_best_iff,
}
use employee_attendance.Prelude.Result.{ok}
use employee_attendance.Calendar.{Day, day_le, starts_by, ends_after}
use employee_attendance.PayPeriod.{
  Organization, PayPeriod, Employee, CalculationRun, CalculationResult,
}
use employee_attendance.PayPeriod.Coverage.{
  has_id, AreDistinct, eligible_employees, compare_payroll_employee_coverage, complete_iff,
}
use employee_attendance.PayPeriod.Review.{
  unacknowledged_of, unacknowledged_warning_count, is_newer, latest_run, assert_reviewable,
  IsReviewable, assert_reviewable-IsReviewable,
}

-- The employment has begun by the end of the period, and has not ended before it starts.
pub record IsEligible (p : PayPeriod) (e : Employee) : Type 0 where
  pub joined : (d : Day) → e.join_date ≡ some d → day_le d p.end_date ≡ true
  pub stays : (d : Day) → e.termination_date ≡ some d → day_le p.start_date d ≡ true

-- The id is that of an eligible employee.
abbrev pub IsOfEligible : PayPeriod → List Employee → String → Type 0
IsOfEligible p [] id = true ≡ false
IsOfEligible p (e ∷ es) id = (IsEligible p e × (e.id ≡ id)) ⊎ IsOfEligible p es id

-- A run that can be reviewed: no run of the period has a later version; no employee has two results, each
-- eligible one has one, and each result is of an eligible one; it was made for as many; and there is no
-- blocking warning, and no warning that is not acknowledged.
pub record IsReady (o : Organization) (run : CalculationRun) : Type 0 where
  pub latest : IsFirstBest is_newer o.runs run
  pub once : AreDistinct (map (λ r. r.employee_id) run.results)
  pub each_employee :
      All
        (λ e. IsEligible o.period e → has_id (map (λ r. r.employee_id) run.results) e.id ≡ true)
        o.employees
  pub each_result : All (λ r. IsOfEligible o.period o.employees r.employee_id) run.results
  pub counted :
      run.expected_employee_count
      ≡ length (eligible_employees o.period.start_date o.period.end_date o.employees)
  pub unblocked : run.blocking_warning_count ≡ 0
  pub acknowledged :
      All (λ r. All (λ warning. has_id r.acknowledged warning ≡ true) r.warnings) run.results

starts_by_iff :
    (o : Option Day) (date : Day)
    → (starts_by o date ≡ true) ↔ ((d : Day) → o ≡ some d → day_le d date ≡ true)
starts_by_iff none date = (λ h d e. cc, λ h. refl)
starts_by_iff (some start) date = (λ h d e. ground arith, λ h. h start refl)

ends_after_iff :
    (o : Option Day) (date : Day)
    → (ends_after o date ≡ true) ↔ ((d : Day) → o ≡ some d → day_le date d ≡ true)
ends_after_iff none date = (λ h d e. cc, λ h. refl)
ends_after_iff (some last) date = (λ h d e. ground arith, λ h. h last refl)

abbrev works_in : PayPeriod → Employee → Bool
works_in p e = starts_by e.join_date p.end_date && ends_after e.termination_date p.start_date

works_in_iff : (p : PayPeriod) (e : Employee) → (works_in p e ≡ true) ↔ IsEligible p e
works_in_iff p e =
    let first = starts_by_iff e.join_date p.end_date in
    let last = ends_after_iff e.termination_date p.start_date in
    (
      λ h. record { joined = first.0 (ground arith); stays = last.0 (ground arith) },
      λ h. let begun = first.1 h.joined in let lasting = last.1 h.stays in ground arith,
    )

abbrev eligible : PayPeriod → List Employee → List String
eligible p es = map (λ e. e.id) (filter (works_in p) es)

eligible_iff :
    (p : PayPeriod) (es : List Employee) (id : String)
    → (has_id (eligible p es) id ≡ true) ↔ IsOfEligible p es id
eligible_iff p [] id = (λ h. sym h, λ h. sym h)
eligible_iff p (e ∷ es) id =
    let rest = eligible_iff p es id in
    let same = eq_iff e.id id in
    elim (Bool-cases (works_in p e)) [
      | inl in_it ↦ (
        λ h. elim (Bool-cases (same_text e.id id)) [
          | inl here ↦ inl ((works_in_iff p e).0 in_it, same.0 here)
          | inr there ↦ inr (rest.0 (ground arith))
        ],
        λ h. elim h [
          | inl (_, at) ↦ let here = same.1 at in ground arith
          | inr later ↦ let there = rest.1 later in ground arith
        ],
      )
      | inr out ↦ (
        λ h. inr (rest.0 (ground arith)),
        λ h. elim h [
          | inl (within, _) ↦ let wrong = (works_in_iff p e).1 within in absurd (ground arith)
          | inr later ↦ let there = rest.1 later in ground arith
        ],
      )
    ]

lookup_eligible :
    (p : PayPeriod) (es : List Employee) (ids : List String) (id : String)
    → All (λ e. IsEligible p e → has_id ids e.id ≡ true) es
    → IsOfEligible p es id
    → has_id ids id ≡ true
lookup_eligible p [] ids id h k = cc
lookup_eligible p (e ∷ es) ids id (h, hs) (inl (within, at)) = sym (ap (has_id ids) at) ∙ h within
lookup_eligible p (e ∷ es) ids id (h, hs) (inr later) = lookup_eligible p es ids id hs later

each_employee_iff :
    (p : PayPeriod) (es : List Employee) (ids : List String)
    → ((id : String) → has_id (eligible p es) id ≡ true → has_id ids id ≡ true)
      ↔ All (λ e. IsEligible p e → has_id ids e.id ≡ true) es
each_employee_iff p es ids =
    (all es, λ h id k. lookup_eligible p es ids id h ((eligible_iff p es id).0 k))
  where
    all :
        (fs : List Employee)
        → ((id : String) → has_id (eligible p fs) id ≡ true → has_id ids id ≡ true)
        → All (λ e. IsEligible p e → has_id ids e.id ≡ true) fs
    all [] h = tt
    all (f ∷ fs) h = (
      λ within. h f.id ((eligible_iff p (f ∷ fs) f.id).1 (inl (within, refl))),
      all fs (λ id k. h id ((eligible_iff p (f ∷ fs) id).1 (inr ((eligible_iff p fs id).0 k)))),
    )

each_result_iff :
    (p : PayPeriod) (es : List Employee) (rs : List CalculationResult)
    → ((id : String)
        → has_id (map (λ r. r.employee_id) rs) id ≡ true
        → has_id (eligible p es) id ≡ true)
      ↔ All (λ r. IsOfEligible p es r.employee_id) rs
each_result_iff p es [] = (λ h. tt, λ h id k. cc)
each_result_iff p es (r ∷ rs) =
    let rest = each_result_iff p es rs in
    (
      λ h. (
        (eligible_iff p es r.employee_id).0 (
            h r.employee_id
              (let self = (eq_iff r.employee_id r.employee_id).1 refl in ground arith)),
        rest.0 (λ id k. h id (ground arith)),
      ),
      λ (one, more) id k. elim (Bool-cases (same_text r.employee_id id)) [
        | inl here ↦
            sym (ap (has_id (eligible p es)) ((eq_iff r.employee_id id).0 here))
            ∙ (eligible_iff p es r.employee_id).1 one
        | inr there ↦ rest.1 more id (ground arith)
      ],
    )

none_left_iff :
    (acks ws : List String)
    → (length (filter (λ w. not (has_id acks w)) ws) ≡ 0) ↔ All (λ w. has_id acks w ≡ true) ws
none_left_iff acks [] = (λ h. tt, λ h. refl)
none_left_iff acks (w ∷ ws) =
    let rest = none_left_iff acks ws in
    (
      λ h. elim (Bool-cases (has_id acks w)) [
        | inl known ↦ (known, rest.0 (ground arith))
        | inr new ↦ absurd (ground arith)
      ],
      λ (known, more). let zero_rest = rest.1 more in ground arith,
    )

acknowledged_iff :
    (rs : List CalculationResult)
    → (sum_by unacknowledged_of rs ≡ 0)
      ↔ All (λ r. All (λ warning. has_id r.acknowledged warning ≡ true) r.warnings) rs
acknowledged_iff [] = (λ h. tt, λ h. refl)
acknowledged_iff (r ∷ rs) =
    let one = none_left_iff r.acknowledged r.warnings in
    let rest = acknowledged_iff rs in
    (
      λ h. (one.0 (omega arith), rest.0 (omega arith)),
      λ (h, hs). let a = one.1 h in let b = rest.1 hs in omega arith,
    )

latest_run_iff :
    (runs : List CalculationRun) (run : CalculationRun)
    → (latest_run runs ≡ some run) ↔ IsFirstBest is_newer runs run
unfolding latest_run
latest_run_iff runs run =
    first_best_iff is_newer (λ x y h. ground arith) (λ x y z h k. ground arith) runs run

IsReviewable-IsReady :
    (o : Organization) (run : CalculationRun) → IsReviewable o run ↔ IsReady o run
unfolding eligible_employees compare_payroll_employee_coverage unacknowledged_warning_count
IsReviewable-IsReady o run =
    let ids = map (λ r. r.employee_id) run.results in
    let covered = complete_iff (eligible o.period o.employees) ids in
    let employees = each_employee_iff o.period o.employees ids in
    let results = each_result_iff o.period o.employees run.results in
    let acks = acknowledged_iff run.results in
    let newest = latest_run_iff o.runs run in
    (
      λ r.
          let (once, all, only) = covered.0 r.covered in
          record {
            latest = newest.0 r.latest;
            once = once;
            each_employee = employees.0 all;
            each_result = results.0 only;
            counted = r.counted;
            unblocked = r.unblocked;
            acknowledged = acks.0 r.acknowledged;
          },
      λ r. record {
        latest = newest.1 r.latest;
        covered = covered.1 (r.once, employees.1 r.each_employee, results.1 r.each_result);
        counted = r.counted;
        unblocked = r.unblocked;
        acknowledged = acks.1 r.acknowledged;
      },
    )

-- A run is returned exactly if it can be reviewed: no run of the period has a later version; no employee
-- has two results, each employee whose employment meets the period has one, and each result is of such an
-- employee; it expected as many; and it has no blocking warning, and none that is not acknowledged.
pub assert_reviewable_iff :
    (o : Organization) (run : CalculationRun) → (assert_reviewable o ≡ ok run) ↔ IsReady o run
assert_reviewable_iff o run =
    let checked = assert_reviewable-IsReviewable o run in
    let same = IsReviewable-IsReady o run in (λ h. same.0 (checked.0 h), λ h. checked.1 (same.1 h))
