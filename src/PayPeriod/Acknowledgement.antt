-- ===== src/PayPeriod/Acknowledgement.antt =====
-- payroll-v2.controller.ts: `acknowledgePayrollWarningV2`. The acknowledgements of a result are the
-- codes in its `acknowledged`; its period and the note are there and valid.
use employee_attendance.Prelude.{
  suc, ◌≤◌, ◌≡◌, refl, sym, ap, ◌∙◌, String, Bool, true, false, not, Option, none, some, List, [],
  ◌∷◌, map, find, filter, length, arith, Bool-cases, inl, inr, same_text, eq_iff, is_some,
  update_where, sum_by,
}
use mathlib.Core.Path.{}
use employee_attendance.Prelude.Result.{
  Result, ok, err, ◌>>◌, throw_if, throw_if-eq-ok, ok-injective,
}
use employee_attendance.PayPeriod.{Organization, CalculationRun, CalculationResult, PayPeriodStatus}
use employee_attendance.PayPeriod.Coverage.{has_id}
use employee_attendance.PayPeriod.Review.{
  latest_run, unacknowledged_of, unacknowledged_warning_count,
}

pub data AcknowledgementError : Type 0 where
  pay_period_not_draft payroll_calculation_not_latest blocking_warning_not_acknowledgeable
        payroll_warning_not_found payroll_warning_already_acknowledged :
      AcknowledgementError

abbrev pub is_draft : PayPeriodStatus → Bool
is_draft PayPeriodStatus.draft = true
is_draft _ = false

abbrev pub find_result : String → List CalculationResult → Option CalculationResult
find_result result_id rs = find (λ r. same_text r.id result_id) rs

-- The run of the result; no two results have one id.
abbrev pub find_run_of : String → List CalculationRun → Option CalculationRun
find_run_of result_id runs = find (λ run. is_some (find_result result_id run.results)) runs

abbrev add_acknowledgement : String → CalculationResult → CalculationResult
add_acknowledgement code r = record r { acknowledged = code ∷ r.acknowledged }

abbrev acknowledge_in : String → String → CalculationRun → CalculationRun
acknowledge_in result_id code run = record run {
  results = update_where (λ r. same_text r.id result_id) (add_acknowledgement code) run.results;
}

abbrev acknowledge_result :
    String
    → String
    → Organization
    → Option CalculationResult
    → Result AcknowledgementError Organization
acknowledge_result result_id code o none = err payroll_calculation_not_latest
acknowledge_result result_id code o (some r) = do
  throw_if (has_id r.blocking_warnings code) blocking_warning_not_acknowledgeable
  throw_if (not (has_id r.warnings code)) payroll_warning_not_found
  throw_if (has_id r.acknowledged code) payroll_warning_already_acknowledged
  ok (record o { runs = map (acknowledge_in result_id code) o.runs })

abbrev acknowledge_latest :
    String
    → String
    → Organization
    → Option CalculationRun
    → Option CalculationRun
    → Result AcknowledgementError Organization
acknowledge_latest result_id code o none latest = err payroll_calculation_not_latest
acknowledge_latest result_id code o (some run) none = err payroll_calculation_not_latest
acknowledge_latest result_id code o (some run) (some latest) = do
  throw_if (not (same_text run.id latest.id)) payroll_calculation_not_latest
  acknowledge_result result_id code o (find_result result_id run.results)

-- `acknowledgePayrollWarningV2`
unfoldable pub acknowledge_payroll_warning :
    String → String → Organization → Result AcknowledgementError Organization
acknowledge_payroll_warning result_id code o = do
  throw_if (not (is_draft o.period.status)) pay_period_not_draft
  acknowledge_latest result_id code o (find_run_of result_id o.runs) (latest_run o.runs)

acknowledge_le :
    (code : String) (acks ws : List String)
    → length (filter (λ w. not (has_id (code ∷ acks) w)) ws)
      ≤ length (filter (λ w. not (has_id acks w)) ws)
acknowledge_le code acks [] = omega arith
acknowledge_le code acks (w ∷ ws) = ground (arith, acknowledge_le code acks ws)

acknowledge_lt :
    (code : String) (acks ws : List String)
    → has_id ws code ≡ true
    → has_id acks code ≡ false
    → suc (length (filter (λ w. not (has_id (code ∷ acks) w)) ws))
      ≤ length (filter (λ w. not (has_id acks w)) ws)
acknowledge_lt code acks [] h k = cc
acknowledge_lt code acks (w ∷ ws) h k = elim (Bool-cases (same_text w code)) [
  | inl here ↦
      let same = (eq_iff w code).0 here in
      let mine = (eq_iff code w).1 (sym same) in
      let before = ap (has_id acks) same ∙ k in ground (arith, acknowledge_le code acks ws)
  | inr there ↦ ground (arith, acknowledge_lt code acks ws)
]

results_le :
    (result_id code : String) (rs : List CalculationResult)
    → sum_by unacknowledged_of
        (update_where (λ r. same_text r.id result_id) (add_acknowledgement code) rs)
      ≤ sum_by unacknowledged_of rs
results_le result_id code [] = omega arith
results_le result_id code (r ∷ rs) =
    let less = acknowledge_le code r.acknowledged r.warnings in
    let rest = results_le result_id code rs in
    elim (Bool-cases (same_text r.id result_id)) [
      | inl here ↦ ground arith
      | inr there ↦ ground arith
    ]

results_lt :
    (result_id code : String) (rs : List CalculationResult) (found : CalculationResult)
    → find_result result_id rs ≡ some found
    → has_id found.warnings code ≡ true
    → has_id found.acknowledged code ≡ false
    → suc (
        sum_by unacknowledged_of
          (update_where (λ r. same_text r.id result_id) (add_acknowledgement code) rs))
      ≤ sum_by unacknowledged_of rs
results_lt result_id code [] found h w a = cc
results_lt result_id code (r ∷ rs) found h w a =
    let rest = results_le result_id code rs in
    elim (Bool-cases (same_text r.id result_id)) [
      | inl here ↦
          let same : r ≡ found = ground arith in
          let less =
            acknowledge_lt code r.acknowledged r.warnings
              (ap (λ x. has_id x.warnings code) same ∙ w)
              (ap (λ x. has_id x.acknowledged code) same ∙ a) in
          ground arith
      | inr there ↦ ground (arith, results_lt result_id code rs found)
    ]

find_result-update :
    (result_id code : String) (rs : List CalculationResult)
    → is_some (
        find_result result_id
          (update_where (λ r. same_text r.id result_id) (add_acknowledgement code) rs))
      ≡ is_some (find_result result_id rs)
find_result-update result_id code [] = refl
find_result-update result_id code (r ∷ rs) = elim (Bool-cases (same_text r.id result_id)) [
  | inl here ↦ ground arith
  | inr there ↦ ground (arith, find_result-update result_id code rs)
]

find_run_of-map :
    (result_id code : String) (runs : List CalculationRun) (run : CalculationRun)
    → find_run_of result_id runs ≡ some run
    → find_run_of result_id (map (acknowledge_in result_id code) runs)
      ≡ some (acknowledge_in result_id code run)
find_run_of-map result_id code [] run h = cc
find_run_of-map result_id code (other ∷ runs) run h =
    let kept = find_result-update result_id code other.results in
    elim (Bool-cases (is_some (find_result result_id other.results))) [
      | inl here ↦
          let same : other ≡ run = ground arith in
          let now = ap (acknowledge_in result_id code) same in ground arith
      | inr there ↦ ground (arith, find_run_of-map result_id code runs run)
    ]

acknowledge_result-parts :
    (result_id code : String) (o o' : Organization) (found : Option CalculationResult)
    → acknowledge_result result_id code o found ≡ ok o'
    → (r : CalculationResult) × (found ≡ some r)
      × (has_id r.warnings code ≡ true)
      × (has_id r.acknowledged code ≡ false)
      × (record o { runs = map (acknowledge_in result_id code) o.runs } ≡ o')
acknowledge_result-parts result_id code o o' none h = cc
acknowledge_result-parts result_id code o o' (some r) h =
    let (_, h1) =
      throw_if-eq-ok (has_id r.blocking_warnings code) blocking_warning_not_acknowledgeable _ h in
    let (known, h2) =
      throw_if-eq-ok (not (has_id r.warnings code)) payroll_warning_not_found _ h1 in
    let (new, h3) =
      throw_if-eq-ok (has_id r.acknowledged code) payroll_warning_already_acknowledged _ h2 in
    (r, refl, ground arith, new, ok-injective _ _ h3)

-- If acknowledging a warning succeeds, the period is a draft, the run of the result has the identifier
-- of the latest run, and afterwards that run has fewer warnings that nobody has acknowledged.
pub acknowledge_payroll_warning_lem :
    (result_id code : String) (o o' : Organization)
    → acknowledge_payroll_warning result_id code o ≡ ok o'
    → (is_draft o.period.status ≡ true)
      × ((run : CalculationRun) × (latest : CalculationRun) × (run' : CalculationRun) × (find_run_of
              result_id o.runs
            ≡ some run)
          × (latest_run o.runs ≡ some latest)
          × (run.id ≡ latest.id)
          × (find_run_of result_id o'.runs ≡ some run')
          × (suc (unacknowledged_warning_count run'.results)
              ≤ unacknowledged_warning_count run.results))
unfolding acknowledge_payroll_warning unacknowledged_warning_count
acknowledge_payroll_warning_lem result_id code o o' done =
    let (draft, checked) =
      throw_if-eq-ok (not (is_draft o.period.status)) pay_period_not_draft _ done in
    (ground arith, go (find_run_of result_id o.runs) (latest_run o.runs) refl refl checked)
  where
    go :
        (found latest : Option CalculationRun)
        → find_run_of result_id o.runs ≡ found
        → latest_run o.runs ≡ latest
        → acknowledge_latest result_id code o found latest ≡ ok o'
        → (run : CalculationRun) × (last : CalculationRun) × (run' : CalculationRun) × (find_run_of
              result_id o.runs
            ≡ some run)
          × (latest_run o.runs ≡ some last)
          × (run.id ≡ last.id)
          × (find_run_of result_id o'.runs ≡ some run')
          × (suc (sum_by unacknowledged_of run'.results) ≤ sum_by unacknowledged_of run.results)
    go none latest e l h = cc
    go (some run) none e l h = cc
    go (some run) (some last) e l h =
        let (same, h1) =
          throw_if-eq-ok (not (same_text run.id last.id)) payroll_calculation_not_latest _ h in
        let (r, found, known, new, written) =
          acknowledge_result-parts result_id code o o' (find_result result_id run.results) h1 in
        let ids : same_text run.id last.id ≡ true = ground arith in
        (
          run,
          last,
          acknowledge_in result_id code run,
          e,
          l,
          (eq_iff run.id last.id).0 ids,
          ap (λ x. find_run_of result_id x.runs) (sym written)
              ∙ find_run_of-map result_id code o.runs run e,
          results_lt result_id code run.results r found known new,
        )
