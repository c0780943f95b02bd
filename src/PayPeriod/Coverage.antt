-- ===== src/PayPeriod/Coverage.antt =====
-- payroll-calculation-run.ts: `comparePayrollEmployeeCoverage`, `eligibleEmployeeWhere`. Of the lists
-- of ids that the comparison returns the callers use the sizes, which stand here.
use employee_attendance.Prelude.{
  ℕ, ◌-◌, ◌≤◌, ◌≡◌, ◌↔◌, refl, String, Bool, true, false, not, ◌&&◌, List, [], ◌∷◌, map, ap, sym,
  ◌∙◌, ◌==◌, same_text, eq_iff, any, filter, length, if◌then◌else◌, arith, Bool-cases, inl, inr,
}
use employee_attendance.Calendar.{Day, starts_by, ends_after}
use employee_attendance.PayPeriod.{Employee}

-- `set.has(id)`
abbrev pub has_id : List String → String → Bool
has_id ids id = any (λ other. same_text other id) ids

-- `new Set(ids)`; each id at its last place, which no size depends on.
unfoldable pub unique_ids : List String → List String
unique_ids [] = []
unique_ids (id ∷ ids) = let rest = unique_ids ids in if has_id ids id then rest else id ∷ rest

unfoldable pub without : List String → List String → List String
without ids others = filter (λ id. not (has_id others id)) (unique_ids ids)

pub record Coverage : Type 0 where
  pub complete : Bool
  pub expected_employee_count : ℕ
  pub result_employee_count : ℕ
  pub missing_count : ℕ
  pub unexpected_count : ℕ
  pub duplicate_result_count : ℕ

-- `comparePayrollEmployeeCoverage`
unfoldable pub compare_payroll_employee_coverage : List String → List String → Coverage
unfolding without unique_ids
compare_payroll_employee_coverage expected_ids result_ids =
    let missing = length (without expected_ids result_ids) in
    let unexpected = length (without result_ids expected_ids) in
    let duplicates = length result_ids - length (unique_ids result_ids) in
    record {
      complete = missing == 0 && (unexpected == 0 && duplicates == 0);
      expected_employee_count = length expected_ids;
      result_employee_count = length result_ids;
      missing_count = missing;
      unexpected_count = unexpected;
      duplicate_result_count = duplicates;
    }

-- `eligibleEmployeeWhere`: the times of day in the query make both ends inclusive.
unfoldable pub eligible_employees : Day → Day → List Employee → List String
eligible_employees start_date end_date employees =
    map (λ e. e.id)
      (filter (λ e. starts_by e.join_date end_date && ends_after e.termination_date start_date)
        employees)

-- No id stands twice.
abbrev pub AreDistinct : List String → Type 0
AreDistinct [] = Unit
AreDistinct (id ∷ ids) = (has_id ids id ≡ false) × AreDistinct ids

has_id_same :
    (ids : List String) (a b : String) → same_text a b ≡ true → has_id ids a ≡ has_id ids b
has_id_same ids a b e = ap (has_id ids) ((eq_iff a b).0 e)

has_id-unique_ids : (ids : List String) (id : String) → has_id (unique_ids ids) id ≡ has_id ids id
unfolding unique_ids
has_id-unique_ids [] id = refl
has_id-unique_ids (first ∷ ids) id =
    ground (arith, has_id-unique_ids ids id, has_id_same ids first id)

length-unique_ids : (ids : List String) → length (unique_ids ids) ≤ length ids
unfolding unique_ids
length-unique_ids [] = omega arith
length-unique_ids (id ∷ ids) = ground (arith, length-unique_ids ids)

unique_ids-AreDistinct :
    (ids : List String) → (length (unique_ids ids) ≡ length ids) ↔ AreDistinct ids
unfolding unique_ids
unique_ids-AreDistinct [] = ground arith
unique_ids-AreDistinct (id ∷ ids) =
    ground (arith, length-unique_ids ids, unique_ids-AreDistinct ids)

filter_empty_iff :
    (ids others : List String)
    → (length (filter (λ id. not (has_id others id)) ids) ≡ 0)
      ↔ ((id : String) → has_id ids id ≡ true → has_id others id ≡ true)
filter_empty_iff [] others = (λ e id h. cc, λ h. refl)
filter_empty_iff (first ∷ ids) others = (
  λ e id h. elim (Bool-cases (has_id others first)) [
    | inl known ↦
        ground
          (arith, (filter_empty_iff ids others).0 (ground arith) id, has_id_same others first id)
    | inr new ↦ ground arith
  ],
  λ h. ground (
    arith,
    h first,
    (filter_empty_iff ids others).1 (λ id k. h id (ground arith)),
    eq_iff first first,
  ),
)

without_empty_iff :
    (ids others : List String)
    → (length (without ids others) ≡ 0)
      ↔ ((id : String) → has_id ids id ≡ true → has_id others id ≡ true)
unfolding without
without_empty_iff ids others = (
  λ e id h. (filter_empty_iff (unique_ids ids) others).0 e id (has_id-unique_ids ids id ∙ h),
  λ h.
      (filter_empty_iff (unique_ids ids) others).1
        (λ id k. h id (sym (has_id-unique_ids ids id) ∙ k)),
)

-- The coverage is complete exactly when no employee has two results, every expected employee has a
-- result, and every result is of an expected employee.
pub complete_iff :
    (expected results : List String)
    → ((compare_payroll_employee_coverage expected results).complete ≡ true) ↔ (
        AreDistinct results
        × ((id : String) → has_id expected id ≡ true → has_id results id ≡ true)
        × ((id : String) → has_id results id ≡ true → has_id expected id ≡ true))
unfolding compare_payroll_employee_coverage
complete_iff expected results =
    let none_missing = without_empty_iff expected results in
    let none_unexpected = without_empty_iff results expected in
    let distinct = unique_ids-AreDistinct results in
    let shorter = length-unique_ids results in
    (
      λ h. (
        distinct.0 (ground arith),
        none_missing.0 (ground arith),
        none_unexpected.0 (ground arith),
      ),
      λ h.
          let m = none_missing.1 h.1 in
          let u = none_unexpected.1 h.2 in let d = distinct.1 h.0 in ground arith,
    )
