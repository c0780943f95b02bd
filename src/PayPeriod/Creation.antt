-- ===== src/PayPeriod/Creation.antt =====
-- payroll-v2.controller.ts: `createPayPeriodV2`, which refuses a period that overlaps another one. The
-- periods are those of one organization. What the new row's identifier is, the database decides.
use employee_attendance.Prelude.{
  String, ◌≡◌, ◌↔◌, refl, Bool, true, false, not, ◌&&◌, none, List, [], ◌∷◌, All, any, arith,
  Bool-cases, inl, inr,
}
use mathlib.Core.Bool.{}
use employee_attendance.Prelude.Result.{Result, ok, ◌>>◌, throw_if, throw_if-eq-ok}
use employee_attendance.Calendar.{Day, day_le}
use employee_attendance.PayPeriod.{PayPeriod, PayPeriodStatus}

pub data CreationError : Type 0 where
  invalid_pay_period pay_period_overlap : CreationError

-- The row that is created.
unfoldable pub new_period : String → Day → Day → PayPeriod
new_period id start_date end_date = record {
  id = id;
  start_date = start_date;
  end_date = end_date;
  status = PayPeriodStatus.draft;
  reviewed_at = none;
  reviewed_by_user_id = none;
  reviewed_calculation_run_id = none;
  approved_at = none;
  approved_by_user_id = none;
  approved_calculation_run_id = none;
  locked_at = none;
  locked_by_user_id = none;
}

-- `startDate: { lte: endDate }, endDate: { gte: startDate }`
abbrev overlaps : Day → Day → PayPeriod → Bool
overlaps start_date end_date p = day_le p.start_date end_date && day_le start_date p.end_date

-- `createPayPeriodV2`
unfoldable pub create_pay_period :
    String → Day → Day → List PayPeriod → Result CreationError (List PayPeriod)
create_pay_period id start_date end_date ps = do
  throw_if (not (day_le start_date end_date)) invalid_pay_period
  throw_if (any (overlaps start_date end_date) ps) pay_period_overlap
  ok (new_period id start_date end_date ∷ ps)

abbrev covers : Day → PayPeriod → Bool
covers date p = day_le p.start_date date && day_le date p.end_date

abbrev pub IsRange : PayPeriod → Type 0
IsRange p = day_le p.start_date p.end_date ≡ true

-- No date of the range is in a period.
abbrev pub IsFree : Day → Day → List PayPeriod → Type 0
IsFree start_date end_date ps =
    (date : Day)
    → (day_le start_date date && day_le date end_date) ≡ true
    → any (covers date) ps ≡ false

shared_overlaps :
    (s e date : Day) (p : PayPeriod)
    → (day_le s date && day_le date e) ≡ true
    → covers date p ≡ true
    → overlaps s e p ≡ true
unfolding day_le
shared_overlaps s e date p h k = ground arith

disjoint-IsFree : (s e : Day) (ps : List PayPeriod) → any (overlaps s e) ps ≡ false → IsFree s e ps
disjoint-IsFree s e [] h date on = refl
disjoint-IsFree s e (p ∷ ps) h date on =
    let shared = shared_overlaps s e date p on in
    let rest = λ (k : any (overlaps s e) ps ≡ false). disjoint-IsFree s e ps k date on in
    ground arith

-- Two ranges that overlap share the later of their first days.
overlaps_shared :
    (s e : Day) (p : PayPeriod)
    → day_le s e ≡ true
    → IsRange p
    → overlaps s e p ≡ true
    → (date : Day) × ((day_le s date && day_le date e) ≡ true) × (covers date p ≡ true)
unfolding day_le
overlaps_shared s e p h k o = elim (Bool-cases (day_le s p.start_date)) [
  | inl later ↦ (p.start_date, ground arith, ground arith)
  | inr sooner ↦ (s, ground arith, ground arith)
]

IsFree-disjoint :
    (s e : Day) (ps : List PayPeriod)
    → day_le s e ≡ true
    → All IsRange ps
    → IsFree s e ps
    → any (overlaps s e) ps ≡ false
IsFree-disjoint s e [] h k free = refl
IsFree-disjoint s e (p ∷ ps) h (range, k) free =
    let rest =
      IsFree-disjoint s e ps h k (λ date on. let none_here = free date on in ground arith) in
    elim (Bool-cases (overlaps s e p)) [
      | inl o ↦
          let (date, on, also) = overlaps_shared s e p h range o in
          let none_here = free date on in ground arith
      | inr apart ↦ ground arith
    ]

-- Beside periods that end no sooner than they start, a period is created exactly if it does so too and
-- none of its dates is in another one.
pub create_pay_period_iff :
    (id : String) (start_date end_date : Day) (ps : List PayPeriod)
    → All IsRange ps
    → (create_pay_period id start_date end_date ps ≡ ok (new_period id start_date end_date ∷ ps))
      ↔ ((day_le start_date end_date ≡ true) × IsFree start_date end_date ps)
unfolding create_pay_period
create_pay_period_iff id s e ps ranges = (
  λ done.
      let (ordered, checked) = throw_if-eq-ok (not (day_le s e)) invalid_pay_period _ done in
      let (apart, _) = throw_if-eq-ok (any (overlaps s e) ps) pay_period_overlap _ checked in
      (ground arith, disjoint-IsFree s e ps apart),
  λ (ordered, free). let apart = IsFree-disjoint s e ps ordered ranges free in ground arith,
)
