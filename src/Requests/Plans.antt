-- ===== src/Requests/Plans.antt =====
-- leave-allocation.ts: the plan of a request for leave has no day twice.
use employee_attendance.Prelude.{
  ℕ, ◌≡◌, refl, sym, ap, Bool, false, List, [], ◌∷◌, ◌++◌, any, arith, Bool-cases, Option-cases,
  inl, inr, if◌then◌else◌, leb, ltb, ◌-◌, min,
}
use mathlib.Core.Path.{subst}
use employee_attendance.Prelude.Result.{ok}
use employee_attendance.Calendar.{Day, day_eq, enumerate_dates}
use employee_attendance.Calendar.Ordinals.{IsDate}
use employee_attendance.Calendar.Ranges.{AreDistinct, enumerate_dates-AreDistinct}
use employee_attendance.Leave.{
  LeaveInput, LeaveDayAllocation, Capacity, capacity_at, scheduled_minutes_on, capacities_on,
  capacities, allocate, plan_leave_allocations,
}
use employee_attendance.Leave.Allocations.{}
use employee_attendance.Requests.{}
use employee_attendance.Requests.Reviews.{}
use employee_attendance.Requests.Parts.{}

-- The allocations are of different days.
abbrev pub OfDistinctDays : List LeaveDayAllocation → Type 0
OfDistinctDays [] = Unit
OfDistinctDays (a ∷ xs) = (any (λ b. day_eq b.work_date a.work_date) xs ≡ false) × OfDistinctDays xs

abbrev CapacitiesDistinct : List Capacity → Type 0
CapacitiesDistinct [] = Unit
CapacitiesDistinct (c ∷ cs) =
    (any (λ b. day_eq b.work_date c.work_date) cs ≡ false) × CapacitiesDistinct cs

capacities_on-other :
    (i : LeaveInput) (d : Day) (ds : List Day)
    → any (λ e. day_eq e d) ds ≡ false
    → any (λ c. day_eq c.work_date d) (capacities_on i ds) ≡ false
unfolding capacities_on
capacities_on-other i d [] h = refl
capacities_on-other i d (e ∷ ds) h = elim (Option-cases (scheduled_minutes_on i e)) [
  | inl off ↦ ground (arith, capacities_on-other i d ds)
  | inr (m, working) ↦ ground (arith, capacities_on-other i d ds)
]

capacities_on-Distinct :
    (i : LeaveInput) (ds : List Day) → AreDistinct ds → CapacitiesDistinct (capacities_on i ds)
unfolding capacities_on
capacities_on-Distinct i [] h = tt
capacities_on-Distinct i (d ∷ ds) (p, ps) =
    let rest = capacities_on-Distinct i ds ps in
    elim (Option-cases (scheduled_minutes_on i d)) [
      | inl off ↦
          subst CapacitiesDistinct (sym (ap (λ o. capacity_at d o ++ capacities_on i ds) off)) rest
      | inr (m, working) ↦
          subst CapacitiesDistinct (sym (ap (λ o. capacity_at d o ++ capacities_on i ds) working))
            (capacities_on-other i d ds p, rest)
    ]

allocate-other :
    (n : ℕ) (d : Day) (cs : List Capacity)
    → any (λ c. day_eq c.work_date d) cs ≡ false
    → any (λ a. day_eq a.work_date d) (allocate n cs).0 ≡ false
unfolding allocate
allocate-other n d [] h = refl
allocate-other n d (c ∷ cs) h = ground (arith, allocate-other (n - min c.scheduled_minutes n) d cs)

abbrev allocated_or :
    ℕ → Capacity → List LeaveDayAllocation × ℕ → Bool → List LeaveDayAllocation × ℕ
allocated_or n c rest done = if done then ([], n) else (
  record {
    work_date = c.work_date;
    scheduled_minutes = c.scheduled_minutes;
    minutes = min c.scheduled_minutes n;
  }
      ∷ rest.0,
  rest.1,
)

allocate-OfDistinctDays :
    (n : ℕ) (cs : List Capacity) → CapacitiesDistinct cs → OfDistinctDays (allocate n cs).0
unfolding allocate
allocate-OfDistinctDays n [] h = tt
allocate-OfDistinctDays n (c ∷ cs) (p, ps) =
    let m = min c.scheduled_minutes n in
    let rest = allocate-OfDistinctDays (n - m) cs ps in
    let other = allocate-other (n - m) c.work_date cs p in
    elim (Bool-cases (leb n 0)) [
      | inl nothing ↦
          subst OfDistinctDays
            (sym (ap (λ b. (allocated_or n c (allocate (n - m) cs) b).0) nothing)) tt
      | inr more ↦
          subst OfDistinctDays (sym (ap (λ b. (allocated_or n c (allocate (n - m) cs) b).0) more))
            (other, rest)
    ]

-- A plan between valid dates is of different days.
pub plan_leave_allocations-OfDistinctDays :
    (i : LeaveInput) (xs : List LeaveDayAllocation)
    → IsDate i.start_date
    → IsDate i.end_date
    → plan_leave_allocations i ≡ ok xs
    → OfDistinctDays xs
unfolding plan_leave_allocations capacities
plan_leave_allocations-OfDistinctDays i xs v w plan =
    let cs = capacities i in
    let distinct = allocate-OfDistinctDays i.requested_minutes cs (
      capacities_on-Distinct i (enumerate_dates i.start_date i.end_date)
        (enumerate_dates-AreDistinct i.start_date i.end_date v w)) in
    elim (Bool-cases (ltb 0 (allocate i.requested_minutes cs).1)) [
      | inl short ↦ absurd (ground (arith))
      | inr enough ↦
          let same : (allocate i.requested_minutes cs).0 ≡ xs = ground (arith) in
          subst OfDistinctDays same distinct
    ]
