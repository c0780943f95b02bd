-- ===== src/Leave/Allocations.antt =====
-- leave-allocation.ts: what the allocations of a leave request add up to, and when there are any.
use employee_attendance.Prelude.{
  ℕ, suc, ◌+◌, ◌-◌, ◌≤◌, ◌≡◌, ◌⊎◌, inl, inr, Bool-cases, refl, sym, ap, Bool, true, false, List, [],
  ◌∷◌, min, leb, ltb, if◌then◌else◌, arith, sum_by,
}
use mathlib.Core.Path.{subst}
use employee_attendance.Prelude.Result.{ok, err}
use employee_attendance.Leave.{
  LeaveInput, LeaveDayAllocation, Capacity, insufficient_scheduled_minutes, allocate, capacities,
  plan_leave_allocations,
}

abbrev pub allocated : List LeaveDayAllocation → ℕ
allocated xs = sum_by (λ a. a.minutes) xs

abbrev pub capacity : List Capacity → ℕ
capacity cs = sum_by (λ c. c.scheduled_minutes) cs

-- Allocations go to the first days, in order: each has the date and the minutes of its day, a day that
-- stands before the last allocation is filled, and the last one is at most its day.
abbrev pub IsSpread : List Capacity → List LeaveDayAllocation → Type 0
IsSpread cs [] = Unit
IsSpread [] (a ∷ rest) = true ≡ false
IsSpread (c ∷ cs) (a ∷ []) =
    (a.work_date ≡ c.work_date)
    × (a.scheduled_minutes ≡ c.scheduled_minutes)
    × (a.minutes ≤ c.scheduled_minutes)
IsSpread (c ∷ cs) (a ∷ b ∷ rest) =
    (a.work_date ≡ c.work_date)
    × (a.scheduled_minutes ≡ c.scheduled_minutes)
    × (a.minutes ≡ c.scheduled_minutes)
    × IsSpread cs (b ∷ rest)

allocate-sum :
    (n : ℕ) (cs : List Capacity)
    → (allocated (allocate n cs).0 + (allocate n cs).1 ≡ n) × ((allocate n cs).1 ≡ n - capacity cs)
unfolding allocate
allocate-sum n [] = (omega arith, omega arith)
allocate-sum n (c ∷ cs) = ground (arith, allocate-sum (n - min c.scheduled_minutes n) cs)

allocate_zero : (n : ℕ) (cs : List Capacity) → n ≡ 0 → (allocate n cs).0 ≡ []
unfolding allocate
allocate_zero n [] h = refl
allocate_zero n (c ∷ cs) h = ground arith

IsSpread-last :
    (n : ℕ) (c : Capacity) (cs : List Capacity) (xs : List LeaveDayAllocation)
    → n ≤ c.scheduled_minutes
    → xs ≡ []
    → IsSpread (c ∷ cs) (
        record { work_date = c.work_date; scheduled_minutes = c.scheduled_minutes; minutes = n }
        ∷ xs)
IsSpread-last n c cs [] fits h = (refl, refl, fits)
IsSpread-last n c cs (b ∷ xs) fits h = cc

IsSpread-cons :
    (n : ℕ) (c : Capacity) (cs : List Capacity) (xs : List LeaveDayAllocation)
    → n ≡ c.scheduled_minutes
    → IsSpread cs xs
    → IsSpread (c ∷ cs) (
        record { work_date = c.work_date; scheduled_minutes = c.scheduled_minutes; minutes = n }
        ∷ xs)
IsSpread-cons n c cs [] same h = (refl, refl, omega arith)
IsSpread-cons n c cs (b ∷ xs) same h = (refl, refl, same, h)

abbrev next_allocations :
    ℕ → LeaveDayAllocation → List LeaveDayAllocation × ℕ → Bool → List LeaveDayAllocation
next_allocations n a rest done =
    (if◌then◌else◌ {A = List LeaveDayAllocation × ℕ} done ([], n) (a ∷ rest.0, rest.1)).0

allocate-IsSpread : (n : ℕ) (cs : List Capacity) → IsSpread cs (allocate n cs).0
unfolding allocate
allocate-IsSpread n [] = tt
allocate-IsSpread n (c ∷ cs) =
    let m = min c.scheduled_minutes n in
    let a : LeaveDayAllocation = record {
      work_date = c.work_date;
      scheduled_minutes = c.scheduled_minutes;
      minutes = m;
    } in
    let xs = (allocate (n - m) cs).0 in
    elim (Bool-cases (leb n 0)) [
      | inl nothing ↦
          subst (IsSpread (c ∷ cs)) (sym (ap (next_allocations n a (allocate (n - m) cs)) nothing))
            tt
      | inr some_left ↦
          subst (IsSpread (c ∷ cs))
            (sym (ap (next_allocations n a (allocate (n - m) cs)) some_left))
            (elim (Bool-cases (leb n c.scheduled_minutes)) [
              | inl last ↦
                  IsSpread-last m c cs xs (ground arith) (allocate_zero (n - m) cs (ground arith))
              | inr more ↦ IsSpread-cons m c cs xs (ground arith) (allocate-IsSpread (n - m) cs)
            ])
    ]

-- A plan succeeds exactly if the working days of the request have its minutes, and fails with
-- INSUFFICIENT_SCHEDULED_MINUTES otherwise; when it succeeds, the allocations add up to the requested
-- minutes, they go to the first working days in order, each with the date and the scheduled minutes of its
-- day, all but the last fill their day, and the last is at most its day.
pub plan_leave_allocations_lem :
    (i : LeaveInput)
    → ((xs : List LeaveDayAllocation) × (plan_leave_allocations i ≡ ok xs)
        × (allocated xs ≡ i.requested_minutes)
        × IsSpread (capacities i) xs
        × (i.requested_minutes ≤ capacity (capacities i)))
      ⊎ ((plan_leave_allocations i ≡ err insufficient_scheduled_minutes)
          × (suc (capacity (capacities i)) ≤ i.requested_minutes))
unfolding plan_leave_allocations
plan_leave_allocations_lem i =
    let cs = capacities i in
    let xs = allocate i.requested_minutes cs in
    let (total, left_over) = allocate-sum i.requested_minutes cs in
    elim (Bool-cases (ltb 0 xs.1)) [
      | inl short ↦
          inr (
            ap (λ b. if b then err insufficient_scheduled_minutes else ok xs.0) short,
            ground arith,
          )
      | inr enough ↦ inl (
        xs.0,
        ap (λ b. if b then err insufficient_scheduled_minutes else ok xs.0) enough,
        ground arith,
        allocate-IsSpread i.requested_minutes cs,
        ground arith,
      )
    ]
