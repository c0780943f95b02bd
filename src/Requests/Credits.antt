-- ===== src/Requests/Credits.antt =====
-- requests-v2.controller.ts: what an approval of leave credits to the timesheets: the minutes of the
-- plan, day by day, in paid or in unpaid leave.
use employee_attendance.Prelude.{
  ℕ, ◌+◌, ◌≡◌, refl, sym, ap, ◌∙◌, String, same_text, Bool, true, false, Option, none, some, List,
  [], ◌∷◌, any, arith, &&_elim, sum_by, Bool-cases, inl, inr, if◌then◌else◌, find_row, change_found,
  or_else, find_row-upsert_row, find-true,
}
use mathlib.Core.Path.{subst}
use mathlib.Core.Bool.{true≢false}
use employee_attendance.Prelude.Result.{ok, ok-injective}
use employee_attendance.Calendar.{Day, day_eq}
use employee_attendance.Calendar.Ordinals.{IsDate}
use employee_attendance.Leave.{LeaveInput, LeaveDayAllocation, plan_leave_allocations}
use employee_attendance.Leave.Allocations.{allocated, plan_leave_allocations_lem}
use employee_attendance.Requests.{
  approve_request, LeaveRequest, LeaveStore, TimesheetDay, LeaveAllocation, DayKey, same_day,
  same_day_iff,
}
use employee_attendance.Requests.Reviews.{
  LeaveReview, WorkRules, leave_input, credit_day, credit_days, write_day, merge_day, new_day,
  day_key, leave_allocation, paid_part, unpaid_part, is_locked_for, claimed, settle, decide_days,
  write_review,
}
use employee_attendance.Requests.Plans.{OfDistinctDays, plan_leave_allocations-OfDistinctDays}
use employee_attendance.Requests.Parts.{approve_parts, review_parts}

abbrev pub find_day : DayKey → List TimesheetDay → Option TimesheetDay
find_day k days = find_row (λ t. t.key) same_day k days

-- A number of a timesheet, zero if there is none.
abbrev pub measured : (TimesheetDay → ℕ) → Option TimesheetDay → ℕ
measured f none = 0
measured f (some t) = f t

-- What the allocations give to a day.
abbrev pub given_on : (LeaveDayAllocation → ℕ) → Day → List LeaveDayAllocation → ℕ
given_on g d xs = sum_by (λ a. if day_eq a.work_date d then g a else 0) xs

-- A number of a timesheet that an allocation raises by a number of it.
abbrev IsCredit : Bool → LeaveRequest → (TimesheetDay → ℕ) → (LeaveDayAllocation → ℕ) → Type 0
IsCredit is_paid r f g =
    (a : LeaveDayAllocation) (from t : TimesheetDay) (id : String)
    → (f (merge_day (credit_day is_paid a from) t) ≡ f from + g a)
      × (f (credit_day is_paid a from) ≡ f from + g a)
      × (f (new_day id r a.work_date) ≡ 0)

day_eq-same : (a b : Day) → day_eq a b ≡ true → a ≡ b
unfolding day_eq
day_eq-same a b h = ground (arith)

day_eq_refl : (a : Day) → day_eq a a ≡ true
unfolding day_eq
day_eq_refl a = ground (arith)

given_on-other :
    (g : LeaveDayAllocation → ℕ) (d : Day) (xs : List LeaveDayAllocation)
    → any (λ a. day_eq a.work_date d) xs ≡ false
    → given_on g d xs ≡ 0
given_on-other g d [] h = refl
given_on-other g d (a ∷ xs) h = ground (arith, given_on-other g d xs)

module _ (is_paid : Bool) (r : LeaveRequest) (day_id : Day → String) (f : TimesheetDay → ℕ)
    (g : LeaveDayAllocation → ℕ) (credit : IsCredit is_paid r f g) where
  credit_of :
      (a : LeaveDayAllocation) (o : Option TimesheetDay)
      → measured f (
          let credited =
            credit_day is_paid a (or_else o (new_day (day_id a.work_date) r a.work_date)) in
          some (or_else (change_found (merge_day credited) o) credited))
        ≡ measured f o + g a
  credit_of a none =
      let new = new_day (day_id a.work_date) r a.work_date in
      let (_, b, c) = credit a new new (day_id a.work_date) in omega arith
  credit_of a (some t) = (credit a t t (day_id a.work_date)).0

  credited_key :
      (a : LeaveDayAllocation) (days : List TimesheetDay) (o : Option TimesheetDay)
      → find_day (day_key r a) days ≡ o
      → (credit_day is_paid a (or_else o (new_day (day_id a.work_date) r a.work_date))).key
        ≡ day_key r a
  unfolding credit_day new_day
  credited_key a days none found = refl
  credited_key a days (some t) found =
      (same_day_iff t.key (day_key r a)).0
        (find-true (λ x. same_day x.key (day_key r a)) days t found)

  -- What an allocation writes of a day.
  measured-write_day :
      (a : LeaveDayAllocation) (days : List TimesheetDay) (k : DayKey)
      → same_day (day_key r a) k ≡ true
      → measured f (find_day k (write_day is_paid r day_id (find_day (day_key r a) days) a days))
        ≡ measured f (find_day k days) + g a
  unfolding write_day credit_day new_day
  measured-write_day a days k here =
      let at = ap (λ x. find_day x days) ((same_day_iff (day_key r a) k).0 here) in
      let o = find_day (day_key r a) days in
      let from = or_else o (new_day (day_id a.work_date) r a.work_date) in
      let credited = credit_day is_paid a from in
      let row =
        find_row-upsert_row (λ t. t.key) same_day same_day_iff (day_key r a) (merge_day credited)
          (λ t. refl) credited (credited_key a days o refl) k days in
      let shown : find_day k (write_day is_paid r day_id o a days)
          ≡ some (or_else (change_found (merge_day credited) o) credited) =
        row
        ∙ ap
            (λ b.
              if b
              then some (or_else (change_found (merge_day credited) o) credited)
              else find_day k days)
            here in
      ap (measured f) shown ∙ credit_of a o ∙ ap (λ x. measured f x + g a) at

  write_day-other :
      (a : LeaveDayAllocation) (days : List TimesheetDay) (k : DayKey)
      → same_day (day_key r a) k ≡ false
      → find_day k (write_day is_paid r day_id (find_day (day_key r a) days) a days)
        ≡ find_day k days
  unfolding write_day credit_day new_day
  write_day-other a days k there =
      let o = find_day (day_key r a) days in
      let from = or_else o (new_day (day_id a.work_date) r a.work_date) in
      let credited = credit_day is_paid a from in
      find_row-upsert_row (λ t. t.key) same_day same_day_iff (day_key r a) (merge_day credited)
        (λ t. refl) credited (credited_key a days o refl) k days
      ∙ ap
          (λ b.
            if b
            then some (or_else (change_found (merge_day credited) o) credited)
            else find_day k days)
          there

  abbrev AsRead : List LeaveDayAllocation → List TimesheetDay → List TimesheetDay → Type 0
  AsRead xs read days =
      (d : Day)
      → any (λ a. day_eq a.work_date d) xs ≡ true
      → find_day (record { employee_id = r.employee_id; work_date = d }) read
        ≡ find_day (record { employee_id = r.employee_id; work_date = d }) days

  not_yet :
      (a : LeaveDayAllocation) (xs : List LeaveDayAllocation) (d : Day)
      → any (λ b. day_eq b.work_date a.work_date) xs ≡ false
      → any (λ b. day_eq b.work_date d) xs ≡ true
      → day_eq a.work_date d ≡ false
  not_yet a xs d apart later = elim (Bool-cases (day_eq a.work_date d)) [
    | inl same ↦
        let at = day_eq-same a.work_date d same in
        absurd (
          true≢false (sym later ∙ subst (λ e. any (λ b. day_eq b.work_date e) xs ≡ false) at apart))
    | inr other ↦ other
  ]

  measured-credit_days :
      (xs : List LeaveDayAllocation) (read days : List TimesheetDay) (rows : List LeaveAllocation)
      (k : DayKey)
      → OfDistinctDays xs
      → AsRead xs read days
      → measured f (find_day k (credit_days is_paid r day_id read xs (days, rows)).0)
        ≡ measured f (find_day k days)
          + (if same_text r.employee_id k.employee_id then given_on g k.work_date xs else 0)
  unfolding credit_days same_day
  measured-credit_days [] read days rows k distinct reads = ground (arith)
  measured-credit_days (a ∷ xs) read days rows k (apart, distinct) reads =
      let at = reads a.work_date (let first = day_eq_refl a.work_date in ground (arith)) in
      let days' = write_day is_paid r day_id (find_day (day_key r a) read) a days in
      let written : days' ≡ write_day is_paid r day_id (find_day (day_key r a) days) a days =
        ap (λ o. write_day is_paid r day_id o a days) at in
      let reads' : AsRead xs read days' = λ d later.
        let other = not_yet a xs d apart later in
        let differ : same_day (day_key r a) (record { employee_id = r.employee_id; work_date = d })
            ≡ false =
          ground (arith) in
        reads d (ground (arith))
        ∙ sym (ap (find_day _) written ∙ write_day-other a days _ differ) in
      let id =
        or_else (change_found (λ t. t.id) (find_day (day_key r a) read)) (day_id a.work_date) in
      let rows' = leave_allocation is_paid r id a ∷ rows in
      let ih = measured-credit_days xs read days' rows' k distinct reads' in
      elim (Bool-cases (same_day (day_key r a) k)) [
        | inl here ↦
            let now =
              ap (λ x. measured f (find_day k x)) written ∙ measured-write_day a days k here in
            let (same_employee, same_date) =
              &&_elim (same_text r.employee_id k.employee_id) (day_eq a.work_date k.work_date)
                here in
            let date = day_eq-same a.work_date k.work_date same_date in
            let none_later =
              given_on-other g k.work_date xs
                (subst (λ e. any (λ b. day_eq b.work_date e) xs ≡ false) date apart) in
            ground (arith)
        | inr there ↦
            let now =
              ap (λ x. measured f (find_day k x)) written
              ∙ ap (measured f) (write_day-other a days k there) in
            elim (Bool-cases (same_text r.employee_id k.employee_id)) [
              | inl same_employee ↦ ground (arith)
              | inr other_employee ↦ ground (arith)
            ]
      ]

-- A number of the timesheet of a day has grown by what the allocations give to the day, if it is of
-- the employee.
abbrev pub HasGained :
    LeaveRequest
    → List LeaveDayAllocation
    → (TimesheetDay → ℕ)
    → (LeaveDayAllocation → ℕ)
    → List TimesheetDay
    → List TimesheetDay
    → DayKey
    → Type 0
HasGained r xs f g before after k =
    measured f (find_day k after)
    ≡ measured f (find_day k before)
      + (if same_text r.employee_id k.employee_id then given_on g k.work_date xs else 0)

leave-IsCredit :
    (is_paid : Bool) (r : LeaveRequest) → IsCredit is_paid r (λ t. t.leave_minutes) (λ a. a.minutes)
unfolding credit_day new_day
leave-IsCredit is_paid r a from t id = (refl, refl, refl)

paid-IsCredit :
    (is_paid : Bool) (r : LeaveRequest)
    → IsCredit is_paid r (λ t. t.paid_leave_minutes) (λ a. paid_part is_paid a.minutes)
unfolding credit_day new_day
paid-IsCredit is_paid r a from t id = (refl, refl, refl)

unpaid-IsCredit :
    (is_paid : Bool) (r : LeaveRequest)
    → IsCredit is_paid r (λ t. t.unpaid_leave_minutes) (λ a. unpaid_part is_paid a.minutes)
unfolding credit_day new_day
unpaid-IsCredit is_paid r a from t id = (refl, refl, refl)

planned_total :
    (i : LeaveInput) (xs : List LeaveDayAllocation)
    → plan_leave_allocations i ≡ ok xs
    → allocated xs ≡ i.requested_minutes
planned_total i xs plan = elim (plan_leave_allocations_lem i) [
  | inl (ys, planned, total, _, _) ↦
      let same = ok-injective ys xs (sym planned ∙ plan) in ap allocated (sym same) ∙ total
  | inr (short, _) ↦ cc
]

-- An approval of leave between valid dates goes through only if no locked or exported period of the
-- client has one of its days, and for a plan whose allocations add up to the requested minutes; then
-- the leave of each timesheet of the employee has grown by what the plan gives to its day, all of it
-- in paid leave if the leave is paid and in unpaid leave if not, and no other timesheet's leave has
-- changed.
pub write_review-credits :
    (v : LeaveReview) (w : WorkRules) (is_paid : Bool) (r : LeaveRequest) (s s' : LeaveStore)
    → v.decision ≡ approve_request
    → IsDate r.start_date
    → IsDate r.end_date
    → write_review v w is_paid r s ≡ ok s'
    → (any (is_locked_for r) s.pay_periods ≡ false)
      × ((xs : List LeaveDayAllocation) × (plan_leave_allocations (leave_input w r) ≡ ok xs)
          × (allocated xs ≡ r.requested_minutes)
          × ((k : DayKey)
              → HasGained r xs (λ t. t.leave_minutes) (λ a. a.minutes) s.timesheets s'.timesheets k
                × HasGained r xs
                    (λ t. t.paid_leave_minutes)
                    (λ a. paid_part is_paid a.minutes)
                    s.timesheets
                    s'.timesheets
                    k
                × HasGained r xs
                    (λ t. t.unpaid_leave_minutes)
                    (λ a. unpaid_part is_paid a.minutes)
                    s.timesheets
                    s'.timesheets
                    k))
unfolding decide_days settle leave_input
write_review-credits v w is_paid r s s' accepted first last done =
    let (_, (days, decided, at)) = review_parts v w is_paid r s s' done in
    let approving =
      ap (λ d. decide_days d w is_paid r v.day_id (claimed v r s)) (sym accepted) ∙ decided in
    let (unlocked, (xs, plan, written)) =
      approve_parts w is_paid r v.day_id (claimed v r s) days approving in
    let distinct = plan_leave_allocations-OfDistinctDays (leave_input w r) xs first last plan in
    let after : s'.timesheets
        ≡ (credit_days is_paid r v.day_id s.timesheets xs (s.timesheets, s.allocations)).0 =
      ap (λ x. x.timesheets) at ∙ ap (λ x. x.timesheets) written in
    let gained =
      λ (f : TimesheetDay → ℕ) (g : LeaveDayAllocation → ℕ) (c : IsCredit is_paid r f g)
          (k : DayKey).
        ap (λ x. measured f (find_day k x)) after
        ∙ measured-credit_days is_paid r v.day_id f g c xs s.timesheets s.timesheets s.allocations k
            distinct (λ d _. refl) in
    (
      unlocked,
      (
        xs,
        plan,
        planned_total (leave_input w r) xs plan,
        λ k. (
          gained (λ t. t.leave_minutes) (λ a. a.minutes) (leave-IsCredit is_paid r) k,
          gained (λ t. t.paid_leave_minutes) (λ a. paid_part is_paid a.minutes)
              (paid-IsCredit is_paid r) k,
          gained (λ t. t.unpaid_leave_minutes) (λ a. unpaid_part is_paid a.minutes)
              (unpaid-IsCredit is_paid r) k,
        ),
      ),
    )
