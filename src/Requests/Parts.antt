-- ===== src/Requests/Parts.antt =====
-- requests-v2.controller.ts: the checks that a transaction on leave which succeeds has passed, and the
-- rows that it has written.
use employee_attendance.Prelude.{
  ◌≡◌, sym, ap, ◌∙◌, String, Bool, true, false, not, Option, none, some, List, any, arith,
}
use employee_attendance.Prelude.Result.{Result, ok, err, >>=-eq-ok, throw_if-eq-ok, ok-injective}
use employee_attendance.Calendar.{Day}
use employee_attendance.Leave.{LeaveError, LeaveDayAllocation, plan_leave_allocations}
use employee_attendance.Requests.{
  Decision, approve_request, reject_request, LeaveType, LeaveRequest, LeaveStore,
}
use employee_attendance.Requests.Leaves.{
  Requester, LeaveForm, LeaveRequestError, is_valid_leave, invalid_leave_request,
  leave_type_not_found, leave_dates_overlap, insufficient_leave, leave_key, find_leave_type,
  is_overlapped, required, ensured, lacks_leave, add_leave_request, check_leave,
  create_leave_request,
}
use employee_attendance.Requests.Reviews.{
  LeaveReview, WorkRules, is_claimed, is_locked_for, leave_already_reviewed, pay_period_locked,
  planned, leave_input, credit_days, with_days, claimed, settle, decide_days, approve_days,
  write_review,
}

planned-eq-ok :
    (o : Result LeaveError (List LeaveDayAllocation)) (xs : List LeaveDayAllocation)
    → planned o ≡ ok xs
    → o ≡ ok xs
planned-eq-ok (ok ys) xs h = ap ok (ok-injective ys xs h)
planned-eq-ok (err e) xs h = cc

required-eq-ok :
    (o : Option LeaveType) (e : LeaveRequestError) (t : LeaveType)
    → required o e ≡ ok t
    → o ≡ some t
required-eq-ok none e t h = cc
required-eq-ok (some u) e t h = ap some (ok-injective u t h)

-- An approval has a plan, and no locked period that it falls in.
pub approve_parts :
    (w : WorkRules) (is_paid : Bool) (r : LeaveRequest) (day_id : Day → String) (s s' : LeaveStore)
    → approve_days w is_paid r day_id s ≡ ok s'
    → (any (is_locked_for r) s.pay_periods ≡ false)
      × ((xs : List LeaveDayAllocation) × (plan_leave_allocations (leave_input w r) ≡ ok xs)
          × (s'
              ≡ with_days s
                  (credit_days is_paid r day_id s.timesheets xs (s.timesheets, s.allocations))))
unfolding approve_days
approve_parts w is_paid r day_id s s' done =
    let (unlocked, rest) =
      throw_if-eq-ok (any (is_locked_for r) s.pay_periods) pay_period_locked _ done in
    let (xs, plan, written) =
      >>=-eq-ok (planned (plan_leave_allocations (leave_input w r))) _ rest in
    (
      unlocked,
      (
        xs,
        planned-eq-ok (plan_leave_allocations (leave_input w r)) xs plan,
        sym (ok-injective _ _ written),
      ),
    )

-- The timesheets are all that a decision touches before the balance.
pub decide_days-keeps :
    (d : Decision) (w : WorkRules) (is_paid : Bool) (r : LeaveRequest) (day_id : Day → String)
    (s s' : LeaveStore)
    → decide_days d w is_paid r day_id s ≡ ok s'
    → (s'.leave_requests ≡ s.leave_requests) × (s'.balances ≡ s.balances)
unfolding decide_days
decide_days-keeps approve_request w is_paid r day_id s s' done =
    let (_, (_, _, at)) = approve_parts w is_paid r day_id s s' done in
    (ap (λ t. t.leave_requests) at, ap (λ t. t.balances) at)
decide_days-keeps reject_request w is_paid r day_id s s' done =
    let at = ok-injective s s' done in
    (ap (λ t. t.leave_requests) (sym at), ap (λ t. t.balances) (sym at))

-- A review has claimed the request, decided on the days and settled the balance.
pub review_parts :
    (v : LeaveReview) (w : WorkRules) (is_paid : Bool) (r : LeaveRequest) (s s' : LeaveStore)
    → write_review v w is_paid r s ≡ ok s'
    → (any (is_claimed r.id) s.leave_requests ≡ true)
      × ((days : LeaveStore) × (decide_days v.decision w is_paid r v.day_id (claimed v r s)
            ≡ ok days)
          × (s' ≡ settle v r days))
unfolding write_review
review_parts v w is_paid r s s' done =
    let (there, rest) =
      throw_if-eq-ok (not (any (is_claimed r.id) s.leave_requests)) leave_already_reviewed _ done in
    let (days, decided, written) =
      >>=-eq-ok (decide_days v.decision w is_paid r v.day_id (claimed v r s)) _ rest in
    (ground (arith), (days, decided, sym (ok-injective _ _ written)))

-- A created request is valid, of an active type, overlaps no other one, and finds the leave it asks for.
pub create_parts :
    (c : Requester) (f : LeaveForm) (id : String) (s s' : LeaveStore)
    → create_leave_request c f id s ≡ ok s'
    → (is_valid_leave f ≡ true)
      × (any (is_overlapped c.employee_id f.start_date f.end_date) s.leave_requests ≡ false)
      × ((t : LeaveType) × (find_leave_type c f.leave_type_id s.leave_types ≡ some t)
          × (lacks_leave t (leave_key c f) f.requested_minutes s ≡ false)
          × (s' ≡ add_leave_request c f id (ensured t (leave_key c f) s)))
unfolding create_leave_request check_leave
create_parts c f id s s' done =
    let (t, checked, rest) = >>=-eq-ok (check_leave c f s) _ done in
    let (valid, found) = throw_if-eq-ok (not (is_valid_leave f)) invalid_leave_request _ checked in
    let (t', typed, disjoint) =
      >>=-eq-ok (required (find_leave_type c f.leave_type_id s.leave_types) leave_type_not_found) _
        found in
    let (apart, same) =
      throw_if-eq-ok (any (is_overlapped c.employee_id f.start_date f.end_date) s.leave_requests)
        leave_dates_overlap _ disjoint in
    let (enough, written) =
      throw_if-eq-ok (lacks_leave t (leave_key c f) f.requested_minutes s) insufficient_leave _
        rest in
    (
      ground (arith),
      apart,
      (
        t,
        required-eq-ok _ _ _ typed ∙ ap some (ok-injective _ _ same),
        enough,
        sym (ok-injective _ _ written),
      ),
    )
