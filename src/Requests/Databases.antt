-- ===== src/Requests/Databases.antt =====
-- requests-v2.controller.ts: `reviewLeaveRequestOnD1` beside the transaction of `reviewLeaveRequestV2`.
use employee_attendance.Prelude.{
  ◌≡◌, refl, sym, ap, inl, inr, Bool-cases, ◌∙◌, Bool, true, false, not, any, List,
}
use employee_attendance.Prelude.Result.{Result, ok, err, ◌>>=◌, ◌>>◌, throw_if}
use employee_attendance.Calendar.{}
use employee_attendance.Leave.{LeaveDayAllocation, plan_leave_allocations}
use employee_attendance.Requests.{
  Decision, approve_request, reject_request, LeaveRequest, LeaveStore,
}
use employee_attendance.Requests.Reviews.{
  LeaveReview, LeaveReviewError, WorkRules, is_claimed, is_locked_for, leave_already_reviewed,
  pay_period_locked, planned, leave_input, credit_days, with_days, claimed, settle, decide_days,
  approve_days, write_review, write_review_on_d1,
}

map_ok :
    (LeaveStore → LeaveStore)
    → Result LeaveReviewError LeaveStore
    → Result LeaveReviewError LeaveStore
map_ok f (ok s) = ok (f s)
map_ok f (err e) = err e

map_ok-planned :
    (f : LeaveStore → LeaveStore) (g h : List LeaveDayAllocation → LeaveStore)
    → ((xs : List LeaveDayAllocation) → g xs ≡ f (h xs))
    → (o : Result LeaveReviewError (List LeaveDayAllocation))
    → (o >>= λ xs. ok (g xs)) ≡ map_ok f (o >>= λ xs. ok (h xs))
unfolding map_ok
map_ok-planned f g h same (ok xs) = ap ok (same xs)
map_ok-planned f g h same (err e) = refl

abbrev after :
    LeaveReview → WorkRules → Bool → LeaveRequest → LeaveStore → Result LeaveReviewError LeaveStore
after v w is_paid r s = planned (plan_leave_allocations (leave_input w r)) >>= λ xs.
    ok (with_days s (credit_days is_paid r v.day_id s.timesheets xs (s.timesheets, s.allocations)))

approve_days-claimed :
    (v : LeaveReview) (w : WorkRules) (is_paid : Bool) (r : LeaveRequest) (s : LeaveStore)
    → approve_days w is_paid r v.day_id (claimed v r s)
      ≡ map_ok (claimed v r) (approve_days w is_paid r v.day_id s)
unfolding approve_days map_ok
approve_days-claimed v w is_paid r s = elim (Bool-cases (any (is_locked_for r) s.pay_periods)) [
  | inl locked ↦
      ap (λ b. throw_if b pay_period_locked >> after v w is_paid r (claimed v r s)) locked
      ∙ sym (
          ap (λ b. map_ok (claimed v r) (throw_if b pay_period_locked >> after v w is_paid r s))
            locked)
  | inr unlocked ↦
      ap (λ b. throw_if b pay_period_locked >> after v w is_paid r (claimed v r s)) unlocked
      ∙ map_ok-planned (claimed v r) _ _ (λ xs. refl)
          (planned (plan_leave_allocations (leave_input w r)))
      ∙ sym (
          ap (λ b. map_ok (claimed v r) (throw_if b pay_period_locked >> after v w is_paid r s))
            unlocked)
]

decide_days-claimed :
    (d : Decision) (v : LeaveReview) (w : WorkRules) (is_paid : Bool) (r : LeaveRequest)
    (s : LeaveStore)
    → decide_days d w is_paid r v.day_id (claimed v r s)
      ≡ map_ok (claimed v r) (decide_days d w is_paid r v.day_id s)
unfolding decide_days map_ok
decide_days-claimed approve_request v w is_paid r s = approve_days-claimed v w is_paid r s
decide_days-claimed reject_request v w is_paid r s = refl

settled :
    (v : LeaveReview) (r : LeaveRequest) (o : Result LeaveReviewError LeaveStore)
    → (map_ok (claimed v r) o >>= λ days. ok (settle v r days))
      ≡ (o >>= λ days. ok (settle v r (claimed v r days)))
unfolding map_ok
settled v r (ok s) = refl
settled v r (err e) = refl

-- While the request is pending, the batch on D1 leaves the same rows as the transaction, or gives the
-- same error; and where it is pending no longer, the transaction refuses it.
pub write_review_on_d1_agrees :
    (v : LeaveReview) (w : WorkRules) (is_paid : Bool) (r : LeaveRequest) (s : LeaveStore)
    → (any (is_claimed r.id) s.leave_requests ≡ true
        → write_review_on_d1 v w is_paid r s ≡ write_review v w is_paid r s)
      × (any (is_claimed r.id) s.leave_requests ≡ false
          → write_review v w is_paid r s ≡ err leave_already_reviewed)
unfolding write_review write_review_on_d1
write_review_on_d1_agrees v w is_paid r s =
    let rest = decide_days v.decision w is_paid r v.day_id (claimed v r s) >>= λ days.
    ok (settle v r days) in
    (
      λ there. sym (
          ap (λ b. throw_if (not b) leave_already_reviewed >> rest) there
          ∙ ap (λ o. o >>= λ days. ok (settle v r days))
              (decide_days-claimed v.decision v w is_paid r s)
          ∙ settled v r (decide_days v.decision w is_paid r v.day_id s)),
      λ gone. ap (λ b. throw_if (not b) leave_already_reviewed >> rest) gone,
    )
