-- ===== src/Requests/Overlaps.antt =====
-- requests-v2.controller.ts: an employee has no two pending or approved requests for leave on one day.
use employee_attendance.Prelude.{
  ℕ, ◌≡◌, refl, sym, ap, ◌∙◌, String, same_text, Bool, true, false, ◌&&◌, List, [], ◌∷◌, any, arith,
  Bool-cases, inl, inr, if◌then◌else◌, update_where,
}
use mathlib.Core.Path.{subst}
use employee_attendance.Prelude.Result.{ok}
use employee_attendance.Calendar.{day_le}
use employee_attendance.Requests.{LeaveRequest, LeaveStore}
use employee_attendance.Requests.Leaves.{
  Requester, LeaveForm, is_active_request, is_overlapped, new_leave_request, create_leave_request,
  cancel_request, write_cancellation,
}
use employee_attendance.Requests.Reviews.{
  LeaveReview, WorkRules, is_claimed, decide_request, claim_request, claimed, settle, write_review,
}
use employee_attendance.Requests.Parts.{create_parts, review_parts, decide_days-keeps}

-- A pending or approved request of the same employee with a day of the other one.
abbrev pub is_clash : LeaveRequest → LeaveRequest → Bool
is_clash r q = is_active_request r.status && is_overlapped r.employee_id r.start_date r.end_date q

-- No request clashes with an earlier one.
abbrev pub AreApart : List LeaveRequest → Type 0
AreApart [] = Unit
AreApart (r ∷ rs) = (any (is_clash r) rs ≡ false) × AreApart rs

-- A change that only takes the dates of a request out, or keeps them.
abbrev IsWeaker : (LeaveRequest → Bool) → (LeaveRequest → LeaveRequest) → Type 0
IsWeaker test f =
    (q : LeaveRequest)
    → test q ≡ true
    → ((f q).employee_id ≡ q.employee_id)
      × ((f q).start_date ≡ q.start_date)
      × ((f q).end_date ≡ q.end_date)
      × (is_active_request (f q).status ≡ true → is_active_request q.status ≡ true)

any-clash-other :
    (test : LeaveRequest → Bool) (f : LeaveRequest → LeaveRequest)
    → IsWeaker test f
    → (r : LeaveRequest) (rs : List LeaveRequest) → any (is_clash r) rs ≡ false
    → any (is_clash r) (update_where test f rs) ≡ false
unfolding is_overlapped
any-clash-other test f weaker r [] h = refl
any-clash-other test f weaker r (q ∷ rs) h = elim (Bool-cases (test q)) [
  | inl here ↦
      let (e, a, b, active) = weaker q here in
      let employees = ap (λ i. same_text i r.employee_id) e in
      let starts = ap (λ d. day_le d r.end_date) a in
      let ends = ap (λ d. day_le r.start_date d) b in
      ground (arith, any-clash-other test f weaker r rs)
  | inr there ↦ ground (arith, any-clash-other test f weaker r rs)
]

any-clash-same :
    (r r' : LeaveRequest)
    → r'.employee_id ≡ r.employee_id
    → r'.start_date ≡ r.start_date
    → r'.end_date ≡ r.end_date
    → (is_active_request r'.status ≡ true → is_active_request r.status ≡ true)
    → (rs : List LeaveRequest) → any (is_clash r) rs ≡ false
    → any (is_clash r') rs ≡ false
unfolding is_overlapped
any-clash-same r r' e a b active [] h = refl
any-clash-same r r' e a b active (q ∷ rs) h =
    let employees = ap (λ i. same_text q.employee_id i) e in
    let starts = ap (λ d. day_le d q.end_date) a in
    let ends = ap (λ d. day_le q.start_date d) b in
    let first = ap (λ d. day_le q.start_date d) b in
    let last = ap (λ d. day_le d q.end_date) a in
    ground (arith, any-clash-same r r' e a b active rs)

update_where-AreApart :
    (test : LeaveRequest → Bool) (f : LeaveRequest → LeaveRequest)
    → IsWeaker test f
    → (rs : List LeaveRequest) → AreApart rs
    → AreApart (update_where test f rs)
update_where-AreApart test f weaker [] h = tt
update_where-AreApart test f weaker (r ∷ rs) (p, ps) =
    let rest = update_where-AreApart test f weaker rs ps in
    let kept = any-clash-other test f weaker r rs p in
    elim (Bool-cases (test r)) [
      | inl here ↦
          let (e, a, b, active) = weaker r here in
          let changed = any-clash-same r (f r) e a b active (update_where test f rs) kept in
          let head : (if test r then f r else r) ≡ f r = ground (arith) in
          (ap (λ x. any (is_clash x) (update_where test f rs)) head ∙ changed, rest)
      | inr there ↦
          let head : (if test r then f r else r) ≡ r = ground (arith) in
          (ap (λ x. any (is_clash x) (update_where test f rs)) head ∙ kept, rest)
    ]

new_clash :
    (c : Requester) (f : LeaveForm) (id : String) (rs : List LeaveRequest)
    → any (is_overlapped c.employee_id f.start_date f.end_date) rs ≡ false
    → any (is_clash (new_leave_request c f id)) rs ≡ false
unfolding new_leave_request
new_clash c f id [] h = refl
new_clash c f id (q ∷ rs) h = ground (arith, new_clash c f id rs)

pub create_leave_request-AreApart :
    (c : Requester) (f : LeaveForm) (id : String) (s s' : LeaveStore)
    → create_leave_request c f id s ≡ ok s'
    → AreApart s.leave_requests
    → AreApart s'.leave_requests
create_leave_request-AreApart c f id s s' done h =
    let (_, apart, (t, _, _, at)) = create_parts c f id s s' done in
    subst (λ x. AreApart x.leave_requests) (sym at) (new_clash c f id s.leave_requests apart, h)

cancel_request-IsWeaker :
    (test : LeaveRequest → Bool) (now : ℕ) → IsWeaker test (cancel_request now)
unfolding cancel_request
cancel_request-IsWeaker test now q h = (refl, refl, refl, λ active. cc)

decide_request-IsWeaker :
    (v : LeaveReview) (id : String) → IsWeaker (is_claimed id) (decide_request v)
unfolding decide_request
decide_request-IsWeaker v id q h = (refl, refl, refl, λ active. ground (arith))

pub write_cancellation-AreApart :
    (r : LeaveRequest) (now : ℕ) (s : LeaveStore)
    → AreApart s.leave_requests
    → AreApart (write_cancellation r now s).leave_requests
unfolding write_cancellation
write_cancellation-AreApart r now s h =
    update_where-AreApart (λ q. same_text q.id r.id) (cancel_request now)
      (cancel_request-IsWeaker (λ q. same_text q.id r.id) now) s.leave_requests h

pub write_review-AreApart :
    (v : LeaveReview) (w : WorkRules) (is_paid : Bool) (r : LeaveRequest) (s s' : LeaveStore)
    → write_review v w is_paid r s ≡ ok s'
    → AreApart s.leave_requests
    → AreApart s'.leave_requests
unfolding settle claim_request
write_review-AreApart v w is_paid r s s' done h =
    let (there, (days, decided, at)) = review_parts v w is_paid r s s' done in
    let (requests, balances) =
      decide_days-keeps v.decision w is_paid r v.day_id (claimed v r s) days decided in
    subst (λ x. AreApart x.leave_requests) (sym at)
      (subst AreApart (sym requests) (
        update_where-AreApart (is_claimed r.id) (decide_request v) (decide_request-IsWeaker v r.id)
          s.leave_requests h))
