-- ===== src/Requests/Races.antt =====
-- requests-v2.controller.ts: what becomes of the ledger when a request is approved between the read and
-- the batch of `cancelLeaveRequestV2`. The batch asks no longer whether the request is pending.
use employee_attendance.Prelude.{
  ℕ, ◌+◌, ◌≤◌, ◌≡◌, refl, ap, ◌∙◌, String, same_text, eq_iff, Bool, true, false, some, List, [],
  ◌∷◌, any, arith, Bool-cases, Option-cases, inl, inr, if◌then◌else◌, update_where, change_found,
  find_row-update_row,
}
use mathlib.Core.Path.{subst}
use employee_attendance.Prelude.Int.{}
use employee_attendance.Prelude.Result.{ok}
use employee_attendance.Requests.{
  approve_request, LeaveRequest, LeaveStore, BalanceKey, same_key, same_key_iff, is_pending,
  is_approved,
}
use employee_attendance.Requests.Leaves.{
  cancel_request, release_pending, request_key, write_cancellation,
}
use employee_attendance.Requests.Reviews.{
  LeaveReview, WorkRules, decide_request, decided_status, write_review,
}
use employee_attendance.Requests.Balances.{
  own_minutes, minutes_in, used_in, find_balance, find_balance-settled, IsLedger, HasUniqueIds,
  find_request, update_where-none,
}
use employee_attendance.Requests.Ledger.{
  IsSound, write_review-IsSound, write_review-requests, release_pending-IsSettlement,
}

-- Cancelling a request takes its minutes out of the approved ones if it was approved.
approved-cancelled :
    (now : ℕ) (k : BalanceKey) (id : String) (rs : List LeaveRequest) (r : LeaveRequest)
    → HasUniqueIds rs
    → find_request id rs ≡ some r
    → is_approved r.status ≡ true
    → minutes_in is_approved k (update_where (λ q. same_text q.id id) (cancel_request now) rs)
        + own_minutes k r
      ≡ minutes_in is_approved k rs
unfolding cancel_request
approved-cancelled now k id [] r _ h p = cc
approved-cancelled now k id (q ∷ rs) r (only, u) h p = elim (Bool-cases (same_text q.id id)) [
  | inl here ↦
      let at = (eq_iff q.id id).0 here in
      let rest =
        update_where-none id (cancel_request now) rs
          (subst (λ i. any (λ t. same_text t.id i) rs ≡ false) at only) in
      let approvals = ap (λ ts. minutes_in is_approved k ts) rest in
      let same : q ≡ r = ground (arith) in
      let was : is_approved q.status ≡ true = ap (λ t. is_approved t.status) same ∙ p in
      let mine : own_minutes k q ≡ own_minutes k r = ap (own_minutes k) same in ground (arith)
  | inr there ↦ ground (arith, approved-cancelled now k id rs r u)
]

used-released :
    (other : BalanceKey) (s : LeaveStore) (r : LeaveRequest) (now : ℕ)
    → used_in (find_balance other (write_cancellation r now s).balances)
      ≡ used_in (find_balance other s.balances)
unfolding write_cancellation
used-released other s r now =
    let row =
      find_balance-settled false r.requested_minutes (release_pending r.requested_minutes)
        (release_pending-IsSettlement r.requested_minutes) (request_key r) other s.balances in
    elim (Bool-cases (same_key (request_key r) other)) [
      | inl here ↦ elim (Option-cases (find_balance other s.balances)) [
        | inl missing ↦ ground (arith)
        | inr (b, found) ↦
            let (_, same, _) = release_pending-IsSettlement r.requested_minutes b in ground (arith)
      ]
      | inr there ↦ ground (arith)
    ]

approved_row :
    (v : LeaveReview)
    → v.decision ≡ approve_request
    → (r : LeaveRequest)
    → (is_approved (decide_request v r).status ≡ true)
      × (request_key (decide_request v r) ≡ request_key r)
unfolding decide_request decided_status request_key
approved_row v h r = (ap (λ d. is_approved (decided_status d)) h, refl)

decide_request-id : (v : LeaveReview) (q : LeaveRequest) → (decide_request v q).id ≡ q.id
unfolding decide_request
decide_request-id v q = refl

own_decided :
    (v : LeaveReview) (k : BalanceKey) (r : LeaveRequest)
    → request_key (decide_request v r) ≡ request_key r
    → same_key (request_key r) k ≡ true
    → own_minutes k (decide_request v r) ≡ r.requested_minutes
unfolding decide_request
own_decided v k r same here =
    ap (λ a. if same_key a k then r.requested_minutes else 0) same
    ∙ ap (λ b. if b then r.requested_minutes else 0) here

-- Where the balances are the ledger of the requests and a pending request of at least a minute is
-- approved after `cancelLeaveRequestV2` has read it, the batch of the cancellation, which is then
-- written, breaks the ledger: the balance no longer counts what the requests have taken of it.
pub write_cancellation-approved :
    (v : LeaveReview) (w : WorkRules) (is_paid : Bool) (r : LeaveRequest) (now : ℕ)
    (s s' : LeaveStore)
    → IsSound s
    → find_request r.id s.leave_requests ≡ some r
    → is_pending r.status ≡ true
    → 1 ≤ r.requested_minutes
    → v.decision ≡ approve_request
    → write_review v w is_paid r s ≡ ok s'
    → ¬ IsLedger (write_cancellation r now s').balances (write_cancellation r now s').leave_requests
unfolding write_cancellation
write_cancellation-approved v w is_paid r now s s' (u, l) found p some_minutes accepted done
      broken =
    let rows = write_review-requests v w is_paid r s s' done u found p in
    let (u', l') = write_review-IsSound v w is_paid r s s' done found p (u, l) in
    let decided =
      find_row-update_row (λ q. q.id) same_text eq_iff r.id (decide_request v) (decide_request-id v)
        s.leave_requests in
    let row : find_request r.id s'.leave_requests ≡ some (decide_request v r) =
      ap (find_request r.id) rows ∙ decided ∙ ap (change_found (decide_request v)) found in
    let (is_now, same) = approved_row v accepted r in
    let k = request_key r in
    let fewer =
      approved-cancelled now k r.id s'.leave_requests (decide_request v r) u' row is_now in
    let (_, before) = l' k in
    let (_, afterwards) = broken k in
    let kept = used-released k s' r now in
    let key_same = (same_key_iff k k).1 refl in
    let own : own_minutes k (decide_request v r) ≡ r.requested_minutes =
      own_decided v k r same key_same in
    omega arith
