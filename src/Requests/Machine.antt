-- ===== src/Requests/Machine.antt =====
-- requests-v2.controller.ts: the life of the requests for leave, as the steps that the handlers take
-- when each runs with nothing between its reads and its writes.
use employee_attendance.Prelude.{
  ℕ, ◌≡◌, refl, sym, ap, ◌∙◌, String, same_text, Bool, false, ◌&&◌, any, arith, Bool-cases,
  Option-cases, inl, inr, not, find_row-upsert_row,
}
use mathlib.Core.Path.{subst}
use employee_attendance.Prelude.Result.{ok, throw_if-eq-ok, ok-injective}
use employee_attendance.Requests.{LeaveStore, BalanceKey, same_key, same_key_iff}
use employee_attendance.Requests.Leaves.{
  Requester, LeaveForm, create_leave_request, find_own_pending, write_cancellation,
  cancel_leave_request, new_balance, set_entitlement, set_leave_balance, is_valid_balance,
  invalid_leave_balance, leave_balance_target_not_found,
}
use employee_attendance.Requests.Reviews.{
  LeaveReview, WorkRules, find_pending, is_paid_leave, review_found, review_leave_request,
}
use employee_attendance.Requests.Balances.{find_balance}
use employee_attendance.Requests.Ledger.{
  IsSound, cancel_leave_request-IsSound, review_leave_request-IsSound,
}
use employee_attendance.Requests.Entitlements.{create_leave_request-IsSound}
use employee_attendance.Requests.Overlaps.{
  AreApart, create_leave_request-AreApart, write_cancellation-AreApart, write_review-AreApart,
}

-- A step of a handler; the database gives a new request a new id.
pub data LeaveStep : LeaveStore → LeaveStore → Type 0 where
  creating :
      {s s' : LeaveStore} (c : Requester) (f : LeaveForm) (id : String)
      → any (λ q. same_text q.id id) s.leave_requests ≡ false
      → create_leave_request c f id s ≡ ok s'
      → LeaveStep s s'
  cancelling :
      {s s' : LeaveStore} (id employee : String) (now : ℕ)
      → cancel_leave_request id employee now s ≡ ok s'
      → LeaveStep s s'
  reviewing :
      {s s' : LeaveStore} (v : LeaveReview) (w : WorkRules) (id : String)
      → review_leave_request v w id s ≡ ok s'
      → LeaveStep s s'
  entitling :
      {s s' : LeaveStore} (has_employee has_type : Bool) (k : BalanceKey) (entitled : ℕ)
      → set_leave_balance has_employee has_type k entitled s ≡ ok s'
      → LeaveStep s s'

pub data LeaveSteps : LeaveStore → LeaveStore → Type 0 where
  finished : {s : LeaveStore} → LeaveSteps s s
  after : {s s' s'' : LeaveStore} → LeaveStep s s' → LeaveSteps s' s'' → LeaveSteps s s''

-- The ids differ, the balances are the ledger of the requests, and no two active ones clash.
abbrev pub IsConsistent : LeaveStore → Type 0
IsConsistent s = IsSound s × AreApart s.leave_requests

cancel_leave_request-AreApart :
    (id employee : String) (now : ℕ) (s s' : LeaveStore)
    → cancel_leave_request id employee now s ≡ ok s'
    → AreApart s.leave_requests
    → AreApart s'.leave_requests
unfolding cancel_leave_request
cancel_leave_request-AreApart id employee now s s' done h =
    elim (Option-cases (find_own_pending id employee s.leave_requests)) [
      | inl nothing ↦ cc
      | inr (r, found) ↦
          let written : write_cancellation r now s ≡ s' = cc in
          subst (λ x. AreApart x.leave_requests) written (write_cancellation-AreApart r now s h)
    ]

review_leave_request-AreApart :
    (v : LeaveReview) (w : WorkRules) (id : String) (s s' : LeaveStore)
    → review_leave_request v w id s ≡ ok s'
    → AreApart s.leave_requests
    → AreApart s'.leave_requests
unfolding review_leave_request
review_leave_request-AreApart v w id s s' done h =
    elim (Option-cases (find_pending v id s.leave_requests)) [
      | inl nothing ↦ cc
      | inr (r, found) ↦
          write_review-AreApart v w (is_paid_leave s.leave_types r) r s s'
            (ap (λ o. review_found v w o s) (sym found) ∙ done) h
    ]

set_leave_balance-IsLedger :
    (a b : Bool) (k : BalanceKey) (m : ℕ) (s s' : LeaveStore)
    → set_leave_balance a b k m s ≡ ok s'
    → IsConsistent s
    → IsConsistent s'
unfolding set_leave_balance new_balance
set_leave_balance-IsLedger a b k m s s' done ((u, l), h) =
    let (_, rest) = throw_if-eq-ok (not (is_valid_balance k m)) invalid_leave_balance _ done in
    let (_, written) = throw_if-eq-ok (not (a && b)) leave_balance_target_not_found _ rest in
    subst IsConsistent (ok-injective _ _ written) (
      (
        u,
        λ other.
            let row =
              find_row-upsert_row (λ b. b.key) same_key same_key_iff k (set_entitlement m)
                (λ b. refl) (new_balance k m) refl other s.balances in
            let (p, q) = l other in
            elim (Bool-cases (same_key k other)) [
              | inl here ↦
                  let at = ap (λ x. find_balance x s.balances) ((same_key_iff k other).0 here) in
                  elim (Option-cases (find_balance k s.balances)) [
                    | inl missing ↦ ground (arith)
                    | inr (c, found) ↦ ground (arith)
                  ]
              | inr there ↦ ground (arith)
            ],
      ),
      h,
    )

LeaveStep-IsConsistent : {s s' : LeaveStore} → LeaveStep s s' → IsConsistent s → IsConsistent s'
LeaveStep-IsConsistent {s} {s'} (creating c f id fresh done) (sound, apart) = (
  create_leave_request-IsSound c f id s s' done fresh sound,
  create_leave_request-AreApart c f id s s' done apart,
)
LeaveStep-IsConsistent {s} {s'} (cancelling id employee now done) (sound, apart) = (
  cancel_leave_request-IsSound id employee now s s' done sound,
  cancel_leave_request-AreApart id employee now s s' done apart,
)
LeaveStep-IsConsistent {s} {s'} (reviewing v w id done) (sound, apart) = (
  review_leave_request-IsSound v w id s s' done sound,
  review_leave_request-AreApart v w id s s' done apart,
)
LeaveStep-IsConsistent {s} {s'} (entitling a b k m done) c =
    set_leave_balance-IsLedger a b k m s s' done c

-- Whatever requests are created, cancelled and reviewed and whatever entitlements are set, each with
-- nothing between its reads and its writes, it stays true that each balance counts as pending what its
-- pending requests ask for and as used what its approved ones do, that no two requests have one id,
-- and that no two pending or approved requests of an employee share a day.
pub LeaveSteps-IsConsistent :
    {s s' : LeaveStore} → LeaveSteps s s' → IsConsistent s → IsConsistent s'
LeaveSteps-IsConsistent finished c = c
LeaveSteps-IsConsistent (after step rest) c =
    LeaveSteps-IsConsistent rest (LeaveStep-IsConsistent step c)
