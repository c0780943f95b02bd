-- ===== src/Requests/Ledger.antt =====
-- requests-v2.controller.ts: creating, cancelling and reviewing requests for leave keeps their ledger,
-- and a request is created exactly if the ledger leaves room for it.
use employee_attendance.Prelude.{
  ℕ, ◌≡◌, refl, sym, ap, ◌∙◌, String, same_text, eq_iff, Bool, true, false, ◌&&◌, some, List, [],
  ◌∷◌, any, find, arith, Bool-cases, Option-cases, inl, inr, if◌then◌else◌, update_where,
  update_row, find-true,
}
use mathlib.Core.Path.{subst}
use employee_attendance.Prelude.Int.{}
use employee_attendance.Prelude.Result.{ok}
use employee_attendance.Calendar.{}
use employee_attendance.Requests.{
  Decision, approve_request, reject_request, LeaveRequest, LeaveStore, same_key, is_pending,
  is_approved,
}
use employee_attendance.Requests.Leaves.{
  request_key, find_own_pending, cancel_request, release_pending, write_cancellation,
  cancel_leave_request,
}
use employee_attendance.Requests.Reviews.{
  LeaveReview, WorkRules, is_claimed, claim_request, decide_request, decided_status, settle,
  settle_balance, claimed, write_review, find_pending, is_paid_leave, review_found,
  review_leave_request,
}
use employee_attendance.Requests.Parts.{decide_days-keeps, review_parts}
use employee_attendance.Requests.Balances.{
  IsLedger, HasUniqueIds, find_request, find-by_id, IsDecision, IsSettlement, decided-IsLedger,
}

abbrev pub IsSound : LeaveStore → Type 0
IsSound s = HasUniqueIds s.leave_requests × IsLedger s.balances s.leave_requests

pub cancel_request-IsDecision : (now : ℕ) → IsDecision false (cancel_request now)
unfolding cancel_request request_key
cancel_request-IsDecision now q = (refl, refl, refl, refl, refl)

pub release_pending-IsSettlement : (m : ℕ) → IsSettlement false m (release_pending m)
unfolding release_pending
release_pending-IsSettlement m b = (refl, omega arith, refl)

abbrev pub accepts : Decision → Bool
accepts approve_request = true
accepts reject_request = false

decide_request-IsDecision : (v : LeaveReview) → IsDecision (accepts v.decision) (decide_request v)
unfolding decide_request decided_status request_key
decide_request-IsDecision v q =
    elim v.decision
      as (λ d.
        (is_pending (decided_status d) ≡ false)
        × (is_approved (decided_status d) ≡ accepts d)
        × (request_key q ≡ request_key q)
        × (q.requested_minutes ≡ q.requested_minutes)
        × (q.id ≡ q.id)) [
          | approve_request ↦ (refl, refl, refl, refl, refl)
          | reject_request ↦ (refl, refl, refl, refl, refl)
        ]

settle_balance-IsSettlement :
    (d : Decision) (m : ℕ) → IsSettlement (accepts d) m (settle_balance d m)
unfolding settle_balance release_pending
settle_balance-IsSettlement approve_request m b = (refl, refl, refl)
settle_balance-IsSettlement reject_request m b = (refl, omega arith, refl)

any-same_ids :
    (id : String) (test : LeaveRequest → Bool) (f : LeaveRequest → LeaveRequest)
    → ((q : LeaveRequest) → (f q).id ≡ q.id)
    → (rs : List LeaveRequest)
    → any (λ q. same_text q.id id) (update_where test f rs) ≡ any (λ q. same_text q.id id) rs
any-same_ids id test f keeps [] = refl
any-same_ids id test f keeps (q ∷ rs) =
    let same = ap (λ i. same_text i id) (keeps q) in ground (arith, any-same_ids id test f keeps rs)

-- A change of rows that keeps their ids keeps them different.
pub update_where-HasUniqueIds :
    (test : LeaveRequest → Bool) (f : LeaveRequest → LeaveRequest)
    → ((q : LeaveRequest) → (f q).id ≡ q.id)
    → (rs : List LeaveRequest) → HasUniqueIds rs
    → HasUniqueIds (update_where test f rs)
update_where-HasUniqueIds test f keeps [] u = tt
update_where-HasUniqueIds test f keeps (q ∷ rs) (only, u) =
    let same = any-same_ids q.id test f keeps rs in
    elim (Bool-cases (test q)) [
      | inl here ↦
          let moved = ap (λ i. any (λ t. same_text t.id i) (update_where test f rs)) (keeps q) in
          let head : (if test q then f q else q) ≡ f q = ground (arith) in
          (
            ap (λ x. any (λ t. same_text t.id x.id) (update_where test f rs)) head
                ∙ moved
                ∙ same
                ∙ only,
            update_where-HasUniqueIds test f keeps rs u,
          )
      | inr there ↦
          let head : (if test q then f q else q) ≡ q = ground (arith) in
          (
            ap (λ x. any (λ t. same_text t.id x.id) (update_where test f rs)) head ∙ same ∙ only,
            update_where-HasUniqueIds test f keeps rs u,
          )
    ]

pub write_cancellation-IsSound :
    (r : LeaveRequest) (now : ℕ) (s : LeaveStore)
    → find_request r.id s.leave_requests ≡ some r
    → is_pending r.status ≡ true
    → IsSound s
    → IsSound (write_cancellation r now s)
unfolding write_cancellation
write_cancellation-IsSound r now s found p (u, l) = (
  update_where-HasUniqueIds (λ q. same_text q.id r.id) (cancel_request now)
      (λ q. (cancel_request-IsDecision now q).4) s.leave_requests u,
  decided-IsLedger false (cancel_request now) (cancel_request-IsDecision now)
      (release_pending r.requested_minutes) r.id r
      (release_pending-IsSettlement r.requested_minutes) s.balances s.leave_requests u found p l,
)

-- The row that a read by an id and more has found.
pub found-by_id :
    (id : String) (p : LeaveRequest → Bool)
    → ((q : LeaveRequest) → p q ≡ true → same_text q.id id ≡ true)
    → (rs : List LeaveRequest) (r : LeaveRequest) → HasUniqueIds rs
    → find p rs ≡ some r
    → find_request r.id rs ≡ some r
found-by_id id p by_id rs r u h =
    let at = (eq_iff r.id id).0 (by_id r (find-true p rs r h)) in
    subst (λ i. find_request i rs ≡ some r) (sym at) (find-by_id id p by_id rs r u h)

own_by_id :
    (id employee : String) (q : LeaveRequest)
    → (same_text q.id id && (same_text q.employee_id employee && is_pending q.status)) ≡ true
    → (same_text q.id id ≡ true) × (is_pending q.status ≡ true)
own_by_id id employee q h = ground (arith)

pub cancel_leave_request-IsSound :
    (id employee : String) (now : ℕ) (s s' : LeaveStore)
    → cancel_leave_request id employee now s ≡ ok s'
    → IsSound s
    → IsSound s'
unfolding cancel_leave_request find_own_pending
cancel_leave_request-IsSound id employee now s s' done (u, l) =
    let test = λ (q : LeaveRequest).
      same_text q.id id && (same_text q.employee_id employee && is_pending q.status) in
    elim (Option-cases (find test s.leave_requests)) [
      | inl nothing ↦ cc
      | inr (r, found) ↦
          let row =
            found-by_id id test (λ q h. (own_by_id id employee q h).0) s.leave_requests r u found in
          let written : write_cancellation r now s ≡ s' = cc in
          subst IsSound written (
            write_cancellation-IsSound r now s row
              (own_by_id id employee r (find-true test s.leave_requests r found)).1 (u, l))
    ]

same_where :
    (p q : LeaveRequest → Bool) (f : LeaveRequest → LeaveRequest) (rs : List LeaveRequest)
    → any p rs ≡ false
    → any q rs ≡ false
    → update_where p f rs ≡ update_where q f rs
same_where p q f [] h k = refl
same_where p q f (r ∷ rs) h k = ground (arith, same_where p q f rs)

any-claimed :
    (id : String) (rs : List LeaveRequest)
    → any (λ q. same_text q.id id) rs ≡ false
    → any (is_claimed id) rs ≡ false
any-claimed id [] h = refl
any-claimed id (r ∷ rs) h = ground (arith, any-claimed id rs)

-- The claim of a pending request changes the row with its id.
claim-by_id :
    (v : LeaveReview) (id : String) (rs : List LeaveRequest) (r : LeaveRequest)
    → HasUniqueIds rs
    → find_request id rs ≡ some r
    → is_pending r.status ≡ true
    → claim_request v id rs ≡ update_where (λ q. same_text q.id id) (decide_request v) rs
unfolding claim_request
claim-by_id v id [] r _ h p = refl
claim-by_id v id (q ∷ rs) r (only, u) h p = elim (Bool-cases (same_text q.id id)) [
  | inl here ↦
      let at = (eq_iff q.id id).0 here in
      let last = subst (λ i. any (λ t. same_text t.id i) rs ≡ false) at only in
      let rest =
        same_where (is_claimed id) (λ t. same_text t.id id) (decide_request v) rs
          (any-claimed id rs last) last in
      let same : q ≡ r = ground (arith) in
      let was : is_pending q.status ≡ true = ap (λ t. is_pending t.status) same ∙ p in
      ground (arith)
  | inr there ↦ ground (arith, claim-by_id v id rs r u)
]

claimed_is_pending :
    (id : String) (q : LeaveRequest)
    → is_claimed id q ≡ true
    → (same_text q.id id ≡ true) × (is_pending q.status ≡ true)
claimed_is_pending id q h = ground (arith)

abbrev IsRow : LeaveRequest → List LeaveRequest → Type 0
IsRow r rs = (find_request r.id rs ≡ some r) × (is_pending r.status ≡ true)

-- The requests after a review that succeeds.
pub write_review-requests :
    (v : LeaveReview) (w : WorkRules) (is_paid : Bool) (r : LeaveRequest) (s s' : LeaveStore)
    → write_review v w is_paid r s ≡ ok s'
    → HasUniqueIds s.leave_requests
    → find_request r.id s.leave_requests ≡ some r
    → is_pending r.status ≡ true
    → s'.leave_requests
      ≡ update_where (λ q. same_text q.id r.id) (decide_request v) s.leave_requests
unfolding settle
write_review-requests v w is_paid r s s' done u found p =
    let (there, (days, decided, at)) = review_parts v w is_paid r s s' done in
    let (requests, balances) =
      decide_days-keeps v.decision w is_paid r v.day_id (claimed v r s) days decided in
    ap (λ x. x.leave_requests) at ∙ requests ∙ claim-by_id v r.id s.leave_requests r u found p

-- A review of a pending request keeps the ledger.
pub write_review-IsSound :
    (v : LeaveReview) (w : WorkRules) (is_paid : Bool) (r : LeaveRequest) (s s' : LeaveStore)
    → write_review v w is_paid r s ≡ ok s'
    → find_request r.id s.leave_requests ≡ some r
    → is_pending r.status ≡ true
    → IsSound s
    → IsSound s'
unfolding settle
write_review-IsSound v w is_paid r s s' done found p (u, l) =
    let (there, (days, decided, at)) = review_parts v w is_paid r s s' done in
    let (requests, balances) =
      decide_days-keeps v.decision w is_paid r v.day_id (claimed v r s) days decided in
    let rows = requests ∙ claim-by_id v r.id s.leave_requests r u found p in
    let ids =
      update_where-HasUniqueIds (λ q. same_text q.id r.id) (decide_request v)
        (λ q. (decide_request-IsDecision v q).4) s.leave_requests u in
    let ledger =
      decided-IsLedger (accepts v.decision) (decide_request v) (decide_request-IsDecision v)
        (settle_balance v.decision r.requested_minutes) r.id r
        (settle_balance-IsSettlement v.decision r.requested_minutes) s.balances s.leave_requests u
        found p l in
    subst IsSound (sym at) (
      subst HasUniqueIds (sym rows) ids,
      subst
          (λ bs.
            IsLedger
              (update_row (λ b. b.key) same_key (request_key r)
                (settle_balance v.decision r.requested_minutes) bs)
              days.leave_requests)
          (sym balances)
          (subst
            (λ rs.
              IsLedger
                (update_row (λ b. b.key) same_key (request_key r)
                  (settle_balance v.decision r.requested_minutes) s.balances)
                rs)
            (sym rows) ledger),
    )

pub review_leave_request-IsSound :
    (v : LeaveReview) (w : WorkRules) (id : String) (s s' : LeaveStore)
    → review_leave_request v w id s ≡ ok s'
    → IsSound s
    → IsSound s'
unfolding review_leave_request find_pending
review_leave_request-IsSound v w id s s' done (u, l) =
    let test = λ (q : LeaveRequest). is_claimed id q && v.in_scope q.employee_id in
    elim (Option-cases (find test s.leave_requests)) [
      | inl nothing ↦ cc
      | inr (r, found) ↦
          let claims = find-true test s.leave_requests r found in
          let by_id = λ (q : LeaveRequest) (h : test q ≡ true).
            (claimed_is_pending id q (ground (arith))).0 in
          let row = found-by_id id test by_id s.leave_requests r u found in
          let written : write_review v w (is_paid_leave s.leave_types r) r s ≡ ok s' =
            ap (λ o. review_found v w o s) (sym found) ∙ done in
          write_review-IsSound v w (is_paid_leave s.leave_types r) r s s' written row
            (claimed_is_pending id r (ground (arith))).1 (u, l)
    ]
