-- ===== src/Requests/Balances.antt =====
-- requests-v2.controller.ts: the balances of leave are the ledger of the requests for it. What is
-- pending of a balance is what its pending requests ask for, and what is used is what the approved
-- ones do.
use employee_attendance.Prelude.{
  ℕ, ◌+◌, ◌-◌, ◌≤◌, ◌≡◌, refl, ap, ◌∙◌, String, same_text, eq_iff, Bool, true, false, Option, none,
  some, List, [], ◌∷◌, any, find, arith, sum_by, Bool-cases, inl, inr, if◌then◌else◌, update_where,
  find_row, update_row, change_found, find_row-update_row, find_row-update_row_other,
}
use mathlib.Core.Path.{subst}
use employee_attendance.Prelude.Int.{ℤ, pos, ◌+ℤ◌, ◌-ℤ◌}
use employee_attendance.PayPeriod.{RequestStatus}
use employee_attendance.Requests.{
  LeaveBalance, LeaveRequest, BalanceKey, same_key, same_key_iff, is_pending, is_approved,
}
use employee_attendance.Requests.Leaves.{request_key}

-- The minutes that a request asks of a balance.
abbrev pub own_minutes : BalanceKey → LeaveRequest → ℕ
own_minutes k r = if same_key (request_key r) k then r.requested_minutes else 0

-- The minutes that the requests of a status ask of a balance.
abbrev pub minutes_in : (RequestStatus → Bool) → BalanceKey → List LeaveRequest → ℕ
minutes_in p k rs = sum_by (λ r. if p r.status then own_minutes k r else 0) rs

abbrev pub pending_in : Option LeaveBalance → ℤ
pending_in none = pos 0
pending_in (some b) = b.pending_minutes

abbrev pub used_in : Option LeaveBalance → ℕ
used_in none = 0
used_in (some b) = b.used_minutes

abbrev pub find_balance : BalanceKey → List LeaveBalance → Option LeaveBalance
find_balance k bs = find_row (λ b. b.key) same_key k bs

-- The counters of each balance are those of its requests.
abbrev pub IsLedger : List LeaveBalance → List LeaveRequest → Type 0
IsLedger bs rs =
    (k : BalanceKey)
    → (pending_in (find_balance k bs) ≡ pos (minutes_in is_pending k rs))
      × (used_in (find_balance k bs) ≡ minutes_in is_approved k rs)

-- No two requests have one id.
abbrev pub HasUniqueIds : List LeaveRequest → Type 0
HasUniqueIds [] = Unit
HasUniqueIds (r ∷ rs) = (any (λ q. same_text q.id r.id) rs ≡ false) × HasUniqueIds rs

abbrev pub find_request : String → List LeaveRequest → Option LeaveRequest
find_request id rs = find (λ q. same_text q.id id) rs

find-none :
    (id : String) (p : LeaveRequest → Bool)
    → ((q : LeaveRequest) → p q ≡ true → same_text q.id id ≡ true)
    → (rs : List LeaveRequest) → any (λ q. same_text q.id id) rs ≡ false
    → find p rs ≡ none
find-none id p by_id [] h = refl
find-none id p by_id (q ∷ rs) h = elim (Bool-cases (p q)) [
  | inl here ↦ let same = by_id q here in ground (arith)
  | inr there ↦ ground (arith, find-none id p by_id rs)
]

-- What is found by an id and more is what is found by the id.
pub find-by_id :
    (id : String) (p : LeaveRequest → Bool)
    → ((q : LeaveRequest) → p q ≡ true → same_text q.id id ≡ true)
    → (rs : List LeaveRequest) (r : LeaveRequest) → HasUniqueIds rs
    → find p rs ≡ some r
    → find_request id rs ≡ some r
find-by_id id p by_id [] r _ h = cc
find-by_id id p by_id (q ∷ rs) r (only, u) h = elim (Bool-cases (p q)) [
  | inl here ↦ let same = by_id q here in ground (arith)
  | inr there ↦ elim (Bool-cases (same_text q.id id)) [
    | inl same ↦
        let at = (eq_iff q.id id).0 same in
        let nothing =
          find-none id p by_id rs (subst (λ i. any (λ t. same_text t.id i) rs ≡ false) at only) in
        ground (arith)
    | inr other ↦ ground (arith, find-by_id id p by_id rs r u)
  ]
]

pub update_where-none :
    (id : String) (f : LeaveRequest → LeaveRequest) (rs : List LeaveRequest)
    → any (λ q. same_text q.id id) rs ≡ false
    → update_where (λ q. same_text q.id id) f rs ≡ rs
update_where-none id f [] h = refl
update_where-none id f (q ∷ rs) h = ground (arith, update_where-none id f rs)

pub pos-sub : (a m : ℕ) → m ≤ a → pos a -ℤ pos m ≡ pos (a - m)
unfolding ◌-ℤ◌
pos-sub a m h = ground arith

pub pos-add : (a m : ℕ) → pos a +ℤ pos m ≡ pos (a + m)
unfolding ◌+ℤ◌
pos-add a m = ground arith

-- A change of a request that is no longer pending after it.
abbrev pub IsDecision : Bool → (LeaveRequest → LeaveRequest) → Type 0
IsDecision accepted f =
    (q : LeaveRequest)
    → (is_pending (f q).status ≡ false)
      × (is_approved (f q).status ≡ accepted)
      × (request_key (f q) ≡ request_key q)
      × ((f q).requested_minutes ≡ q.requested_minutes)
      × ((f q).id ≡ q.id)

own_minutes-decided :
    (accepted : Bool) (f : LeaveRequest → LeaveRequest)
    → IsDecision accepted f
    → (k : BalanceKey) (q : LeaveRequest) → own_minutes k (f q) ≡ own_minutes k q
own_minutes-decided accepted f d k q =
    let (p, a, same, minutes, id) = d q in
    ap (λ b. if same_key b k then (f q).requested_minutes else 0) same
    ∙ ap (λ m. if same_key (request_key q) k then m else 0) minutes

pending-approved : (st : RequestStatus) → is_pending st ≡ true → is_approved st ≡ false
pending-approved st h = ground arith

-- The minutes of a pending request move from the pending ones to the approved ones or away.
pub minutes_in-decided :
    (accepted : Bool) (f : LeaveRequest → LeaveRequest)
    → IsDecision accepted f
    → (k : BalanceKey) (id : String) (rs : List LeaveRequest) (r : LeaveRequest) → HasUniqueIds rs
    → find_request id rs ≡ some r
    → is_pending r.status ≡ true
    → (minutes_in is_pending k (update_where (λ q. same_text q.id id) f rs) + own_minutes k r
        ≡ minutes_in is_pending k rs)
      × (minutes_in is_approved k (update_where (λ q. same_text q.id id) f rs)
          ≡ minutes_in is_approved k rs + (if accepted then own_minutes k r else 0))
minutes_in-decided accepted f d k id [] r _ h p = cc
minutes_in-decided accepted f d k id (q ∷ rs) r (only, u) h p =
    elim (Bool-cases (same_text q.id id)) [
      | inl here ↦
          let at = (eq_iff q.id id).0 here in
          let rest =
            update_where-none id f rs
              (subst (λ i. any (λ t. same_text t.id i) rs ≡ false) at only) in
          let same : q ≡ r = ground (arith) in
          let was : is_pending q.status ≡ true = ap (λ t. is_pending t.status) same ∙ p in
          let not_yet = pending-approved q.status was in
          let mine : own_minutes k q ≡ own_minutes k r = ap (own_minutes k) same in
          let kept = own_minutes-decided accepted f d k q in
          let (not_pending, accepting, same_key_of, same_minutes, same_id) = d q in
          let pendings = ap (λ ts. minutes_in is_pending k ts) rest in
          let approvals = ap (λ ts. minutes_in is_approved k ts) rest in ground (arith)
      | inr there ↦
          let (a, b) = minutes_in-decided accepted f d k id rs r u (ground (arith)) p in
          ground (arith)
    ]

-- What a decision does to the balance of the request.
abbrev pub IsSettlement : Bool → ℕ → (LeaveBalance → LeaveBalance) → Type 0
IsSettlement accepted m g =
    (b : LeaveBalance)
    → ((g b).pending_minutes ≡ b.pending_minutes -ℤ pos m)
      × ((g b).used_minutes ≡ b.used_minutes + (if accepted then m else 0))
      × ((g b).key ≡ b.key)

pub find_balance-settled :
    (accepted : Bool) (m : ℕ) (g : LeaveBalance → LeaveBalance)
    → IsSettlement accepted m g
    → (k other : BalanceKey) (bs : List LeaveBalance)
    → find_balance other (update_row (λ b. b.key) same_key k g bs)
      ≡ (if same_key k other then change_found g (find_balance other bs) else find_balance other bs)
find_balance-settled accepted m g d k other bs =
    let keeps = λ (b : LeaveBalance). (d b).2 in
    elim (Bool-cases (same_key k other)) [
      | inl here ↦
          let at = (same_key_iff k other).0 here in
          let found = find_row-update_row (λ b. b.key) same_key same_key_iff k g keeps bs in
          let moved =
            subst
              (λ x.
                find_balance x (update_row (λ b. b.key) same_key k g bs)
                ≡ change_found g (find_balance x bs))
              at found in
          ground (arith)
      | inr there ↦
          let found =
            find_row-update_row_other (λ b. b.key) same_key same_key_iff k g keeps other there bs in
          ground (arith)
    ]

counters-settled :
    (accepted : Bool) (m : ℕ) (g : LeaveBalance → LeaveBalance)
    → IsSettlement accepted m g
    → (o : Option LeaveBalance) (before after used : ℕ) → after + m ≡ before
    → pending_in o ≡ pos before
    → used_in o ≡ used
    → (pending_in (change_found g o) ≡ pos after)
      × (used_in (change_found g o) ≡ used + (if accepted then m else 0))
counters-settled accepted m g d none before after used sum p u = ground (arith)
counters-settled accepted m g d (some b) before after used sum p u =
    let (fewer, more, same) = d b in
    let less = pos-sub before m (omega arith) in
    (fewer ∙ ap (λ x. x -ℤ pos m) p ∙ less ∙ ap pos (omega arith), ground (arith))

-- A decision on a pending request, with the settlement of its balance, keeps the ledger.
pub decided-IsLedger :
    (accepted : Bool) (f : LeaveRequest → LeaveRequest)
    → IsDecision accepted f
    → (g : LeaveBalance → LeaveBalance) (id : String) (r : LeaveRequest)
    → IsSettlement accepted r.requested_minutes g
    → (bs : List LeaveBalance) (rs : List LeaveRequest) → HasUniqueIds rs
    → find_request id rs ≡ some r
    → is_pending r.status ≡ true
    → IsLedger bs rs
    → IsLedger
        (update_row (λ b. b.key) same_key (request_key r) g bs)
        (update_where (λ q. same_text q.id id) f rs)
decided-IsLedger accepted f d g id r e bs rs u h p ledger k =
    let (pendings, approvals) = minutes_in-decided accepted f d k id rs r u h p in
    let (was_pending, was_used) = ledger k in
    let found = find_balance-settled accepted r.requested_minutes g e (request_key r) k bs in
    elim (Bool-cases (same_key (request_key r) k)) [
      | inl here ↦
          let own : own_minutes k r ≡ r.requested_minutes = ground (arith) in
          let row : find_balance k (update_row (λ b. b.key) same_key (request_key r) g bs)
              ≡ change_found g (find_balance k bs) =
            ground (arith) in
          let (now_pending, now_used) =
            counters-settled accepted r.requested_minutes g e (find_balance k bs)
              (minutes_in is_pending k rs)
              (minutes_in is_pending k (update_where (λ q. same_text q.id id) f rs))
              (minutes_in is_approved k rs) (omega arith) was_pending was_used in
          (ap pending_in row ∙ now_pending, ap used_in row ∙ now_used ∙ ground (arith))
      | inr there ↦
          let own : own_minutes k r ≡ 0 = ground (arith) in
          let row : find_balance k (update_row (λ b. b.key) same_key (request_key r) g bs)
              ≡ find_balance k bs =
            ground (arith) in
          (
            ap pending_in row ∙ was_pending ∙ ap pos (omega arith),
            ap used_in row ∙ was_used ∙ ground (arith),
          )
    ]
