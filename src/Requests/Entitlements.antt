-- ===== src/Requests/Entitlements.antt =====
-- requests-v2.controller.ts: when `createLeaveRequestV2` creates a request for leave, what that does to
-- the ledger, and how the two databases differ in it.
use employee_attendance.Prelude.{
  ℕ, ◌+◌, ◌≤◌, ◌≡◌, ◌↔◌, ◌⊎◌, refl, sym, ap, ◌∙◌, String, same_text, Bool, true, false, Option,
  none, some, List, ◌∷◌, any, arith, Bool-cases, Option-cases, inl, inr, if◌then◌else◌, is_some,
  update_row, change_found, find_row-update_row, find_row-update_row_other, find_row-upsert_row,
}
use mathlib.Core.Path.{subst}
use employee_attendance.Prelude.Int.{pos, ◌+ℤ◌, ◌-ℤ◌, ltb_ℤ}
use employee_attendance.Prelude.Result.{Result, ok, err, ◌>>=◌, ◌>>◌, throw_if}
use employee_attendance.PayPeriod.{}
use employee_attendance.Requests.{
  LeaveType, LeaveBalance, LeaveStore, BalanceKey, same_key, same_key_iff, is_pending, is_approved,
}
use employee_attendance.Requests.Leaves.{
  Requester, LeaveForm, LeaveRequestError, is_valid_leave, is_overlapped, find_leave_type,
  leave_key, request_key, new_leave_request, new_balance, unchanged, ensure_balance, ensured,
  balance_of, available_minutes, add_pending, add_leave_request, lacks_leave, check_leave,
  create_leave_request, create_checked_on_d1, create_leave_request_on_d1, insufficient_leave,
}
use employee_attendance.Requests.Parts.{create_parts}
use employee_attendance.Requests.Balances.{
  minutes_in, pending_in, used_in, find_balance, IsLedger, pos-add,
}
use employee_attendance.Requests.Ledger.{IsSound}

-- What the upsert of a balance leaves of a key.
find_balance-ensure_balance :
    (k other : BalanceKey) (m : ℕ) (bs : List LeaveBalance)
    → find_balance other (ensure_balance k m bs)
      ≡ (if same_key k other then some (balance_of k m bs) else find_balance other bs)
unfolding ensure_balance balance_of new_balance
find_balance-ensure_balance k other m bs =
    let row =
      find_row-upsert_row (λ b. b.key) same_key same_key_iff k unchanged (λ b. refl)
        (new_balance k m) refl other bs in
    elim (Option-cases (find_balance k bs)) [
      | inl missing ↦ ground (arith)
      | inr (b, found) ↦ ground (arith)
    ]

-- The upsert of a balance changes no counter.
pub ensure_balance-counters :
    (k other : BalanceKey) (m : ℕ) (bs : List LeaveBalance)
    → (pending_in (find_balance other (ensure_balance k m bs)) ≡ pending_in (find_balance other bs))
      × (used_in (find_balance other (ensure_balance k m bs)) ≡ used_in (find_balance other bs))
unfolding balance_of new_balance
ensure_balance-counters k other m bs =
    let row = find_balance-ensure_balance k other m bs in
    elim (Bool-cases (same_key k other)) [
      | inl here ↦
          let at = (same_key_iff k other).0 here in
          let now : find_balance other (ensure_balance k m bs) ≡ some (balance_of k m bs) =
            ground (arith) in
          let found = ap (λ x. find_balance x bs) at in
          elim (Option-cases (find_balance k bs)) [
            | inl missing ↦ ground (arith)
            | inr (b, there) ↦ ground (arith)
          ]
      | inr there ↦
          let now : find_balance other (ensure_balance k m bs) ≡ find_balance other bs =
            ground (arith) in
          (ap pending_in now, ap used_in now)
    ]

balance_of-counters :
    (k : BalanceKey) (m : ℕ) (bs : List LeaveBalance)
    → ((balance_of k m bs).pending_minutes ≡ pending_in (find_balance k bs))
      × ((balance_of k m bs).used_minutes ≡ used_in (find_balance k bs))
unfolding balance_of new_balance
balance_of-counters k m bs = elim (Option-cases (find_balance k bs)) [
  | inl missing ↦ ground (arith)
  | inr (b, there) ↦ ground (arith)
]

available_minutes_lem :
    (e u p m : ℕ) → (ltb_ℤ (pos e -ℤ pos u -ℤ pos p) (pos m) ≡ false) ↔ (u + p + m ≤ e)
unfolding ◌-ℤ◌
available_minutes_lem e u p m = ground (arith)

lacks_leave_iff :
    (t : LeaveType) (k : BalanceKey) (m : ℕ) (s : LeaveStore)
    → IsLedger s.balances s.leave_requests
    → (lacks_leave t k m s ≡ false) ↔ (
        minutes_in is_approved k s.leave_requests + minutes_in is_pending k s.leave_requests + m
        ≤ (balance_of k t.default_entitlement_minutes s.balances).entitled_minutes)
unfolding available_minutes
lacks_leave_iff t k m s ledger =
    let b = balance_of k t.default_entitlement_minutes s.balances in
    let (p, u) = balance_of-counters k t.default_entitlement_minutes s.balances in
    let (ledger_pending, ledger_used) = ledger k in
    let waiting = p ∙ ledger_pending in
    let used = u ∙ ledger_used in
    subst
      (λ x. (ltb_ℤ (pos b.entitled_minutes -ℤ pos b.used_minutes -ℤ x) (pos m) ≡ false) ↔ (
        minutes_in is_approved k s.leave_requests + minutes_in is_pending k s.leave_requests + m
        ≤ b.entitled_minutes))
      (sym waiting)
      (subst
        (λ x.
          (ltb_ℤ (pos b.entitled_minutes -ℤ pos x -ℤ pos (minutes_in is_pending k s.leave_requests))
              (pos m)
            ≡ false)
          ↔ (minutes_in is_approved k s.leave_requests
                + minutes_in is_pending k s.leave_requests
                + m
              ≤ b.entitled_minutes))
        (sym used)
        (available_minutes_lem b.entitled_minutes (minutes_in is_approved k s.leave_requests)
          (minutes_in is_pending k s.leave_requests) m))

-- The promise of the leave balance: what is entitled, less what the requests have taken of it.
abbrev pub HasRoom : Requester → LeaveForm → LeaveStore → LeaveType → Type 0
HasRoom c f s t =
    minutes_in is_approved (leave_key c f) s.leave_requests
      + minutes_in is_pending (leave_key c f) s.leave_requests
      + f.requested_minutes
    ≤ (balance_of (leave_key c f) t.default_entitlement_minutes s.balances).entitled_minutes

-- Where the balances are the ledger of the requests, a request is created exactly if it is valid,
-- names an active leave type of the client, overlaps no pending or approved request of the employee,
-- and its minutes, with those of all pending and approved requests of the same balance, are within the
-- entitlement.
pub create_leave_request_iff :
    (c : Requester) (f : LeaveForm) (id : String) (s : LeaveStore)
    → IsLedger s.balances s.leave_requests
    → ((s' : LeaveStore) × (create_leave_request c f id s ≡ ok s')) ↔ (
        (is_valid_leave f ≡ true)
        × (any (is_overlapped c.employee_id f.start_date f.end_date) s.leave_requests ≡ false)
        × ((t : LeaveType) × (find_leave_type c f.leave_type_id s.leave_types ≡ some t)
            × HasRoom c f s t))
unfolding create_leave_request check_leave
create_leave_request_iff c f id s ledger = (
  λ (s', done).
      let (valid, apart, (t, typed, enough, at)) = create_parts c f id s s' done in
      (
        valid,
        apart,
        (t, typed, (lacks_leave_iff t (leave_key c f) f.requested_minutes s ledger).0 enough),
      ),
  λ (valid, apart, (t, typed, room)).
      let enough = (lacks_leave_iff t (leave_key c f) f.requested_minutes s ledger).1 room in
      (add_leave_request c f id (ensured t (leave_key c f) s), ground (arith)),
)

abbrev no_decision : ℕ → LeaveBalance → LeaveBalance
no_decision m b = record b { pending_minutes = b.pending_minutes +ℤ pos m }

find_balance-added :
    (k other : BalanceKey) (m : ℕ) (bs : List LeaveBalance)
    → find_balance other (update_row (λ b. b.key) same_key k (add_pending m) bs) ≡ (
        if same_key k other
        then change_found (add_pending m) (find_balance other bs)
        else find_balance other bs)
unfolding add_pending
find_balance-added k other m bs = elim (Bool-cases (same_key k other)) [
  | inl here ↦
      let at = (same_key_iff k other).0 here in
      let found =
        find_row-update_row (λ b. b.key) same_key same_key_iff k (no_decision m) (λ b. refl) bs in
      let moved =
        subst
          (λ x.
            find_balance x (update_row (λ b. b.key) same_key k (no_decision m) bs)
            ≡ change_found (no_decision m) (find_balance x bs))
          at found in
      ground (arith)
  | inr there ↦
      let same =
        find_row-update_row_other (λ b. b.key) same_key same_key_iff k (no_decision m) (λ b. refl)
          other there bs in
      ground (arith)
]

counters-added :
    (m : ℕ) (o : Option LeaveBalance)
    → is_some o ≡ true
    → (pending_in (change_found (add_pending m) o) ≡ pending_in o +ℤ pos m)
      × (used_in (change_found (add_pending m) o) ≡ used_in o)
unfolding add_pending
counters-added m none h = cc
counters-added m (some b) h = (refl, refl)

added-IsLedger :
    (c : Requester) (f : LeaveForm) (id : String) (t : LeaveType) (s : LeaveStore)
    → IsLedger s.balances s.leave_requests
    → IsLedger
        (add_leave_request c f id (ensured t (leave_key c f) s)).balances
        (new_leave_request c f id ∷ s.leave_requests)
unfolding new_leave_request request_key
added-IsLedger c f id t s ledger other =
    let k = leave_key c f in
    let m = f.requested_minutes in
    let bs = ensure_balance k t.default_entitlement_minutes s.balances in
    let (was_pending, was_used) = ledger other in
    let (p, u) = ensure_balance-counters k other t.default_entitlement_minutes s.balances in
    let row = find_balance-added k other m bs in
    elim (Bool-cases (same_key k other)) [
      | inl here ↦
          let there : is_some (find_balance other bs) ≡ true =
            let e = find_balance-ensure_balance k other t.default_entitlement_minutes s.balances in
            ground (arith) in
          let now : find_balance other (update_row (λ b. b.key) same_key k (add_pending m) bs)
              ≡ change_found (add_pending m) (find_balance other bs) =
            ground (arith) in
          let sum = pos-add (minutes_in is_pending other s.leave_requests) m in
          let (a, b) = counters-added m (find_balance other bs) there in
          (
            ap pending_in now
                ∙ a
                ∙ ap (λ x. x +ℤ pos m) (p ∙ was_pending)
                ∙ sum
                ∙ ap pos (ground (arith)),
            ap used_in now ∙ b ∙ u ∙ was_used ∙ omega arith,
          )
      | inr apart ↦
          let now : find_balance other (update_row (λ b. b.key) same_key k (add_pending m) bs)
              ≡ find_balance other bs =
            ground (arith) in
          (
            ap pending_in now ∙ p ∙ was_pending ∙ ap pos (ground (arith)),
            ap used_in now ∙ u ∙ was_used ∙ omega arith,
          )
    ]

-- A request that is created keeps the ledger, if its id is new.
pub create_leave_request-IsSound :
    (c : Requester) (f : LeaveForm) (id : String) (s s' : LeaveStore)
    → create_leave_request c f id s ≡ ok s'
    → any (λ q. same_text q.id id) s.leave_requests ≡ false
    → IsSound s
    → IsSound s'
unfolding new_leave_request
create_leave_request-IsSound c f id s s' done fresh (u, l) =
    let (valid, apart, (t, typed, enough, at)) = create_parts c f id s s' done in
    subst IsSound (sym at) ((fresh, u), λ k. added-IsLedger c f id t s l k)

-- The counters of the balances agree, although one side may have rows that the other one lacks.
abbrev pub SameCounters : List LeaveBalance → List LeaveBalance → Type 0
SameCounters bs cs =
    (k : BalanceKey)
    → (pending_in (find_balance k bs) ≡ pending_in (find_balance k cs))
      × (used_in (find_balance k bs) ≡ used_in (find_balance k cs))

Result-cases :
    (r : Result LeaveRequestError LeaveType)
    → ((e : LeaveRequestError) × (r ≡ err e)) ⊎ ((t : LeaveType) × (r ≡ ok t))
Result-cases (err e) = inl (e, refl)
Result-cases (ok t) = inr (t, refl)

abbrev created :
    Requester → LeaveForm → String → LeaveStore → LeaveType → Result LeaveRequestError LeaveStore
created c f id s t =
    throw_if (lacks_leave t (leave_key c f) f.requested_minutes s) insufficient_leave
    >> ok (add_leave_request c f id (ensured t (leave_key c f) s))

abbrev ending :
    Requester
    → LeaveForm
    → String
    → LeaveStore
    → LeaveType
    → Bool
    → LeaveStore × Option LeaveRequestError
ending c f id s t short =
    let s' = ensured t (leave_key c f) s in
    if short then (s', some insufficient_leave) else (add_leave_request c f id s', none)

-- On D1 a request is created exactly if the transaction creates it, with the same rows; where the
-- transaction throws, D1 gives the same error, and all that it may leave is a balance with nothing
-- used and nothing pending: the requests and the counters of all balances are as before.
pub create_leave_request_on_d1_agrees :
    (c : Requester) (f : LeaveForm) (id : String) (s : LeaveStore)
    → ((s' : LeaveStore) × (create_leave_request c f id s ≡ ok s')
        × (create_leave_request_on_d1 c f id s ≡ (s', none)))
      ⊎ ((e : LeaveRequestError) × (create_leave_request c f id s ≡ err e)
          × ((create_leave_request_on_d1 c f id s).1 ≡ some e)
          × ((create_leave_request_on_d1 c f id s).0.leave_requests ≡ s.leave_requests)
          × SameCounters (create_leave_request_on_d1 c f id s).0.balances s.balances)
unfolding create_leave_request create_leave_request_on_d1
create_leave_request_on_d1_agrees c f id s = elim (Result-cases (check_leave c f s)) [
  | inl (e, thrown) ↦ inr (
    e,
    ap (λ r. r >>= created c f id s) thrown,
    ap (λ r. (create_checked_on_d1 c f id s r).1) thrown,
    ap (λ r. (create_checked_on_d1 c f id s r).0.leave_requests) thrown,
    subst (λ r. SameCounters (create_checked_on_d1 c f id s r).0.balances s.balances) (sym thrown)
        (λ k. (refl, refl)),
  )
  | inr (t, checked) ↦ elim (Bool-cases (lacks_leave t (leave_key c f) f.requested_minutes s)) [
    | inl short ↦ inr (
      insufficient_leave,
      ap (λ r. r >>= created c f id s) checked
          ∙ ap
              (λ b.
                throw_if b insufficient_leave
                >> ok (add_leave_request c f id (ensured t (leave_key c f) s)))
              short,
      ap (λ r. (create_checked_on_d1 c f id s r).1) checked
          ∙ ap (λ b. (ending c f id s t b).1) short,
      ap (λ r. (create_checked_on_d1 c f id s r).0.leave_requests) checked
          ∙ ap (λ b. (ending c f id s t b).0.leave_requests) short,
      subst (λ r. SameCounters (create_checked_on_d1 c f id s r).0.balances s.balances)
          (sym checked)
          (subst (λ b. SameCounters (ending c f id s t b).0.balances s.balances) (sym short)
            (λ k.
              ensure_balance-counters (leave_key c f) k t.default_entitlement_minutes s.balances)),
    )
    | inr enough ↦ inl (
      add_leave_request c f id (ensured t (leave_key c f) s),
      ap (λ r. r >>= created c f id s) checked
          ∙ ap
              (λ b.
                throw_if b insufficient_leave
                >> ok (add_leave_request c f id (ensured t (leave_key c f) s)))
              enough,
      ap (create_checked_on_d1 c f id s) checked ∙ ap (ending c f id s t) enough,
    )
  ]
]
