-- ===== src/Requests/Leaves.antt =====
-- requests-v2.controller.ts: `createLeaveRequestV2`, on both databases, `cancelLeaveRequestV2` and
-- `setLeaveBalanceV2`. The limits on the lengths of texts are left out, and a new row's id is given.
use employee_attendance.Prelude.{
  ℕ, ◌*◌, ◌==◌, leb, String, same_text, Bool, not, ◌&&◌, ◌||◌, Option, none, some, List, ◌∷◌, any,
  find, or_else, if◌then◌else◌, update_where, find_row, update_row, upsert_row,
}
use employee_attendance.Prelude.Int.{ℤ, pos, ◌+ℤ◌, ◌-ℤ◌, ltb_ℤ}
use employee_attendance.Prelude.Result.{Result, ok, err, ◌>>=◌, ◌>>◌, throw_if}
use employee_attendance.Calendar.{Day, day_le}
use employee_attendance.PayPeriod.{RequestStatus, pending, cancelled}
use employee_attendance.Requests.{
  LeaveType, LeaveBalance, LeaveRequest, LeaveStore, BalanceKey, same_key, is_pending, is_approved,
}

-- The employee who asks, with the client of the account.
pub record Requester : Type 0 where
  pub employee_id : String
  pub client_id : String

-- The body of a request for leave.
pub record LeaveForm : Type 0 where
  pub leave_type_id : String
  pub start_date : Day
  pub end_date : Day
  pub requested_minutes : ℕ
  pub reason : Option String

pub data LeaveRequestError : Type 0 where
  invalid_leave_request leave_type_not_found leave_dates_overlap insufficient_leave
        leave_request_not_found leave_balance_target_not_found invalid_leave_balance :
      LeaveRequestError

-- `leaveSchema`, and the dates in order and in one year.
unfoldable pub is_valid_leave : LeaveForm → Bool
is_valid_leave f =
    (leb 1 f.requested_minutes && leb f.requested_minutes (60 * 24 * 31))
    && (day_le f.start_date f.end_date && f.start_date.year == f.end_date.year)

unfoldable pub find_leave_type : Requester → String → List LeaveType → Option LeaveType
find_leave_type c id ts =
    find (λ t. same_text t.id id && (same_text t.client_id c.client_id && t.is_active)) ts

abbrev pub is_active_request : RequestStatus → Bool
is_active_request s = is_pending s || is_approved s

-- The `where` of the request that the new one overlaps.
unfoldable pub is_overlapped : String → Day → Day → LeaveRequest → Bool
is_overlapped employee start last r =
    (same_text r.employee_id employee && is_active_request r.status)
    && (day_le r.start_date last && day_le start r.end_date)

unfoldable pub new_balance : BalanceKey → ℕ → LeaveBalance
new_balance k entitled = record {
  key = k;
  entitled_minutes = entitled;
  used_minutes = 0;
  pending_minutes = pos 0;
}

abbrev pub unchanged : LeaveBalance → LeaveBalance
unchanged b = b

-- The upsert of the balance, whose update is empty.
unfoldable pub ensure_balance : BalanceKey → ℕ → List LeaveBalance → List LeaveBalance
ensure_balance k entitled bs =
    upsert_row (λ b. b.key) same_key k (new_balance k entitled) unchanged bs

unfoldable pub balance_of : BalanceKey → ℕ → List LeaveBalance → LeaveBalance
balance_of k entitled bs = or_else (find_row (λ b. b.key) same_key k bs) (new_balance k entitled)

-- `entitledMinutes - usedMinutes - pendingMinutes`
unfoldable pub available_minutes : LeaveBalance → ℤ
available_minutes b = pos b.entitled_minutes -ℤ pos b.used_minutes -ℤ b.pending_minutes

unfoldable pub add_pending : ℕ → LeaveBalance → LeaveBalance
add_pending m b = record b { pending_minutes = b.pending_minutes +ℤ pos m }

abbrev pub leave_key : Requester → LeaveForm → BalanceKey
leave_key c f = record {
  employee_id = c.employee_id;
  leave_type_id = f.leave_type_id;
  year = f.start_date.year;
}

unfoldable pub new_leave_request : Requester → LeaveForm → String → LeaveRequest
new_leave_request c f id = record {
  id = id;
  client_id = c.client_id;
  employee_id = c.employee_id;
  leave_type_id = f.leave_type_id;
  start_date = f.start_date;
  end_date = f.end_date;
  requested_minutes = f.requested_minutes;
  reason = f.reason;
  status = pending;
  reviewed_by_user_id = none;
  review_note = none;
  reviewed_at = none;
  cancelled_at = none;
}

abbrev pub required {ℓ} : {A : Type ℓ} → Option A → LeaveRequestError → Result LeaveRequestError A
required none e = err e
required (some x) e = ok x

-- The leave type that a valid request names, if it overlaps no other one.
unfoldable pub check_leave : Requester → LeaveForm → LeaveStore → Result LeaveRequestError LeaveType
check_leave c f s = do
  throw_if (not (is_valid_leave f)) invalid_leave_request
  leave_type ← required (find_leave_type c f.leave_type_id s.leave_types) leave_type_not_found
  throw_if (any (is_overlapped c.employee_id f.start_date f.end_date) s.leave_requests)
      leave_dates_overlap
  ok leave_type

abbrev pub ensured : LeaveType → BalanceKey → LeaveStore → LeaveStore
ensured t k s = record s { balances = ensure_balance k t.default_entitlement_minutes s.balances }

abbrev pub lacks_leave : LeaveType → BalanceKey → ℕ → LeaveStore → Bool
lacks_leave t k minutes s =
    ltb_ℤ (available_minutes (balance_of k t.default_entitlement_minutes s.balances)) (pos minutes)

abbrev pub add_leave_request : Requester → LeaveForm → String → LeaveStore → LeaveStore
add_leave_request c f id s = record s {
  balances =
      update_row (λ b. b.key) same_key (leave_key c f) (add_pending f.requested_minutes) s.balances;
  leave_requests = new_leave_request c f id ∷ s.leave_requests;
}

-- `createLeaveRequestV2` as one transaction.
unfoldable pub create_leave_request :
    Requester → LeaveForm → String → LeaveStore → Result LeaveRequestError LeaveStore
create_leave_request c f id s = do
  t ← check_leave c f s
  throw_if (lacks_leave t (leave_key c f) f.requested_minutes s) insufficient_leave
  ok (add_leave_request c f id (ensured t (leave_key c f) s))

abbrev pub create_checked_on_d1 :
    Requester
    → LeaveForm
    → String
    → LeaveStore
    → Result LeaveRequestError LeaveType
    → LeaveStore × Option LeaveRequestError
create_checked_on_d1 c f id s (err e) = (s, some e)
create_checked_on_d1 c f id s (ok t) =
    let s' = ensured t (leave_key c f) s in
    if lacks_leave t (leave_key c f) f.requested_minutes s
    then (s', some insufficient_leave)
    else (add_leave_request c f id s', none)

-- `createWithD1`: the upsert of the balance stays when the request is then refused.
unfoldable pub create_leave_request_on_d1 :
    Requester → LeaveForm → String → LeaveStore → LeaveStore × Option LeaveRequestError
create_leave_request_on_d1 c f id s = create_checked_on_d1 c f id s (check_leave c f s)

unfoldable pub request_key : LeaveRequest → BalanceKey
request_key r = record {
  employee_id = r.employee_id;
  leave_type_id = r.leave_type_id;
  year = r.start_date.year;
}

-- The first read of `cancelLeaveRequestV2`.
unfoldable pub find_own_pending : String → String → List LeaveRequest → Option LeaveRequest
find_own_pending id employee rs =
    find (λ r. same_text r.id id && (same_text r.employee_id employee && is_pending r.status)) rs

unfoldable pub cancel_request : ℕ → LeaveRequest → LeaveRequest
cancel_request now r = record r { status = cancelled; cancelled_at = some now }

unfoldable pub release_pending : ℕ → LeaveBalance → LeaveBalance
release_pending m b = record b { pending_minutes = b.pending_minutes -ℤ pos m }

-- The batch of `cancelLeaveRequestV2` for the request that was read.
unfoldable pub write_cancellation : LeaveRequest → ℕ → LeaveStore → LeaveStore
write_cancellation r now s = record s {
  leave_requests = update_where (λ q. same_text q.id r.id) (cancel_request now) s.leave_requests;
  balances =
      update_row (λ b. b.key) same_key (request_key r) (release_pending r.requested_minutes)
        s.balances;
}

-- `cancelLeaveRequestV2` with nothing between its read and its batch.
unfoldable pub cancel_leave_request :
    String → String → ℕ → LeaveStore → Result LeaveRequestError LeaveStore
cancel_leave_request id employee now s = do
  r ← required (find_own_pending id employee s.leave_requests) leave_request_not_found
  ok (write_cancellation r now s)

abbrev pub set_entitlement : ℕ → LeaveBalance → LeaveBalance
set_entitlement m b = record b { entitled_minutes = m }

abbrev pub is_valid_balance : BalanceKey → ℕ → Bool
is_valid_balance k entitled = (leb 2020 k.year && leb k.year 2100) && leb entitled (60 * 24 * 366)

-- `setLeaveBalanceV2`; the employees and the leave types of the administrator are given.
unfoldable pub set_leave_balance :
    (has_employee has_type : Bool)
    → BalanceKey
    → ℕ
    → LeaveStore
    → Result LeaveRequestError LeaveStore
set_leave_balance has_employee has_type k entitled s = do
  throw_if (not (is_valid_balance k entitled)) invalid_leave_balance
  throw_if (not (has_employee && has_type)) leave_balance_target_not_found
  ok (record s {
    balances =
        upsert_row (λ b. b.key) same_key k (new_balance k entitled) (set_entitlement entitled)
          s.balances;
  })
