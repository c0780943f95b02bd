-- ===== src/Requests.antt =====
-- apps/api/src/controllers/requests-v2.controller.ts: the requests of employees for leave and for
-- corrections of their attendance, and the reviews of them. This file has the rows that both use.
pub mod Leaves
pub mod Parts
pub mod Balances
pub mod Ledger
pub mod Entitlements
pub mod Overlaps
pub mod Machine
pub mod Races
pub mod Plans
pub mod Credits
pub mod Databases
pub mod Corrections
pub mod ClockExceptions
pub mod Reviewing
pub mod Remaining
pub mod Recalculation
pub mod LockedDays
pub mod Awaiting
pub mod Adjustments
pub mod Approved
pub mod Reviews
use employee_attendance.Prelude.{
  ℕ, ◌≡◌, ◌↔◌, refl, ap, ◌==◌, ==_iff, arith, String, same_text, eq_iff, Bool, true, false, ◌&&◌,
  Option, List,
}
use employee_attendance.Prelude.Int.{ℤ}
use employee_attendance.Calendar.{Day, day_eq}
use employee_attendance.Timesheet.{TimesheetState}
use employee_attendance.Timesheet.Codes.{ExceptionCode}
use employee_attendance.PayPeriod.{
  RequestStatus, pending, approved, PayPeriodStatus, locked, exported,
}

-- The decision of a review.
pub data Decision : Type 0 where
  approve_request reject_request : Decision

pub record LeaveType : Type 0 where
  pub id : String
  pub client_id : String
  pub is_paid : Bool
  pub default_entitlement_minutes : ℕ
  pub is_active : Bool

-- The unique key of a balance, by which its row is known here in place of its id.
pub record BalanceKey : Type 0 where
  pub employee_id : String
  pub leave_type_id : String
  pub year : ℕ

-- The minutes that are pending can be decremented below zero; the other ones are never decremented.
pub record LeaveBalance : Type 0 where
  pub key : BalanceKey
  pub entitled_minutes : ℕ
  pub used_minutes : ℕ
  pub pending_minutes : ℤ

pub record LeaveRequest : Type 0 where
  pub id : String
  pub client_id : String
  pub employee_id : String
  pub leave_type_id : String
  pub start_date : Day
  pub end_date : Day
  pub requested_minutes : ℕ
  pub reason : Option String
  pub status : RequestStatus
  pub reviewed_by_user_id : Option String
  pub review_note : Option String
  pub reviewed_at : Option ℕ
  pub cancelled_at : Option ℕ

-- A timesheet is known by the employee and the work date, which are unique together.
pub record DayKey : Type 0 where
  pub employee_id : String
  pub work_date : Day

pub record TimesheetDay : Type 0 where
  pub id : String
  pub client_id : Option String
  pub key : DayKey
  pub state : TimesheetState
  pub first_clock_in_at : Option ℕ
  pub last_clock_out_at : Option ℕ
  pub regular_minutes : ℕ
  pub overtime_minutes : ℕ
  pub break_minutes : ℕ
  pub leave_minutes : ℕ
  pub paid_leave_minutes : ℕ
  pub unpaid_leave_minutes : ℕ
  pub is_absent : Bool
  pub exception_codes : List ExceptionCode
  pub version : ℕ
  pub pay_period_id : Option String

pub record LeaveAllocation : Type 0 where
  pub leave_request_id : String
  pub timesheet_day_id : String
  pub work_date : Day
  pub scheduled_minutes : ℕ
  pub minutes : ℕ
  pub paid_minutes : ℕ
  pub unpaid_minutes : ℕ

-- What leave reads of a pay period.
pub record PeriodDates : Type 0 where
  pub client_id : String
  pub status : PayPeriodStatus
  pub start_date : Day
  pub end_date : Day

-- The tables that leave requests read and write.
pub record LeaveStore : Type 0 where
  pub leave_types : List LeaveType
  pub leave_requests : List LeaveRequest
  pub balances : List LeaveBalance
  pub pay_periods : List PeriodDates
  pub timesheets : List TimesheetDay
  pub allocations : List LeaveAllocation

unfoldable pub same_key : BalanceKey → BalanceKey → Bool
same_key a b =
    same_text a.employee_id b.employee_id
    && (same_text a.leave_type_id b.leave_type_id && a.year == b.year)

unfoldable pub same_day : DayKey → DayKey → Bool
same_day a b = same_text a.employee_id b.employee_id && day_eq a.work_date b.work_date

abbrev pub is_pending : RequestStatus → Bool
is_pending pending = true
is_pending _ = false

abbrev pub is_approved : RequestStatus → Bool
is_approved approved = true
is_approved _ = false

pub same_key_iff : (a b : BalanceKey) → (same_key a b ≡ true) ↔ (a ≡ b)
unfolding same_key
same_key_iff a b =
    let employees = eq_iff a.employee_id b.employee_id in
    let types = eq_iff a.leave_type_id b.leave_type_id in ground (arith)

pub same_day_iff : (a b : DayKey) → (same_day a b ≡ true) ↔ (a ≡ b)
unfolding same_day day_eq
same_day_iff a b = let employees = eq_iff a.employee_id b.employee_id in ground (arith)
