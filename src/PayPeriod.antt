-- ===== src/PayPeriod.antt =====
-- The life of a pay period: apps/api/src/controllers/payroll-v2.controller.ts (transitionPayPeriodV2)
-- with the checks and the locking of apps/api/src/services/payroll-calculation-run.ts. The state is
-- what these read and write of one organization; the database's queries are functions of it, and a
-- transaction returns the new state or the error that it throws.
pub mod Coverage
pub mod Review
pub mod Readiness
pub mod Locking
pub mod Exports
pub mod Transition
pub mod Creation
pub mod Acknowledgement
use employee_attendance.Prelude.{ℕ, String, Bool, Option, List}
use employee_attendance.Calendar.{Day}
use employee_attendance.Timesheet.{TimesheetState}

pub data PayPeriodStatus : Type 0 where
  draft reviewed approved locked exported : PayPeriodStatus

pub data RequestStatus : Type 0 where
  pending approved rejected cancelled : RequestStatus

pub data TransitionAction : Type 0 where
  review approve lock reopen : TransitionAction

pub record PayPeriod : Type 0 where
  pub id : String
  pub start_date : Day
  pub end_date : Day
  pub status : PayPeriodStatus
  pub reviewed_at : Option ℕ
  pub reviewed_by_user_id : Option String
  pub reviewed_calculation_run_id : Option String
  pub approved_at : Option ℕ
  pub approved_by_user_id : Option String
  pub approved_calculation_run_id : Option String
  pub locked_at : Option ℕ
  pub locked_by_user_id : Option String

pub record TimesheetDay : Type 0 where
  pub employee_id : String
  pub work_date : Day
  pub state : TimesheetState
  pub approved_at : Option ℕ
  pub locked_at : Option ℕ
  pub pay_period_id : Option String

-- A correction, with the work date of its timesheet.
pub record AttendanceCorrection : Type 0 where
  pub status : RequestStatus
  pub work_date : Day

pub record LeaveRequest : Type 0 where
  pub status : RequestStatus
  pub start_date : Day
  pub end_date : Day

pub record Employee : Type 0 where
  pub id : String
  pub join_date : Option Day
  pub termination_date : Option Day

-- A line of an advance's repayment, by the component that it repays.
pub record Repayment : Type 0 where
  pub source_component_assignment_id : String
  pub amount_sen : ℕ

pub record CalculationResult : Type 0 where
  pub id : String
  pub employee_id : String
  pub warnings : List String
  pub blocking_warnings : List String
  pub acknowledged : List String
  pub repayments : List Repayment

pub data CalculationStatus : Type 0 where
  draft locked : CalculationStatus

pub record CalculationRun : Type 0 where
  pub id : String
  pub version : ℕ
  pub status : CalculationStatus
  pub locked_at : Option ℕ
  pub expected_employee_count : ℕ
  pub blocking_warning_count : ℕ
  pub results : List CalculationResult

-- A pay component of an employee, with what is outstanding of an advance.
pub record PayComponent : Type 0 where
  pub id : String
  pub outstanding_amount_sen : Option ℕ

-- The employees are those with the role of an employee in the organization, and the runs those of
-- the pay period.
pub record Organization : Type 0 where
  pub period : PayPeriod
  pub timesheets : List TimesheetDay
  pub corrections : List AttendanceCorrection
  pub leave_requests : List LeaveRequest
  pub employees : List Employee
  pub runs : List CalculationRun
  pub components : List PayComponent

-- The errors that the transaction throws.
pub data PayrollError : Type 0 where
  invalid_pay_period_transition payroll_calculation_required payroll_calculation_changed
        advance_balance_changed :
      PayrollError
  unresolved : (timesheets corrections leave : ℕ) → PayrollError
  calculation_incomplete : (expected calculated missing unexpected : ℕ) → PayrollError
  calculation_blocked : ℕ → PayrollError
  warnings_unacknowledged : ℕ → PayrollError
