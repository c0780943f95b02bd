-- ===== src/Payroll.antt =====
-- apps/api/src/services/payroll-calculator.ts: an employee's pay for a period. The data here; the
-- calculation and its proofs are the children.
pub mod Doubles
pub mod Warnings
pub mod Lines
pub mod Days
pub mod Earnings
pub mod Components
pub mod Contributions
pub mod Calculator
pub mod Limits
use employee_attendance.Prelude.{ℕ, String, Bool, Option}
use employee_attendance.Calendar.{Day}
use employee_attendance.Timesheet.{TimesheetState}
use employee_attendance.Statutory.{EpfContributionCategory, SocsoContributionCategory}

pub data PayType : Type 0 where
  monthly daily hourly : PayType

pub data PayrollJurisdiction : Type 0 where
  peninsular_labuan sabah sarawak : PayrollJurisdiction

pub data PayrollComponentType : Type 0 where
  earning deduction advance_repayment : PayrollComponentType

pub data PayrollCalculationBasis : Type 0 where
  fixed_amount per_day per_hour percentage : PayrollCalculationBasis

pub record PayrollDayInput : Type 0 where
  pub work_date : Day
  pub state : TimesheetState
  pub regular_minutes : ℕ
  pub overtime_minutes : ℕ
  pub paid_leave_minutes : ℕ
  pub unpaid_leave_minutes : ℕ
  pub is_absent : Bool
  pub is_rest_day : Bool
  pub is_public_holiday : Bool

pub record PayProfileInput : Type 0 where
  pub id : String
  pub pay_type : PayType
  pub base_rate_sen : ℕ
  pub normal_daily_minutes : ℕ
  pub normal_weekly_minutes : ℕ
  pub overtime_eligible : Bool
  pub effective_from : Day
  pub effective_to : Option Day

-- An eligibility that is absent counts as true.
pub record PayrollComponent : Type 0 where
  pub code : String
  pub name : String
  pub kind : PayrollComponentType
  pub calculation_basis : PayrollCalculationBasis
  pub epf_eligible : Option Bool
  pub socso_eligible : Option Bool
  pub eis_eligible : Option Bool

pub record PayComponentInput : Type 0 where
  pub id : String
  pub amount_sen : ℕ
  pub percentage_basis_points : Option ℕ
  pub outstanding_amount_sen : Option ℕ
  pub effective_from : Day
  pub effective_to : Option Day
  pub payroll_component : PayrollComponent

pub record StatutoryProfileInput : Type 0 where
  pub id : String
  pub epf_category : EpfContributionCategory
  pub socso_category : SocsoContributionCategory
  pub eis_eligible : Bool
  pub effective_from : Day
  pub effective_to : Option Day

pub data PayrollLineDirection : Type 0 where
  earning deduction employer_contribution : PayrollLineDirection

pub data PayrollLineCategory : Type 0 where
  base_pay regular_pay overtime rest_day public_holiday paid_leave unpaid_leave allowance deduction
        advance_repayment epf socso eis :
      PayrollLineCategory
