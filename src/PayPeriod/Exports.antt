-- ===== src/PayPeriod/Exports.antt =====
-- What an export does with the pay period: payroll-v2.controller.ts (createPayrollExportV2 and
-- downloadPayPeriodExportV2) and apps/api/src/services/payroll-export.ts. The files are not modelled.
use employee_attendance.Prelude.{Bool, true, false, not, ◌&&◌, Option, none, some, find}
use employee_attendance.Prelude.Result.{Result, ok, err, ◌>>◌, throw_if}
use employee_attendance.PayPeriod.{
  Organization, PayPeriod, PayPeriodStatus, locked, exported, CalculationRun,
}
use employee_attendance.PayPeriod.Locking.{is_locked_run}
use employee_attendance.PayPeriod.Transition.{is_run}

pub data ExportError : Type 0 where
  pay_period_not_locked payroll_calculation_required : ExportError

-- `status: { in: [LOCKED, EXPORTED] }`
abbrev pub is_exportable : PayPeriodStatus → Bool
is_exportable locked = true
is_exportable exported = true
is_exportable _ = false

-- `createPayrollExportV2`: the period of the job that is queued.
unfoldable pub request_export : Organization → Result ExportError PayPeriod
request_export o = do
  throw_if (not (is_exportable o.period.status)) pay_period_not_locked
  ok o.period

-- The approved run, if it is locked.
abbrev approved_run : Organization → Option CalculationRun
approved_run o =
    find (λ run. is_run o.period.approved_calculation_run_id run.id && is_locked_run run.status)
      o.runs

abbrev run_or_error : Option CalculationRun → Result ExportError CalculationRun
run_or_error none = err payroll_calculation_required
run_or_error (some run) = ok run

-- `generateDirectPayrollExport`: the run whose rows make the file.
unfoldable pub generate_direct_export : Organization → Result ExportError CalculationRun
generate_direct_export o = do
  throw_if (not (is_exportable o.period.status)) pay_period_not_locked
  run_or_error (approved_run o)

-- The update of the period when the file is there, in `downloadPayPeriodExportV2` and
-- `processPayrollExport`.
unfoldable pub mark_exported : Organization → Organization
mark_exported o = record o { period = record o.period { status = exported } }
