-- ===== src/Lib.antt =====
-- A verification library for the API of the attendance and payroll system, apps/api/src. Employees
-- clock in and out; the events make timesheets; a pay period is reviewed, approved and locked; and the
-- payroll of each employee is calculated from the timesheets, the pay profile and the components.
--
-- The files and the code they are about:
--   Timesheet, CodeSet: services/timesheet-calculator.ts. `calculate_timesheet` folds `step_event` over
--     the sorted events; the exception codes are an enumeration with its alphabetical order.
--   Schedule: services/schedule-metrics.ts, lateness and early departure against a shift.
--   Attendance: controllers/attendance-v2.controller.ts. Store has the rows of one employee and the
--     queries, Action the interactive transaction (`perform_action`), Preflight the state that is
--     loaded on D1 and the batch built from it, Admission the guards of an attempt with
--     services/geofence.ts, and Rejection the attempt with too low an accuracy. The
--     transaction runs under a lock of the employee and the batch under the worker's write lock, so
--     each is one step on the store. Accepted, History and Preflight/Agreement are their proofs.
--   PayPeriod: controllers/payroll-v2.controller.ts and services/payroll-calculation-run.ts. Coverage
--     and Review decide whether a run can be reviewed, Readiness says when, Locking repays the
--     advances, Transition is the request, Exports (with services/payroll-export.ts) what an export
--     reads and marks, and Transition/Machine the pay period as a step relation, in which an export
--     marks the period some time after it has read it, with other requests between.
--     Creation is `createPayPeriodV2`, as a request runs it that no other one interrupts,
--     and Acknowledgement `acknowledgePayrollWarningV2`.
--   Payroll, Statutory: services/payroll-calculator.ts and
--     services/malaysia-statutory-contributions.ts. Days, Earnings, Components and Contributions are
--     the parts of `calculateEmployeePayroll`, and Calculator puts them together.
--   PayrollRun: `calculatePayrollRun` of services/payroll-calculation-run.ts, which gives the rows of
--     each employee to the calculator, and services/malaysia-holidays.ts, the holidays of a state.
--   Calendar: the ISO dates as triples, with the loops over days of several services.
--   Leave: services/leave-allocation.ts. Sessions: services/auth-sessions.ts and middleware/auth.ts;
--     Families, Databases and Replay are its proofs.
--   Requests: controllers/requests-v2.controller.ts. Leaves and Reviews are the requests for leave, with
--     the balances and the timesheets that an approval credits; Corrections, ClockExceptions and
--     Reviewing are the corrections of timesheets. Balances, Ledger, Entitlements, Overlaps and Machine
--     are about the balances and the dates of the requests, Races about a review between the read and
--     the batch of a cancellation, Plans and Credits about what an approval credits, Databases about
--     the review on D1, and Remaining, Recalculation, LockedDays, Awaiting, Adjustments and Approved about the
--     corrections.
--   Sweep: services/attendance-exceptions.ts, the absences and the missing clock-outs. Sweep/Holidays sets
--     the public holidays of the sweep, of the payroll and of the planning of leave side by side.
--   Profiles: controllers/payroll-foundation.controller.ts, the dated profiles of pay and of the statutory
--     categories, which run one transaction; its content is the parameter `A`. Profiles/History is about the former
--     profiles. Profiles/Assignments: controllers/workforce-v2.controller.ts, the shifts that are
--     assigned to an employee; Profiles/Priors and Profiles/Apart are about the
--     dates on which they are in effect.
--   PayItems: controllers/payroll-foundation.controller.ts, the pay items and their assignments.
--     PayItems/Advances follows an advance from its assignment to the calculation.
--   Mfa: services/mfa.ts, the text of a secret in base 32.
--   Webhook: services/webhook-queue.ts, each message processed as one step.
--   Permissions: services/platform-permissions.ts. LoginLimit: middleware/login-rate-limit.ts.
--   Prelude: shared names, lists, the best element of a list, integers and results. Tests: concrete inputs.
--
-- How the code is read: amounts, minutes and instants are natural numbers, where the code keeps them
-- whole and not negative; differences stop at zero where the code takes a maximum with zero. The
-- fractions of a sen in the payroll are doubles, whose type and operations are the parameter `Doubles`
-- with no law assumed, and `fractions` is an exact instance. Math.ceil and Math.round of quotients of
-- whole numbers are integer divisions. The ids, tokens, hashes and instants that an operation draws are
-- arguments of it, and so is the time zone. The loop over dates has fuel, one round for each day of
-- the range, which is enough for valid dates.
--
-- What a query selects and in which order is taken as given for PayrollRun and for the planning of
-- leave; elsewhere the filters and orders are functions of the rows. A leave balance and a timesheet are
-- known by their unique keys in place of their ids.
--
-- Not modelled: parsing of requests and responses, the other controllers, the files and jobs of exports, mail and the
-- sending of webhooks, the database itself, and the web client.
pub mod Prelude
pub mod CodeSet
pub mod Calendar
pub mod Statutory
pub mod Timesheet
pub mod Payroll
pub mod PayPeriod
pub mod Schedule
pub mod Attendance
pub mod Leave
pub mod Sessions
pub mod Webhook
pub mod PayrollRun
pub mod Requests
pub mod Permissions
pub mod LoginLimit
pub mod Mfa
pub mod Sweep
pub mod Profiles
pub mod PayItems
pub mod Tests
