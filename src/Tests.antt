-- ===== src/Tests.antt =====
-- The theorems at concrete inputs.
mod PayPeriods
mod Payrolls
mod Attendances
mod Services
mod Requests
mod Corrections
mod Sweeps
mod Profiles
