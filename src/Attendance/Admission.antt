-- ===== src/Attendance/Admission.antt =====
-- What a clock attempt must pass before the action: the guards of `performAction` in
-- attendance-v2.controller.ts, and apps/api/src/services/geofence.ts. Distances and accuracies are
-- doubles: their type, their comparison and the distance on the globe are a parameter.
use employee_attendance.Prelude.{
  ◌≡◌, first_best, String, Bool, true, false, not, Option, none, some, List, if◌then◌else◌,
}
use employee_attendance.Prelude.Result.{Result, ok, err, ◌>>◌, throw_if}
use employee_attendance.Timesheet.{AttendanceEventType, clock_in, clock_out, break_start, break_end}

pub record Globe : Type 1 where
  pub Meters : Type 0
  pub Position : Type 0
  -- `a <= b`
  pub at_most : Meters → Meters → Bool
  pub distance : Position → Position → Meters

pub data AdmissionError : Type 0 where
  employee_required employment_inactive clock_exception_pending gps_accuracy_too_low
        outside_worksite :
      AdmissionError

-- The kind of a pending request of the employee, the latest one.
pub data PendingRequest : Type 0 where
  gps_clock_exception : AttendanceEventType → PendingRequest
  other_request : PendingRequest

abbrev same_type : AttendanceEventType → AttendanceEventType → Bool
same_type clock_in clock_in = true
same_type clock_out clock_out = true
same_type break_start break_start = true
same_type break_end break_end = true
same_type _ _ = false

unfoldable pub is_awaited : Option PendingRequest → AttendanceEventType → Bool
is_awaited (some (gps_clock_exception action)) requested = same_type action requested
is_awaited _ requested = false

-- An employee with whether the account has an organization, and whether the employment is active.
pub record Applicant : Type 0 where
  pub has_client : Bool
  pub is_active : Bool

abbrev belongs : Option Applicant → Bool
belongs none = false
belongs (some e) = e.has_client

abbrev employed : Option Applicant → Bool
employed none = false
employed (some e) = e.is_active

-- An employee of an organization whose employment is active.
abbrev pub IsEmployed : Option Applicant → Type 0
IsEmployed e = (a : Applicant) × (e ≡ some a) × (a.has_client ≡ true) × (a.is_active ≡ true)

module _ (globe : Globe) where
  open globe use {Meters, Position, at_most, distance}

  pub record Worksite : Type 0 where
    pub id : String
    pub position : Position
    pub radius : Meters

  -- No farther than the other worksite.
  abbrev pub is_near : Position → Worksite → Worksite → Bool
  is_near here w v = at_most (distance here w.position) (distance here v.position)

  -- The first of the worksites in the order of their distance.
  unfoldable pub nearest : Position → List Worksite → Option Worksite
  nearest here ws = first_best (is_near here) ws

  abbrev accepted : Position → Option Worksite → Result AdmissionError Worksite
  accepted here none = err outside_worksite
  accepted here (some w) =
      if at_most (distance here w.position) w.radius then ok w else err outside_worksite

  -- `validateWorksiteLocations`, and the worksite that it accepts.
  unfoldable pub validate_worksite_locations :
      Position → List Worksite → Result AdmissionError Worksite
  validate_worksite_locations here ws = accepted here (nearest here ws)

  abbrev accurate : Option Meters → Meters → Bool
  accurate none accuracy = true
  accurate (some maximum) accuracy = at_most accuracy maximum

  -- The guards, in order; the policy is that of the organization, if it has one.
  unfoldable pub admit :
      Option Applicant
      → Option PendingRequest
      → AttendanceEventType
      → Option Meters
      → Meters
      → Position
      → List Worksite
      → Result AdmissionError Worksite
  admit e pending requested maximum accuracy here ws = do
    throw_if (not (belongs e)) employee_required
    throw_if (not (employed e)) employment_inactive
    throw_if (is_awaited pending requested) clock_exception_pending
    throw_if (not (accurate maximum accuracy)) gps_accuracy_too_low
    validate_worksite_locations here ws

  -- The position is as accurate as the maximum asks, if there is one.
  abbrev pub IsAccurate : Option Meters → Meters → Type 0
  IsAccurate maximum accuracy = (m : Meters) → maximum ≡ some m → at_most accuracy m ≡ true
