-- ===== src/Profiles/Assignments.antt =====
-- apps/api/src/controllers/workforce-v2.controller.ts: the shifts that are assigned to an employee, each
-- with the dates on which it is in effect (`createScheduleAssignmentV2`). The content is the shift
-- template; the employee and the template are those that the administrator may assign.
use employee_attendance.Prelude.{
  Bool, false, not, ◌&&◌, Option, none, some, List, ◌∷◌, any, filter, update_where,
}
use employee_attendance.Prelude.Result.{Result, ok, ◌>>◌, throw_if}
use employee_attendance.Calendar.{Day, day_le, day_eq, ends_after}
use employee_attendance.Profiles.{Profile, latest_profile, end_profile}

pub data AssignmentError : Type 0 where
  invalid_assignment assignment_target_not_found schedule_assignment_overlap : AssignmentError

abbrev pub ends_early : Day → Option Day → Bool
ends_early from none = false
ends_early from (some last) = not (day_le from last)

module _ {A : Type 0} where
  -- `effectiveFrom: { gte: effectiveFrom, lte: effectiveTo ?? "9999-12-31" }`; no date is later than that.
  abbrev pub starts_in : Day → Option Day → Profile A → Bool
  starts_in from last q = day_le from q.effective_from && ends_after last q.effective_from

  -- The `where` of the assignment before, which is then in effect on the day.
  abbrev pub is_prior : Day → Profile A → Bool
  is_prior from q = not (day_le from q.effective_from) && ends_after q.effective_to from

  -- The update of the prior assignment, which is known by its start: that is unique for an employee.
  unfoldable pub end_prior : Option (Profile A) → Day → List (Profile A) → List (Profile A)
  end_prior none from ps = ps
  end_prior (some p) from ps =
      update_where (λ q. is_prior from q && day_eq q.effective_from p.effective_from)
        (end_profile from) ps

  -- The transaction of `createScheduleAssignmentV2`.
  unfoldable pub assign_schedule :
      Day → Option Day → A → List (Profile A) → Result AssignmentError (List (Profile A))
  assign_schedule from last content ps = do
    throw_if (any (starts_in from last) ps) schedule_assignment_overlap
    ok (
        record { effective_from = from; effective_to = last; content = content }
        ∷ end_prior (latest_profile (filter (is_prior from) ps)) from ps)

  -- `createScheduleAssignmentV2`
  unfoldable pub create_schedule_assignment :
      Bool → Day → Option Day → A → List (Profile A) → Result AssignmentError (List (Profile A))
  create_schedule_assignment has_targets from last content ps = do
    throw_if (ends_early from last) invalid_assignment
    throw_if (not has_targets) assignment_target_not_found
    assign_schedule from last content ps
