-- ===== src/Profiles.antt =====
-- apps/api/src/controllers/payroll-foundation.controller.ts: the pay profiles and the statutory profiles
-- of an employee, each with the dates on which it is in effect. `createPayProfileV2` and
-- `createEmployeeStatutoryProfileV2` run the same transaction, under a lock of the employee; a profile
-- is known by the date on which it starts, which is unique for an employee.
pub mod History
pub mod Assignments
pub mod Priors
pub mod Apart
use employee_attendance.Prelude.{
  ℕ, ◌+◌, ◌-◌, leb, ltb, Bool, true, false, ◌&&◌, Option, none, some, List, [], ◌∷◌, find,
  if◌then◌else◌, update_where, change_found,
}
use employee_attendance.Prelude.Result.{Result, ok, err, ◌>>=◌, ◌>>◌, throw_if}
use employee_attendance.Calendar.{Day, day_le, day_eq, month_length, ends_after}

-- `setUTCDate(getUTCDate() - 1)`, as `previousIsoDate` does it.
unfoldable pub previous_day : Day → Day
previous_day d =
    if ltb 1 d.day
    then record d { day = d.day - 1 }
    else if ltb 1 d.month
    then record d { month = d.month - 1; day = month_length d.year (d.month - 1) }
    else record { year = d.year - 1; month = 12; day = 31 }

pub data ProfileError : Type 0 where
  profile_date_conflict : ProfileError

-- A profile of an employee; the content is the rate and the hours, or the categories.
pub record Profile (A : Type 0) : Type 0 where
  pub effective_from : Day
  pub effective_to : Option Day
  pub content : A

module _ {A : Type 0} where
  abbrev later_profile : Profile A → Option (Profile A) → Option (Profile A)
  later_profile p none = some p
  later_profile p (some q) = if day_le q.effective_from p.effective_from then some p else some q

  -- `findFirst({ orderBy: { effectiveFrom: "desc" } })`
  unfoldable pub latest_profile : List (Profile A) → Option (Profile A)
  latest_profile [] = none
  latest_profile (p ∷ ps) = later_profile p (latest_profile ps)

  abbrev pub starts_after : Option (Profile A) → Day → Bool
  starts_after none from = false
  starts_after (some p) from = day_le from p.effective_from

  abbrev pub end_profile : Day → Profile A → Profile A
  end_profile from p = record p { effective_to = some (previous_day from) }

  -- The update of the latest profile, if it is in effect on the day or later.
  unfoldable pub end_latest : Option (Profile A) → Day → List (Profile A) → List (Profile A)
  end_latest none from ps = ps
  end_latest (some p) from ps =
      if ends_after p.effective_to from
      then update_where (λ q. day_eq q.effective_from p.effective_from) (end_profile from) ps
      else ps

  -- The transaction of `createPayProfileV2` and of `createEmployeeStatutoryProfileV2`.
  unfoldable pub create_profile :
      Day → A → List (Profile A) → Result ProfileError (List (Profile A))
  create_profile from content ps = do
    let latest = latest_profile ps
    throw_if (starts_after latest from) profile_date_conflict
    ok (
        record { effective_from = from; effective_to = none; content = content }
        ∷ end_latest latest from ps)

  -- `effectiveFrom: { lte: date }, OR: [{ effectiveTo: null }, { effectiveTo: { gte: date } }]`
  abbrev pub is_in_effect : Day → Profile A → Bool
  is_in_effect date p = day_le p.effective_from date && ends_after p.effective_to date

  abbrev pub content_on : Day → List (Profile A) → Option A
  content_on date ps = change_found (λ p. p.content) (find (is_in_effect date) ps)
