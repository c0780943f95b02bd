-- ===== src/Tests/Profiles.antt =====
-- A pay profile of January that one of July follows, and shifts of the same dates.
use employee_attendance.Prelude.{ℕ, ◌≡◌, refl, true, none, some, [], ◌∷◌, arith}
use employee_attendance.Prelude.Result.{ok}
use employee_attendance.Calendar.{Day, day_le, day_eq, is_leap, month_length}
use employee_attendance.Calendar.Ordinals.{IsDate}
use employee_attendance.Profiles.{Profile, previous_day, latest_profile, end_latest, create_profile}
use employee_attendance.Profiles.History.{IsHistory, create_profile_lem}
use employee_attendance.Profiles.Assignments.{
  create_schedule_assignment, assign_schedule, end_prior,
}
use employee_attendance.Profiles.Apart.{IsApart, create_schedule_assignment-IsApart}

abbrev january : Day
january = record { year = 2026; month = 1; day = 1 }

abbrev july : Day
july = record { year = 2026; month = 7; day = 1 }

abbrev first_rate : Profile ℕ
first_rate = record { effective_from = january; effective_to = none; content = 300_000 }

abbrev first_half : Profile ℕ
first_half = record first_rate { effective_to = some (record { year = 2026; month = 6; day = 30 }) }

abbrev second_rate : Profile ℕ
second_rate = record { effective_from = july; effective_to = none; content = 350_000 }

raising_succeeds :
    create_profile july 350_000 (first_rate ∷ []) ≡ ok (second_rate ∷ first_half ∷ [])
unfolding create_profile latest_profile end_latest previous_day day_le day_eq month_length
raising_succeeds = refl

july-IsDate : IsDate july
unfolding month_length is_leap
july-IsDate = record {
  year_pos = omega arith;
  month_pos = omega arith;
  month_le = omega arith;
  day_pos = omega arith;
  day_le_length = omega arith;
}

create_profile_lem_example : IsHistory (second_rate ∷ first_half ∷ [])
create_profile_lem_example =
    (create_profile_lem july 350_000 (first_rate ∷ []) (second_rate ∷ first_half ∷ []) july-IsDate
      (omega arith) (tt, tt) raising_succeeds).0

assigning_succeeds :
    create_schedule_assignment true july none 350_000 (first_rate ∷ [])
    ≡ ok (second_rate ∷ first_half ∷ [])
unfolding create_schedule_assignment assign_schedule end_prior latest_profile previous_day day_le
    day_eq month_length
assigning_succeeds = refl

first_rate-IsApart : IsApart (first_rate ∷ [])
first_rate-IsApart date = ground arith

create_schedule_assignment-IsApart_example : IsApart (second_rate ∷ first_half ∷ [])
create_schedule_assignment-IsApart_example =
    create_schedule_assignment-IsApart true july none 350_000 (first_rate ∷ [])
      (second_rate ∷ first_half ∷ []) july-IsDate (omega arith) first_rate-IsApart
      assigning_succeeds
