-- ===== src/Profiles/Apart.antt =====
-- workforce-v2.controller.ts: an employee has one shift at most on each date.
use employee_attendance.Prelude.{
  ℕ, suc, ◌≤◌, ◌≡◌, refl, sym, ap, ◌∙◌, Bool, true, false, not, ◌&&◌, Option, none, some, List, [],
  ◌∷◌, any, filter, sum_by, arith, if◌then◌else◌, update_where, Bool-cases, inl, inr, &&_elim,
}
use mathlib.Core.Path.{subst}
use mathlib.Core.Bool.{true≢false}
use employee_attendance.Prelude.Result.{ok, throw_if-eq-ok, ok-injective}
use employee_attendance.Calendar.{Day, day_le, day_eq, ends_after}
use employee_attendance.Calendar.Ordinals.{IsDate}
use employee_attendance.Profiles.{previous_day, Profile, latest_profile, end_profile, is_in_effect}
use employee_attendance.Profiles.History.{previous_day_before, day_le_total}
use employee_attendance.Profiles.Priors.{counted, none_prior}
use employee_attendance.Profiles.Assignments.{
  starts_in, is_prior, end_prior, assign_schedule, create_schedule_assignment, ends_early,
  invalid_assignment, assignment_target_not_found, schedule_assignment_overlap,
}

lasts_longer :
    (from date : Day)
    → day_le from (previous_day from) ≡ false
    → day_le date (previous_day from) ≡ true
    → (o : Option Day) → ends_after o from ≡ true
    → ends_after o date ≡ true
unfolding day_le
lasts_longer from date before ends none h = refl
lasts_longer from date before ends (some e) h = ground (arith)

day_le_trans : (a b c : Day) → day_le a b ≡ true → day_le b c ≡ true → day_le a c ≡ true
unfolding day_le
day_le_trans a b c h k = ground (arith)

-- What is in effect on a date of the new assignment and does not start in it starts before it and lasts
-- until its first day.
prior_of :
    (from date : Day) (last : Option Day) (start : Day) (to : Option Day)
    → day_le from date ≡ true
    → ends_after last date ≡ true
    → (day_le from start && ends_after last start) ≡ false
    → (day_le start date && ends_after to date) ≡ true
    → (not (day_le from start) && ends_after to from) ≡ true
prior_of from date last start to starts ends apart h =
    let (begun, lasting) = &&_elim (day_le start date) (ends_after to date) h in
    let outer = ends_sooner last start date begun ends in
    let inner = ends_sooner to from date starts lasting in ground (arith)
  where
    ends_sooner :
        (o : Option Day) (a b : Day)
        → day_le a b ≡ true
        → ends_after o b ≡ true
        → ends_after o a ≡ true
    ends_sooner none a b h k = refl
    ends_sooner (some e) a b h k = day_le_trans a b e h k

module _ {A : Type 0} where
  count_step :
      (c test : Profile A → Bool) (f : Profile A → Profile A) (q : Profile A)
      (ps : List (Profile A))
      → test q ≡ true
      → (c (f q) ≡ true → c q ≡ true)
      → counted c (update_where test f ps) ≤ counted c ps
      → counted c (update_where test f (q ∷ ps)) ≤ counted c (q ∷ ps)
  count_step c test f q ps here kept less =
      let head : (if test q then f q else q) ≡ f q = ap (λ b. if b then f q else q) here in
      let first = ap {B = ℕ} (λ x. if c x then 1 else 0) head in ground (arith)

  count_same :
      (c test : Profile A → Bool) (f : Profile A → Profile A) (q : Profile A)
      (ps : List (Profile A))
      → test q ≡ false
      → counted c (update_where test f ps) ≤ counted c ps
      → counted c (update_where test f (q ∷ ps)) ≤ counted c (q ∷ ps)
  count_same c test f q ps other less =
      let head : (if test q then f q else q) ≡ q = ap (λ b. if b then f q else q) other in
      let first = ap {B = ℕ} (λ x. if c x then 1 else 0) head in ground (arith)

  -- No date has two assignments in effect.
  abbrev pub IsApart : List (Profile A) → Type 0
  IsApart ps = (date : Day) → sum_by (λ p. if is_in_effect date p then 1 else 0) ps ≤ 1

  -- A row that is updated starts as before and is in effect on no new date.
  ended_in_effect :
      (from date : Day)
      → day_le from (previous_day from) ≡ false
      → (q : Profile A) → is_prior from q ≡ true
      → is_in_effect date (end_profile from q) ≡ true
      → is_in_effect date q ≡ true
  ended_in_effect from date before q prior h =
      let (starts, ends) =
        &&_elim (day_le q.effective_from date) (day_le date (previous_day from)) h in
      let (_, lasts) =
        &&_elim (not (day_le from q.effective_from)) (ends_after q.effective_to from) prior in
      let after = lasts_longer from date before ends q.effective_to lasts in ground (arith)

  no_more_in_effect :
      (from start date : Day)
      → day_le from (previous_day from) ≡ false
      → (ps : List (Profile A))
      → counted (is_in_effect date) (
          update_where
            (λ q. is_prior from q && day_eq q.effective_from start)
            (end_profile from)
            ps)
        ≤ counted (is_in_effect date) ps
  no_more_in_effect from start date before [] = omega arith
  no_more_in_effect from start date before (q ∷ ps) =
      let ih = no_more_in_effect from start date before ps in
      elim (Bool-cases (is_prior from q && day_eq q.effective_from start)) [
        | inl here ↦
            let (prior, _) = &&_elim (is_prior from q) (day_eq q.effective_from start) here in
            elim (Bool-cases (is_in_effect date (end_profile from q))) [
              | inl still ↦
                  let was = ended_in_effect from date before q prior still in
                  count_step (is_in_effect date)
                    (λ t. is_prior from t && day_eq t.effective_from start) (end_profile from) q ps
                    here (λ _. was) ih
              | inr over ↦
                  count_step (is_in_effect date)
                    (λ t. is_prior from t && day_eq t.effective_from start) (end_profile from) q ps
                    here (λ h. absurd (true≢false (sym h ∙ over))) ih
            ]
        | inr other ↦
            count_same (is_in_effect date) (λ t. is_prior from t && day_eq t.effective_from start)
              (end_profile from) q ps other ih
      ]

  start_kept :
      (from start f : Day) (last : Option Day) (ps : List (Profile A))
      → any (starts_in f last) (
          update_where
            (λ q. is_prior from q && day_eq q.effective_from start)
            (end_profile from)
            ps)
        ≡ any (starts_in f last) ps
  start_kept from start f last [] = refl
  start_kept from start f last (q ∷ ps) = ground (arith, start_kept from start f last ps)

  -- On the dates of the new assignment the others are in effect only if they last from before it.
  in_effect_prior :
      (from date : Day) (last : Option Day) (ps : List (Profile A))
      → day_le from date ≡ true
      → ends_after last date ≡ true
      → any (starts_in from last) ps ≡ false
      → counted (is_in_effect date) ps ≤ counted (is_prior from) ps
  in_effect_prior from date last [] starts ends h = omega arith
  in_effect_prior from date last (q ∷ ps) starts ends h =
      let prior = prior_of from date last q.effective_from q.effective_to starts ends in
      ground (arith, in_effect_prior from date last ps starts ends)

  prior_in_effect :
      (from : Day) (ps : List (Profile A))
      → counted (is_prior from) ps ≤ counted (is_in_effect from) ps
  prior_in_effect from [] = omega arith
  prior_in_effect from (q ∷ ps) =
      let total = day_le_total from q.effective_from in ground (arith, prior_in_effect from ps)

  end_prior-elim :
      (P : List (Profile A) → Type 0) (o : Option (Profile A)) (from : Day) (ps : List (Profile A))
      → P ps
      → ((start : Day)
          → P (
              update_where
                (λ q. is_prior from q && day_eq q.effective_from start)
                (end_profile from)
                ps))
      → P (end_prior o from ps)
  unfolding end_prior
  end_prior-elim P none from ps same updated = same
  end_prior-elim P (some p) from ps same updated = updated p.effective_from

  -- On a date of the new assignment no other one is in effect, once the prior one has been ended.
  nothing_else :
      (from date : Day) (last : Option Day) (o : Option (Profile A)) (ps : List (Profile A))
      → day_le from date ≡ true
      → ends_after last date ≡ true
      → any (starts_in from last) ps ≡ false
      → counted (is_prior from) (end_prior o from ps) ≡ 0
      → counted (is_in_effect date) (end_prior o from ps) ≡ 0
  nothing_else from date last o ps starts ends free none_left =
      let still_free =
        end_prior-elim (λ qs. any (starts_in from last) qs ≡ false) o from ps free
          (λ start. start_kept from start from last ps ∙ free) in
      let less = in_effect_prior from date last (end_prior o from ps) starts ends still_free in
      omega arith

  assign_schedule-IsApart :
      (from : Day) (last : Option Day) (content : A) (ps ps' : List (Profile A))
      → day_le from (previous_day from) ≡ false
      → IsApart ps
      → assign_schedule from last content ps ≡ ok ps'
      → IsApart ps'
  unfolding assign_schedule
  assign_schedule-IsApart from last content ps ps' before apart done =
      let (free, written) =
        throw_if-eq-ok (any (starts_in from last) ps) schedule_assignment_overlap _ done in
      let o = latest_profile (filter (is_prior from) ps) in
      subst IsApart (ok-injective _ _ written) λ date.
        elim (Bool-cases (day_le from date && ends_after last date)) [
          | inl on ↦
              let (starts, ends) = &&_elim (day_le from date) (ends_after last date) on in
              let one = prior_in_effect from ps in
              let today = apart from in
              let none_left = none_prior from before ps (omega arith) in
              let others = nothing_else from date last o ps starts ends free none_left in
              ground (arith)
          | inr off ↦
              let fewer =
                end_prior-elim
                  (λ qs. counted (is_in_effect date) qs ≤ counted (is_in_effect date) ps) o from ps
                  (omega arith) (λ start. no_more_in_effect from start date before ps) in
              let one = apart date in ground (arith)
        ]

  -- If no date has two assignments of the employee in effect, then so it is after one has been created
  -- from a date after year 1.
  pub create_schedule_assignment-IsApart :
      (has_targets : Bool) (from : Day) (last : Option Day) (content : A)
      (ps ps' : List (Profile A))
      → IsDate from
      → suc 1 ≤ from.year
      → IsApart ps
      → create_schedule_assignment has_targets from last content ps ≡ ok ps'
      → IsApart ps'
  unfolding create_schedule_assignment
  create_schedule_assignment-IsApart has_targets from last content ps ps' v later apart done =
      let (_, known) = throw_if-eq-ok (ends_early from last) invalid_assignment _ done in
      let (_, assigned) = throw_if-eq-ok (not has_targets) assignment_target_not_found _ known in
      assign_schedule-IsApart from last content ps ps' (previous_day_before from v later) apart
        assigned
