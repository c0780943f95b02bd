-- ===== src/Requests/Recalculation.antt =====
-- requests-v2.controller.ts: what `correctedTimesheet` makes of a correction.
use employee_attendance.Prelude.{
  ℕ, ◌+◌, ◌-◌, ◌/◌, ◌≤◌, ◌≡◌, Option, none, some, min, is_some, ap, sym, ◌↔◌, refl, ◌∙◌, true,
  false, List, [], ◌∷◌, arith,
}
use mathlib.Core.Path.{subst}
use employee_attendance.CodeSet.{
  has_code, has_code-sorted_codes, add_code, is_empty, set_of, sorted_codes, IsSorted, IsCodeSet,
  add_code-IsCodeSet, sorted_codes-IsSorted, is_empty-sorted_codes,
}
use employee_attendance.Requests.Remaining.{
  IsLeft, missing_iff, has_code-set_of, remaining_codes_iff,
}
use employee_attendance.Timesheet.{open_day, complete}
use employee_attendance.Timesheet.Codes.{exception_code, ExceptionCode}
use employee_attendance.Requests.{TimesheetDay}
use employee_attendance.Requests.Corrections.{
  CorrectionValues, ClockAction, asks_clock_in, asks_in, gross_minutes, gross_between,
  remaining_codes, opens_day, corrected_timesheet,
}

set_of-IsCodeSet : (set codes : List ExceptionCode) → IsCodeSet set → IsCodeSet (set_of set codes)
set_of-IsCodeSet set [] h = h
set_of-IsCodeSet set (c ∷ codes) h =
    set_of-IsCodeSet (add_code c set) codes (add_code-IsCodeSet c set h)

is_empty-add_code :
    (c : ExceptionCode) (set : List ExceptionCode) → is_empty (add_code c set) ≡ false
unfolding add_code
is_empty-add_code c [] = refl
is_empty-add_code c (d ∷ set) = ground (arith)

is_empty-set_of :
    (set codes : List ExceptionCode) → is_empty set ≡ false → is_empty (set_of set codes) ≡ false
is_empty-set_of set [] h = h
is_empty-set_of set (c ∷ codes) h = is_empty-set_of (add_code c set) codes (is_empty-add_code c set)

is_empty-new_set :
    (codes : List ExceptionCode) → is_empty (sorted_codes (set_of [] codes)) ≡ is_empty codes
is_empty-new_set [] = is_empty-sorted_codes {A = ExceptionCode} []
is_empty-new_set (c ∷ codes) =
    is_empty-sorted_codes (set_of (add_code c []) codes)
    ∙ is_empty-set_of (add_code c []) codes (is_empty-add_code c [])

-- The time between the requested instants in whole minutes, less the breaks, and zero if one is missing.
abbrev pub IsWorked : CorrectionValues → TimesheetDay → ℕ → Type 0
IsWorked q t minutes =
    ((first last : ℕ)
      → q.first_clock_in_at ≡ some first
      → q.last_clock_out_at ≡ some last
      → minutes ≡ (last - first) / 60_000 - t.break_minutes)
    × (q.first_clock_in_at ≡ none → minutes ≡ 0)
    × (q.last_clock_out_at ≡ none → minutes ≡ 0)

pub gross_minutes-IsWorked :
    (q : CorrectionValues) (t : TimesheetDay) → IsWorked q t (gross_minutes q t)
unfolding gross_minutes
gross_minutes-IsWorked q t = (
  λ first last e f.
      ap (λ o. gross_between o q.last_clock_out_at t.break_minutes) e
      ∙ ap (λ o. gross_between (some first) o t.break_minutes) f,
  λ e. ap (λ o. gross_between o q.last_clock_out_at t.break_minutes) e,
  λ f.
      ap (λ o. gross_between q.first_clock_in_at o t.break_minutes) f
      ∙ ends_early q.first_clock_in_at,
)
  where
    ends_early : (o : Option ℕ) → gross_between o none t.break_minutes ≡ 0
    ends_early none = refl
    ends_early (some first) = refl

opens_day_iff :
    (q : CorrectionValues)
    → (opens_day q ≡ true) ↔ (
        (q.is_gps_exception ≡ true)
        × (q.action ≡ some asks_clock_in)
        × (is_some q.first_clock_in_at ≡ true)
        × (q.last_clock_out_at ≡ none))
opens_day_iff q =
    let last = missing_iff q.last_clock_out_at in let asks = asks_in_iff q.action in ground (arith)
  where
    asks_in_iff : (o : Option ClockAction) → (asks_in o ≡ true) ↔ (o ≡ some asks_clock_in)
    asks_in_iff o = ground (arith)

is_empty_iff : (codes : List ExceptionCode) → (is_empty codes ≡ true) ↔ (codes ≡ [])
is_empty_iff [] = ground (arith)
is_empty_iff (c ∷ codes) = ground (arith)

-- The regular minutes of a corrected timesheet are at most the threshold, overtime is counted only past
-- a full one, and together they are the whole minutes between the requested instants less the breaks, or
-- none if an instant is missing. Its codes are those of the timesheet but for a pending or a rejected GPS
-- request and an incomplete correction, with the last one anew if an instant is missing and it is not a GPS
-- request, in strict alphabetical order. It is open exactly for a GPS request to clock in that has no
-- clock-out, and complete exactly if both instants are there and no code is left.
pub corrected_timesheet_lem :
    (q : CorrectionValues) (t : TimesheetDay) (threshold : ℕ)
    → IsWorked q t (
        (corrected_timesheet q t threshold).regular_minutes
        + (corrected_timesheet q t threshold).overtime_minutes)
      × ((corrected_timesheet q t threshold).regular_minutes ≤ threshold)
      × (1 ≤ (corrected_timesheet q t threshold).overtime_minutes
          → (corrected_timesheet q t threshold).regular_minutes ≡ threshold)
      × ((c : ExceptionCode)
          → (has_code c (corrected_timesheet q t threshold).exception_codes ≡ true) ↔ IsLeft q t c)
      × IsSorted (corrected_timesheet q t threshold).exception_codes
      × (((corrected_timesheet q t threshold).state ≡ open_day) ↔ (
          (q.is_gps_exception ≡ true)
          × (q.action ≡ some asks_clock_in)
          × (is_some q.first_clock_in_at ≡ true)
          × (q.last_clock_out_at ≡ none)))
      × (((corrected_timesheet q t threshold).state ≡ complete) ↔ (
          (is_some q.first_clock_in_at ≡ true)
          × (is_some q.last_clock_out_at ≡ true)
          × ((corrected_timesheet q t threshold).exception_codes ≡ [])))
unfolding corrected_timesheet
corrected_timesheet_lem q t threshold =
    let codes = remaining_codes q t in
    let same = is_empty-new_set codes in
    let worked : min (gross_minutes q t) threshold + (gross_minutes q t - threshold)
        ≡ gross_minutes q t =
      omega arith in
    let opened = opens_day_iff q in
    let empty = is_empty_iff (sorted_codes (set_of [] codes)) in
    (
      subst (IsWorked q t) (sym worked) (gross_minutes-IsWorked q t),
      omega arith,
      λ more. omega arith,
      λ c.
          let there = has_code-sorted_codes c (set_of [] codes) ∙ has_code-set_of c [] codes in
          let left = remaining_codes_iff q t c in
          (λ h. left.0 (sym there ∙ h), λ h. there ∙ left.1 h),
      sorted_codes-IsSorted (set_of [] codes) (set_of-IsCodeSet [] codes tt),
      ground (arith),
      ground (arith),
    )
