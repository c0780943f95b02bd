-- ===== src/Calendar/Ranges.antt =====
-- The loop that lists the days of a range: its length, its bounds, that it skips no day, and that the
-- fuel is enough.
use employee_attendance.Prelude.{
  ℕ, zero, suc, ◌+◌, ◌-◌, ◌≤◌, ◌<◌, ◌≡◌, refl, sym, ap, ◌∙◌, Bool, true, false, if◌then◌else◌,
  Bool-cases, inl, inr, List, [], ◌∷◌, arith, length, All, any,
}
use mathlib.Core.Path.{subst}
use employee_attendance.Calendar.{
  Day, day_le, ordinal, next_day, day_eq, days_from, enumerate_dates,
}
use employee_attendance.Calendar.Ordinals.{
  IsDate, next_day-IsDate, ordinal-next_day, day_le_iff, day_eq_of_ordinal, ordinal-day_eq,
}

-- A valid date in the range.
abbrev pub IsWithin : Day → Day → Day → Type 0
IsWithin start last d = IsDate d × (ordinal start ≤ ordinal d) × (ordinal d ≤ ordinal last)

-- No day stands twice.
abbrev pub AreDistinct : List Day → Type 0
AreDistinct [] = Unit
AreDistinct (d ∷ ds) = (any (λ e. day_eq e d) ds ≡ false) × AreDistinct ds

later_days :
    (start last d : Day) (ds : List Day)
    → ordinal d < ordinal start
    → All (IsWithin start last) ds
    → any (λ e. day_eq e d) ds ≡ false
later_days start last d [] h _ = refl
later_days start last d (e ∷ ds) h (within, rest) =
    ground (arith, ordinal-day_eq e d, later_days start last d ds h rest)

abbrev next_days : Day → List Day → Bool → List Day
next_days c rest more = if more then c ∷ rest else []

module _ (last : Day) (w : IsDate last) where
  days_from_empty :
      (fuel : ℕ) (c : Day) → IsDate c → ordinal last < ordinal c → days_from fuel c last ≡ []
  unfolding days_from
  days_from_empty zero c v h = refl
  days_from_empty (suc fuel) c v h = ground (arith, (day_le_iff c last v w).0)

  -- One round more for each day that is left; the rounds beyond those are not run.
  pub length-days_from :
      (fuel : ℕ) (c : Day)
      → IsDate c
      → ordinal last + 1 ≤ ordinal c + fuel
      → length (days_from fuel c last) ≡ ordinal last + 1 - ordinal c
  unfolding days_from
  length-days_from zero c v h = omega arith
  length-days_from (suc fuel) c v h = ground (
    arith,
    day_le_iff c last v w,
    ordinal-next_day c v,
    length-days_from fuel (next_day c) (next_day-IsDate c v),
  )

  pub days_from-IsWithin :
      (fuel : ℕ) (start c : Day)
      → IsDate c
      → ordinal start ≤ ordinal c
      → All (IsWithin start last) (days_from fuel c last)
  unfolding days_from
  days_from-IsWithin zero start c v h = tt
  days_from-IsWithin (suc fuel) start c v h = ground (
    arith,
    day_le_iff c last v w,
    ordinal-next_day c v,
    days_from-IsWithin fuel start (next_day c) (next_day-IsDate c v),
  )

  -- Every date from the cursor on is listed.
  days_from-any :
      (fuel : ℕ) (c d : Day)
      → IsDate c
      → IsDate d
      → ordinal c ≤ ordinal d
      → ordinal d ≤ ordinal last
      → ordinal last + 1 ≤ ordinal c + fuel
      → any (day_eq d) (days_from fuel c last) ≡ true
  unfolding days_from
  days_from-any zero c d v u h k f = absurd (omega arith)
  days_from-any (suc fuel) c d v u h k f = ground (
    arith,
    day_le_iff c last v w,
    ordinal-next_day c v,
    day_eq_of_ordinal d c u v,
    days_from-any fuel (next_day c) d (next_day-IsDate c v),
  )

  days_from-AreDistinct : (fuel : ℕ) (c : Day) → IsDate c → AreDistinct (days_from fuel c last)
  unfolding days_from
  days_from-AreDistinct zero c v = tt
  days_from-AreDistinct (suc fuel) c v =
      let next = next_day-IsDate c v in
      let rest = days_from-AreDistinct fuel (next_day c) next in
      let after =
        later_days (next_day c) last c (days_from fuel (next_day c) last)
          (omega (arith, ordinal-next_day c v))
          (days_from-IsWithin fuel (next_day c) (next_day c) next (omega arith)) in
      elim (Bool-cases (day_le c last)) [
        | inl more ↦
            subst AreDistinct (sym (ap (next_days c (days_from fuel (next_day c) last)) more))
              (after, rest)
        | inr done ↦
            subst AreDistinct (sym (ap (next_days c (days_from fuel (next_day c) last)) done)) tt
      ]

  -- With enough fuel, more of it changes nothing.
  days_from-more :
      (fuel more : ℕ) (c : Day)
      → IsDate c
      → ordinal last + 1 ≤ ordinal c + fuel
      → days_from (fuel + more) c last ≡ days_from fuel c last
  unfolding days_from
  days_from-more zero more c v h =
      let none_left : 0 + more ≡ more = omega arith in
      ap (λ n. days_from n c last) none_left ∙ days_from_empty more c v (omega arith)
  days_from-more (suc fuel) more c v h =
      let one : suc fuel + more ≡ suc (fuel + more) = omega arith in
      ap (λ n. days_from n c last) one
      ∙ ap (λ ds. next_days c ds (day_le c last))
          (days_from-more fuel more (next_day c) (next_day-IsDate c v)
            (omega (arith, ordinal-next_day c v)))

-- The loop ends within the rounds that it is given: between valid dates, in whatever order, any number
-- of further rounds lists the same days.
pub enumerate_dates-ends :
    (start last : Day) (more : ℕ)
    → IsDate start
    → IsDate last
    → days_from (ordinal last + 1 - ordinal start + more) start last ≡ enumerate_dates start last
unfolding enumerate_dates
enumerate_dates-ends start last more v w =
    days_from-more last w (ordinal last + 1 - ordinal start) more start v (omega arith)

-- No day of a range is listed twice.
pub enumerate_dates-AreDistinct :
    (start last : Day) → IsDate start → IsDate last → AreDistinct (enumerate_dates start last)
unfolding enumerate_dates
enumerate_dates-AreDistinct start last v w =
    days_from-AreDistinct last w (ordinal last + 1 - ordinal start) start v

-- Between valid dates the loop lists as many days as the range has, all of them in the range, and
-- every date of the range.
pub enumerate_dates_lem :
    (start last : Day)
    → IsDate start
    → IsDate last
    → (length (enumerate_dates start last) ≡ ordinal last + 1 - ordinal start)
      × All (IsWithin start last) (enumerate_dates start last)
      × ((d : Day) → IsWithin start last d → any (day_eq d) (enumerate_dates start last) ≡ true)
unfolding enumerate_dates
enumerate_dates_lem start last v w =
    let fuel = ordinal last + 1 - ordinal start in
    (
      length-days_from last w fuel start v (omega arith),
      days_from-IsWithin last w fuel start start v (omega arith),
      λ d h. days_from-any last w fuel start d v h.0 h.1 h.2 (omega arith),
    )
