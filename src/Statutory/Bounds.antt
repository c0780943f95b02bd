-- ===== src/Statutory/Bounds.antt =====
-- What the contributions of malaysia-statutory-contributions.ts amount to: their bounds, that they do
-- not fall as wages rise, their ceilings, and who is exempt.
use employee_attendance.Prelude.{ℕ, ◌≤◌, ◌<◌, ◌≡◌, ◌≢◌, ◌↔◌, arith, Bool, true}
use employee_attendance.Prelude.Int.{ℤ, pos, negsuc, pos_part}
use employee_attendance.Statutory.{
  EpfContributionCategory, malaysian_60_plus, SocsoContributionCategory, epf_band_ceiling_sen,
  whole_ringgit_ceiling, epf_rates, epf_scheduled, is_epf_exempt, is_socso_exempt, is_socso_first,
  socso_of_band, band_index, socso_regular_band, socso_scheduled_band, eis_scheduled,
  calculate_epf_contribution, calculate_socso_contribution, calculate_eis_contribution,
}
use employee_attendance.Statutory.Bands.{band_index_mono}

-- Both shares of EPF are at most the wages that are reported, the given ones or zero if negative.
pub epf-le-wages :
    (wages : ℤ) (category : EpfContributionCategory)
    → let c = calculate_epf_contribution wages category in
      (c.wages_sen ≡ pos_part wages)
      × (c.employee_sen ≤ c.wages_sen)
      × (c.employer_sen ≤ c.wages_sen)
unfolding calculate_epf_contribution is_epf_exempt epf_rates epf_scheduled epf_band_ceiling_sen
    whole_ringgit_ceiling
epf-le-wages (negsuc n) category = ground arith
epf-le-wages (pos n) category = ground arith

socso_regular_band_mono :
    (i j : ℕ)
    → i ≤ j
    → ((socso_regular_band i).first_employer_sen ≤ (socso_regular_band j).first_employer_sen)
      × ((socso_regular_band i).first_employee_sen ≤ (socso_regular_band j).first_employee_sen)
      × ((socso_regular_band i).second_employer_sen ≤ (socso_regular_band j).second_employer_sen)
unfolding socso_regular_band
socso_regular_band_mono i j h = ground arith

socso_regular_band_least :
    (i : ℕ)
    → (620 ≤ (socso_regular_band i).first_employer_sen)
      × (125 ≤ (socso_regular_band i).first_employee_sen)
      × (495 ≤ (socso_regular_band i).second_employer_sen)
unfolding socso_regular_band
socso_regular_band_least i = ground arith

socso_scheduled_band_mono :
    (v w : ℕ)
    → v ≤ w
    → ((socso_scheduled_band v).first_employer_sen ≤ (socso_scheduled_band w).first_employer_sen)
      × ((socso_scheduled_band v).first_employee_sen ≤ (socso_scheduled_band w).first_employee_sen)
      × ((socso_scheduled_band v).second_employer_sen
          ≤ (socso_scheduled_band w).second_employer_sen)
unfolding socso_scheduled_band
socso_scheduled_band_mono v w h = ground (
  arith,
  socso_regular_band_mono (band_index v) (band_index w) (band_index_mono v w h),
  socso_regular_band_least (band_index w),
)

-- No share of SOCSO falls as the wages rise, in any category.
pub socso_mono :
    (category : SocsoContributionCategory) (v w : ℕ)
    → v ≤ w
    → let c = calculate_socso_contribution (pos v) category in
      let d = calculate_socso_contribution (pos w) category in
      (c.employee_sen ≤ d.employee_sen) × (c.employer_sen ≤ d.employer_sen)
unfolding calculate_socso_contribution is_socso_exempt is_socso_first socso_of_band
socso_mono category v w h = ground (arith, socso_scheduled_band_mono v w h)

-- No share of EIS falls as the wages rise.
pub eis_mono :
    (eligible : Bool) (v w : ℕ)
    → v ≤ w
    → let c = calculate_eis_contribution (pos v) eligible in
      let d = calculate_eis_contribution (pos w) eligible in
      (c.employee_sen ≤ d.employee_sen) × (c.employer_sen ≤ d.employer_sen)
unfolding calculate_eis_contribution eis_scheduled
eis_mono eligible v w h = ground (arith, band_index_mono v w h)

epf_rates_employee :
    (category : EpfContributionCategory) (v w : ℕ)
    → (epf_rates category v).0 ≡ (epf_rates category w).0
unfolding epf_rates
epf_rates_employee category v w = ground arith

-- The employee's share of EPF does not fall as the wages rise.
pub epf_employee_mono :
    (category : EpfContributionCategory) (v w : ℕ)
    → v ≤ w
    → (calculate_epf_contribution (pos v) category).employee_sen
      ≤ (calculate_epf_contribution (pos w) category).employee_sen
unfolding calculate_epf_contribution epf_scheduled is_epf_exempt epf_rates epf_band_ceiling_sen
    whole_ringgit_ceiling
epf_employee_mono category v w h = ground arith

-- From RM6,000 on, SOCSO and EIS take what they take at RM6,000.
pub wage_ceiling :
    (category : SocsoContributionCategory) (eligible : Bool) (w : ℕ)
    → 600_000 ≤ w
    → let c = calculate_socso_contribution (pos w) category in
      let top = calculate_socso_contribution (pos 600_000) category in
      let e = calculate_eis_contribution (pos w) eligible in
      let most = calculate_eis_contribution (pos 600_000) eligible in
      (c.employee_sen ≡ top.employee_sen)
      × (c.employer_sen ≡ top.employer_sen)
      × (e.employee_sen ≡ most.employee_sen)
      × (e.employer_sen ≡ most.employer_sen)
unfolding calculate_socso_contribution is_socso_exempt is_socso_first socso_of_band
    socso_scheduled_band socso_regular_band band_index calculate_eis_contribution eis_scheduled
wage_ceiling category eligible w h = ground arith

socso_band_pos :
    (w : ℕ)
    → (0 < (socso_scheduled_band w).first_employer_sen)
      × (0 < (socso_scheduled_band w).second_employer_sen)
      × (0 < (socso_scheduled_band w).first_employee_sen)
unfolding socso_scheduled_band
socso_band_pos w = ground (arith, socso_regular_band_least (band_index w))

module _ (wages : ℤ) where
  epf_due :
      (category : EpfContributionCategory)
      → ((0 < (calculate_epf_contribution wages category).employer_sen)
          ↔ ((category ≢ EpfContributionCategory.exempt) × (1_000 < pos_part wages)))
        × ((0 < (calculate_epf_contribution wages category).employee_sen) ↔ (
            (category ≢ EpfContributionCategory.exempt)
            × (category ≢ malaysian_60_plus)
            × (1_000 < pos_part wages)))
  unfolding calculate_epf_contribution epf_scheduled is_epf_exempt epf_rates epf_band_ceiling_sen
      whole_ringgit_ceiling
  epf_due category = ground arith

  socso_due :
      (category : SocsoContributionCategory)
      → ((0 < (calculate_socso_contribution wages category).employer_sen)
          ↔ ((category ≢ SocsoContributionCategory.exempt) × (0 < pos_part wages)))
        × ((0 < (calculate_socso_contribution wages category).employee_sen)
            ↔ ((category ≡ SocsoContributionCategory.first) × (0 < pos_part wages)))
  unfolding calculate_socso_contribution is_socso_exempt is_socso_first socso_of_band
  socso_due category = ground (arith, socso_band_pos (pos_part wages))

  eis_due :
      (eligible : Bool)
      → ((0 < (calculate_eis_contribution wages eligible).employer_sen)
          ↔ ((eligible ≡ true) × (0 < pos_part wages)))
        × ((0 < (calculate_eis_contribution wages eligible).employee_sen)
            ↔ ((eligible ≡ true) × (0 < pos_part wages)))
  unfolding calculate_eis_contribution eis_scheduled
  eis_due eligible = ground arith

-- The employer pays EPF exactly outside the exempt category and above RM10, and the employee on the same
-- wages but for a Malaysian of 60 or more; the employer pays SOCSO exactly outside its exempt category on
-- positive wages, and the employee exactly in the first category on positive wages; and both pay EIS
-- exactly if the employee is eligible, on positive wages.
pub due_iff :
    (wages : ℤ) (category : EpfContributionCategory) (socso : SocsoContributionCategory)
    (eligible : Bool)
    → ((0 < (calculate_epf_contribution wages category).employer_sen)
        ↔ ((category ≢ EpfContributionCategory.exempt) × (1_000 < pos_part wages)))
      × ((0 < (calculate_epf_contribution wages category).employee_sen) ↔ (
          (category ≢ EpfContributionCategory.exempt)
          × (category ≢ malaysian_60_plus)
          × (1_000 < pos_part wages)))
      × ((0 < (calculate_socso_contribution wages socso).employer_sen)
          ↔ ((socso ≢ SocsoContributionCategory.exempt) × (0 < pos_part wages)))
      × ((0 < (calculate_socso_contribution wages socso).employee_sen)
          ↔ ((socso ≡ SocsoContributionCategory.first) × (0 < pos_part wages)))
      × ((0 < (calculate_eis_contribution wages eligible).employer_sen)
          ↔ ((eligible ≡ true) × (0 < pos_part wages)))
      × ((0 < (calculate_eis_contribution wages eligible).employee_sen)
          ↔ ((eligible ≡ true) × (0 < pos_part wages)))
due_iff wages category socso eligible =
    let (epf_employer, epf_employee) = epf_due wages category in
    let (socso_employer, socso_employee) = socso_due wages socso in
    let (eis_employer, eis_employee) = eis_due wages eligible in
    (epf_employer, epf_employee, socso_employer, socso_employee, eis_employer, eis_employee)
