-- ===== src/Statutory.antt =====
-- apps/api/src/services/malaysia-statutory-contributions.ts: the contributions to EPF, SOCSO and EIS,
-- in sen. Wages come as whole numbers of sen, at which `Math.round` is the identity; the quotients
-- that are rounded are written as exact ones (`Statutory.Bands` has where they are whole).
pub mod Bands
pub mod Bounds
use employee_attendance.Prelude.{
  ℕ, ◌+◌, ◌*◌, ◌-◌, ◌/◌, ◌%◌, Bool, true, false, not, ◌||◌, Option, none, some, List, [], ◌∷◌, ◌==◌,
  leb, ltb, if◌then◌else◌, find, min,
}
use employee_attendance.Prelude.Int.{ℤ, pos_part}

pub data EpfContributionCategory : Type 0 where
  standard_under_60 pr_or_pre_1998_60_plus malaysian_60_plus non_malaysian exempt :
      EpfContributionCategory

pub data SocsoContributionCategory : Type 0 where
  first second exempt : SocsoContributionCategory

pub record StatutoryContribution : Type 0 where
  pub wages_sen : ℕ
  pub employee_sen : ℕ
  pub employer_sen : ℕ

pub record StatutoryContributionResult : Type 0 where
  pub epf : StatutoryContribution
  pub socso : StatutoryContribution
  pub eis : StatutoryContribution
  pub employee_total_sen : ℕ
  pub employer_total_sen : ℕ

-- `Math.ceil(a / b)`
abbrev pub ceil_div : ℕ → ℕ → ℕ
ceil_div a b = (a + b - 1) / b

-- `Math.round(a / b)`
abbrev pub round_div : ℕ → ℕ → ℕ
round_div a b = (2 * a + b) / (2 * b)

-- `Math.max(0, Math.round(wagesSen))`
abbrev pub clean_wages : ℤ → ℕ
clean_wages = pos_part

abbrev pub contribution : ℕ → ℕ → ℕ → StatutoryContribution
contribution wages employee employer = record {
  wages_sen = wages;
  employee_sen = employee;
  employer_sen = employer;
}

abbrev pub empty_contribution : ℕ → StatutoryContribution
empty_contribution wages = contribution wages 0 0

unfoldable pub epf_band_ceiling_sen : ℕ → ℕ
epf_band_ceiling_sen wages =
    if leb wages 500_000 then ceil_div wages 2_000 * 2_000 else ceil_div wages 10_000 * 10_000

-- `wholeRinggitCeiling(scheduled * bps / 10_000)`
unfoldable pub whole_ringgit_ceiling : ℕ → ℕ → ℕ
whole_ringgit_ceiling scheduled bps = ceil_div (scheduled * bps) 1_000_000 * 100

-- The employee's and the employer's rate in basis points: the `switch`.
unfoldable pub epf_rates : EpfContributionCategory → ℕ → ℕ × ℕ
epf_rates standard_under_60 wages = (1_100, (if leb wages 500_000 then 1_300 else 1_200))
epf_rates pr_or_pre_1998_60_plus wages = (550, (if leb wages 500_000 then 650 else 600))
epf_rates malaysian_60_plus wages = (0, 400)
epf_rates non_malaysian wages = (200, 200)
epf_rates exempt wages = (0, 0)

unfoldable pub is_epf_exempt : EpfContributionCategory → Bool
is_epf_exempt exempt = true
is_epf_exempt _ = false

unfoldable pub epf_scheduled : ℕ → ℕ × ℕ → StatutoryContribution
epf_scheduled wages (employee_bps, employer_bps) =
    if ltb 2_000_000 wages
    then contribution wages (round_div (wages * employee_bps) 10_000)
        (round_div (wages * employer_bps) 10_000)
    else contribution wages (whole_ringgit_ceiling (epf_band_ceiling_sen wages) employee_bps)
        (whole_ringgit_ceiling (epf_band_ceiling_sen wages) employer_bps)

-- `calculateEpfContribution`
unfoldable pub calculate_epf_contribution : ℤ → EpfContributionCategory → StatutoryContribution
calculate_epf_contribution wages_sen category =
    let wages = clean_wages wages_sen in
    if is_epf_exempt category || leb wages 1_000
    then empty_contribution wages
    else epf_scheduled wages (epf_rates category wages)

pub record SocsoBand : Type 0 where
  pub first_employer_sen : ℕ
  pub first_employee_sen : ℕ
  pub second_employer_sen : ℕ

abbrev pub socso_band : ℕ → ℕ → ℕ → SocsoBand
socso_band a b c = record {
  first_employer_sen = a;
  first_employee_sen = b;
  second_employer_sen = c;
}

-- `socsoSpecialBands`, each with its upper wage.
abbrev socso_special_bands : List (ℕ × SocsoBand)
socso_special_bands =
    (3_000, socso_band 60 10 50)
    ∷ (5_000, socso_band 100 20 80)
    ∷ (7_000, socso_band 160 30 130)
    ∷ (10_000, socso_band 215 40 175)
    ∷ (14_000, socso_band 300 60 240)
    ∷ (20_000, socso_band 420 85 335)
    ∷ []

-- The index of the band of RM100 above RM200; reached only with wages above 20,000 sen.
unfoldable pub band_index : ℕ → ℕ
band_index wages = min 57 (ceil_div (min wages 600_000 - 20_000) 10_000 - 1)

unfoldable pub socso_regular_band : ℕ → SocsoBand
socso_regular_band index =
    let pair = index / 2 in
    let odd = index % 2 == 1 in
    let injury = 185 + pair * 150 + (if odd then 80 else 0) in
    socso_band (435 + pair * 350 + (if odd then 180 else 0) + injury) (125 + index * 50)
      (310 + pair * 250 + (if odd then 130 else 0) + injury)

abbrev pub band_or {ℓ} : {A : Type ℓ} → Option (ℕ × A) → A → A
band_or none regular = regular
band_or (some (upper, band)) regular = band

-- `socsoScheduledBand`
unfoldable pub socso_scheduled_band : ℕ → SocsoBand
socso_scheduled_band wages =
    band_or (find (λ band. leb wages band.0) socso_special_bands)
      (socso_regular_band (band_index wages))

unfoldable pub is_socso_exempt : SocsoContributionCategory → Bool
is_socso_exempt exempt = true
is_socso_exempt _ = false

unfoldable pub is_socso_first : SocsoContributionCategory → Bool
is_socso_first first = true
is_socso_first _ = false

unfoldable pub socso_of_band : SocsoContributionCategory → ℕ → SocsoBand → StatutoryContribution
socso_of_band category wages band =
    if is_socso_first category
    then contribution wages band.first_employee_sen band.first_employer_sen
    else contribution wages 0 band.second_employer_sen

-- `calculateSocsoContribution`
unfoldable pub calculate_socso_contribution : ℤ → SocsoContributionCategory → StatutoryContribution
calculate_socso_contribution wages_sen category =
    let wages = clean_wages wages_sen in
    if is_socso_exempt category || wages == 0
    then empty_contribution wages
    else socso_of_band category wages (socso_scheduled_band wages)

abbrev eis_special_bands : List (ℕ × ℕ)
eis_special_bands =
    (3_000, 5) ∷ (5_000, 10) ∷ (7_000, 10) ∷ (10_000, 20) ∷ (14_000, 20) ∷ (20_000, 30) ∷ []

unfoldable pub eis_scheduled : ℕ → ℕ
eis_scheduled wages =
    band_or (find (λ band. leb wages band.0) eis_special_bands) (50 + band_index wages * 20)

-- `calculateEisContribution`
unfoldable pub calculate_eis_contribution : ℤ → Bool → StatutoryContribution
calculate_eis_contribution wages_sen eligible =
    let wages = clean_wages wages_sen in
    if not eligible || wages == 0
    then empty_contribution wages
    else contribution wages (eis_scheduled wages) (eis_scheduled wages)

-- `calculateMalaysiaStatutoryContributions`
unfoldable pub calculate_malaysia_statutory_contributions :
    (epf_wages socso_wages eis_wages : ℤ)
    → EpfContributionCategory
    → SocsoContributionCategory
    → Bool
    → StatutoryContributionResult
calculate_malaysia_statutory_contributions epf_wages socso_wages eis_wages epf_category
      socso_category eligible =
    let epf = calculate_epf_contribution epf_wages epf_category in
    let socso = calculate_socso_contribution socso_wages socso_category in
    let eis = calculate_eis_contribution eis_wages eligible in
    record {
      epf = epf;
      socso = socso;
      eis = eis;
      employee_total_sen = epf.employee_sen + socso.employee_sen + eis.employee_sen;
      employer_total_sen = epf.employer_sen + socso.employer_sen + eis.employer_sen;
    }
