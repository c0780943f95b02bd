-- ===== src/Statutory/Bands.antt =====
-- The wage bands of malaysia-statutory-contributions.ts: ceilings, and where the quotients are whole.
use employee_attendance.Prelude.{ℕ, ◌+◌, ◌*◌, ◌%◌, ◌≤◌, ◌<◌, ◌≡◌, arith}
use employee_attendance.Statutory.{
  EpfContributionCategory, standard_under_60, epf_band_ceiling_sen, whole_ringgit_ceiling,
  epf_rates, band_index,
}

-- The scheduled wages are the upper end of the band that the wages fall in.
pub epf_band_ceiling_sen_bounds :
    (wages : ℕ)
    → (wages ≤ epf_band_ceiling_sen wages)
      × (epf_band_ceiling_sen wages < wages + 10_000)
      × (wages ≤ 500_000 → epf_band_ceiling_sen wages < wages + 2_000)
      × (epf_band_ceiling_sen wages % 2_000 ≡ 0)
unfolding epf_band_ceiling_sen
epf_band_ceiling_sen_bounds wages = ground arith

-- In every category the scheduled wages times either rate are a multiple of 10,000, by which the
-- products are divided.
pub epf_products_whole :
    (category : EpfContributionCategory) (wages : ℕ)
    → ((epf_band_ceiling_sen wages * (epf_rates category wages).0) % 10_000 ≡ 0)
      × ((epf_band_ceiling_sen wages * (epf_rates category wages).1) % 10_000 ≡ 0)
unfolding epf_band_ceiling_sen epf_rates
epf_products_whole standard_under_60 wages = ground arith
epf_products_whole _ wages = ground arith

pub band_index_bounds : (wages : ℕ) → band_index wages ≤ 57
unfolding band_index
band_index_bounds wages = omega arith

pub band_index_mono : (v w : ℕ) → v ≤ w → band_index v ≤ band_index w
unfolding band_index
band_index_mono v w h = omega arith

pub whole_ringgit_ceiling_bounds :
    (scheduled bps : ℕ)
    → (scheduled * bps ≤ whole_ringgit_ceiling scheduled bps * 10_000)
      × (whole_ringgit_ceiling scheduled bps * 10_000 < scheduled * bps + 1_000_000)
      × (whole_ringgit_ceiling scheduled bps % 100 ≡ 0)
unfolding whole_ringgit_ceiling
whole_ringgit_ceiling_bounds scheduled bps = omega arith
